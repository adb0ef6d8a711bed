-- ===== src/Authjwt.antt =====
-- authjwt/validator.go: the JWT validator with its cache of the identity service's keys. golang-jwt's
-- Parse, uuid.Parse, base64, the decoding of the key document and the HTTP exchange are parameters.
-- The clock does not run backwards; a time is its number of nanoseconds. A call reads it once before its request.
pub mod Keys
pub mod Cache
pub mod Token
pub mod Laws
use platform_kit.Common.{
  ℕ, suc, ◌+◌, ◌-◌, ◌*◌, ◌^◌, ◌%◌, ◌<◌, Bool, true, false, ◌&&◌, ◌||◌, not, Option, none, some,
  List, [], ◌∷◌, ltb, leb, any, if◌then◌else◌, Str, lit, str_eq, is_empty, Dict, lookup, insert, ℤ,
  pos, negsuc, is_zero, ltb_ℤ, since,
}
use platform_kit.Common.Json.{Json, null, bool, num, str, arr, obj, items, Fields, fields}

pub record Config : Type 0 where
  pub jwks_url : Str
  pub issuer : Str
  pub audiences : List Str
  pub cache_ttl : ℤ

-- rsa.PublicKey
pub record PublicKey : Type 0 where
  pub modulus : ℕ
  pub exponent : ℤ

-- A key of the document.
pub record Jwk : Type 0 where
  pub kid : Str
  pub kty : Str
  pub n : Str
  pub e : Str

pub data RefreshError : Type 0 where
  bad_request : RefreshError
  fetch_failed : RefreshError
  jwks_status : ℕ → RefreshError
  parse_failed : RefreshError
  no_usable_keys : RefreshError

-- How one request for the document ended; `finished` is the time after it.
pub data Exchange : Type 0 where
  not_built : Exchange
  no_response : Exchange
  response : (status : ℕ) → (body : Str) → (finished : ℕ) → Exchange

-- `exchange i` is the outcome of request i, counted from 0.
pub record Remote : Type 0 where
  pub exchange : ℕ → Exchange
  pub parse_jwks : Str → Option (List Jwk)
  pub decode_base64 : Str → Option Str

-- The validator's fields that change, and the requests made; `none` is the zero time and the nil error.
pub record State : Type 0 where
  pub keys : Dict PublicKey
  pub fetched : Option ℕ
  pub fetch_err : Option RefreshError
  pub requests : ℕ

-- New; a missing URL is its error. 600 seconds are the default.
unfoldable pub new_validator : Config → Option (Config × State)
new_validator c =
    if is_empty c.jwks_url
    then none
    else some (
      record c { cache_ttl = if is_zero c.cache_ttl then pos (600 * 10 ^ 9) else c.cache_ttl },
      record { keys = []; fetched = none; fetch_err = none; requests = 0 },
    )

-- big.Int.SetBytes: big-endian.
abbrev pub set_bytes : ℕ → Str → ℕ
set_bytes acc [] = acc
set_bytes acc (b ∷ bs) = set_bytes (acc * 256 + b) bs

-- int(x.Int64()): the low 64 bits as a signed number.
abbrev pub int64 : ℕ → ℤ
int64 x = let low = x % 2 ^ 64 in if ltb low (2 ^ 63) then pos low else negsuc (2 ^ 64 - suc low)

-- keyForKid's result, and the refusal of the key function that calls it.
pub data Keyed : Type 0 where
  key : PublicKey → Keyed
  unknown_kid : Str → Keyed
  refresh_failed : RefreshError → Keyed
  unexpected_method : Keyed

-- What does not decode is skipped.
abbrev pub add_key : Str → Option Str → Option Str → Dict PublicKey → Dict PublicKey
add_key kid none e keys = keys
add_key kid (some n) none keys = keys
add_key kid (some n) (some e) keys =
    insert kid (record { modulus = set_bytes 0 n; exponent = int64 (set_bytes 0 e) }) keys

abbrev pub store : Dict PublicKey → ℕ → State → Option RefreshError × State
store keys finished s =
    if is_empty keys
    then (some no_usable_keys, s)
    else (none, record s { keys = keys; fetched = some finished; fetch_err = none })

-- Any key serves a token without a kid.
abbrev pub any_key : Str → Dict PublicKey → Keyed
any_key kid [] = unknown_kid kid
any_key kid ((j, k) ∷ keys) = if is_empty kid then key k else unknown_kid kid

abbrev pub find_key : Str → Dict PublicKey → Option PublicKey → Keyed
find_key kid keys none = any_key kid keys
find_key kid keys (some k) = key k

module _ (c : Config) (remote : Remote) where
  -- time.Since(v.fetched) < v.cfg.CacheTTL
  unfoldable pub is_recent : ℕ → State → Bool
  is_recent now s = ltb_ℤ (pos (since now s.fetched)) c.cache_ttl

  -- The loop over the document's keys: what is not RSA is skipped.
  unfoldable pub usable_keys : List Jwk → Dict PublicKey → Dict PublicKey
  usable_keys [] keys = keys
  usable_keys (k ∷ ks) keys = usable_keys ks (
      if str_eq k.kty (lit "RSA")
      then add_key k.kid (remote.decode_base64 k.n) (remote.decode_base64 k.e) keys
      else keys)

  abbrev pub read_document : Option (List Jwk) → ℕ → State → Option RefreshError × State
  read_document none finished s = (some parse_failed, s)
  read_document (some ks) finished s = store (usable_keys ks []) finished s

  abbrev pub read_exchange : Exchange → State → Option RefreshError × State
  read_exchange not_built s = (some bad_request, s)
  read_exchange no_response s = (some fetch_failed, s)
  read_exchange (response status body finished) s =
      if leb 300 status
      then (some (jwks_status status), s)
      else read_document (remote.parse_jwks body) finished s

  -- refresh, from the recheck on: the single-flight lock makes it one step. A request that could not be
  -- built counts as one of the remote's outcomes.
  unfoldable pub refresh : ℕ → State → Option RefreshError × State
  unfolding is_recent usable_keys
  refresh now s =
      if is_recent now s && not (is_empty s.keys)
      then (s.fetch_err, s)
      else read_exchange (remote.exchange s.requests) (record s { requests = suc s.requests })

  abbrev pub after_refresh : Str → Option RefreshError × State → Keyed × State
  after_refresh kid (none, s) = (find_key kid s.keys (lookup kid s.keys), s)
  after_refresh kid (some e, s) = (refresh_failed e, s)

  abbrev pub cached_or : Str → ℕ → State → Option PublicKey → Keyed × State
  cached_or kid now s none = after_refresh kid (refresh now s)
  cached_or kid now s (some k) =
      if is_recent now s then (key k, s) else after_refresh kid (refresh now s)

  unfoldable pub key_for_kid : Str → ℕ → State → Keyed × State
  unfolding refresh
  key_for_kid kid now s = cached_or kid now s (lookup kid s.keys)
