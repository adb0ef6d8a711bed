-- ===== src/Authjwt/Token.antt =====
-- authjwt/validator.go: Validate and audienceMatch. The claims are a JSON object.
use platform_kit.Common.{
  ℕ, Bool, false, ◌&&◌, not, Option, none, some, List, [], ◌∷◌, any, if◌then◌else◌, Str, lit,
  str_eq, is_empty, lookup,
}
use platform_kit.Common.Json.{Json, null, bool, num, str, arr, obj, items, Fields, fields}
use platform_kit.Authjwt.{Config, Remote, State, Keyed, unexpected_method, key_for_kid}

-- uuid.UUID, as a number of 128 bits; uuid.Nil is 0.
abbrev pub Uuid : Type 0
Uuid = ℕ

pub record Claims : Type 0 where
  pub user_id : Uuid
  pub organization_id : Uuid
  pub email : Str
  pub scopes : List Str
  pub platform_admin : Bool
  pub raw : Fields

-- The part of an unverified jwt.Token that the key function reads: whether its method is RSA, and the
-- header's kid, if that is a string.
pub record Unverified : Type 0 where
  pub rsa : Bool
  pub kid : Option Str

-- What jwt.Parse returns: an error, or the token's Valid flag and its map claims, if they are one.
pub data Parsed : Type 0 where
  parse_error : Parsed
  parsed : (valid : Bool) → Option Fields → Parsed

abbrev pub Keyfunc : Type 0
Keyfunc = Unverified → State → Keyed × State

-- golang-jwt's Parse with the three RSA methods allowed, and uuid.Parse.
pub record Jwt : Type 0 where
  pub parse : Str → Keyfunc → State → Parsed × State
  pub parse_uuid : Str → Option Uuid

pub data Validated : Type 0 where
  accepted : Claims → Validated
  empty_token : Validated
  unparsed : Validated
  not_valid : Validated
  wrong_issuer : Validated
  audience_mismatch : Validated

-- v.(string), "" when it is not one.
abbrev pub as_string : Option Json → Str
as_string none = []
as_string (some null) = []
as_string (some (bool b)) = []
as_string (some (num x)) = []
as_string (some (str s)) = s
as_string (some (arr xs)) = []
as_string (some (obj fs)) = []

abbrev pub one_of : List Str → Str → Bool
one_of allowed s = any (λ a. str_eq a s) allowed

unfoldable pub audience_match : Option Json → List Str → Bool
audience_match none allowed = false
audience_match (some null) allowed = false
audience_match (some (bool b)) allowed = false
audience_match (some (num x)) allowed = false
audience_match (some (str s)) allowed = one_of allowed s
audience_match (some (arr xs)) allowed = any (λ v. one_of allowed (as_string (some v))) (items xs)
audience_match (some (obj fs)) allowed = false

abbrev strings : List Json → List Str
strings [] = []
strings (str s ∷ vs) = s ∷ strings vs
strings (null ∷ vs) = strings vs
strings (bool b ∷ vs) = strings vs
strings (num x ∷ vs) = strings vs
strings (arr xs ∷ vs) = strings vs
strings (obj fs ∷ vs) = strings vs

abbrev scopes_of : Option Json → List Str
scopes_of none = []
scopes_of (some null) = []
scopes_of (some (bool b)) = []
scopes_of (some (num x)) = []
scopes_of (some (str s)) = []
scopes_of (some (arr xs)) = strings (items xs)
scopes_of (some (obj fs)) = []

abbrev is_true : Option Json → Bool
is_true none = false
is_true (some null) = false
is_true (some (bool b)) = b
is_true (some (num x)) = false
is_true (some (str s)) = false
is_true (some (arr xs)) = false
is_true (some (obj fs)) = false

module _ (c : Config) (remote : Remote) (jwt : Jwt) where
  -- The key function given to jwt.Parse.
  unfoldable pub keyfunc : ℕ → Keyfunc
  unfolding key_for_kid
  keyfunc now t s =
      if t.rsa
      then key_for_kid c remote (elim t.kid [ none ↦ [] | some k ↦ k ]) now s
      else (unexpected_method, s)

  abbrev uuid_of : Str → Uuid
  uuid_of s = if is_empty s then 0 else (elim (jwt.parse_uuid s) [ none ↦ 0 | some id ↦ id ])

  -- The claims that Validate extracts.
  unfoldable pub extract : Fields → Claims
  extract raw = record {
    user_id = uuid_of (as_string (lookup (lit "sub") (fields raw)));
    organization_id = uuid_of (as_string (lookup (lit "organization_id") (fields raw)));
    email = as_string (lookup (lit "email") (fields raw));
    scopes = scopes_of (lookup (lit "scopes") (fields raw));
    platform_admin = is_true (lookup (lit "platform_admin") (fields raw));
    raw = raw;
  }

  abbrev pub check_claims : Fields → Validated
  check_claims raw =
      if not (is_empty c.issuer)
        && not (str_eq (as_string (lookup (lit "iss") (fields raw))) c.issuer)
      then wrong_issuer
      else if not (is_empty c.audiences)
          && not (audience_match (lookup (lit "aud") (fields raw)) c.audiences)
      then audience_mismatch
      else accepted (extract raw)

  abbrev pub after_parse : Parsed → Validated
  after_parse parse_error = unparsed
  after_parse (parsed valid none) = not_valid
  after_parse (parsed valid (some raw)) = if valid then check_claims raw else not_valid

  unfoldable pub validate : Str → ℕ → State → Validated × State
  unfolding keyfunc extract audience_match
  validate token now s =
      if is_empty token
      then (empty_token, s)
      else (let (p, s') = jwt.parse token (keyfunc now) s in (after_parse p, s'))
