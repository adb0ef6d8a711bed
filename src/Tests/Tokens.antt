-- ===== src/Tests/Tokens.antt =====
-- A validator with one cached key, and a service that has rotated its keys.
use platform_kit.Common.{
  true, none, some, [], ◌∷◌, ◌≡◌, ◌⊎◌, refl, Str, lit, str_eq, pos, lookup, insert, if◌then◌else◌,
  Bool-cases, inl, inr,
}
use platform_kit.Common.Json.{str, Fields, end, field}
use platform_kit.Authjwt.{
  Config, PublicKey, Jwk, response, Remote, State, Keyed, key, unknown_kid, refresh_failed,
  unexpected_method, key_for_kid, is_recent,
}
use platform_kit.Authjwt.Keys.{HasKey, FromDocument}
use platform_kit.Authjwt.Cache.{key_for_kid_rotated}
use platform_kit.Authjwt.Token.{
  Jwt, Unverified, Parsed, parse_error, parsed, accepted, validate, extract,
}
use platform_kit.Authjwt.Laws.{JwtLaws, Checked, validate_sound}

abbrev config : Config
config = record {
  jwks_url = lit "http://identity";
  issuer = lit "identity";
  audiences = lit "api" ∷ [];
  cache_ttl = pos 600;
}

abbrev rotated : Jwk
rotated = record { kid = lit "k2"; kty = lit "RSA"; n = lit "N"; e = lit "A" }

abbrev remote : Remote
remote = record {
  exchange = λ i. response 200 (lit "{}") 5;
  parse_jwks = λ body. some (rotated ∷ []);
  decode_base64 = λ t. some t;
}

abbrev old_key : PublicKey
old_key = record { modulus = 77; exponent = pos 3 }

abbrev cached : State
cached = record {
  keys = (lit "k1", old_key) ∷ [];
  fetched = some 1000;
  fetch_err = none;
  requests = 1;
}

abbrev payload : Fields
payload = field (lit "iss") (str (lit "identity")) (field (lit "aud") (str (lit "api")) end)

-- A token is the modulus of the key that signs it.
abbrev verify : Str → Keyed × State → Parsed × State
verify token (key k, s) =
    (if str_eq token (k.modulus ∷ []) then parsed true (some payload) else parse_error, s)
verify token (unknown_kid kid, s) = (parse_error, s)
verify token (refresh_failed e, s) = (parse_error, s)
verify token (unexpected_method, s) = (parse_error, s)

abbrev header : Unverified
header = record { rsa = true; kid = some (lit "k1") }

abbrev jwt : Jwt
jwt = record { parse = λ token kf s. verify token (kf header s); parse_uuid = λ t. none }

abbrev Verified : Str → Fields → PublicKey → Type 0
Verified token raw k = str_eq token (k.modulus ∷ []) ≡ true

verify_sound :
    (token : Str) (r : Keyed × State) (raw : Fields) (s' : State)
    → verify token r ≡ (parsed true (some raw), s')
    → (k : PublicKey) × (r ≡ (key k, s')) × Verified token raw k
verify_sound token (key k, s) raw s' h = elim (Bool-cases (str_eq token (k.modulus ∷ []))) [
  | inl t ↦
      let h' : ◌≡◌ {A = Parsed × State} (parsed true (some payload), s)
          (parsed true (some raw), s') =
        rw t at h in
      let e : s ≡ s' = cc in (k, rw e refl, t)
  | inr f ↦
      let h' : ◌≡◌ {A = Parsed × State} (parse_error, s) (parsed true (some raw), s') = rw f at h in
      cc
]
verify_sound token (unknown_kid kid, s) raw s' h = cc
verify_sound token (refresh_failed e, s) raw s' h = cc
verify_sound token (unexpected_method, s) raw s' h = cc

jwt_laws : JwtLaws jwt Verified
jwt_laws = record {
  verified = λ token kf s raw s' h.
      let (k, e, v) = verify_sound token (kf header s) raw s' h in (header, k, e, v);
}

accepts :
    validate config remote jwt (77 ∷ []) 1500 cached
    ≡ (accepted (extract config remote jwt payload), cached)
unfolding validate str_eq lookup
accepts = refl

validate_sound_example :
    (raw : Fields) × Checked config remote jwt raw (extract config remote jwt payload)
    × ((k : PublicKey) × Verified (77 ∷ []) raw k
        × (((cached ≡ cached) × (is_recent config remote 1500 cached ≡ true) × HasKey k cached.keys)
            ⊎ FromDocument config remote k
                (remote.exchange 1)
                (record cached { requests = 2 })
                cached))
validate_sound_example =
    validate_sound config remote jwt jwt_laws (77 ∷ []) 1500 cached cached
      (extract config remote jwt payload) accepts

key_for_kid_rotated_example :
    key_for_kid config remote (lit "k2") 1500 cached ≡ (unknown_kid (lit "k2"), cached)
unfolding is_recent lookup str_eq
key_for_kid_rotated_example =
    key_for_kid_rotated config remote (lit "k2") 1500 cached refl refl refl refl refl

-- Past the lifetime the key is found, by one request.
found_later : (key_for_kid config remote (lit "k2") 1600 cached).1.requests ≡ 2
unfolding key_for_kid lookup insert str_eq
found_later = refl
