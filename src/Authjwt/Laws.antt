-- ===== src/Authjwt/Laws.antt =====
-- authjwt/validator.go: Validate.
use platform_kit.Common.{
  ℕ, suc, Bool, true, false, ◌&&◌, not, Option, none, some, List, [], any-In, if-both, Str, lit,
  str_eq, str_eq_iff, is_empty, lookup, ◌≡◌, ◌⊎◌, inl, inr, In, refl, sym, Bool-cases,
}
use platform_kit.Common.Json.{Json, null, bool, num, str, arr, obj, items, Items, Fields, fields}
use platform_kit.Authjwt.{
  Config, PublicKey, Remote, State, Keyed, key, is_recent, key_for_kid, unexpected_method,
}
use platform_kit.Authjwt.Keys.{HasKey, FromDocument, Served, key_for_kid-Served}
use platform_kit.Authjwt.Token.{
  Jwt, Keyfunc, Unverified, Parsed, parse_error, parsed, Validated, accepted, Claims, as_string,
  one_of, audience_match, keyfunc, extract, validate, check_claims, after_parse,
}

one_of-In : (allowed : List Str) (s : Str) → one_of allowed s ≡ true → In s allowed
one_of-In allowed s h =
    let (a, m, e) = any-In (λ a. str_eq a s) allowed h in
    let e' : a ≡ s = (str_eq_iff a s).0 e in rw (← e') m

-- The claim names one of the audiences: as a string, or in an array, where what is not a string counts
-- as the empty string.
abbrev pub Names : Option Json → List Str → Type 0
Names aud allowed =
    (s : Str) × In s allowed
    × ((aud ≡ some (str s))
        ⊎ ((xs : Items) × (aud ≡ some (arr xs))
            × ((v : Json) × In v (items xs) × (as_string (some v) ≡ s))))

audience_match-Names :
    (aud : Option Json) (allowed : List Str) → audience_match aud allowed ≡ true → Names aud allowed
unfolding audience_match
audience_match-Names none allowed h = cc
audience_match-Names (some null) allowed h = cc
audience_match-Names (some (bool b)) allowed h = cc
audience_match-Names (some (num x)) allowed h = cc
audience_match-Names (some (str s)) allowed h = (s, one_of-In allowed s h, inl refl)
audience_match-Names (some (arr xs)) allowed h =
    let (v, m, e) = any-In (λ v. one_of allowed (as_string (some v))) (items xs) h in
    (as_string (some v), one_of-In allowed _ e, inr (xs, refl, (v, m, refl)))
audience_match-Names (some (obj fs)) allowed h = cc

-- golang-jwt documents: a token that Parse returns as valid bears a signature that verifies under the key
-- that the key function returned for its header, and the key function was called once.
pub record JwtLaws (jwt : Jwt) (Verified : Str → Fields → PublicKey → Type 0) : Type 0 where
  pub verified :
      (token : Str) (kf : Keyfunc) (s : State) (raw : Fields) (s' : State)
      → jwt.parse token kf s ≡ (parsed true (some raw), s')
      → (t : Unverified) × (k : PublicKey) × (kf t s ≡ (key k, s')) × Verified token raw k

passes : (a b : Bool) → (not a && not b) ≡ false → (a ≡ true) ⊎ (b ≡ true)
passes true b h = inl refl
passes false true h = inr refl
passes false false h = cc

module _ (c : Config) (remote : Remote) (jwt : Jwt) where
  -- What check_claims accepted.
  abbrev pub Checked : Fields → Claims → Type 0
  Checked raw claims =
      (claims ≡ extract c remote jwt raw)
      × ((is_empty c.issuer ≡ true) ⊎ (as_string (lookup (lit "iss") (fields raw)) ≡ c.issuer))
      × ((is_empty c.audiences ≡ true) ⊎ Names (lookup (lit "aud") (fields raw)) c.audiences)

  check_claims-Checked :
      (raw : Fields) (claims : Claims)
      → check_claims c remote jwt raw ≡ accepted claims
      → Checked raw claims
  check_claims-Checked raw claims =
      let P : Validated → Type 0 = λ v. v ≡ accepted claims → Checked raw claims in
      if-both P
        (not (is_empty c.issuer)
          && not (str_eq (as_string (lookup (lit "iss") (fields raw))) c.issuer))
        _ _ (λ _ h. cc)
        (λ f.
          if-both P
            (not (is_empty c.audiences)
              && not (audience_match (lookup (lit "aud") (fields raw)) c.audiences))
            _ _ (λ _ h. cc)
            (λ g h. (
              let e : extract c remote jwt raw ≡ claims = cc in sym e,
              issuer (passes _ _ f),
              audience (passes _ _ g),
            )))
    where
      issuer :
          (is_empty c.issuer ≡ true)
            ⊎ (str_eq (as_string (lookup (lit "iss") (fields raw))) c.issuer ≡ true)
          → (is_empty c.issuer ≡ true) ⊎ (as_string (lookup (lit "iss") (fields raw)) ≡ c.issuer)
      issuer (inl e) = inl e
      issuer (inr e) = inr ((str_eq_iff _ _).0 e)

      audience :
          (is_empty c.audiences ≡ true)
            ⊎ (audience_match (lookup (lit "aud") (fields raw)) c.audiences ≡ true)
          → (is_empty c.audiences ≡ true) ⊎ Names (lookup (lit "aud") (fields raw)) c.audiences
      audience (inl e) = inl e
      audience (inr e) = inr (audience_match-Names _ _ e)

  -- What a token and the times of the call have to do with the claims that Validate accepts.
  abbrev pub Trusted :
      (Str → Fields → PublicKey → Type 0) → Str → ℕ → State → Validated × State → Type 0
  Trusted Verified token now s r =
      (claims : Claims)
      → r.0 ≡ accepted claims
      → (raw : Fields) × Checked raw claims
        × ((k : PublicKey) × Verified token raw k
            × ((kid : Str) × (key_for_kid c remote kid now s ≡ (key k, r.1))))

  keyfunc-key :
      (t : Unverified) (k : PublicKey) (now : ℕ) (s s' : State)
      → keyfunc c remote jwt now t s ≡ (key k, s')
      → (kid : Str) × (key_for_kid c remote kid now s ≡ (key k, s'))
  unfolding keyfunc
  keyfunc-key t k now s s' h = elim (Bool-cases t.rsa) [
    | inl e ↦
        let h' : key_for_kid c remote (elim t.kid [ none ↦ [] | some i ↦ i ]) now s ≡ (key k, s') =
          rw e at h in
        (_, h')
    | inr e ↦ let h' : ◌≡◌ {A = Keyed × State} (unexpected_method, s) (key k, s') = rw e at h in cc
  ]

  after_parse-Trusted :
      {Verified : Str → Fields → PublicKey → Type 0}
      → JwtLaws jwt Verified
      → (token : Str) (now : ℕ) (s s' : State) (p : Parsed)
      → jwt.parse token (keyfunc c remote jwt now) s ≡ (p, s')
      → Trusted Verified token now s (after_parse c remote jwt p, s')
  after_parse-Trusted laws token now s s' parse_error e claims h = cc
  after_parse-Trusted laws token now s s' (parsed valid none) e claims h = cc
  after_parse-Trusted laws token now s s' (parsed false (some raw)) e claims h = cc
  after_parse-Trusted laws token now s s' (parsed true (some raw)) e claims h =
      let (t, k, q, v) = laws.verified token (keyfunc c remote jwt now) s raw s' e in
      (raw, check_claims-Checked raw claims h, (k, v, keyfunc-key t k now s s' q))

  pub validate-Trusted :
      {Verified : Str → Fields → PublicKey → Type 0}
      → JwtLaws jwt Verified
      → (token : Str) (now : ℕ) (s : State)
      → Trusted Verified token now s (validate c remote jwt token now s)
  unfolding validate
  validate-Trusted {Verified} laws token now s =
      if-both (Trusted Verified token now s) (is_empty token) _ _ (λ _ claims h. cc)
        (λ _. after_parse-Trusted laws token now s _ _ refl)

  -- When golang-jwt's Parse behaves as documented, the claims of an accepted token are those of a payload
  -- that verifies under a key which the validator held at the time, younger than the cache's lifetime, or
  -- fetched in this call by one request with a status below 300; the issuer and one audience are the
  -- configured ones, where any are configured.
  pub validate_sound :
      {Verified : Str → Fields → PublicKey → Type 0}
      → JwtLaws jwt Verified
      → (token : Str) (now : ℕ) (s s' : State) (claims : Claims)
      → validate c remote jwt token now s ≡ (accepted claims, s')
      → (raw : Fields) × Checked raw claims
        × ((k : PublicKey) × Verified token raw k
            × (((s' ≡ s) × (is_recent c remote now s ≡ true) × HasKey k s.keys)
                ⊎ FromDocument c remote k
                    (remote.exchange s.requests)
                    (record s { requests = suc s.requests })
                    s'))
  validate_sound {Verified} laws token now s s' claims h =
      let q : Trusted Verified token now s (accepted claims, s') =
        rw h at (validate-Trusted laws token now s) in
      let (raw, checked, (k, v, (kid, e))) = q claims refl in
      let o : Served c remote now s (key k, s') = rw e at (key_for_kid-Served c remote kid now s) in
      (raw, checked, (k, v, o k refl))
