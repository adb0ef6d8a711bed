-- ===== src/Interceptor/Laws.antt =====
-- interceptor/auth.go: the credentials that admit a call.
use platform_kit.Common.{
  ℕ, suc, Bool, true, Option, none, some, List, [], ◌∷◌, any, if-both, Str, lit, str_eq, Dict, take,
  drop, index_byte, ◌≡◌, refl, ◌⊎◌, inl, inr, sym,
}
use platform_kit.Middleware.Guards.{Claims, Context, is_bearer, authenticated}
use platform_kit.Interceptor.{
  AuthConfig, Decision, admitted, values_of, after_token, split_token, try_token, try_key,
  authenticate_rpc, unary_auth,
}

admitted-inj : {a b : Context} → admitted a ≡ admitted b → a ≡ b
admitted-inj e = cc

-- An API key that is sent first and valid; the context is unchanged.
pub record ByKey (c : AuthConfig) (md : Dict (List Str)) (ctx ctx' : Context) : Type 0 where
  pub valid : Str → Bool
  pub key : Str
  pub more : List Str
  pub checked : c.api_key_validator ≡ some valid
  pub sent : values_of md (lit "x-api-key") ≡ key ∷ more
  pub accepted : valid key ≡ true
  pub same : ctx' ≡ ctx

-- A bearer token whose claims the context gets.
pub record ByToken (c : AuthConfig) (md : Dict (List Str)) (ctx ctx' : Context) : Type 0 where
  pub validate : Str → Option Claims
  pub header : Str
  pub more : List Str
  pub space : ℕ
  pub claims : Claims
  pub no_key : (c.api_key_validator ≡ none) ⊎ (values_of md (lit "x-api-key") ≡ [])
  pub checked : c.token_validator ≡ some validate
  pub sent : values_of md (lit "authorization") ≡ header ∷ more
  pub found : index_byte header b' ' ≡ some space
  pub bearer : is_bearer (take space header) ≡ true
  pub accepted : validate (drop (suc space) header) ≡ some claims
  pub with_claims : ctx' ≡ authenticated claims ctx

module _ (c : AuthConfig) (md : Dict (List Str)) (ctx ctx' : Context) where
  abbrev Credential : Type 0
  Credential = ByKey c md ctx ctx' ⊎ ByToken c md ctx ctx'

  by_token :
      (validate : Str → Option Claims) (header : Str) (more : List Str) (i : ℕ) (o : Option Claims)
      → (c.api_key_validator ≡ none) ⊎ (values_of md (lit "x-api-key") ≡ [])
      → c.token_validator ≡ some validate
      → values_of md (lit "authorization") ≡ header ∷ more
      → index_byte header b' ' ≡ some i
      → is_bearer (take i header) ≡ true
      → validate (drop (suc i) header) ≡ o
      → after_token ctx o ≡ admitted ctx'
      → Credential
  by_token validate header more i none n v a f b e h = cc
  by_token validate header more i (some claims) n v a f b e h =
      let q : authenticated claims ctx ≡ ctx' = admitted-inj h in
      inr (record {
        validate = validate;
        header = header;
        more = more;
        space = i;
        claims = claims;
        no_key = n;
        checked = v;
        sent = a;
        found = f;
        bearer = b;
        accepted = e;
        with_claims = sym q;
      })

  split_token-Credential :
      (validate : Str → Option Claims) (header : Str) (more : List Str) (o : Option ℕ)
      → (c.api_key_validator ≡ none) ⊎ (values_of md (lit "x-api-key") ≡ [])
      → c.token_validator ≡ some validate
      → values_of md (lit "authorization") ≡ header ∷ more
      → index_byte header b' ' ≡ o
      → split_token validate ctx header o ≡ admitted ctx'
      → Credential
  split_token-Credential validate header more none n v a f = λ h. cc
  split_token-Credential validate header more (some i) n v a f =
      let P : Decision → Type 0 = λ d. d ≡ admitted ctx' → Credential in
      if-both P (is_bearer (take i header)) _ _
        (λ b h. by_token validate header more i _ n v a f b refl h) (λ _ h. cc)

  try_token-Credential :
      (v : Option (Str → Option Claims)) (auths : List Str)
      → (c.api_key_validator ≡ none) ⊎ (values_of md (lit "x-api-key") ≡ [])
      → c.token_validator ≡ v
      → values_of md (lit "authorization") ≡ auths
      → try_token ctx v auths ≡ admitted ctx'
      → Credential
  try_token-Credential none auths n v a h = cc
  try_token-Credential (some validate) [] n v a h = cc
  try_token-Credential (some validate) (header ∷ more) n v a h =
      split_token-Credential validate header more _ n v a refl h

  try_key-Credential :
      (o : Option (Str → Bool)) (keys : List Str)
      → c.api_key_validator ≡ o
      → values_of md (lit "x-api-key") ≡ keys
      → try_key ctx o keys (try_token ctx c.token_validator (values_of md (lit "authorization")))
        ≡ admitted ctx'
      → Credential
  try_key-Credential none keys e k = λ h. try_token-Credential _ _ (inl e) refl refl h
  try_key-Credential (some valid) [] e k = λ h. try_token-Credential _ _ (inr k) refl refl h
  try_key-Credential (some valid) (key ∷ more) e k =
      let P : Decision → Type 0 = λ d. d ≡ admitted ctx' → Credential in
      if-both P (valid key) _ _
        (λ t h. inl (record {
          valid = valid;
          key = key;
          more = more;
          checked = e;
          sent = k;
          accepted = t;
          same = sym (admitted-inj h);
        }))
        (λ _ h. cc)

-- The handler of a gRPC method runs only if the method is to be skipped, with the context as it
-- came; or the first API key that is sent is valid; or no API key is sent or none is checked, and
-- the first authorization header bears a token that validates, whose claims the context then has.
pub unary_auth-Credential :
    (c : AuthConfig) (method : Str) (ctx ctx' : Context) (md : Option (Dict (List Str)))
    → unary_auth c method ctx md ≡ admitted ctx'
    → ((any (str_eq method) c.skip_methods ≡ true) × (ctx' ≡ ctx))
      ⊎ ((m : Dict (List Str)) × (md ≡ some m) × (ByKey c m ctx ctx' ⊎ ByToken c m ctx ctx'))
unfolding unary_auth authenticate_rpc
unary_auth-Credential c method ctx ctx' none =
    let P : Decision → Type 0 = λ d.
      d ≡ admitted ctx'
      → ((any (str_eq method) c.skip_methods ≡ true) × (ctx' ≡ ctx))
        ⊎ ((m : Dict (List Str)) × (none ≡ some m) × (ByKey c m ctx ctx' ⊎ ByToken c m ctx ctx')) in
    if-both P (any (str_eq method) c.skip_methods) _ _ (λ t h. inl (t, sym (admitted-inj h)))
      (λ _ h. cc)
unary_auth-Credential c method ctx ctx' (some m) =
    let P : Decision → Type 0 = λ d.
      d ≡ admitted ctx'
      → ((any (str_eq method) c.skip_methods ≡ true) × (ctx' ≡ ctx))
        ⊎ ((n : Dict (List Str)) × (some m ≡ some n)
            × (ByKey c n ctx ctx' ⊎ ByToken c n ctx ctx')) in
    if-both P (any (str_eq method) c.skip_methods) _ _ (λ t h. inl (t, sym (admitted-inj h)))
      (λ _ h. inr (m, refl, try_key-Credential c m ctx ctx' _ _ refl refl h))
