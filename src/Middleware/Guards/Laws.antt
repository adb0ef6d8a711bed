-- ===== src/Middleware/Guards/Laws.antt =====
-- Which requests the guards let through.
use platform_kit.Common.{
  ℕ, suc, true, false, Option, some, [], ◌∷◌, ◌++◌, ◌≡◌, ◌↔◌, refl, sym, ap, ◌∙◌, subst, inl, inr,
  Bool-cases, Option-cases, Str, lit, is_empty, index_byte, take, drop,
}
use platform_kit.Common.Splits.{
  SplitsAt, index_byte-SplitsAt, SplitsAt-index_byte, take_prefix, drop_prefix,
}
use platform_kit.Middleware.Http.{Request, get}
use platform_kit.Middleware.Guards.{
  Claims, Context, passed, refused, is_bearer, authenticated, auth_header, auth,
}

pub passed-inj : (a b : Context) → passed a ≡ passed b → a ≡ b
passed-inj a b e = cc

pub not_passed :
    {A : Type 0} (status : ℕ) (detail : Str) (ctx : Context)
    → refused status detail ≡ passed ctx
    → A
not_passed status detail ctx e = cc

module _ (validate : Str → Option Claims) where
  -- The header is a bearer token that the validator accepts, and these are its claims.
  pub record Bearer (header : Str) (claims : Claims) : Type 0 where
    pub scheme : Str
    pub token : Str
    pub splits : SplitsAt b' ' header scheme token
    pub bearer : is_bearer scheme ≡ true
    pub valid : validate token ≡ some claims

  auth_header-Bearer :
      (ctx ctx' : Context) (header : Str)
      → auth_header validate ctx header ≡ passed ctx'
      → (claims : Claims) × Bearer header claims × (ctx' ≡ authenticated claims ctx)
  auth_header-Bearer ctx ctx' header e = elim (Bool-cases (is_empty header)) [
    | inl t ↦ not_passed _ _ ctx' (rw t at e)
    | inr n ↦ elim (Option-cases (index_byte header b' ')) [
      | inl q ↦ not_passed _ _ ctx' (rw (n, q) at e)
      | inr (i, q) ↦ elim (Bool-cases (is_bearer (take i header))) [
        | inr f ↦ not_passed _ _ ctx' (rw (n, q, f) at e)
        | inl t ↦ elim (Option-cases (validate (drop (suc i) header))) [
          | inl v ↦ not_passed _ _ ctx' (rw (n, q, t, v) at e)
          | inr (c, v) ↦ (
            c,
            record {
              scheme = take i header;
              token = drop (suc i) header;
              splits = index_byte-SplitsAt b' ' header i q;
              bearer = t;
              valid = v;
            },
            sym (passed-inj _ _ (rw (n, q, t, v) at e)),
          )
        ]
      ]
    ]
  ]

  prefix_not_empty : (s t : Str) (b : ℕ) → is_empty (s ++ b ∷ t) ≡ false
  prefix_not_empty [] t b = refl
  prefix_not_empty (c ∷ s) t b = refl

  Bearer-auth_header :
      (ctx : Context) (header : Str) (claims : Claims)
      → Bearer header claims
      → auth_header validate ctx header ≡ passed (authenticated claims ctx)
  Bearer-auth_header ctx header claims b =
      subst (λ h. auth_header validate ctx h ≡ passed (authenticated claims ctx)) (sym b.splits.0)
        (rw
          (
            prefix_not_empty b.scheme b.token b' ',
            SplitsAt-index_byte b' ' b.scheme b.token b.splits.1,
            take_prefix b.scheme (b' ' ∷ b.token),
            b.bearer,
            drop_prefix b.scheme b' ' b.token,
            b.valid,
          )
          refl)

  -- Auth passes a request on exactly if its Authorization header is a scheme and a token around the
  -- first space, the scheme is "bearer" in any case, and the validator accepts the token; the next
  -- handler's context then has the claims of that token, and no header but this one has a say.
  pub auth_iff :
      (ctx ctx' : Context) (r : Request)
      → (auth validate ctx r ≡ passed ctx') ↔ (
          (claims : Claims) × Bearer (get (lit "Authorization") r.headers) claims
          × (ctx' ≡ authenticated claims ctx))
  unfolding auth
  auth_iff ctx ctx' r = (
    auth_header-Bearer ctx ctx' (get (lit "Authorization") r.headers),
    λ (claims, b, e).
        Bearer-auth_header ctx (get (lit "Authorization") r.headers) claims b ∙ ap passed (sym e),
  )
