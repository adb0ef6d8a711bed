-- ===== src/Middleware/Guards/Access.antt =====
-- RequirePermission and NewCheckMiddleware, and RequirePermission behind Auth.
use mathlib.Core.Bool.{false≢true}
use platform_kit.Common.{
  true, false, ◌||◌, Option, none, some, ◌≡◌, ◌↔◌, refl, sym, ap, ◌∙◌, inl, inr, arith, subst, ◌⊎◌,
  if-both, Bool-cases, Option-cases, Str, lit, is_empty,
}
use platform_kit.Middleware.Http.{Request, get}
use platform_kit.Middleware.Guards.{
  Claims, Context, Outcome, passed, refused, Guard, seq, on_passed, authenticated, auth,
  PermissionResource, Checked, answer, check_failed, Checker, subject_of, after_check, configured,
  require_permission, QuotaClient, quota_check, after_quota, check_quota,
}
use platform_kit.Middleware.Guards.Quota.{Denied, quota_check_iff}
use platform_kit.Middleware.Guards.Laws.{Bearer, auth_iff, passed-inj, not_passed}

-- The checker grants the permission on the resource that the extractor names, none of them empty.
pub record Granted (permission : Str) (check : Checker)
    (extract : Request → Option PermissionResource) (subject : Str) (r : Request) : Type 0 where
  pub resource : PermissionResource
  pub has_subject : is_empty subject ≡ false
  pub extracted : extract r ≡ some resource
  pub has_type : is_empty resource.type ≡ false
  pub has_id : is_empty resource.id ≡ false
  pub granted : check subject permission resource.type resource.id ≡ answer true

abbrev pub Permitted :
    Str → Option Checker → Option (Request → Option PermissionResource) → Str → Request → Type 0
Permitted permission none extract subject r = ⊥
Permitted permission (some check) none subject r = ⊥
Permitted permission (some check) (some extract) subject r =
    Granted permission check extract subject r

after_check-granted :
    (permission : Str) (ctx ctx' : Context) (x : Checked)
    → after_check permission ctx x ≡ passed ctx'
    → (x ≡ answer true) × (ctx' ≡ ctx)
after_check-granted permission ctx ctx' (answer true) e = (refl, sym (passed-inj _ _ e))
after_check-granted permission ctx ctx' (answer false) e = cc
after_check-granted permission ctx ctx' (check_failed s) e = cc

configured-Granted :
    (permission : Str) (check : Checker) (extract : Request → Option PermissionResource)
    (ctx ctx' : Context) (r : Request)
    → configured permission check extract ctx r ≡ passed ctx'
    → Granted permission check extract (subject_of ctx.claims) r × (ctx' ≡ ctx)
configured-Granted permission check extract ctx ctx' r e =
    elim (Bool-cases (is_empty (subject_of ctx.claims))) [
      | inl t ↦ not_passed _ _ ctx' (rw t at e)
      | inr n ↦ elim (Option-cases (extract r)) [
        | inl q ↦ not_passed _ _ ctx' (rw (n, q) at e)
        | inr (x, q) ↦ elim (Bool-cases (is_empty x.type || is_empty x.id)) [
          | inl t ↦ not_passed _ _ ctx' (rw (n, q, t) at e)
          | inr f ↦
              let (g, same) = after_check-granted permission ctx ctx' _ (rw (n, q, f) at e) in
              (
                record {
                  resource = x;
                  has_subject = n;
                  extracted = q;
                  has_type = ground arith;
                  has_id = ground arith;
                  granted = g;
                },
                same,
              )
        ]
      ]
    ]

-- RequirePermission passes a request on exactly if checker and extractor are configured, the context
-- has a subject, the extractor names a resource with type and id, and the checker grants the
-- permission without an error; the context stays as it is.
pub require_permission_iff :
    (permission : Str) (checker : Option Checker)
    (extract : Option (Request → Option PermissionResource)) (ctx ctx' : Context) (r : Request)
    → (require_permission permission checker extract ctx r ≡ passed ctx')
      ↔ (Permitted permission checker extract (subject_of ctx.claims) r × (ctx' ≡ ctx))
unfolding require_permission
require_permission_iff permission none extract ctx ctx' r = (λ e. cc, λ (p, e). elim p [ ])
require_permission_iff permission (some check) none ctx ctx' r = (λ e. cc, λ (p, e). elim p [ ])
require_permission_iff permission (some check) (some extract) ctx ctx' r = (
  configured-Granted permission check extract ctx ctx' r,
  λ (g, e). rw (g.has_subject, g.extracted, g.has_type, g.has_id, g.granted) (ap passed (sym e)),
)

seq-passed :
    (first next : Guard) (ctx ctx' : Context) (r : Request)
    → seq first next ctx r ≡ passed ctx'
    → (between : Context) × (first ctx r ≡ passed between) × (next between r ≡ passed ctx')
unfolding seq
seq-passed first next ctx ctx' r e = through (first ctx r) refl e
  where
    through :
        (o : Outcome)
        → first ctx r ≡ o
        → on_passed next r o ≡ passed ctx'
        → (between : Context) × (first ctx r ≡ passed between) × (next between r ≡ passed ctx')
    through (passed b) q e = (b, q, e)
    through (refused status detail) q e = not_passed status detail ctx' e

-- A request that reaches the handler behind Auth and RequirePermission has a bearer token that the
-- validator accepts, and the permission was granted to the subject of that very token, whatever the
-- context held before; the handler sees the claims of that token.
pub auth-require_permission :
    (validate : Str → Option Claims) (permission : Str) (checker : Option Checker)
    (extract : Option (Request → Option PermissionResource)) (ctx ctx' : Context) (r : Request)
    → seq (auth validate) (require_permission permission checker extract) ctx r ≡ passed ctx'
    → (claims : Claims) × Bearer validate (get (lit "Authorization") r.headers) claims
      × Permitted permission checker extract claims.subject r
      × (ctx' ≡ authenticated claims ctx)
unfolding subject_of
auth-require_permission validate permission checker extract ctx ctx' r e =
    let (between, a, b) =
      seq-passed (auth validate) (require_permission permission checker extract) ctx ctx' r e in
    let (claims, bearer, q) = (auth_iff validate ctx between r).0 a in
    let (p, same) = (require_permission_iff permission checker extract between ctx' r).0 b in
    (
      claims,
      bearer,
      subst (λ c. Permitted permission checker extract (subject_of c.claims) r) q p,
      same ∙ q,
    )

-- When the quota middleware has a client, an extractor and an organization to ask for, and
-- identity-service denies the action.
abbrev pub OverQuota : Option QuotaClient → Str → Option (Request → Str) → Request → Type 0
OverQuota none action extract r = ⊥
OverQuota (some c) action none r = ⊥
OverQuota (some c) action (some extract) r = Denied c (extract r) action

abbrev pub QuotaVerdict :
    Option QuotaClient → Str → Option (Request → Str) → Context → Request → Outcome → Type 0
QuotaVerdict c action extract ctx r o =
    (OverQuota c action extract r × (o ≡ refused 402 (lit "quota_exceeded")))
    ⊎ ((OverQuota c action extract r → ⊥) × (o ≡ passed ctx))

after_quota-open :
    (ctx : Context) (x : Checked) → (x ≡ answer false → ⊥) → after_quota ctx x ≡ passed ctx
after_quota-open ctx (answer false) h = absurd (h refl)
after_quota-open ctx (answer true) h = refl
after_quota-open ctx (check_failed e) h = refl

Checked-cases : (x : Checked) → (x ≡ answer false) ⊎ (x ≡ answer false → ⊥)
Checked-cases (answer false) = inl refl
Checked-cases (answer true) = inr (λ e. cc)
Checked-cases (check_failed e) = inr (λ q. cc)

-- The quota middleware refuses a request, with status 402, exactly if it has a client with an address
-- and an extractor that names an organization, and identity-service gives a 2xx response whose body,
-- with the envelope or, where there is none, without, says that the action is not allowed; in every
-- other case (no response, another status, a body that cannot be read or decoded) it passes the request
-- on with its context.
pub check_quota-Verdict :
    (c : Option QuotaClient) (action : Str) (extract : Option (Request → Str)) (ctx : Context)
    (r : Request)
    → QuotaVerdict c action extract ctx r (check_quota c action extract ctx r)
unfolding check_quota
check_quota-Verdict none action extract ctx r = inr (λ o. o, refl)
check_quota-Verdict (some c) action none ctx r = inr (λ o. o, refl)
check_quota-Verdict (some c) action (some extract) ctx r =
    let (to_denied, from_denied) = quota_check_iff c (extract r) action in
    if-both (QuotaVerdict (some c) action (some extract) ctx r) (is_empty (extract r)) _ _
      (λ t. inr (λ d. absurd (false≢true (sym d.has_organization ∙ t)), refl))
      (λ f. elim (Checked-cases (quota_check c (extract r) action)) [
        | inl e ↦ inl (to_denied e, ap (after_quota ctx) e)
        | inr n ↦ inr (λ d. n (from_denied d), after_quota-open ctx _ n)
      ])
