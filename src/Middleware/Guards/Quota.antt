-- ===== src/Middleware/Guards/Quota.antt =====
-- quota/client.go, Client.Check: when identity-service denies an action.
use platform_kit.Common.{
  ℕ, true, false, ◌||◌, none, some, ◌≡◌, ◌↔◌, ◌≤◌, ◌<◌, refl, inl, inr, arith, ◌⊎◌, Bool-cases,
  Option-cases, Str, is_empty, ltb, leb,
}
use platform_kit.Middleware.Guards.{
  answer, check_failed, Exchange, no_response, response, QuotaClient, decode_body, read_exchange,
  quota_check,
}

-- The body says that the action is not allowed: in an envelope, or else without one.
abbrev pub Denies : QuotaClient → Str → Type 0
Denies c body =
    (c.decode_envelope body ≡ some false)
    ⊎ ((c.decode_envelope body ≡ none) × (c.decode_flat body ≡ some false))

-- A 2xx response with a body that denies the action.
pub record Refusal (c : QuotaClient) (x : Exchange) : Type 0 where
  pub status : ℕ
  pub body : Str
  pub answered : x ≡ response status (some body)
  pub at_least_200 : 200 ≤ status
  pub below_300 : status < 300
  pub denies : Denies c body

-- A client with an address asks about a named organization and gets such a response.
pub record Denied (c : QuotaClient) (organization action : Str) : Type 0 where
  pub has_address : is_empty c.base_url ≡ false
  pub has_organization : is_empty organization ≡ false
  pub refusal : Refusal c (c.exchange organization action)

answers_differ : answer true ≡ answer false → ⊥
answers_differ e = cc

failed_answer : (e : Str) → check_failed e ≡ answer false → ⊥
failed_answer e q = cc

decode_body-Denies :
    (c : QuotaClient) (body : Str) → decode_body c body ≡ answer false → Denies c body
decode_body-Denies c body h = elim (Option-cases (c.decode_envelope body)) [
  | inl n ↦ elim (Option-cases (c.decode_flat body)) [
    | inl m ↦ absurd (failed_answer _ (rw (n, m, decode_body) at h))
    | inr (true, m) ↦ absurd (answers_differ (rw (n, m, decode_body) at h))
    | inr (false, m) ↦ inr (n, m)
  ]
  | inr (true, n) ↦ absurd (answers_differ (rw (n, decode_body) at h))
  | inr (false, n) ↦ inl n
]

Denies-decode_body :
    (c : QuotaClient) (body : Str) → Denies c body → decode_body c body ≡ answer false
Denies-decode_body c body (inl e) = rw (e, decode_body) refl
Denies-decode_body c body (inr (n, e)) = rw (n, e, decode_body) refl

read_exchange-Refusal :
    (c : QuotaClient) (x : Exchange) → read_exchange c x ≡ answer false → Refusal c x
read_exchange-Refusal c (no_response e) h = absurd (failed_answer e h)
read_exchange-Refusal c (response status none) h =
    elim (Bool-cases (ltb status 200 || leb 300 status)) [
      | inl t ↦ absurd (failed_answer _ (rw t at h))
      | inr f ↦ absurd (failed_answer _ (rw f at h))
    ]
read_exchange-Refusal c (response status (some body)) h =
    elim (Bool-cases (ltb status 200 || leb 300 status)) [
      | inl t ↦ absurd (failed_answer _ (rw t at h))
      | inr f ↦ record {
        status = status;
        body = body;
        answered = refl;
        at_least_200 = ground arith;
        below_300 = ground arith;
        denies = decode_body-Denies c body (rw f at h);
      }
    ]

Refusal-read_exchange :
    (c : QuotaClient) (x : Exchange) → Refusal c x → read_exchange c x ≡ answer false
Refusal-read_exchange c x d =
    let f : (ltb d.status 200 || leb 300 d.status) ≡ false = ground arith in
    rw (d.answered, f) (Denies-decode_body c d.body d.denies)

-- Client.Check answers false without an error exactly for a client with an address and a named
-- organization whose request gets a 2xx response with a body that denies the action.
pub quota_check_iff :
    (c : QuotaClient) (organization action : Str)
    → (quota_check c organization action ≡ answer false) ↔ Denied c organization action
unfolding quota_check
quota_check_iff c organization action = (
  λ h. elim (Bool-cases (is_empty c.base_url)) [
    | inl t ↦ absurd (answers_differ (rw t at h))
    | inr a ↦ elim (Bool-cases (is_empty organization)) [
      | inl t ↦ absurd (failed_answer _ (rw (a, t) at h))
      | inr o ↦ record {
        has_address = a;
        has_organization = o;
        refusal = read_exchange-Refusal c _ (rw (a, o) at h);
      }
    ]
  ],
  λ d. rw (d.has_address, d.has_organization) (Refusal-read_exchange c _ d.refusal),
)
