-- ===== src/Webhook/Inbound/Laws.antt =====
-- Which deliveries reach a handler, and how often.
use mathlib.Core.Bool.{false≢true}
use platform_kit.Common.{
  ℕ, Bool, true, false, Option, none, some, some-inj, [], ◌∷◌, ◌++◌, ◌≡◌, refl, sym, ◌∙◌, subst,
  inl, inr, ◌⊎◌, if-both, Bool-cases, Str, lit, is_empty, Dict, lookup, IsDistinct,
}
use platform_kit.Middleware.Http.{get}
use platform_kit.Webhook.Inbound.{
  Delivery, Provider, Receiver, State, seen_or_record, verified, admitted, admit, admit_body,
  idempotency_key, unless_seen, dispatch, handle,
}
use platform_kit.Webhook.Inbound.Idempotency.{Live, seen_or_record_iff}
use platform_kit.Webhook.Inbound.Signature.{Signed, verified_iff}

module _ (hmac : (secret body : Str) → Str) (sha256 : Str → Str) where
  abbrev pub store_key : Str → Delivery → Str
  store_key name d = name ++ b':' ∷ d.key

  -- The key that the sender gives, or else the hash of the body after the provider's name.
  pub data IsKey (name : Str) (headers : Dict Str) (body key : Str) : Type 0 where
    given :
        is_empty (get (lit "X-Idempotency-Key") headers) ≡ false
        → key ≡ get (lit "X-Idempotency-Key") headers
        → IsKey name headers body key
    hashed :
        is_empty (get (lit "X-Idempotency-Key") headers) ≡ true
        → key ≡ name ++ b':' ∷ sha256 body
        → IsKey name headers body key

  -- The delivery is what a call makes of its request, and it is signed.
  pub record Accepted (r : Receiver) (name org : Str) (headers : Dict Str) (body : Option Str)
      (d : Delivery) : Type 0 where
    pub provider : Provider
    pub known : lookup name r.providers ≡ some provider
    pub readable : body ≡ some d.body
    pub for_org : d.org_id ≡ org
    pub key : IsKey name headers d.body d.key
    pub signed : Signed hmac provider headers d.body

  -- The delivery is accepted and was not seen within the TTL.
  pub record Reached (r : Receiver) (name org : Str) (headers : Dict Str) (body : Option Str)
      (now : ℕ) (s : State) (d : Delivery) : Type 0 where
    pub accepted : Accepted r name org headers body d
    pub not_seen :
        (ttl : ℕ) → r.store ≡ some ttl → Live ttl now (lookup (store_key name d) s.seen) → ⊥

  -- What a call did to the deliveries given to handlers.
  abbrev pub Effect :
      Receiver → (name org : Str) → Dict Str → Option Str → ℕ → State → ℕ × State → Type 0
  Effect r name org headers body now s x =
      (((d : Delivery) → Reached r name org headers body now s d → ⊥) × (x.1.handled ≡ s.handled))
      ⊎ ((d : Delivery) × Reached r name org headers body now s d
          × (x.1.handled ≡ s.handled ++ d ∷ []))

  idempotency_key-IsKey :
      (name : Str) (headers : Dict Str) (body : Str)
      → IsKey name headers body (idempotency_key hmac sha256 name headers body)
  unfolding idempotency_key
  idempotency_key-IsKey name headers body =
      elim (Bool-cases (is_empty (get (lit "X-Idempotency-Key") headers))) [
        | inl t ↦ hashed t (rw t refl)
        | inr f ↦ given f (rw f refl)
      ]

  IsKey-unique :
      {name : Str} {headers : Dict Str} {body k l : Str}
      → IsKey name headers body k
      → IsKey name headers body l
      → k ≡ l
  IsKey-unique (given f e) (given g q) = e ∙ sym q
  IsKey-unique (given f e) (hashed t q) = absurd (false≢true (sym f ∙ t))
  IsKey-unique (hashed t e) (given f q) = absurd (false≢true (sym f ∙ t))
  IsKey-unique (hashed t e) (hashed u q) = e ∙ sym q

  -- A request makes one delivery.
  Accepted-unique :
      {r : Receiver} {name org : Str} {headers : Dict Str} {body : Option Str} {d e : Delivery}
      → Accepted r name org headers body d
      → Accepted r name org headers body e
      → d.key ≡ e.key
  Accepted-unique {name} {headers} {d} {e} a b =
      let same : e.body ≡ d.body = some-inj (sym b.readable ∙ a.readable) in
      IsKey-unique a.key (subst (λ x. IsKey name headers x e.key) same b.key)

  unless_seen-Effect :
      (r : Receiver) (name org : Str) (headers : Dict Str) (body : Option Str) (now : ℕ) (s : State)
      (p : Provider) (d : Delivery) (x : Bool × Dict ℕ)
      → (x.0 ≡ false → Reached r name org headers body now s d)
      → (x.0 ≡ true → (e : Delivery) → Reached r name org headers body now s e → ⊥)
      → Effect r name org headers body now s (unless_seen hmac sha256 p d s x)
  unless_seen-Effect r name org headers body now s p d (true, seen) h k = inl (k refl, refl)
  unless_seen-Effect r name org headers body now s p d (false, seen) h k = inr (d, h refl, refl)

  dispatch-Effect :
      (r : Receiver) (name org : Str) (headers : Dict Str) (body : Option Str) (now : ℕ) (s : State)
      (p : Provider) (d : Delivery)
      → IsDistinct s.seen
      → Accepted r name org headers body d
      → (store : Option ℕ) → r.store ≡ store
      → Effect r name org headers body now s (dispatch hmac sha256 store name now s (admitted p d))
  dispatch-Effect r name org headers body now s p d distinct a none e =
      inr (d, record { accepted = a; not_seen = λ ttl q m. none_some ttl (sym e ∙ q) }, refl)
    where
      none_some : (ttl : ℕ) → none ≡ some ttl → ⊥
      none_some ttl q = cc
  dispatch-Effect r name org headers body now s p d distinct a (some ttl) e =
      let (seen_if, live_if) = seen_or_record_iff ttl (store_key name d) now s.seen distinct in
      unless_seen-Effect r name org headers body now s p d
        (seen_or_record ttl (store_key name d) now s.seen)
        (λ fresh. record {
          accepted = a;
          not_seen = λ t q m.
              let t' : ttl ≡ t = some-inj (sym e ∙ q) in
              let m' = subst (λ u. Live u now (lookup (store_key name d) s.seen)) (sym t') m in
              absurd (false≢true (sym fresh ∙ live_if m'));
        })
        (λ dup other h. h.not_seen ttl e (
          subst (λ k. Live ttl now (lookup (name ++ b':' ∷ k) s.seen))
            (Accepted-unique a h.accepted) (seen_if dup)))

  -- A request that is not accepted reaches no handler.
  none_reached :
      (r : Receiver) (name org : Str) (headers : Dict Str) (body : Option Str) (now : ℕ) (s : State)
      (x : ℕ × State)
      → ((d : Delivery) → Accepted r name org headers body d → ⊥)
      → x.1.handled ≡ s.handled
      → Effect r name org headers body now s x
  none_reached r name org headers body now s x h e = inl (λ d reached. h d reached.accepted, e)

  admit_body-Effect :
      (r : Receiver) (name org : Str) (headers : Dict Str) (now : ℕ) (s : State)
      → IsDistinct s.seen
      → (o : Option Provider) → lookup name r.providers ≡ o
      → (body : Option Str)
      → Effect r name org headers body now s
          (dispatch hmac sha256 r.store name now s (admit_body hmac sha256 name org headers o body))
  admit_body-Effect r name org headers now s distinct none k body =
      none_reached r name org headers body now s (404, s)
        (λ d a. unknown a.provider (sym k ∙ a.known)) refl
    where
      unknown : (p : Provider) → ◌≡◌ {A = Option Provider} none (some p) → ⊥
      unknown p q = cc
  admit_body-Effect r name org headers now s distinct (some p) k none =
      none_reached r name org headers none now s (400, s) (λ d a. unreadable d.body a.readable) refl
    where
      unreadable : (b : Str) → ◌≡◌ {A = Option Str} none (some b) → ⊥
      unreadable b q = cc
  admit_body-Effect r name org headers now s distinct (some p) k (some body) =
      let (signed, verified_if) = verified_iff hmac sha256 p headers body in
      if-both
        (λ a.
          Effect r name org headers (some body) now s (dispatch hmac sha256 r.store name now s a))
        (verified hmac sha256 p headers body) _ _
        (λ v.
          dispatch-Effect r name org headers (some body) now s p _ distinct
            (record {
              provider = p;
              known = k;
              readable = refl;
              for_org = refl;
              key = idempotency_key-IsKey name headers body;
              signed = signed v;
            })
            r.store refl)
        (λ f.
          none_reached r name org headers (some body) now s (401, s)
            (λ d a.
              let same_p : a.provider ≡ p = some-inj (sym a.known ∙ k) in
              let same_b : d.body ≡ body = some-inj (sym a.readable) in
              let sig =
                subst (λ b. Signed hmac p headers b) same_b
                  (subst (λ q. Signed hmac q headers d.body) same_p a.signed) in
              false≢true (sym f ∙ verified_if sig))
            refl)

  -- Handle gives one delivery to a handler exactly if the provider is registered, the body can be read,
  -- the delivery is signed and the store has not seen its key within its TTL, and otherwise none. The
  -- delivery carries the organization, the body, and the sender's key or else the hash of the body. A
  -- delivery is signed if the provider's verifier accepts it or, without a verifier, the signature header
  -- holds the HMAC of the body under the secret; for a provider with neither a verifier nor a secret
  -- nothing is checked, and every delivery counts as signed. The store's keys are distinct.
  pub handle-Effect :
      (r : Receiver) (name org : Str) (headers : Dict Str) (body : Option Str) (now : ℕ) (s : State)
      → IsDistinct s.seen
      → Effect r name org headers body now s (handle hmac sha256 r name org headers body now s)
  unfolding handle admit
  handle-Effect r name org headers body now s distinct =
      admit_body-Effect r name org headers now s distinct (lookup name r.providers) refl body
