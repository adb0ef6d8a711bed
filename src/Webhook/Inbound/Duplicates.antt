-- ===== src/Webhook/Inbound/Duplicates.antt =====
-- A second delivery of a key.
use platform_kit.Common.{
  List, [], All, ℕ, ◌-◌, ◌≤◌, Bool, true, false, Option, some, ◌∷◌, ◌++◌, ◌≡◌, ◌≢◌, refl, sym, ap,
  ◌∙◌, subst, Str, Dict, lookup, IsDistinct,
}
use platform_kit.Webhook.Inbound.{
  Admission, rejected, dispatch, Delivery, Provider, Receiver, State, seen_or_record, admitted,
  admit, unless_seen, handle,
}
use platform_kit.Webhook.Inbound.Idempotency.{
  Live, seen_or_record_iff, seen_or_record_keeps, seen_or_record_new, seen_or_record-IsDistinct,
}
use platform_kit.Webhook.Inbound.Laws.{store_key}

-- A call of Handle.
pub record Call : Type 0 where
  pub name : Str
  pub org : Str
  pub headers : Dict Str
  pub body : Option Str
  pub at : ℕ

module _ (hmac : (secret body : Str) → Str) (sha256 : Str → Str) where
  fresh_unless_409 :
      (p : Provider) (d : Delivery) (s : State) (x : Bool × Dict ℕ)
      → (unless_seen hmac sha256 p d s x).0 ≢ 409
      → x.0 ≡ false
  fresh_unless_409 p d s (true, seen) h = absurd (h refl)
  fresh_unless_409 p d s (false, seen) h = refl

  unless_seen-seen :
      (p : Provider) (d : Delivery) (s : State) (x : Bool × Dict ℕ)
      → (unless_seen hmac sha256 p d s x).1.seen ≡ x.1
  unless_seen-seen p d s (true, seen) = refl
  unless_seen-seen p d s (false, seen) = refl

  refused_if_seen :
      (p : Provider) (d : Delivery) (s : State) (x : Bool × Dict ℕ)
      → x.0 ≡ true
      → ((unless_seen hmac sha256 p d s x).0 ≡ 409)
        × ((unless_seen hmac sha256 p d s x).1.handled ≡ s.handled)
  refused_if_seen p d s (true, seen) e = (refl, refl)
  refused_if_seen p d s (false, seen) e = cc

  handle_admitted :
      (r : Receiver) (name org : Str) (headers : Dict Str) (body : Option Str) (ttl now : ℕ)
      (s : State) (p : Provider) (d : Delivery)
      → r.store ≡ some ttl
      → admit hmac sha256 r name org headers body ≡ admitted p d
      → handle hmac sha256 r name org headers body now s
        ≡ unless_seen hmac sha256 p d s
            (seen_or_record ttl (store_key hmac sha256 name d) now s.seen)
  unfolding handle
  handle_admitted r name org headers body ttl now s p d st ad = rw (st, ad) refl

  -- Several calls one after the other.
  abbrev pub handle_all : Receiver → List Call → State → State
  handle_all r [] s = s
  handle_all r (c ∷ cs) s =
      handle_all r cs (handle hmac sha256 r c.name c.org c.headers c.body c.at s).1

  -- The store has the key with this time, and no key twice.
  abbrev Recorded : Str → ℕ → Dict ℕ → Type 0
  Recorded k t seen = (lookup k seen ≡ some t) × IsDistinct seen

  dispatch-Recorded :
      (ttl : ℕ) (name k : Str) (t u : ℕ) (s : State)
      → u - t ≤ ttl
      → Recorded k t s.seen
      → (a : Admission) → Recorded k t (dispatch hmac sha256 (some ttl) name u s a).1.seen
  dispatch-Recorded ttl name k t u s le h (rejected status) = h
  dispatch-Recorded ttl name k t u s le (h, d) (admitted p e) =
      let j = store_key hmac sha256 name e in
      subst (λ m. Recorded k t m) (sym (unless_seen-seen p e s (seen_or_record ttl j u s.seen)))
        (seen_or_record_keeps ttl k j t u s.seen d h le, seen_or_record-IsDistinct ttl j u s.seen d)

  handle-Recorded :
      (r : Receiver) (ttl : ℕ) (c : Call) (k : Str) (t : ℕ) (s : State)
      → r.store ≡ some ttl
      → c.at - t ≤ ttl
      → Recorded k t s.seen
      → Recorded k t (handle hmac sha256 r c.name c.org c.headers c.body c.at s).1.seen
  unfolding handle
  handle-Recorded r ttl c k t s st le h =
      let a = admit hmac sha256 r c.name c.org c.headers c.body in
      subst (λ o. Recorded k t (dispatch hmac sha256 o c.name c.at s a).1.seen) (sym st)
        (dispatch-Recorded ttl c.name k t c.at s le h a)

  handle_all-Recorded :
      (r : Receiver) (ttl : ℕ) (cs : List Call) (k : Str) (t : ℕ) (s : State)
      → r.store ≡ some ttl
      → All (λ c. c.at - t ≤ ttl) cs
      → Recorded k t s.seen
      → Recorded k t (handle_all r cs s).seen
  handle_all-Recorded r ttl [] k t s st le h = h
  handle_all-Recorded r ttl (c ∷ cs) k t s st (le, les) h =
      handle_all-Recorded r ttl cs k t _ st les (handle-Recorded r ttl c k t s st le h)

  -- Once a call of Handle with an in-memory store has given a delivery to its handler, whether that
  -- returned nil or an error, and after any further calls within the TTL, a call within the TTL for
  -- the same provider and idempotency key that passes the checks is refused with status 409 and
  -- reaches no handler.
  pub handle_duplicate :
      (r : Receiver) (name org org' : Str) (headers headers' : Dict Str) (body body' : Option Str)
      (ttl now now' : ℕ) (s : State) (p p' : Provider) (d d' : Delivery) (between : List Call)
      → r.store ≡ some ttl
      → IsDistinct s.seen
      → admit hmac sha256 r name org headers body ≡ admitted p d
      → (handle hmac sha256 r name org headers body now s).0 ≢ 409
      → All (λ c. c.at - now ≤ ttl) between
      → admit hmac sha256 r name org' headers' body' ≡ admitted p' d'
      → d'.key ≡ d.key
      → now' - now ≤ ttl
      → (let t = handle_all r between (handle hmac sha256 r name org headers body now s).1 in
          ((handle hmac sha256 r name org' headers' body' now' t).0 ≡ 409)
          × ((handle hmac sha256 r name org' headers' body' now' t).1.handled ≡ t.handled))
  handle_duplicate r name org org' headers headers' body body' ttl now now' s p p' d d' between st
        distinct ad first soon ad' same within =
      let k = store_key hmac sha256 name d in
      let x = seen_or_record ttl k now s.seen in
      let t0 = (handle hmac sha256 r name org headers body now s).1 in
      let t = handle_all r between t0 in
      let e = handle_admitted r name org headers body ttl now s p d st ad in
      let e' = handle_admitted r name org' headers' body' ttl now' t p' d' st ad' in
      let fresh : x.0 ≡ false = fresh_unless_409 p d s x (λ q. first (ap (λ y. y.0) e ∙ q)) in
      let seen : t0.seen ≡ x.1 = ap (λ (y : ℕ × State). y.1.seen) e ∙ unless_seen-seen p d s x in
      let start : Recorded k now t0.seen =
        subst (λ m. Recorded k now m) (sym seen)
          (
            seen_or_record_new ttl k now s.seen fresh,
            seen_or_record-IsDistinct ttl k now s.seen distinct,
          ) in
      let (kept, distinct') = handle_all-Recorded r ttl between k now t0 st soon start in
      let k' : store_key hmac sha256 name d' ≡ k = ap (λ (z : Str). name ++ b':' ∷ z) same in
      let live : Live ttl now' (lookup (store_key hmac sha256 name d') t.seen) =
        subst (λ o. Live ttl now' o) (sym (ap (λ z. lookup z t.seen) k' ∙ kept)) within in
      let dup =
        (seen_or_record_iff ttl (store_key hmac sha256 name d') now' t.seen distinct').1 live in
      let (a, b) =
        refused_if_seen p' d' t (seen_or_record ttl (store_key hmac sha256 name d') now' t.seen)
          dup in
      (ap (λ y. y.0) e' ∙ a, ap (λ (y : ℕ × State). y.1.handled) e' ∙ b)
