-- ===== src/Webhook/Inbound/Idempotency.antt =====
-- The in-memory store: which keys it has seen.
use platform_kit.Common.{
  ◌∙◌, subst, str_eq, str_eq_iff, lookup-insert_miss, ℕ, ◌-◌, ◌≤◌, true, false, Option, none, some,
  ◌≡◌, ◌↔◌, refl, inl, inr, arith, Bool-cases, Str, Dict, lookup, delete_if, lookup-delete_if,
  lookup-insert_self, unless, IsDistinct, insert-IsDistinct, delete_if-IsDistinct,
}
use platform_kit.Webhook.Inbound.{seen_or_record, record_key, expired}

-- A key that is recorded at a time at most the TTL ago.
abbrev pub Live : (ttl now : ℕ) → Option ℕ → Type 0
Live ttl now none = ⊥
Live ttl now (some t) = now - t ≤ ttl

record_key-Live :
    (ttl now : ℕ) (key : Str) (live : Dict ℕ) (o : Option ℕ)
    → lookup key live ≡ unless (expired ttl now) o
    → ((record_key key now live (lookup key live)).0 ≡ true) ↔ Live ttl now o
record_key-Live ttl now key live none e = rw e (λ q. cc, λ m. elim m [ ])
record_key-Live ttl now key live (some t) e = elim (Bool-cases (expired ttl now t)) [
  | inl x ↦ let e' = rw x at e in rw e' (λ q. cc, λ m. ground arith)
  | inr x ↦ let e' = rw x at e in rw e' (λ q. ground arith, λ m. refl)
]

-- SeenOrRecord answers true exactly if the key was recorded and at most the TTL has passed since.
pub seen_or_record_iff :
    (ttl : ℕ) (key : Str) (now : ℕ) (seen : Dict ℕ)
    → IsDistinct seen
    → ((seen_or_record ttl key now seen).0 ≡ true) ↔ Live ttl now (lookup key seen)
unfolding seen_or_record
seen_or_record_iff ttl key now seen d =
    record_key-Live ttl now key (delete_if (λ k t. expired ttl now t) seen) (lookup key seen)
      (lookup-delete_if (λ k t. expired ttl now t) key seen d)

record_key-IsDistinct :
    (key : Str) (now : ℕ) (live : Dict ℕ) (o : Option ℕ)
    → IsDistinct live
    → IsDistinct (record_key key now live o).1
record_key-IsDistinct key now live none d = insert-IsDistinct key now live d
record_key-IsDistinct key now live (some t) d = d

pub seen_or_record-IsDistinct :
    (ttl : ℕ) (key : Str) (now : ℕ) (seen : Dict ℕ)
    → IsDistinct seen
    → IsDistinct (seen_or_record ttl key now seen).1
unfolding seen_or_record
seen_or_record-IsDistinct ttl key now seen d =
    record_key-IsDistinct key now _ (lookup key (delete_if (λ k t. expired ttl now t) seen))
      (delete_if-IsDistinct _ seen d)

record_key_new :
    (key : Str) (now : ℕ) (live : Dict ℕ) (o : Option ℕ)
    → (record_key key now live o).0 ≡ false
    → lookup key (record_key key now live o).1 ≡ some now
record_key_new key now live none e = lookup-insert_self key now live
record_key_new key now live (some t) e = cc

-- A key that is not seen is recorded at the time of the call.
pub seen_or_record_new :
    (ttl : ℕ) (key : Str) (now : ℕ) (seen : Dict ℕ)
    → (seen_or_record ttl key now seen).0 ≡ false
    → lookup key (seen_or_record ttl key now seen).1 ≡ some now
unfolding seen_or_record
seen_or_record_new ttl key now seen e =
    record_key_new key now _ (lookup key (delete_if (λ k t. expired ttl now t) seen)) e

record_key_keeps :
    (k j : Str) (t u : ℕ) (live : Dict ℕ) (o : Option ℕ)
    → lookup j live ≡ o
    → lookup k live ≡ some t
    → lookup k (record_key j u live o).1 ≡ some t
record_key_keeps k j t u live (some v) e h = h
record_key_keeps k j t u live none e h = elim (Bool-cases (str_eq j k)) [
  | inl q ↦ let e' = subst (λ i. lookup i live ≡ none) ((str_eq_iff j k).0 q) e in cc
  | inr q ↦ lookup-insert_miss j k u live q ∙ h
]

-- A recorded time stays as it is for as long as the TTL has not passed, whatever keys are asked for.
pub seen_or_record_keeps :
    (ttl : ℕ) (k j : Str) (t u : ℕ) (seen : Dict ℕ)
    → IsDistinct seen
    → lookup k seen ≡ some t
    → u - t ≤ ttl
    → lookup k (seen_or_record ttl j u seen).1 ≡ some t
unfolding seen_or_record
seen_or_record_keeps ttl k j t u seen d h le =
    let live = delete_if (λ i v. expired ttl u v) seen in
    let f : expired ttl u t ≡ false = ground arith in
    let l = lookup-delete_if (λ i v. expired ttl u v) k seen d in
    let l' : lookup k live ≡ some t = rw (h, f) at l in
    record_key_keeps k j t u live (lookup j live) refl l'
