-- ===== src/Webhook/Delivery/Laws.antt =====
-- The retry schedule, and which header wins.
use platform_kit.Common.{
  ◌≤◌, ◌*◌, true, Option, none, some, [], ◌∷◌, ◌≡◌, refl, inl, inr, arith, Bool-cases, Str, str_eq,
  str_eq_iff, Dict, lookup, insert, lookup-insert_hit, lookup-insert_miss, IsFresh, IsDistinct,
  lookup_of_IsFresh, subst, ℤ, leb_ℤ,
}
use platform_kit.Webhook.Delivery.{
  minute, backoff_duration, merge, Outgoing, built_in, build_headers,
}

-- A later attempt never waits less; every wait is at least a minute and at most ten hours.
pub backoff_duration_monotone :
    (a b : ℤ)
    → leb_ℤ a b ≡ true
    → (backoff_duration a ≤ backoff_duration b)
      × (minute ≤ backoff_duration a)
      × (backoff_duration a ≤ 600 * minute)
unfolding backoff_duration
backoff_duration_monotone a b h = ground arith

abbrev pub or_else : Option Str → Option Str → Option Str
or_else (some v) o = some v
or_else none o = o

lookup-merge :
    (k : Str) (extra h : Dict Str)
    → IsDistinct extra
    → lookup k (merge extra h) ≡ or_else (lookup k extra) (lookup k h)
unfolding lookup merge
lookup-merge k [] h d = refl
lookup-merge k ((j, v) ∷ extra) h (f, d) = elim (Bool-cases (str_eq j k)) [
  | inl t ↦
      let none_left : lookup k extra ≡ none =
        lookup_of_IsFresh k extra (subst (λ s. IsFresh s extra) ((str_eq_iff j k).0 t) f) in
      let ih = lookup-merge k extra (insert j v h) d in
      let e = rw (none_left, lookup-insert_hit j k v h t) at ih in rw t e
  | inr t ↦
      let ih = lookup-merge k extra (insert j v h) d in
      let e = rw (lookup-insert_miss j k v h t) at ih in rw t e
]

-- A delivery's header is the request's extra header of that name if it has one, the signature
-- included, and else the built-in one.
pub lookup-build_headers :
    (hmac : (secret payload : Str) → Str) (r : Outgoing) (k : Str)
    → IsDistinct r.extra_headers
    → lookup k (build_headers hmac r)
      ≡ or_else (lookup k r.extra_headers) (lookup k (built_in hmac r))
unfolding build_headers
lookup-build_headers hmac r k d = lookup-merge k r.extra_headers (built_in hmac r) d
