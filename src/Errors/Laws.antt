-- ===== src/Errors/Laws.antt =====
-- What a registration does to the conversions.
use mathlib.Core.Bool.{false≢true}
use platform_kit.Common.{
  ℕ, true, none, some, List, [], ◌∷◌, ◌≡◌, refl, sym, ap, ◌∙◌, inl, inr, arith, ==_iff, Bool-cases,
  All,
}
use platform_kit.Errors.{
  GoError, Registration, is, register, matching, to_http, to_grpc, http_of, grpc_of, http_from,
  grpc_from,
}

-- The sentinel wraps no other sentinel of the list.
abbrev pub Separate : GoError → List Registration → Type 0
Separate s rs = All (λ r. is s r.sentinel ≡ true → r.sentinel.id ≡ s.id) rs

is_refl : (e : GoError) → is e e ≡ true
unfolding is
is_refl e = let t = (==_iff e.id e.id).1 refl in ground arith

is_same : (e s : GoError) → e.id ≡ s.id → is e s ≡ true
unfolding is
is_same e s q = let t = (==_iff e.id s.id).1 q in ground arith

abbrev new : GoError → ℕ → ℕ → Registration
new s http grpc = record { sentinel = s; http_status = http; grpc_code = grpc }

register-matching :
    (s : GoError) (http grpc : ℕ) (rs : List Registration)
    → Separate s rs
    → matching s (register s http grpc rs) ≡ some (new s http grpc)
unfolding matching register
register-matching s http grpc [] h = rw (is_refl s) refl
register-matching s http grpc (r ∷ rs) (h, hs) = elim (Bool-cases (is r.sentinel s)) [
  | inl t ↦ rw (t, is_refl s) refl
  | inr f ↦ elim (Bool-cases (is s r.sentinel)) [
    | inl t ↦ absurd (false≢true (sym f ∙ is_same r.sentinel s (h t)))
    | inr g ↦ rw (f, g) (register-matching s http grpc rs hs)
  ]
]

-- After Register of an error that wraps no registered sentinel and carries no platform Error, ToHTTP
-- and ToGRPC give that error the two codes of this very call, whatever was registered for it before.
pub register-to_http :
    (s : GoError) (http grpc : ℕ) (rs : List Registration)
    → s.platform ≡ none
    → Separate s rs
    → (to_http (register s http grpc rs) s ≡ (http, record { status = http; detail = s.text }))
      × (to_grpc (register s http grpc rs) s ≡ (grpc, s.text))
unfolding to_http to_grpc
register-to_http s http grpc rs p h =
    let m = register-matching s http grpc rs h in
    (
      ap (http_from (register s http grpc rs) s) p ∙ ap (http_of s) m,
      ap (grpc_from (register s http grpc rs) s) p ∙ ap (grpc_of s) m,
    )

overwritten-matching :
    (s : GoError) (http grpc : ℕ) (r : Registration) (rs : List Registration)
    → is r.sentinel s ≡ true
    → matching r.sentinel (register s http grpc (r ∷ rs)) ≡ some (new s http grpc)
unfolding matching register
overwritten-matching s http grpc r rs w = rw (w, w) refl

-- Register of an error that the first registered sentinel wraps takes that sentinel's place, although
-- the two are different errors: the wrapping sentinel then converts to the codes of the wrapped one.
pub register_overwrites_wrapper :
    (s : GoError) (http grpc : ℕ) (r : Registration) (rs : List Registration)
    → is r.sentinel s ≡ true
    → r.sentinel.platform ≡ none
    → (to_http (register s http grpc (r ∷ rs)) r.sentinel
        ≡ (http, record { status = http; detail = r.sentinel.text }))
      × (to_grpc (register s http grpc (r ∷ rs)) r.sentinel ≡ (grpc, r.sentinel.text))
unfolding to_http to_grpc
register_overwrites_wrapper s http grpc r rs w p =
    let m = overwritten-matching s http grpc r rs w in
    let all = register s http grpc (r ∷ rs) in
    (
      ap (http_from all r.sentinel) p ∙ ap (http_of r.sentinel) m,
      ap (grpc_from all r.sentinel) p ∙ ap (grpc_of r.sentinel) m,
    )
