-- ===== src/Health/Laws.antt =====
-- health/: HTTP readiness and the overall gRPC check.
use platform_kit.Common.{
  ℕ, Bool, true, false, some, List, [], any, if◌then◌else◌, lit, str_eq, Dict, ℤ, ◌≡◌, ◌↔◌, arith,
  refl,
}
use platform_kit.Health.{
  ComponentStatus, is_down, new_handler, serve_http, ServingStatus, serving, not_serving, check,
}

-- With the same checkers, the overall gRPC check answers SERVING exactly if /ready answers 200, whatever
-- statuses have been set by hand.
pub check-serve_http :
    (checks : List ComponentStatus) (statuses : Dict ServingStatus) (timeout : ℤ)
    → (check (record { checks = checks; statuses = statuses }) [] ≡ some serving)
      ↔ ((serve_http (new_handler checks timeout) (lit "/ready")).0 ≡ 200)
unfolding check serve_http new_handler str_eq
check-serve_http checks statuses timeout = agree (any is_down checks)
  where
    agree :
        (down : Bool)
        → (some (if down then not_serving else serving) ≡ some serving)
          ↔ (◌≡◌ {A = ℕ} (if down then 503 else 200) 200)
    agree true = (λ e. cc, λ e. absurd (omega arith))
    agree false = (λ _. refl, λ _. refl)
