-- ===== src/Health.antt =====
-- health/health.go and health/grpc.go: liveness and readiness over HTTP and gRPC. A checker is the status
-- that its Check returns; the goroutines of a run each fill the slot of their checker.
pub mod Laws
use platform_kit.Common.{
  ℕ, ◌*◌, ◌^◌, Bool, true, false, ◌||◌, Option, none, some, List, [], ◌∷◌, any, all, map,
  if◌then◌else◌, Str, lit, str_eq, is_empty, Dict, lookup, insert, ℤ, pos, is_zero, ◌≡◌, ◌↔◌, arith,
  refl, not,
}

pub record ComponentStatus : Type 0 where
  pub name : Str
  pub up : Bool
  pub message : Str

-- DatabaseChecker, RedisChecker and KafkaChecker, by the error of the ping or the dial.
unfoldable pub ping_status : (name : Str) → Option Str → ComponentStatus
ping_status name none = record { name = name; up = true; message = [] }
ping_status name (some e) = record { name = name; up = false; message = e }

pub record Handler : Type 0 where
  pub checks : List ComponentStatus
  pub timeout : ℤ

unfoldable pub new_handler : List ComponentStatus → ℤ → Handler
new_handler checks timeout = record {
  checks = checks;
  timeout = if is_zero timeout then pos (5 * 10 ^ 9) else timeout;
}

pub record Response : Type 0 where
  pub up : Bool
  pub components : List ComponentStatus

abbrev pub is_down : ComponentStatus → Bool
is_down c = not c.up

unfoldable pub handle_health : ℕ × Response
handle_health = (200, record { up = true; components = [] })

unfoldable pub handle_ready : Handler → ℕ × Response
handle_ready h =
    let down = any is_down h.checks in
    (if down then 503 else 200, record { up = not down; components = h.checks })

unfoldable pub serve_http : Handler → (path : Str) → ℕ × Response
unfolding handle_health handle_ready
serve_http h path = if str_eq path (lit "/ready") then handle_ready h else handle_health

pub data ServingStatus : Type 0 where
  unknown : ServingStatus
  serving : ServingStatus
  not_serving : ServingStatus
  service_unknown : ServingStatus

pub record GrpcServer : Type 0 where
  pub checks : List ComponentStatus
  pub statuses : Dict ServingStatus

unfoldable pub set_serving_status : Str → ServingStatus → GrpcServer → GrpcServer
set_serving_status service status s = record s { statuses = insert service status s.statuses }

unfoldable pub check_overall : GrpcServer → ServingStatus
check_overall s = if any is_down s.checks then not_serving else serving

-- Check; none is NOT_FOUND.
unfoldable pub check : GrpcServer → (service : Str) → Option ServingStatus
unfolding check_overall
check s service = if is_empty service then some (check_overall s) else lookup service s.statuses
