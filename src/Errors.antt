-- ===== src/Errors.antt =====
-- errors/errors.go: the HTTP and gRPC codes of errors. An error value has an identity, the identities
-- of the errors that it wraps, its text, and the platform's Error that errors.As finds in it, if any.
pub mod Laws
use platform_kit.Common.{
  ℕ, Bool, Option, none, some, List, [], ◌∷◌, ◌++◌, ◌==◌, if◌then◌else◌, any, Str, lit,
}

-- Error
pub record PlatformError : Type 0 where
  pub code : Str
  pub message : Str
  pub http_status : ℕ
  pub grpc_code : ℕ

pub record GoError : Type 0 where
  pub id : ℕ
  pub wrapped : List ℕ
  pub text : Str
  pub platform : Option PlatformError

-- errors.Is, of errors without an Is method.
unfoldable pub is : GoError → GoError → Bool
is e target = any (λ i. i == target.id) (e.id ∷ e.wrapped)

pub record Registration : Type 0 where
  pub sentinel : GoError
  pub http_status : ℕ
  pub grpc_code : ℕ

unfoldable pub register : GoError → ℕ → ℕ → List Registration → List Registration
unfolding is
register s http grpc [] = record { sentinel = s; http_status = http; grpc_code = grpc } ∷ []
register s http grpc (r ∷ rs) =
    let rest = r ∷ register s http grpc rs in
    if is r.sentinel s
    then record { sentinel = s; http_status = http; grpc_code = grpc } ∷ rs
    else rest

-- The problem document without its fixed type and the title, which is the status's text.
pub record ErrorResponse : Type 0 where
  pub status : ℕ
  pub detail : Str

-- The first registration that matches, in both conversions.
unfoldable pub matching : GoError → List Registration → Option Registration
unfolding is
matching e [] = none
matching e (r ∷ rs) = let rest = matching e rs in if is e r.sentinel then some r else rest

abbrev pub http_of : GoError → Option Registration → ℕ × ErrorResponse
http_of e none = (500, record { status = 500; detail = e.text })
http_of e (some r) = (r.http_status, record { status = r.http_status; detail = e.text })

abbrev pub http_from : List Registration → GoError → Option PlatformError → ℕ × ErrorResponse
http_from rs e none = http_of e (matching e rs)
http_from rs e (some p) = (p.http_status, record { status = p.http_status; detail = p.message })

unfoldable pub to_http : List Registration → GoError → ℕ × ErrorResponse
unfolding matching
to_http rs e = http_from rs e e.platform

-- codes.Internal is 13. The result is the code and the message of the status.
abbrev pub grpc_of : GoError → Option Registration → ℕ × Str
grpc_of e none = (13, e.text)
grpc_of e (some r) = (r.grpc_code, e.text)

abbrev pub grpc_from : List Registration → GoError → Option PlatformError → ℕ × Str
grpc_from rs e none = grpc_of e (matching e rs)
grpc_from rs e (some p) = (p.grpc_code, p.message)

unfoldable pub to_grpc : List Registration → GoError → ℕ × Str
unfolding matching
to_grpc rs e = grpc_from rs e e.platform
