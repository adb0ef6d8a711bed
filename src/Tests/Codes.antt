-- ===== src/Tests/Codes.antt =====
-- Registered errors.
use platform_kit.Common.{none, [], ◌∷◌, ◌≡◌, refl, lit}
use platform_kit.Errors.{GoError, Registration, is, register, to_http, to_grpc}
use platform_kit.Errors.Laws.{register_overwrites_wrapper}

abbrev not_found : GoError
not_found = record { id = 1; wrapped = []; text = lit "not found"; platform = none }

-- An error that wraps `not_found`, and one that wraps the former.
abbrev no_spec : GoError
no_spec = record { id = 2; wrapped = 1 ∷ []; text = lit "no spec"; platform = none }

abbrev spec_code : Registration
spec_code = record { sentinel = no_spec; http_status = 410; grpc_code = 5 }

register_overwrites_wrapper_example :
    (to_http (register not_found 404 5 (spec_code ∷ [])) no_spec
      ≡ (404, record { status = 404; detail = no_spec.text }))
    × (to_grpc (register not_found 404 5 (spec_code ∷ [])) no_spec ≡ (5, no_spec.text))
unfolding is
register_overwrites_wrapper_example =
    register_overwrites_wrapper not_found 404 5 spec_code [] refl refl

-- The registration of the wrapping error is lost: it gets the codes of the wrapped one.
lost : (to_http (register not_found 404 5 (spec_code ∷ [])) no_spec).0 ≡ 404
unfolding to_http register
lost = refl
