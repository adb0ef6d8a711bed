-- ===== src/Tests/Rpcs.antt =====
-- A gRPC call with a bearer token, and a service with one failing dependency.
use platform_kit.Common.{
  true, false, none, some, List, [], ◌∷◌, ◌≡◌, ◌⊎◌, ◌↔◌, refl, Str, lit, str_eq, Dict, lookup, any,
  pos, index_byte, if◌then◌else◌,
}
use platform_kit.Middleware.Guards.{Claims, Context, is_bearer, authenticated}
use platform_kit.Interceptor.{AuthConfig, admitted, unauthenticated, unary_auth}
use platform_kit.Interceptor.Laws.{ByKey, ByToken, unary_auth-Credential}
use platform_kit.Health.{ComponentStatus, ping_status, new_handler, serve_http, check, serving}
use platform_kit.Health.Laws.{check-serve_http}

abbrev alice : Claims
alice = record {
  subject = lit "alice";
  issuer = [];
  email = [];
  scopes = [];
  platform_admin = false;
}

abbrev anonymous : Context
anonymous = record { claims = none; user_id = none }

abbrev config : AuthConfig
config = record {
  token_validator = some (λ t. if str_eq t (lit "t") then some alice else none);
  api_key_validator = some (λ k. str_eq k (lit "k"));
  skip_methods = lit "/health" ∷ [];
}

abbrev metadata : Dict (List Str)
metadata = (lit "authorization", lit "Bearer t" ∷ []) ∷ []

admits :
    unary_auth config (lit "/work") anonymous (some metadata)
    ≡ admitted (authenticated alice anonymous)
unfolding unary_auth lookup str_eq index_byte is_bearer
admits = refl

unary_auth-Credential_example :
    ((any (str_eq (lit "/work")) config.skip_methods ≡ true)
      × (authenticated alice anonymous ≡ anonymous))
    ⊎ ((m : Dict (List Str)) × (some metadata ≡ some m)
        × (ByKey config m anonymous (authenticated alice anonymous)
            ⊎ ByToken config m anonymous (authenticated alice anonymous)))
unary_auth-Credential_example =
    unary_auth-Credential config (lit "/work") anonymous (authenticated alice anonymous)
      (some metadata) admits

-- An invalid key beside a valid token.
refuses :
    unary_auth config (lit "/work") anonymous (some ((lit "x-api-key", lit "z" ∷ []) ∷ metadata))
    ≡ unauthenticated (lit "invalid api key")
unfolding unary_auth lookup str_eq
refuses = refl

abbrev checks : List ComponentStatus
checks = ping_status (lit "database") none ∷ ping_status (lit "redis") (some (lit "refused")) ∷ []

ready_agrees :
    (check (record { checks = checks; statuses = [] }) [] ≡ some serving)
    ↔ ((serve_http (new_handler checks (pos 0)) (lit "/ready")).0 ≡ 200)
ready_agrees = check-serve_http checks [] (pos 0)
