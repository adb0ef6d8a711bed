-- ===== src/Tests/Requests.antt =====
-- The middleware on concrete requests.
use platform_kit.Common.{
  ℕ, zero, suc, Bool, true, false, Option, none, some, List, [], ◌∷◌, ◌≡◌, ◌↔◌, refl, Str, lit,
  str_eq, lookup, pos, if◌then◌else◌, index_byte, has_prefix, has_suffix,
}
use platform_kit.Middleware.Http.{Request, Response, get}
use platform_kit.Middleware.RateLimit.{Limiting, allow, evict, real_ip}
use platform_kit.Middleware.RateLimit.Laws.{
  Step, arrive, sweep, run, answers, client_run, client_answers, answers-client_answers,
}
use platform_kit.Middleware.Cors.{CorsConfig, cors, match_origin}
use platform_kit.Middleware.Cors.Origins.{Allows, match_origin_iff}
use platform_kit.Middleware.Cors.Laws.{Verdict, acao, cors-Verdict}
use platform_kit.Middleware.Guards.{
  Claims, Context, auth, authenticated, seq, require_permission, Checker, answer, check_quota,
  PermissionResource, fixed_resource_type, QuotaClient, response,
}
use platform_kit.Middleware.Chain.{
  ChainConfig, new_chain, recovery, request_id, logging, cors as cors_layer, auth as auth_layer,
}
use platform_kit.Middleware.Guards.Laws.{Bearer}
use platform_kit.Middleware.Guards.Access.{
  Permitted, auth-require_permission, QuotaVerdict, check_quota-Verdict,
}

-- A bucket of two tokens that is never refilled.
abbrev spend : ℕ → ℕ → Bool × ℕ
spend zero now = (false, zero)
spend (suc n) now = (true, n)

abbrev two_tokens : Limiting
two_tokens = record { Limiter = ℕ; fresh = 2; allow = spend }

abbrev steps : List Step
steps =
    arrive (lit "a") 1
    ∷ arrive (lit "b") 1
    ∷ arrive (lit "a") 2
    ∷ arrive (lit "a") 3
    ∷ sweep 20
    ∷ arrive (lit "a") 21
    ∷ []

answers-client_answers_example :
    (lookup (lit "a") (run two_tokens 10 steps []) ≡ client_run two_tokens 10 (lit "a") steps none)
    × (answers two_tokens 10 (lit "a") steps [] ≡ client_answers two_tokens 10 (lit "a") steps none)
unfolding lookup
answers-client_answers_example = answers-client_answers two_tokens 10 (lit "a") steps [] tt

answered : answers two_tokens 10 (lit "a") steps [] ≡ true ∷ true ∷ false ∷ true ∷ []
unfolding allow evict str_eq
answered = refl

match_origin_iff_example :
    (match_origin (lit "https://*.example.com") (lit "https://app.example.com") ≡ true)
    ↔ Allows (lit "https://*.example.com") (lit "https://app.example.com")
match_origin_iff_example =
    match_origin_iff (lit "https://*.example.com") (lit "https://app.example.com")

abbrev config : CorsConfig
config = record {
  allowed_origins = lit "https://*.example.com" ∷ [];
  allowed_methods = [];
  allowed_headers = [];
  exposed_headers = [];
  allow_credentials = true;
  max_age = pos 600;
}

abbrev from_app : Request
from_app = record {
  method = lit "GET";
  headers =
      (lit "Origin", lit "https://app.example.com") ∷ (lit "Authorization", lit "Bearer abc") ∷ [];
  remote_addr = lit "10.0.0.1:80";
}

abbrev blank : Response
blank = record { status = 200; headers = []; detail = [] }

cors-Verdict_example :
    Verdict config
      (get (lit "Origin") from_app.headers)
      (lookup acao (cors config (λ r w. w) from_app blank).headers)
unfolding lookup
cors-Verdict_example = cors-Verdict config (λ r w. w) from_app blank (λ v. refl) refl

matched :
    (match_origin (lit "https://*.example.com") (lit "https://app.example.com") ≡ true)
    × (match_origin (lit "https://*.example.com") (lit "https://.example.com") ≡ false)
unfolding match_origin str_eq index_byte has_prefix has_suffix
matched = (refl, refl)

abbrev alice : Claims
alice = record {
  subject = lit "alice";
  issuer = lit "identity";
  email = [];
  scopes = [];
  platform_admin = false;
}

abbrev anonymous : Context
anonymous = record { claims = none; user_id = none }

abbrev validate : Str → Option Claims
validate token = if str_eq token (lit "abc") then some alice else none

abbrev check : Checker
check subject permission type id = answer (str_eq subject (lit "alice"))

abbrev extract : Request → Option PermissionResource
extract = fixed_resource_type (lit "repository") (λ r name. lit "7") none

auth-require_permission_example :
    (claims : Claims) × Bearer validate (get (lit "Authorization") from_app.headers) claims
    × Permitted (lit "write") (some check) (some extract) claims.subject from_app
    × (authenticated alice anonymous ≡ authenticated claims anonymous)
unfolding seq auth require_permission get str_eq index_byte fixed_resource_type
auth-require_permission_example =
    auth-require_permission validate (lit "write") (some check) (some extract) anonymous
      (authenticated alice anonymous) from_app refl

abbrev quota : QuotaClient
quota = record {
  base_url = lit "http://identity";
  exchange = λ organization action. response 200 (some (lit "no"));
  decode_envelope = λ body. none;
  decode_flat = λ body. some false;
}

check_quota-Verdict_example :
    QuotaVerdict
      (some quota)
      (lit "deploy")
      (some (λ r. lit "org"))
      anonymous
      from_app
      (check_quota (some quota) (lit "deploy") (some (λ r. lit "org")) anonymous from_app)
check_quota-Verdict_example =
    check_quota-Verdict (some quota) (lit "deploy") (some (λ r. lit "org")) anonymous from_app

addresses :
    (real_ip (λ a. some (lit "10.0.0.1")) from_app ≡ lit "10.0.0.1")
    × (real_ip
          (λ a. none)
          (record from_app { headers = (lit "X-Forwarded-For", lit " 1.2.3.4 , 5.6.7.8") ∷ [] })
        ≡ lit "1.2.3.4")
unfolding real_ip str_eq index_byte
addresses = (refl, refl)

abbrev plain_chain : ChainConfig
plain_chain = record {
  has_metrics = false;
  has_tracing = false;
  has_cors = true;
  has_rate_limiter = false;
  has_auth = true;
}

stacked : new_chain plain_chain ≡ recovery ∷ request_id ∷ logging ∷ cors_layer ∷ auth_layer ∷ []
unfolding new_chain
stacked = refl
