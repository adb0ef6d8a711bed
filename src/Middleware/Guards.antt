-- ===== src/Middleware/Guards.antt =====
-- The middleware that lets a request through or refuses it: middleware/auth.go, middleware/permission.go
-- and middleware/quota_check.go, with the client of quota/client.go. A guard maps the values of the
-- request's context and the request to the values for the next handler, or to the refusing response;
-- the detail of a response is kept without the error and the names that are formatted into it.
pub mod Laws
pub mod Quota
pub mod Access
use platform_kit.Common.{
  ℕ, suc, ◌+◌, Bool, true, false, ◌&&◌, ◌||◌, not, Option, none, some, List, [], ◌∷◌, leb, ltb,
  if◌then◌else◌, Str, lit, str_eq, is_empty, index_byte, take, drop, map,
}
use platform_kit.Middleware.Http.{Request, get}

pub record Claims : Type 0 where
  pub subject : Str
  pub issuer : Str
  pub email : Str
  pub scopes : List Str
  pub platform_admin : Bool

-- What the guards keep in the request's context: the claims and the logger's user id.
pub record Context : Type 0 where
  pub claims : Option Claims
  pub user_id : Option Str

pub data Outcome : Type 0 where
  passed : Context → Outcome
  refused : (status : ℕ) → (detail : Str) → Outcome

abbrev pub Guard : Type 0
Guard = Context → Request → Outcome

-- The next guard runs only if this one passes the request on.
abbrev pub on_passed : Guard → Request → Outcome → Outcome
on_passed next r (passed ctx) = next ctx r
on_passed next r (refused status detail) = refused status detail

unfoldable pub seq : Guard → Guard → Guard
seq first next ctx r = on_passed next r (first ctx r)

-- strings.EqualFold against a text of the letters b, e, a and r, which only ASCII letters fold to.
abbrev pub lower : ℕ → ℕ
lower c = if leb b'A' c && leb c b'Z' then c + 32 else c

unfoldable pub is_bearer : Str → Bool
unfolding str_eq
is_bearer s = str_eq (map lower s) (lit "bearer")

abbrev pub authenticated : Claims → Context → Context
authenticated c ctx = record ctx { claims = some c; user_id = some c.subject }

-- After TokenValidator.Validate; `none` is its error.
abbrev pub after_validate : Context → Option Claims → Outcome
after_validate ctx none = refused 401 (lit "invalid or expired token")
after_validate ctx (some c) = passed (authenticated c ctx)

module _ (validate : Str → Option Claims) where
  -- strings.SplitN(authHeader, " ", 2), by the index of the first space.
  abbrev pub auth_parts : Context → Str → Option ℕ → Outcome
  auth_parts ctx header none = refused 401 (lit "invalid authorization header format")
  auth_parts ctx header (some i) =
      if is_bearer (take i header)
      then after_validate ctx (validate (drop (suc i) header))
      else refused 401 (lit "invalid authorization header format")

  abbrev pub auth_header : Context → Str → Outcome
  auth_header ctx header =
      if is_empty header
      then refused 401 (lit "authorization header required")
      else auth_parts ctx header (index_byte header b' ')

  unfoldable pub auth : Guard
  unfolding get is_bearer
  auth ctx r = auth_header ctx (get (lit "Authorization") r.headers)

pub record PermissionResource : Type 0 where
  pub type : Str
  pub id : Str

-- The answer of a check, or its error.
pub data Checked : Type 0 where
  answer : Bool → Checked
  check_failed : Str → Checked

-- GetClaims, where a missing subject counts as missing claims.
unfoldable pub subject_of : Option Claims → Str
subject_of none = []
subject_of (some c) = c.subject

abbrev pub Checker : Type 0
Checker = (subject permission type id : Str) → Checked

-- FixedResourceType; `parameter` reads the id from the request.
unfoldable pub fixed_resource_type :
    Str → (Request → Str → Str) → Option Str → Request → Option PermissionResource
fixed_resource_type type parameter name r =
    let param : Str = elim name [ none ↦ lit "id" | some n ↦ if is_empty n then lit "id" else n ] in
    let id = parameter r param in
    if is_empty id then none else some (record { type = type; id = id })

module _ (permission : Str) where
  abbrev pub after_check : Context → Checked → Outcome
  after_check ctx (answer true) = passed ctx
  after_check ctx (answer false) = refused 403 (lit "permission denied")
  after_check ctx (check_failed e) = refused 503 (lit "permission check failed")

  abbrev pub after_extract : Checker → Context → Str → Option PermissionResource → Outcome
  after_extract check ctx subject none = refused 400 (lit "resource extraction")
  after_extract check ctx subject (some resource) =
      if is_empty resource.type || is_empty resource.id
      then refused 400 (lit "missing resource type or id")
      else after_check ctx (check subject permission resource.type resource.id)

  abbrev pub configured : Checker → (Request → Option PermissionResource) → Guard
  configured check extract ctx r =
      let subject = subject_of ctx.claims in
      if is_empty subject
      then refused 401 (lit "authenticated subject required")
      else after_extract check ctx subject (extract r)

  -- RequirePermission; `none` for a nil checker or extractor.
  unfoldable pub require_permission :
      Option Checker → Option (Request → Option PermissionResource) → Guard
  unfolding subject_of
  require_permission none extract ctx r = refused 500 (lit "permission middleware not configured")
  require_permission (some check) none ctx r =
      refused 500 (lit "permission middleware not configured")
  require_permission (some check) (some extract) ctx r = configured check extract ctx r

-- The HTTP exchange with identity-service: a transport error, or a status and a body; reading the body
-- may fail. The two shapes of the body are decoded by parameters.
pub data Exchange : Type 0 where
  no_response : Str → Exchange
  response : (status : ℕ) → Option Str → Exchange

pub record QuotaClient : Type 0 where
  pub base_url : Str
  pub exchange : (organization action : Str) → Exchange
  pub decode_envelope : Str → Option Bool
  pub decode_flat : Str → Option Bool

module _ (c : QuotaClient) where
  abbrev pub decode_body : Str → Checked
  decode_body body = elim (c.decode_envelope body) [
    | some allowed ↦ answer allowed
    | none ↦ elim (c.decode_flat body) [
      | some allowed ↦ answer allowed
      | none ↦ check_failed (lit "quota: decode body")
    ]
  ]

  abbrev pub read_exchange : Exchange → Checked
  read_exchange (no_response e) = check_failed e
  read_exchange (response status body) =
      if ltb status 200 || leb 300 status
      then check_failed (lit "quota: identity-service status")
      else (elim body [ none ↦ check_failed (lit "quota: read body") | some b ↦ decode_body b ])

  -- Client.Check of a client that is not nil.
  unfoldable pub quota_check : (organization action : Str) → Checked
  quota_check organization action =
      if is_empty c.base_url
      then answer true
      else if is_empty organization
      then check_failed (lit "quota: organization id is required")
      else read_exchange (c.exchange organization action)

abbrev pub after_quota : Context → Checked → Outcome
after_quota ctx (answer true) = passed ctx
after_quota ctx (answer false) = refused 402 (lit "quota_exceeded")
after_quota ctx (check_failed e) = passed ctx

-- NewCheckMiddleware; `none` for a nil client or a nil extractor.
unfoldable pub check_quota : Option QuotaClient → (action : Str) → Option (Request → Str) → Guard
unfolding quota_check
check_quota none action extract ctx r = passed ctx
check_quota (some c) action none ctx r = passed ctx
check_quota (some c) action (some extract) ctx r =
    if is_empty (extract r) then passed ctx else after_quota ctx (quota_check c (extract r) action)
