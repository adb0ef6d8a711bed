-- ===== src/Middleware/Cors.antt =====
-- middleware/cors.go. A handler is a function from the request and the response so far to a response.
pub mod Origins
pub mod Laws
use platform_kit.Common.{
  ℕ, suc, ◌+◌, Bool, true, false, ◌&&◌, ◌||◌, not, Option, none, some, List, [], ◌∷◌, leb, ltb,
  length, if◌then◌else◌, any, take, drop, Str, lit, str_eq, is_empty, join, itoa, has_prefix,
  has_suffix, index_byte, ℤ, pos, negsuc, ltb_ℤ, pos_part,
}
use platform_kit.Middleware.Http.{Request, Response, get, set, add}

pub record CorsConfig : Type 0 where
  pub allowed_origins : List Str
  pub allowed_methods : List Str
  pub allowed_headers : List Str
  pub exposed_headers : List Str
  pub allow_credentials : Bool
  pub max_age : ℤ

-- A pattern with its first '*' at an index, or without one.
abbrev pub match_wildcard : Str → Str → Option ℕ → Bool
match_wildcard pattern origin none = false
match_wildcard pattern origin (some i) =
    let prefix = take i pattern in
    let suffix = drop (suc i) pattern in
    if leb (length origin) (length prefix + length suffix)
    then false
    else has_prefix origin prefix && has_suffix origin suffix

unfoldable pub match_origin : Str → Str → Bool
match_origin pattern origin =
    if str_eq pattern origin then true else match_wildcard pattern origin (index_byte pattern b'*')

unfoldable pub match_any_origin : List Str → Str → Bool
unfolding match_origin
match_any_origin patterns origin = any (λ p. match_origin p origin) patterns

abbrev pub methods_of : CorsConfig → List Str
methods_of c =
    if is_empty c.allowed_methods
    then lit "GET" ∷ lit "POST" ∷ lit "PUT" ∷ lit "PATCH" ∷ lit "DELETE" ∷ lit "OPTIONS" ∷ []
    else c.allowed_methods

abbrev pub headers_of : CorsConfig → List Str
headers_of c =
    if is_empty c.allowed_headers
    then lit "Accept" ∷ lit "Authorization" ∷ lit "Content-Type" ∷ lit "X-Request-Id" ∷ []
    else c.allowed_headers

abbrev pub Handler : Type 0
Handler = Request → Response → Response

abbrev pub with_header : Bool → Str → Str → Response → Response
with_header b name v w = if b then record w { headers = set name v w.headers } else w

-- The headers of every allowed cross-origin response.
unfoldable pub allow_origin : CorsConfig → Str → Response → Response
unfolding set add join
allow_origin c origin w =
    let exposed = join c.exposed_headers (lit ", ") in
    let w1 = with_header true (lit "Access-Control-Allow-Origin") origin w in
    let w2 =
      with_header c.allow_credentials (lit "Access-Control-Allow-Credentials") (lit "true") w1 in
    let w3 =
      with_header (not (is_empty exposed)) (lit "Access-Control-Expose-Headers") exposed w2 in
    record w3 { headers = add (lit "Vary") (lit "Origin") w3.headers }

-- The answer to a preflight request.
unfoldable pub preflight : CorsConfig → Response → Response
unfolding set join itoa
preflight c w =
    let w1 =
      with_header true (lit "Access-Control-Allow-Methods") (join (methods_of c) (lit ", ")) w in
    let w2 =
      with_header true (lit "Access-Control-Allow-Headers") (join (headers_of c) (lit ", ")) w1 in
    let w3 =
      with_header (ltb_ℤ (pos 0) c.max_age) (lit "Access-Control-Max-Age")
        (itoa (pos_part c.max_age)) w2 in
    record w3 { status = 204 }

abbrev pub is_preflight : Request → Bool
is_preflight r =
    str_eq r.method (lit "OPTIONS")
    && not (is_empty (get (lit "Access-Control-Request-Method") r.headers))

unfoldable pub cors : CorsConfig → Handler → Handler
unfolding get match_any_origin allow_origin preflight
cors c next r w =
    let origin = get (lit "Origin") r.headers in
    if is_empty origin
    then next r w
    else if not (match_any_origin c.allowed_origins origin)
    then next r w
    else if is_preflight r
    then preflight c (allow_origin c origin w)
    else next r (allow_origin c origin w)
