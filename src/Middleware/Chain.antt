-- ===== src/Middleware/Chain.antt =====
-- middleware/chain.go: which middleware NewChain stacks, outermost first, and the writer that captures
-- the status of a response; middleware/authheaders.go.
pub mod Laws
use platform_kit.Common.{
  ℕ, Bool, true, false, Option, none, some, List, [], ◌∷◌, ◌++◌, if◌then◌else◌, Str, lit, is_empty,
  has_prefix, drop,
}
use platform_kit.Middleware.Http.{Request, get}
use platform_kit.Middleware.RateLimit.{trim_space}

pub data Layer : Type 0 where
  recovery : Layer
  request_id : Layer
  logging : Layer
  metrics : Layer
  tracing : Layer
  cors : Layer
  rate_limit : Layer
  auth : Layer

-- Which optional parts of Config are not nil.
pub record ChainConfig : Type 0 where
  pub has_metrics : Bool
  pub has_tracing : Bool
  pub has_cors : Bool
  pub has_rate_limiter : Bool
  pub has_auth : Bool

abbrev pub append_if : Bool → Layer → List Layer → List Layer
append_if b l chain = if b then chain ++ l ∷ [] else chain

unfoldable pub new_chain : ChainConfig → List Layer
new_chain c = append_if c.has_auth auth (
    append_if c.has_rate_limiter rate_limit (
      append_if c.has_cors cors (
        append_if c.has_tracing tracing
          (append_if c.has_metrics metrics (recovery ∷ request_id ∷ logging ∷ [])))))

-- responseWriter, with the calls that it passes on to the writer that it wraps.
pub record ResponseWriter : Type 0 where
  pub status : ℕ
  pub wrote_header : Bool
  pub statuses : List ℕ
  pub written : List Str

unfoldable pub write_header : ℕ → ResponseWriter → ResponseWriter
write_header code w =
    let captured = if w.wrote_header then w else record w { status = code; wrote_header = true } in
    record captured { statuses = captured.statuses ++ code ∷ [] }

unfoldable pub write_body : Str → ResponseWriter → ResponseWriter
unfolding write_header
write_body b w =
    let w' = if w.wrote_header then w else write_header 200 w in
    record w' { written = w'.written ++ b ∷ [] }

-- uuid.Parse is a parameter; `none` stands for uuid.Nil.
module _ {U : Type 0} (parse : Str → Option U) where
  unfoldable pub first_parsed : List Str → Request → Option U
  unfolding get
  first_parsed [] r = none
  first_parsed (name ∷ names) r =
      let v = get name r.headers in
      let rest = first_parsed names r in
      if is_empty v then rest else (elim (parse v) [ some id ↦ some id | none ↦ rest ])

  unfoldable pub extract_organization_id : Request → Option U
  unfolding first_parsed
  extract_organization_id r = first_parsed (lit "X-Organization-ID" ∷ lit "X-Tenant-ID" ∷ []) r

  unfoldable pub extract_user_id : Request → Option U
  unfolding get
  extract_user_id r =
      let v = get (lit "X-User-ID") r.headers in if is_empty v then none else parse v

unfoldable pub extract_bearer_token : Request → Str
unfolding get has_prefix trim_space
extract_bearer_token r =
    let h = get (lit "Authorization") r.headers in
    if has_prefix h (lit "Bearer ") then trim_space (drop 7 h) else []
