-- ===== src/Interceptor.antt =====
-- interceptor/auth.go and interceptor/chain.go: who may call a gRPC method. The two validators are
-- parameters. The unary and the stream interceptor take the same decision.
pub mod Laws
use platform_kit.Common.{
  ℕ, suc, Bool, true, false, Option, none, some, List, [], ◌∷◌, ◌++◌, any, if◌then◌else◌, Str, lit,
  str_eq, Dict, lookup, take, drop, index_byte,
}
use platform_kit.Middleware.Guards.{Claims, Context, is_bearer, authenticated}

-- A validator is none where it is nil.
pub record AuthConfig : Type 0 where
  pub token_validator : Option (Str → Option Claims)
  pub api_key_validator : Option (Str → Bool)
  pub skip_methods : List Str

pub data Decision : Type 0 where
  admitted : Context → Decision
  unauthenticated : (message : Str) → Decision

-- md.Get on the incoming metadata, whose keys are lower-case.
abbrev pub values_of : Dict (List Str) → Str → List Str
values_of md key = elim (lookup key md) [ none ↦ [] | some vs ↦ vs ]

abbrev pub after_token : Context → Option Claims → Decision
after_token ctx none = unauthenticated (lit "invalid or expired token")
after_token ctx (some claims) = admitted (authenticated claims ctx)

-- strings.SplitN(header, " ", 2)
abbrev pub split_token : (Str → Option Claims) → Context → Str → Option ℕ → Decision
split_token validate ctx header none = unauthenticated (lit "invalid authorization header format")
split_token validate ctx header (some i) =
    if is_bearer (take i header)
    then after_token ctx (validate (drop (suc i) header))
    else unauthenticated (lit "invalid authorization header format")

abbrev pub try_token : Context → Option (Str → Option Claims) → List Str → Decision
try_token ctx none auths = unauthenticated (lit "no credentials provided")
try_token ctx (some validate) [] = unauthenticated (lit "no credentials provided")
try_token ctx (some validate) (header ∷ auths) =
    split_token validate ctx header (index_byte header b' ')

-- The API key goes first: if one is sent and keys are checked, the token is not looked at.
abbrev pub try_key : Context → Option (Str → Bool) → List Str → Decision → Decision
try_key ctx none keys otherwise = otherwise
try_key ctx (some valid) [] otherwise = otherwise
try_key ctx (some valid) (key ∷ keys) otherwise =
    if valid key then admitted ctx else unauthenticated (lit "invalid api key")

-- authenticate; none for a context without metadata.
unfoldable pub authenticate_rpc : AuthConfig → Context → Option (Dict (List Str)) → Decision
unfolding is_bearer
authenticate_rpc c ctx none = unauthenticated (lit "missing metadata")
authenticate_rpc c ctx (some md) =
    try_key ctx c.api_key_validator (values_of md (lit "x-api-key"))
      (try_token ctx c.token_validator (values_of md (lit "authorization")))

-- UnaryAuth and StreamAuth: whether the handler runs, and with which context.
unfoldable pub unary_auth :
    AuthConfig → (method : Str) → Context → Option (Dict (List Str)) → Decision
unfolding authenticate_rpc
unary_auth c method ctx md =
    if any (str_eq method) c.skip_methods then admitted ctx else authenticate_rpc c ctx md

pub data Interceptor : Type 0 where
  recovery : Interceptor
  logging : Interceptor
  metrics : Interceptor
  auth : Interceptor

-- NewChain: the order of both slices, by whether Metrics and Auth are set.
unfoldable pub new_grpc_chain : (with_metrics with_auth : Bool) → List Interceptor
new_grpc_chain with_metrics with_auth =
    recovery
    ∷ logging
    ∷ ((if with_metrics then metrics ∷ [] else []) ++ (if with_auth then auth ∷ [] else []))
