-- ===== src/Middleware/RateLimit.antt =====
-- middleware/ratelimit.go. The token bucket of golang.org/x/time/rate is a parameter: its state, a new
-- one, and Allow at a time. Times are numbers of nanoseconds; one lock makes each call one step.
pub mod Laws
use platform_kit.Common.{
  ℕ, zero, suc, ◌-◌, Bool, true, false, Option, none, some, List, [], ◌∷◌, ltb, ◌==◌, if◌then◌else◌,
  any, Str, lit, is_empty, take, index_byte, Dict, lookup, insert, delete_if,
}
use platform_kit.Middleware.Http.{Request, Response, get, set}

pub record Visitor (L : Type 0) : Type 0 where
  pub limiter : L
  pub last_seen : ℕ

-- rate.NewLimiter(rl.rate, rl.burst) and Limiter.Allow.
pub record Limiting : Type 1 where
  pub Limiter : Type 0
  pub fresh : Limiter
  pub allow : Limiter → ℕ → Bool × Limiter

-- The TTL of NewRateLimiter: five minutes if none is given.
unfoldable pub ttl_of : ℕ → ℕ
ttl_of ttl = if ttl == 0 then 300000000000 else ttl

module _ (lim : Limiting) where
  abbrev pub Visitors : Type 0
  Visitors = Dict (Visitor lim.Limiter)

  abbrev pub limiter_of : Option (Visitor lim.Limiter) → lim.Limiter
  limiter_of none = lim.fresh
  limiter_of (some v) = v.limiter

  unfoldable pub allow : Str → ℕ → Visitors → Bool × Visitors
  unfolding lookup insert
  allow ip now visitors =
      let (ok, limiter) = lim.allow (limiter_of (lookup ip visitors)) now in
      (ok, insert ip (record { limiter = limiter; last_seen = now }) visitors)

  -- now.Sub(lastSeen) > ttl; `lastSeen` is not after `now`.
  abbrev pub idle : ℕ → ℕ → Visitor lim.Limiter → Bool
  idle ttl now v = ltb ttl (now - v.last_seen)

  unfoldable pub evict : (ttl now : ℕ) → Visitors → Visitors
  unfolding delete_if
  evict ttl now visitors = delete_if (λ ip v. idle ttl now v) visitors

-- strings.TrimSpace on ASCII white space.
abbrev pub is_space : ℕ → Bool
is_space c = any (λ b. c == b) (9 ∷ 10 ∷ 11 ∷ 12 ∷ 13 ∷ 32 ∷ [])

unfoldable pub trim_left : Str → Str
trim_left [] = []
trim_left (c ∷ s) = let rest = trim_left s in if is_space c then rest else c ∷ s

unfoldable pub reverse_onto : Str → Str → Str
reverse_onto [] t = t
reverse_onto (c ∷ s) t = reverse_onto s (c ∷ t)

unfoldable pub trim_space : Str → Str
unfolding trim_left reverse_onto
trim_space s = reverse_onto (trim_left (reverse_onto (trim_left s) [])) []

-- `xff[:i]` for a comma at an index i > 0, and all of it otherwise.
abbrev before_comma : Str → Option ℕ → Str
before_comma s none = s
before_comma s (some zero) = s
before_comma s (some (suc i)) = take (suc i) s

-- net.SplitHostPort is a parameter; `none` is its error.
unfoldable pub real_ip : (Str → Option Str) → Request → Str
unfolding get trim_space
real_ip split_host r =
    let xff = get (lit "X-Forwarded-For") r.headers in
    let xri = get (lit "X-Real-Ip") r.headers in
    if is_empty xff
    then (if is_empty xri
        then (elim (split_host r.remote_addr) [ none ↦ r.remote_addr | some host ↦ host ])
        else trim_space xri)
    else trim_space (before_comma xff (index_byte xff b','))

-- The handler of RateLimiter.Middleware: the response, and the visitors after the request.
unfoldable pub limited :
    (lim : Limiting)
    → (Str → Option Str)
    → (Request → Response → Response)
    → ℕ
    → Visitors lim
    → Request
    → Response
    → Response × Visitors lim
unfolding allow real_ip set
limited lim split_host next now visitors r w =
    let (ok, visitors') = allow lim (real_ip split_host r) now visitors in
    let refused : Response = record {
      status = 429;
      headers = set (lit "Content-Type") (lit "application/problem+json") w.headers;
      detail = lit "rate limit exceeded";
    } in
    (if ok then next r w else refused, visitors')
