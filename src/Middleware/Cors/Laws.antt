-- ===== src/Middleware/Cors/Laws.antt =====
-- When a response carries Access-Control-Allow-Origin.
use mathlib.Core.Bool.{false≢true}
use platform_kit.Common.{
  itoa, ltb_ℤ, pos, pos_part, Bool, true, false, not, Option, none, some, List, [], ◌∷◌, ◌≡◌, refl,
  sym, ◌∙◌, inl, inr, ◌⊎◌, arith, if-both, any-In, In-any, In, Str, lit, str_eq, is_empty, lookup,
  lookup-insert, join, Dict,
}
use platform_kit.Middleware.Http.{Request, Response, get, set, add}
use platform_kit.Middleware.Cors.{
  methods_of, headers_of, CorsConfig, Handler, cors, with_header, allow_origin, preflight,
  match_any_origin, match_origin, is_preflight,
}
use platform_kit.Middleware.Cors.Origins.{Allows, match_origin_iff}

abbrev pub acao : Str
acao = lit "Access-Control-Allow-Origin"

lookup-set :
    (name v : Str) (h : Dict (List Str))
    → str_eq name acao ≡ false
    → lookup acao (set name v h) ≡ lookup acao h
unfolding set
lookup-set name v h f = lookup-insert name acao (v ∷ []) h ∙ rw f refl

lookup-add :
    (name v : Str) (h : Dict (List Str))
    → str_eq name acao ≡ false
    → lookup acao (add name v h) ≡ lookup acao h
unfolding add
lookup-add name v h f = lookup-insert name acao _ h ∙ rw f refl

lookup-with_header :
    (b : Bool) (name v : Str) (w : Response)
    → str_eq name acao ≡ false
    → lookup acao (with_header b name v w).headers ≡ lookup acao w.headers
lookup-with_header true name v w f = lookup-set name v w.headers f
lookup-with_header false name v w f = refl

allow_origin_header :
    (c : CorsConfig) (origin : Str) (w : Response)
    → lookup acao (allow_origin c origin w).headers ≡ some (origin ∷ [])
unfolding allow_origin str_eq set
allow_origin_header c origin w =
    let exposed = join c.exposed_headers (lit ", ") in
    let w1 = with_header true (lit "Access-Control-Allow-Origin") origin w in
    let w2 =
      with_header c.allow_credentials (lit "Access-Control-Allow-Credentials") (lit "true") w1 in
    let w3 =
      with_header (not (is_empty exposed)) (lit "Access-Control-Expose-Headers") exposed w2 in
    lookup-add (lit "Vary") (lit "Origin") w3.headers refl
    ∙ lookup-with_header (not (is_empty exposed)) (lit "Access-Control-Expose-Headers") exposed w2
        refl
    ∙ lookup-with_header c.allow_credentials (lit "Access-Control-Allow-Credentials") (lit "true")
        w1 refl
    ∙ lookup-insert acao acao (origin ∷ []) w.headers

preflight_header :
    (c : CorsConfig) (w : Response) → lookup acao (preflight c w).headers ≡ lookup acao w.headers
unfolding preflight str_eq
preflight_header c w =
    let w1 =
      with_header true (lit "Access-Control-Allow-Methods") (join (methods_of c) (lit ", ")) w in
    let w2 =
      with_header true (lit "Access-Control-Allow-Headers") (join (headers_of c) (lit ", ")) w1 in
    lookup-with_header (ltb_ℤ (pos 0) c.max_age) (lit "Access-Control-Max-Age")
      (itoa (pos_part c.max_age)) w2 refl
    ∙ lookup-with_header true (lit "Access-Control-Allow-Headers") (join (headers_of c) (lit ", "))
        w1 refl
    ∙ lookup-with_header true (lit "Access-Control-Allow-Methods") (join (methods_of c) (lit ", "))
        w refl

-- Some pattern of the configuration allows the origin, which is not empty.
abbrev pub Allowed : CorsConfig → Str → Type 0
Allowed c origin =
    (is_empty origin ≡ false) × ((p : Str) × In p c.allowed_origins × Allows p origin)

match-Allowed :
    (c : CorsConfig) (origin : Str)
    → is_empty origin ≡ false
    → match_any_origin c.allowed_origins origin ≡ true
    → Allowed c origin
unfolding match_any_origin
match-Allowed c origin n h =
    let (p, m, e) = any-In (λ p. match_origin p origin) c.allowed_origins h in
    (n, (p, m, (match_origin_iff p origin).0 e))

Allowed-match :
    (c : CorsConfig) (origin : Str)
    → Allowed c origin
    → match_any_origin c.allowed_origins origin ≡ true
unfolding match_any_origin
Allowed-match c origin (n, (p, m, a)) =
    In-any (λ p. match_origin p origin) c.allowed_origins p m ((match_origin_iff p origin).1 a)

-- The header stands for the request's origin exactly if that is allowed.
abbrev pub Verdict : CorsConfig → Str → Option (List Str) → Type 0
Verdict c origin h =
    (Allowed c origin × (h ≡ some (origin ∷ []))) ⊎ ((Allowed c origin → ⊥) × (h ≡ none))

-- If the handler behind CORS leaves Access-Control-Allow-Origin alone and the response does not have
-- it yet, then the response carries it, with the request's own origin as its only value, exactly if
-- that origin is not empty and some pattern of the configuration allows it; else it does not.
pub cors-Verdict :
    (c : CorsConfig) (next : Handler) (r : Request) (w : Response)
    → ((v : Response) → lookup acao (next r v).headers ≡ lookup acao v.headers)
    → lookup acao w.headers ≡ none
    → Verdict c (get (lit "Origin") r.headers) (lookup acao (cors c next r w).headers)
unfolding cors
cors-Verdict c next r w keeps clean =
    let origin = get (lit "Origin") r.headers in
    let P : Response → Type 0 = λ x. Verdict c origin (lookup acao x.headers) in
    let refused : (Allowed c origin → ⊥) → P (next r w) = λ no. inr (no, keeps w ∙ clean) in
    if-both P (is_empty origin) _ _ (λ t. refused (λ a. absurd (false≢true (sym a.0 ∙ t))))
      (λ n.
        if-both P (not (match_any_origin c.allowed_origins origin)) _ _
          (λ t.
            refused (λ a. let m = Allowed-match c origin a in absurd (false≢true (ground arith))))
          (λ f.
            let a = match-Allowed c origin n (ground arith) in
            if-both P (is_preflight r) _ _
              (λ t. inl (a, preflight_header c _ ∙ allow_origin_header c origin w))
              (λ g. inl (a, keeps _ ∙ allow_origin_header c origin w))))
