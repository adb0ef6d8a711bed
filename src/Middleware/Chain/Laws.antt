-- ===== src/Middleware/Chain/Laws.antt =====
-- The order of the chain.
use platform_kit.Common.{
  ℕ, ◌<◌, Bool, true, false, List, [], ◌∷◌, ◌++◌, ◌≡◌, ◌↔◌, ◌⊎◌, ap, ◌∙◌, refl, inl, inr, arith,
  All, In,
}
use platform_kit.Middleware.Chain.{
  Layer, recovery, request_id, logging, metrics, tracing, cors, rate_limit, auth, ChainConfig,
  new_chain, append_if,
}

-- The documented position of a layer, and whether the configuration asks for it.
abbrev pub position : Layer → ℕ
position recovery = 0
position request_id = 1
position logging = 2
position metrics = 3
position tracing = 4
position cors = 5
position rate_limit = 6
position auth = 7

abbrev pub wanted : ChainConfig → Layer → Bool
wanted c recovery = true
wanted c request_id = true
wanted c logging = true
wanted c metrics = c.has_metrics
wanted c tracing = c.has_tracing
wanted c cors = c.has_cors
wanted c rate_limit = c.has_rate_limiter
wanted c auth = c.has_auth

-- Each layer stands before all that follow.
abbrev pub Ordered : List Layer → Type 0
Ordered [] = Unit
Ordered (l ∷ ls) = All (λ m. position l < position m) ls × Ordered ls

append-Ordered :
    (b : Bool) (l : Layer) (ls : List Layer)
    → All (λ m. position m < position l) ls
    → Ordered ls
    → Ordered (append_if b l ls)
append-Ordered false l ls h o = o
append-Ordered true l ls h o = snoc ls h o
  where
    snoc_all :
        (k : Layer) (ls : List Layer)
        → position k < position l
        → All (λ m. position k < position m) ls
        → All (λ m. position k < position m) (ls ++ l ∷ [])
    snoc_all k [] p h = (p, tt)
    snoc_all k (m ∷ ls) p (h, hs) = (h, snoc_all k ls p hs)

    snoc :
        (ls : List Layer)
        → All (λ m. position m < position l) ls
        → Ordered ls
        → Ordered (ls ++ l ∷ [])
    snoc [] h o = (tt, tt)
    snoc (k ∷ ls) (h, hs) (a, o) = (snoc_all k ls h a, snoc ls hs o)

append-below :
    (b : Bool) (l m : Layer) (ls : List Layer)
    → position m < position l
    → All (λ k. position k < position l) ls
    → All (λ k. position k < position l) (append_if b m ls)
append-below false l m ls p h = h
append-below true l m [] p h = (p, tt)
append-below true l m (k ∷ ls) p (h, hs) = (h, append-below true l m ls p hs)

append-In :
    (b : Bool) (l m : Layer) (ls : List Layer)
    → In m (append_if b l ls) ↔ (In m ls ⊎ ((b ≡ true) × (m ≡ l)))
append-In false l m ls = (λ i. inl i, elim [ inl i ↦ i | inr (e, q) ↦ cc ])
append-In true l m [] = (
  elim [ inl e ↦ inr (refl, e) | inr n ↦ elim n [ ] ],
  elim [ inl n ↦ elim n [ ] | inr (t, e) ↦ inl e ],
)
append-In true l m (k ∷ ls) =
    let (to, from) = append-In true l m ls in
    (
      elim [ inl e ↦ inl (inl e) | inr i ↦ elim (to i) [ inl j ↦ inl (inr j) | inr q ↦ inr q ] ],
      elim [
        | inl i ↦ elim i [ inl e ↦ inl e | inr j ↦ inr (from (inl j)) ]
        | inr q ↦ inr (from (inr q))
      ],
    )

abbrev Below : Layer → List Layer → Type 0
Below l ls = All (λ m. position m < position l) ls

Below-weaken : (l m : Layer) (ls : List Layer) → position l < position m → Below l ls → Below m ls
Below-weaken l m [] p h = tt
Below-weaken l m (k ∷ ls) p (h, hs) = (omega (arith, h, p), Below-weaken l m ls p hs)

-- One more optional layer, before the layers from m on.
step :
    (b : Bool) (l m : Layer) (ls : List Layer)
    → position l < position m
    → Ordered ls × Below l ls
    → Ordered (append_if b l ls) × Below m (append_if b l ls)
step b l m ls p (o, h) =
    (append-Ordered b l ls h o, append-below b m l ls p (Below-weaken l m ls p h))

-- The chain before each optional layer.
abbrev stage0 : List Layer
stage0 = recovery ∷ request_id ∷ logging ∷ []

abbrev stage1 : ChainConfig → List Layer
stage1 c = append_if c.has_metrics metrics stage0

abbrev stage2 : ChainConfig → List Layer
stage2 c = append_if c.has_tracing tracing (stage1 c)

abbrev stage3 : ChainConfig → List Layer
stage3 c = append_if c.has_cors cors (stage2 c)

abbrev stage4 : ChainConfig → List Layer
stage4 c = append_if c.has_rate_limiter rate_limit (stage3 c)

new_chain-Ordered : (c : ChainConfig) → Ordered (new_chain c)
unfolding new_chain
new_chain-Ordered c =
    let c0 = recovery ∷ request_id ∷ logging ∷ [] in
    let c1 = append_if c.has_metrics metrics c0 in
    let c2 = append_if c.has_tracing tracing c1 in
    let c3 = append_if c.has_cors cors c2 in
    let c4 = append_if c.has_rate_limiter rate_limit c3 in
    let s1 = step c.has_metrics metrics tracing c0 (omega arith) (
      ((omega arith, (omega arith, tt)), ((omega arith, tt), (tt, tt))),
      (omega arith, (omega arith, (omega arith, tt))),
    ) in
    let s2 = step c.has_tracing tracing cors c1 (omega arith) s1 in
    let s3 = step c.has_cors cors rate_limit c2 (omega arith) s2 in
    let s4 = step c.has_rate_limiter rate_limit auth c3 (omega arith) s3 in
    append-Ordered c.has_auth auth c4 s4.1 s4.0

kept : (b : Bool) (l m : Layer) (ls : List Layer) → In m ls → In m (append_if b l ls)
kept b l m ls i = (append-In b l m ls).1 (inl i)

added : (b : Bool) (l : Layer) (ls : List Layer) → b ≡ true → In l (append_if b l ls)
added b l ls e = (append-In b l l ls).1 (inr (e, refl))

asked :
    (c : ChainConfig) (b : Bool) (l m : Layer) (ls : List Layer)
    → (b ≡ true → wanted c l ≡ true)
    → (In m ls → wanted c m ≡ true)
    → In m (append_if b l ls)
    → wanted c m ≡ true
asked c b l m ls f g i = elim ((append-In b l m ls).0 i) [
  | inl j ↦ g j
  | inr (e, q) ↦ ap (wanted c) q ∙ f e
]

first-wanted :
    (c : ChainConfig) (m : Layer) → In m (recovery ∷ request_id ∷ logging ∷ []) → wanted c m ≡ true
first-wanted c m (inl e) = ap (wanted c) e
first-wanted c m (inr (inl e)) = ap (wanted c) e
first-wanted c m (inr (inr (inl e))) = ap (wanted c) e
first-wanted c m (inr (inr (inr n))) = elim n [ ]

chain_only_wanted : (c : ChainConfig) (m : Layer) → In m (new_chain c) → wanted c m ≡ true
unfolding new_chain
chain_only_wanted c m =
    asked c c.has_auth auth m (stage4 c) (λ e. e)
      (asked c c.has_rate_limiter rate_limit m (stage3 c) (λ e. e)
        (asked c c.has_cors cors m (stage2 c) (λ e. e)
          (asked c c.has_tracing tracing m (stage1 c) (λ e. e)
            (asked c c.has_metrics metrics m stage0 (λ e. e) (first-wanted c m)))))

later : (c : ChainConfig) (m : Layer) → In m stage0 → In m (new_chain c)
unfolding new_chain
later c m i = kept c.has_auth auth m (stage4 c) (
    kept c.has_rate_limiter rate_limit m (stage3 c) (
      kept c.has_cors cors m (stage2 c)
        (kept c.has_tracing tracing m (stage1 c) (kept c.has_metrics metrics m stage0 i))))

wanted_in_chain : (c : ChainConfig) (m : Layer) → wanted c m ≡ true → In m (new_chain c)
unfolding new_chain
wanted_in_chain c recovery w = later c recovery (inl refl)
wanted_in_chain c request_id w = later c request_id (inr (inl refl))
wanted_in_chain c logging w = later c logging (inr (inr (inl refl)))
wanted_in_chain c metrics w = kept c.has_auth auth metrics (stage4 c) (
    kept c.has_rate_limiter rate_limit metrics (stage3 c) (
      kept c.has_cors cors metrics (stage2 c)
        (kept c.has_tracing tracing metrics (stage1 c) (added c.has_metrics metrics stage0 w))))
wanted_in_chain c tracing w = kept c.has_auth auth tracing (stage4 c) (
    kept c.has_rate_limiter rate_limit tracing (stage3 c)
      (kept c.has_cors cors tracing (stage2 c) (added c.has_tracing tracing (stage1 c) w)))
wanted_in_chain c cors w =
    kept c.has_auth auth cors (stage4 c)
      (kept c.has_rate_limiter rate_limit cors (stage3 c) (added c.has_cors cors (stage2 c) w))
wanted_in_chain c rate_limit w =
    kept c.has_auth auth rate_limit (stage4 c) (added c.has_rate_limiter rate_limit (stage3 c) w)
wanted_in_chain c auth w = added c.has_auth auth (stage4 c) w

-- NewChain stacks exactly the middleware that its configuration asks for, Recovery, RequestID and
-- Logging always, each once, in the documented order: Recovery, RequestID, Logging, Metrics, Tracing,
-- CORS, RateLimit, Auth.
pub new_chain_lem :
    (c : ChainConfig)
    → Ordered (new_chain c) × ((m : Layer) → In m (new_chain c) ↔ (wanted c m ≡ true))
new_chain_lem c = (new_chain-Ordered c, λ m. (chain_only_wanted c m, wanted_in_chain c m))
