-- ===== src/Middleware/RateLimit/Laws.antt =====
-- Each client of the rate limiter is on its own.
use platform_kit.Common.{
  ℕ, Bool, true, false, Option, some, List, [], ◌∷◌, ◌≡◌, refl, ap, ◌∙◌, inl, inr, if◌then◌else◌,
  Str, str_eq, str_eq_iff, Bool-cases, lookup, lookup-insert, IsDistinct, insert-IsDistinct,
  delete_if-IsDistinct, lookup-delete_if, unless,
}
use platform_kit.Middleware.RateLimit.{Visitor, Limiting, Visitors, limiter_of, allow, evict, idle}

pub data Step : Type 0 where
  arrive : (ip : Str) (now : ℕ) → Step
  sweep : (now : ℕ) → Step

module _ (lim : Limiting) (ttl : ℕ) where
  -- The limiter after some steps, and its answers to one client.
  abbrev pub run : List Step → Visitors lim → Visitors lim
  run [] vs = vs
  run (arrive ip now ∷ steps) vs = run steps (allow lim ip now vs).1
  run (sweep now ∷ steps) vs = run steps (evict lim ttl now vs)

  abbrev pub answers : Str → List Step → Visitors lim → List Bool
  answers ip [] vs = []
  answers ip (arrive i now ∷ steps) vs =
      let rest = answers ip steps (allow lim i now vs).1 in
      if str_eq i ip then (allow lim i now vs).0 ∷ rest else rest
  answers ip (sweep now ∷ steps) vs = answers ip steps (evict lim ttl now vs)

  -- One client by itself: a token bucket, forgotten by a sweep after more than the TTL without requests.
  abbrev pub Client : Type 0
  Client = Option (Visitor lim.Limiter)

  abbrev pub request : ℕ → Client → Bool × lim.Limiter
  request now v = lim.allow (limiter_of lim v) now

  abbrev pub after_request : ℕ → Client → Client
  after_request now v = some (record { limiter = (request now v).1; last_seen = now })

  abbrev pub client_run : Str → List Step → Client → Client
  client_run ip [] v = v
  client_run ip (arrive i now ∷ steps) v =
      client_run ip steps (if str_eq i ip then after_request now v else v)
  client_run ip (sweep now ∷ steps) v = client_run ip steps (unless (idle lim ttl now) v)

  abbrev pub client_answers : Str → List Step → Client → List Bool
  client_answers ip [] v = []
  client_answers ip (arrive i now ∷ steps) v =
      let rest = client_answers ip steps (if str_eq i ip then after_request now v else v) in
      if str_eq i ip then (request now v).0 ∷ rest else rest
  client_answers ip (sweep now ∷ steps) v = client_answers ip steps (unless (idle lim ttl now) v)

  lookup-allow :
      (ip i : Str) (now : ℕ) (vs : Visitors lim)
      → lookup ip (allow lim i now vs).1
        ≡ (if str_eq i ip then after_request now (lookup ip vs) else lookup ip vs)
  unfolding allow
  lookup-allow ip i now vs = elim (Bool-cases (str_eq i ip)) [
    | inl t ↦
        let e = (str_eq_iff i ip).0 t in
        lookup-insert i ip _ vs ∙ rw t (ap (λ k. after_request now (lookup k vs)) e)
    | inr f ↦ lookup-insert i ip _ vs ∙ rw f refl
  ]

  answer-allow :
      (ip i : Str) (now : ℕ) (vs : Visitors lim)
      → str_eq i ip ≡ true
      → (allow lim i now vs).0 ≡ (request now (lookup ip vs)).0
  unfolding allow
  answer-allow ip i now vs t = ap (λ k. (request now (lookup k vs)).0) ((str_eq_iff i ip).0 t)

  allow-IsDistinct :
      (i : Str) (now : ℕ) (vs : Visitors lim) → IsDistinct vs → IsDistinct (allow lim i now vs).1
  unfolding allow
  allow-IsDistinct i now vs d = insert-IsDistinct i _ vs d

  evict-IsDistinct :
      (now : ℕ) (vs : Visitors lim) → IsDistinct vs → IsDistinct (evict lim ttl now vs)
  unfolding evict
  evict-IsDistinct now vs d = delete_if-IsDistinct _ vs d

  lookup-evict :
      (ip : Str) (now : ℕ) (vs : Visitors lim)
      → IsDistinct vs
      → lookup ip (evict lim ttl now vs) ≡ unless (idle lim ttl now) (lookup ip vs)
  unfolding evict
  lookup-evict ip now vs d = lookup-delete_if _ ip vs d

  if_cons :
      (b : Bool) (x y : Bool) (xs ys : List Bool)
      → (b ≡ true → x ≡ y)
      → xs ≡ ys
      → (if b then x ∷ xs else xs) ≡ (if b then y ∷ ys else ys)
  if_cons true x y xs ys h e = let q = h refl in cc
  if_cons false x y xs ys h e = e

  -- Whatever all the clients do and whenever the limiter is swept, what it holds for a client and
  -- its answers to that client are those of the client's own bucket, which no other client changes.
  pub answers-client_answers :
      (ip : Str) (steps : List Step) (vs : Visitors lim)
      → IsDistinct vs
      → (lookup ip (run steps vs) ≡ client_run ip steps (lookup ip vs))
        × (answers ip steps vs ≡ client_answers ip steps (lookup ip vs))
  answers-client_answers ip [] vs d = (refl, refl)
  answers-client_answers ip (arrive i now ∷ steps) vs d =
      let (r, a) =
        answers-client_answers ip steps (allow lim i now vs).1 (allow-IsDistinct i now vs d) in
      let e = lookup-allow ip i now vs in
      (
        r ∙ ap (client_run ip steps) e,
        if_cons (str_eq i ip) _ _ _ _ (answer-allow ip i now vs)
            (a ∙ ap (client_answers ip steps) e),
      )
  answers-client_answers ip (sweep now ∷ steps) vs d =
      let (r, a) =
        answers-client_answers ip steps (evict lim ttl now vs) (evict-IsDistinct now vs d) in
      let e = lookup-evict ip now vs d in
      (r ∙ ap (client_run ip steps) e, a ∙ ap (client_answers ip steps) e)
