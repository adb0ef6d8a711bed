-- ===== src/Config/HotReload/Laws.antt =====
-- config/hot_reload.go: when the loop reloads.
use platform_kit.Common.{
  ℕ, ◌+◌, ◌-◌, ◌≤◌, ◌<◌, false, ◌||◌, not, Option, none, some, List, [], ◌∷◌, if-both, ltb, since,
  All, ◌≡◌, refl, arith,
}
use platform_kit.Config.HotReload.{
  Op, Arrival, changed, watcher_error, closed, State, fresh, fire, on_event, start,
}

-- Times, newest first, that are at least `d` apart.
abbrev pub IsSpaced : ℕ → List ℕ → Type 0
IsSpaced d [] = Unit
IsSpaced d (t ∷ []) = Unit
IsSpaced d (t ∷ u ∷ ts) = (u + d ≤ t) × IsSpaced d (u ∷ ts)

-- The clock does not run backwards between its two readings.
abbrev pub IsTimed : Arrival → Type 0
IsTimed (changed op seen fired) = seen ≤ fired
IsTimed watcher_error = Unit
IsTimed closed = Unit

abbrev pub latest : List ℕ → Option ℕ
latest [] = none
latest (t ∷ ts) = some t

module _ {A : Type 0} (d : ℕ) (on_change : ℕ → A → A) where
  -- lastFire is the time of the latest reload, and the reloads are spaced.
  abbrev pub IsDebounced : State A → Type 0
  IsDebounced s = (s.last_fire ≡ latest s.fires) × IsSpaced d s.fires

  fire-IsSpaced :
      (seen fired : ℕ) (last : Option ℕ) (ts : List ℕ)
      → 0 < d
      → seen ≤ fired
      → last ≡ latest ts
      → IsSpaced d ts
      → ltb (since seen last) d ≡ false
      → IsSpaced d (fired ∷ ts)
  fire-IsSpaced seen fired last [] p c e h f = tt
  fire-IsSpaced seen fired last (t ∷ ts) p c e h f =
      let f' : ltb (seen - t) d ≡ false = rw e at f in (ground arith, h)

  pub on_event-IsDebounced :
      (op : Op) (seen fired : ℕ) (s : State A)
      → 0 < d
      → seen ≤ fired
      → IsDebounced s
      → IsDebounced (on_event d on_change op seen fired s)
  unfolding on_event
  on_event-IsDebounced op seen fired s p c h =
      if-both IsDebounced (not (op.write || op.create)) _ _ (λ _. h)
        (λ _.
          if-both IsDebounced (ltb (since seen s.last_fire) d) s (fire d on_change fired s) (λ _. h)
            (λ f. (refl, fire-IsSpaced seen fired s.last_fire s.fires p c h.0 h.1 f)))

  pub start-IsDebounced :
      (evs : List Arrival) (s : State A)
      → 0 < d
      → All IsTimed evs
      → IsDebounced s
      → IsDebounced (start d on_change evs s)
  unfolding start
  start-IsDebounced [] s p c h = h
  start-IsDebounced (closed ∷ evs) s p c h = h
  start-IsDebounced (watcher_error ∷ evs) s p c h = start-IsDebounced evs s p c.1 h
  start-IsDebounced (changed op seen fired ∷ evs) s p c h =
      start-IsDebounced evs _ p c.1 (on_event-IsDebounced op seen fired s p c.0 h)

  -- With a positive debounce interval and a clock that does not run backwards, two calls of
  -- onChange that follow each other are at least the interval apart.
  pub start-IsSpaced :
      (evs : List Arrival) (a : A)
      → 0 < d
      → All IsTimed evs
      → IsSpaced d (start d on_change evs (fresh a)).fires
  start-IsSpaced evs a p c = (start-IsDebounced evs (fresh a) p c (refl, tt)).1

  -- A change within the debounce interval after a reload.
  abbrev pub IsTooSoon : ℕ → Arrival → Type 0
  IsTooSoon t (changed op seen fired) = seen - t < d
  IsTooSoon t watcher_error = Unit
  IsTooSoon t closed = Unit

  on_event_too_soon :
      (op : Op) (seen fired : ℕ) (s : State A) (t : ℕ)
      → s.last_fire ≡ some t
      → seen - t < d
      → on_event d on_change op seen fired s ≡ s
  unfolding on_event
  on_event_too_soon op seen fired s t e h =
      let P : State A → Type 0 = λ r. r ≡ s in
      if-both P (not (op.write || op.create)) _ _ (λ _. refl)
        (λ _.
          if-both P (ltb (since seen s.last_fire) d) s (fire d on_change fired s) (λ _. refl)
            (λ f. let f' : ltb (seen - t) d ≡ false = rw e at f in absurd (ground arith)))

  -- Changes that arrive within the debounce interval after the latest reload are dropped for
  -- good: the loop is where it was, and it keeps nothing that would reload for them later.
  pub start_too_soon :
      (evs : List Arrival) (s : State A) (t : ℕ)
      → s.last_fire ≡ some t
      → All (IsTooSoon t) evs
      → start d on_change evs s ≡ s
  unfolding start on_event
  start_too_soon [] s t e h = refl
  start_too_soon (closed ∷ evs) s t e h = refl
  start_too_soon (watcher_error ∷ evs) s t e h = start_too_soon evs s t e h.1
  start_too_soon (changed op seen fired ∷ evs) s t e h =
      rw (on_event_too_soon op seen fired s t e h.0) (start_too_soon evs s t e h.1)

  on_event_inv :
      (P : A → Type 0)
      → ((now : ℕ) (a : A) → P a → P (on_change now a))
      → (op : Op) (seen fired : ℕ) (s : State A) → P s.live
      → P (on_event d on_change op seen fired s).live
  unfolding on_event
  on_event_inv P keep op seen fired s h =
      let Q : State A → Type 0 = λ r. P r.live in
      if-both Q (not (op.write || op.create)) _ _ (λ _. h)
        (λ _.
          if-both Q (ltb (since seen s.last_fire) d) s (fire d on_change fired s) (λ _. h)
            (λ _. keep fired s.live h))

  -- What onChange keeps, the loop keeps.
  pub start_inv :
      (P : A → Type 0)
      → ((now : ℕ) (a : A) → P a → P (on_change now a))
      → (evs : List Arrival) (s : State A) → P s.live
      → P (start d on_change evs s).live
  unfolding start
  start_inv P keep [] s h = h
  start_inv P keep (closed ∷ evs) s h = h
  start_inv P keep (watcher_error ∷ evs) s h = start_inv P keep evs s h
  start_inv P keep (changed op seen fired ∷ evs) s h =
      start_inv P keep evs _ (on_event_inv P keep op seen fired s h)
