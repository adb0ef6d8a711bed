-- ===== src/Config/HotReload/Serves.antt =====
-- config/hot_reload.go: which changes a reload serves.
use platform_kit.Common.{
  ℕ, ◌+◌, ◌^◌, ◌≤◌, ◌<◌, true, ◌||◌, not, Option, none, some, List, [], ◌∷◌, if-both, ltb, since,
  All, In, ◌≡◌, refl, arith, inl, inr,
}
use platform_kit.Config.HotReload.{
  Op, Arrival, changed, watcher_error, closed, State, fresh, fire, on_event, start,
}
use platform_kit.Config.HotReload.Laws.{latest, IsTimed, IsDebounced, on_event-IsDebounced}

module _ {A : Type 0} (d : ℕ) (on_change : ℕ → A → A) where
  on_event-In :
      (f : ℕ) (op : Op) (seen fired : ℕ) (s : State A)
      → In f s.fires
      → In f (on_event d on_change op seen fired s).fires
  unfolding on_event
  on_event-In f op seen fired s m =
      let P : State A → Type 0 = λ r. In f r.fires in
      if-both P (not (op.write || op.create)) _ _ (λ _. m)
        (λ _.
          if-both P (ltb (since seen s.last_fire) d) s (fire d on_change fired s) (λ _. m)
            (λ _. inr m))

  start-In :
      (f : ℕ) (evs : List Arrival) (s : State A)
      → In f s.fires
      → In f (start d on_change evs s).fires
  unfolding start
  start-In f [] s m = m
  start-In f (closed ∷ evs) s m = m
  start-In f (watcher_error ∷ evs) s m = start-In f evs s m
  start-In f (changed op seen fired ∷ evs) s m = start-In f evs _ (on_event-In f op seen fired s m)

  -- A reload that serves a change seen at this time.
  abbrev pub Serves : ℕ → List ℕ → Type 0
  Serves seen fires = (f : ℕ) × In f fires × (seen < f + d)

  recent-Serves :
      (seen : ℕ) (last : Option ℕ) (ts : List ℕ)
      → d < 2 ^ 63
      → last ≡ latest ts
      → ltb (since seen last) d ≡ true
      → Serves seen ts
  recent-Serves seen last [] b e t =
      let t' : ltb (since seen none) d ≡ true = rw e at t in absurd (ground arith)
  recent-Serves seen last (f ∷ ts) b e t =
      let t' : ltb (since seen (some f)) d ≡ true = rw e at t in (f, inl refl, ground arith)

  on_event-Serves :
      (op : Op) (seen fired : ℕ) (s : State A)
      → d < 2 ^ 63
      → 0 < d
      → seen ≤ fired
      → IsDebounced d on_change s
      → (op.write || op.create) ≡ true
      → Serves seen (on_event d on_change op seen fired s).fires
  unfolding on_event
  on_event-Serves op seen fired s b p c h r =
      let P : State A → Type 0 = λ q. Serves seen q.fires in
      rw r (
        if-both P (ltb (since seen s.last_fire) d) s (fire d on_change fired s)
          (λ t. recent-Serves seen s.last_fire s.fires b h.0 t)
          (λ _. (fired, inl refl, omega arith)))

  abbrev pub IsOpen : Arrival → Type 0
  IsOpen (changed op seen fired) = Unit
  IsOpen watcher_error = Unit
  IsOpen closed = ⊥

  start-Serves_from :
      (evs : List Arrival) (s : State A) (op : Op) (seen fired : ℕ)
      → d < 2 ^ 63
      → 0 < d
      → All IsTimed evs
      → All IsOpen evs
      → IsDebounced d on_change s
      → In (changed op seen fired) evs
      → (op.write || op.create) ≡ true
      → Serves seen (start d on_change evs s).fires
  unfolding start
  start-Serves_from [] s op seen fired b p c o h m r = elim m [ ]
  start-Serves_from (closed ∷ evs) s op seen fired b p c o h m r = absurd o.0
  start-Serves_from (watcher_error ∷ evs) s op seen fired b p c o h (inl e) r = cc
  start-Serves_from (watcher_error ∷ evs) s op seen fired b p c o h (inr m) r =
      start-Serves_from evs s op seen fired b p c.1 o.1 h m r
  start-Serves_from (changed q i j ∷ evs) s op seen fired b p c o h (inr m) r =
      start-Serves_from evs _ op seen fired b p c.1 o.1
        (on_event-IsDebounced d on_change q i j s p c.0 h) m r
  start-Serves_from (changed q i j ∷ evs) s op seen fired b p c o h (inl e) r =
      let e0 : op ≡ q = cc in
      let e1 : seen ≡ i = cc in
      let (f, m, l) = on_event-Serves q i j s b p c.0 h (rw e0 at r) in
      (f, start-In f evs _ m, rw e1 l)

  -- With a positive debounce interval below 2^63 nanoseconds, a clock that does not run backwards
  -- and no channel closed: each write or creation that the loop receives has a reload after it,
  -- or less than the debounce interval before it.
  pub start-Serves :
      (evs : List Arrival) (a : A) (op : Op) (seen fired : ℕ)
      → d < 2 ^ 63
      → 0 < d
      → All IsTimed evs
      → All IsOpen evs
      → In (changed op seen fired) evs
      → (op.write || op.create) ≡ true
      → Serves seen (start d on_change evs (fresh a)).fires
  start-Serves evs a op seen fired b p c o m r =
      start-Serves_from evs (fresh a) op seen fired b p c o (refl, tt) m r
