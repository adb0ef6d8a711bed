-- ===== src/Config/HotReload.antt =====
-- config/hot_reload.go: HotReloader, and config/reloadable_apply.go: InstallHotReload. fsnotify's
-- channels are the list of what the select statement receives, in its order.
pub mod Laws
pub mod Serves
pub mod Live
use platform_kit.Common.{
  ℕ, suc, ◌*◌, ◌^◌, Bool, true, false, ◌||◌, not, Option, none, some, List, [], ◌∷◌, if◌then◌else◌,
  Str, ℤ, pos, leb_ℤ, ltb, pos_part, since,
}
use platform_kit.Config.Reloadable.{
  Argument, pointer_to, nil, not_a_pointer, Value, structure, Applied, applied, refused,
  apply_reloadable,
}

-- The bits of fsnotify.Op that the loop tests; an event of the other kinds has neither.
pub record Op : Type 0 where
  pub write : Bool
  pub create : Bool

-- A change is seen at the first reading of the clock, and lastFire is set at the second. `closed` is the
-- end of either channel.
pub data Arrival : Type 0 where
  changed : Op → (seen fired : ℕ) → Arrival
  watcher_error : Arrival
  closed : Arrival

abbrev pub or_two_seconds : ℤ → ℤ
or_two_seconds d = if leb_ℤ d (pos 0) then pos (2 * 10 ^ 9) else d

-- The paths that watcher.Add accepts are watched.
abbrev watchable : (Str → Bool) → List Str → List Str
watchable add [] = []
watchable add (p ∷ ps) = let rest = watchable add ps in if add p then p ∷ rest else rest

pub record HotReloader : Type 0 where
  pub watching : List Str
  pub paths : List Str
  pub debounce : ℕ

-- NewHotReloader; `created` is whether the watcher could be made.
unfoldable pub new_hot_reloader : Bool → (Str → Bool) → List Str → ℤ → Option HotReloader
new_hot_reloader created add paths debounce =
    if created
    then some (record {
      watching = watchable add paths;
      paths = paths;
      debounce = pos_part (or_two_seconds debounce);
    })
    else none

-- lastFire, the times of the calls of onChange, newest first, and what onChange changes.
pub record State (A : Type 0) : Type 0 where
  pub last_fire : Option ℕ
  pub fires : List ℕ
  pub live : A

abbrev pub fresh : {A : Type 0} → A → State A
fresh a = record { last_fire = none; fires = []; live = a }

module _ {A : Type 0} (debounce : ℕ) (on_change : ℕ → A → A) where
  abbrev pub fire : ℕ → State A → State A
  fire now s = record { last_fire = some now; fires = now ∷ s.fires; live = on_change now s.live }

  -- The first case of the select statement.
  unfoldable pub on_event : Op → (seen fired : ℕ) → State A → State A
  on_event op seen fired s =
      if not (op.write || op.create)
      then s
      else if ltb (since seen s.last_fire) debounce
      then s
      else fire fired s

  -- Start
  unfoldable pub start : List Arrival → State A → State A
  unfolding on_event
  start [] s = s
  start (closed ∷ evs) s = s
  start (watcher_error ∷ evs) s = start evs s
  start (changed op seen fired ∷ evs) s = start evs (on_event op seen fired s)

-- What `*dst` is after ApplyReloadable; an error changes nothing.
abbrev pub after_apply : Argument → Applied → Argument
after_apply dst (refused e) = dst
after_apply nil (applied ms) = nil
after_apply not_a_pointer (applied ms) = not_a_pointer
after_apply (pointer_to type v) (applied ms) = pointer_to type (structure ms)

-- The result of `reload`; none is its error.
abbrev pub after_reload : Argument → Option Argument → Argument
after_reload dst none = dst
after_reload dst (some src) = after_apply dst (apply_reloadable dst src)

-- onChange of InstallHotReload, where `reload t` is what the caller's function returns at time t.
unfoldable pub on_change : (ℕ → Option Argument) → ℕ → Argument → Argument
unfolding apply_reloadable
on_change reload now dst = after_reload dst (reload now)

abbrev pub run_reloader :
    (ℕ → Option Argument) → List Arrival → Argument → Option HotReloader → Option (State Argument)
run_reloader reload evs dst none = none
run_reloader reload evs dst (some h) = some (start h.debounce (on_change reload) evs (fresh dst))

-- InstallHotReload and the loop that it starts, on what the watcher delivers; none is its error.
unfoldable pub install_hot_reload :
    Bool
    → (Str → Bool)
    → (ℕ → Option Argument)
    → List Str
    → ℤ
    → List Arrival
    → Argument
    → Option (State Argument)
unfolding new_hot_reloader start on_change
install_hot_reload created add reload paths debounce evs dst =
    run_reloader reload evs dst (new_hot_reloader created add paths (or_two_seconds debounce))
