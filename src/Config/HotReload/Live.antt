-- ===== src/Config/HotReload/Live.antt =====
-- config/reloadable_apply.go: what a reload leaves alone in a running process.
use platform_kit.Common.{
  ℕ, Bool, false, Option, none, some, List, if-both, some-inj, Str, str_eq, ℤ, ◌≡◌, refl, ◌∙◌,
}
use platform_kit.Config.Reloadable.{
  Argument, nil, not_a_pointer, pointer_to, Value, leaf, structure, nil_pointer, pointer, Members,
  Applied, apply_reloadable, apply_reloadable_struct, both_structs,
}
use platform_kit.Config.Reloadable.Laws.{
  leaf_in, is_tagged_in, leaf_in-untagged, is_tagged_in-apply,
}
use platform_kit.Config.HotReload.{
  Arrival, State, new_hot_reloader, or_two_seconds, start, fresh, HotReloader, run_reloader,
  after_apply, after_reload, on_change, install_hot_reload,
}
use platform_kit.Config.HotReload.Laws.{start_inv}

module _ (type : Str) (ms : Members) (p : List ℕ) where
  -- A configuration of the type with the leaf of `ms` at the path, and no tag above it.
  abbrev pub Keeps : Argument → Type 0
  Keeps a =
      (ns : Members) × (a ≡ pointer_to type (structure ns))
      × (leaf_in ns p ≡ leaf_in ms p)
      × (is_tagged_in ns p ≡ false)

  both_structs-Keeps :
      (ns : Members) (w : Value)
      → leaf_in ns p ≡ leaf_in ms p
      → is_tagged_in ns p ≡ false
      → Keeps (after_apply (pointer_to type (structure ns)) (both_structs type (structure ns) w))
  both_structs-Keeps ns (structure ws) e h = (
    apply_reloadable_struct ns ws,
    refl,
    leaf_in-untagged ns ws p h ∙ e,
    is_tagged_in-apply ns ws p h,
  )
  both_structs-Keeps ns (leaf x) e h = (ns, refl, e, h)
  both_structs-Keeps ns nil_pointer e h = (ns, refl, e, h)
  both_structs-Keeps ns (pointer ws) e h = (ns, refl, e, h)

  after_reload-Keeps :
      (ns : Members) (r : Option Argument)
      → leaf_in ns p ≡ leaf_in ms p
      → is_tagged_in ns p ≡ false
      → Keeps (after_reload (pointer_to type (structure ns)) r)
  unfolding apply_reloadable
  after_reload-Keeps ns none e h = (ns, refl, e, h)
  after_reload-Keeps ns (some nil) e h = (ns, refl, e, h)
  after_reload-Keeps ns (some not_a_pointer) e h = (ns, refl, e, h)
  after_reload-Keeps ns (some (pointer_to u w)) e h =
      let P : Applied → Type 0 = λ r. Keeps (after_apply (pointer_to type (structure ns)) r) in
      if-both P (str_eq type u) _ _ (λ _. both_structs-Keeps ns w e h) (λ _. (ns, refl, e, h))

  on_change-Keeps :
      (reload : ℕ → Option Argument) (now : ℕ) (a : Argument)
      → Keeps a
      → Keeps (on_change reload now a)
  unfolding on_change
  on_change-Keeps reload now a (ns, e, l, h) = rw e (after_reload-Keeps ns (reload now) l h)

  run_reloader-Keeps :
      (reload : ℕ → Option Argument) (evs : List Arrival) (dst : Argument) (o : Option HotReloader)
      (s : State Argument)
      → Keeps dst
      → run_reloader reload evs dst o ≡ some s
      → Keeps s.live
  run_reloader-Keeps reload evs dst none s h e = cc
  run_reloader-Keeps reload evs dst (some r) s h e =
      let e' : start r.debounce (on_change reload) evs (fresh dst) ≡ s = some-inj e in
      rw (← e')
        (start_inv r.debounce (on_change reload) Keeps (on_change-Keeps reload) evs (fresh dst) h)

  -- Whatever files change and whatever the reload function returns, a leaf with no tag on its path has its
  -- first value in every state of the loop that InstallHotReload starts.
  pub install_hot_reload_untagged :
      (created : Bool) (add : Str → Bool) (reload : ℕ → Option Argument) (paths : List Str)
      (debounce : ℤ) (evs : List Arrival) (s : State Argument)
      → is_tagged_in ms p ≡ false
      → install_hot_reload created add reload paths debounce evs (pointer_to type (structure ms))
        ≡ some s
      → (ns : Members) × (s.live ≡ pointer_to type (structure ns)) × (leaf_in ns p ≡ leaf_in ms p)
  unfolding install_hot_reload
  install_hot_reload_untagged created add reload paths debounce evs s h e =
      let (ns, live, l, t) =
        run_reloader-Keeps reload evs _
          (new_hot_reloader created add paths (or_two_seconds debounce)) s (ms, refl, refl, h) e in
      (ns, live, l)
