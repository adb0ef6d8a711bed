-- ===== src/Timetravel/Diff/Laws.antt =====
-- When the difference of two payloads is empty, and its order.
use mathlib.Core.List.{Perm}
use platform_kit.Common.{
  In, ℕ, true, false, Option, none, some, List, [], ◌∷◌, ◌≡◌, ◌↔◌, refl, ap, subst, inl, Str,
  is_empty,
}
use platform_kit.Common.Json.{Json, null, bool, num, str, arr, obj}
use platform_kit.Common.Sort.{sort_by, sort_by-Perm, sort_by-IsSorted, sort_by-In, IsSorted}
use platform_kit.Timetravel.Recorder.{EntitySnapshot, LoadResult, loaded}
use platform_kit.Timetravel.Diff.{
  FieldDiff, diff_values, diff_payloads, DiffResult, SnapshotDiff, diffed, diff_decoded,
  decode_from_payload, decoded, diff_snapshots,
}
use platform_kit.Timetravel.Diff.Marshal.{Printer, json_equal, marshal-json_equal}
use platform_kit.Timetravel.Diff.Detects.{WellFormed, detects}

module _ (p : Printer) where
  equal_values : (path : Str) (a b : Json) → json_equal p a b ≡ true → diff_values p path a b ≡ []
  unfolding diff_values
  equal_values path null b t = rw t refl
  equal_values path (bool x) b t = rw t refl
  equal_values path (num x) b t = rw t refl
  equal_values path (str s) b t = rw t refl
  equal_values path (arr xs) b t = rw t refl
  equal_values path (obj fs) b t = rw t refl

  sort_nil : (ds : List FieldDiff) → sort_by (λ d. d.path) ds ≡ [] → ds ≡ []
  sort_nil [] e = refl
  sort_nil (d ∷ ds) e =
      let m : In d [] =
        subst (λ xs. In d xs) e
          ((sort_by-In (λ (x : FieldDiff). x.path) d (d ∷ ds)).1 (inl refl)) in
      elim m [ ]

  -- DiffPayloads of two decoded JSON values, whatever the printing of numbers and strings, is empty
  -- exactly if `jsonEqual` holds of them; it lists the entries of the walk, in the byte order of their
  -- paths.
  pub diff_payloads_iff :
      (a b : Json)
      → WellFormed a
      → WellFormed b
      → ((diff_payloads p a b ≡ []) ↔ (json_equal p a b ≡ true))
        × Perm (diff_payloads p a b) (diff_values p [] a b)
        × IsSorted (λ d. d.path) (diff_payloads p a b)
  unfolding diff_payloads
  diff_payloads_iff a b wa wb = (
    (
      λ e. detects p a wa b [] wb (sort_nil (diff_values p [] a b) e),
      λ t. ap (sort_by (λ (d : FieldDiff). d.path)) (equal_values [] a b t),
    ),
    sort_by-Perm (λ (d : FieldDiff). d.path) (diff_values p [] a b),
    sort_by-IsSorted (λ (d : FieldDiff). d.path) (diff_values p [] a b),
  )

  -- A row compared with itself: undecodable, or without differences.
  abbrev pub NoChange : Option Json → DiffResult → Type 0
  NoChange none r = r ≡ decode_from_payload
  NoChange (some a) r = (d : SnapshotDiff) × (r ≡ diffed d) × (d.field_diffs ≡ [])

  same_decoded :
      (kind id : Str) (from to : ℕ) (row : EntitySnapshot) (o : Option Json)
      → NoChange o (diff_decoded p kind id from to row row o o)
  unfolding diff_payloads
  same_decoded kind id from to row none = refl
  same_decoded kind id from to row (some a) = (
    _,
    refl,
    ap (sort_by (λ (x : FieldDiff). x.path)) (equal_values [] a a (marshal-json_equal p a a refl)),
  )

  -- When one and the same row covers both times, DiffSnapshots of a kind and an id that are not empty
  -- returns no field differences, or the decoding error if its payload is not empty and does not parse.
  pub diff_snapshots_same :
      (unmarshal : Str → Option Json) (load : Str → Str → ℕ → LoadResult) (kind id : Str)
      (from to : ℕ) (row : EntitySnapshot)
      → is_empty kind ≡ false
      → is_empty id ≡ false
      → load kind id from ≡ loaded row
      → load kind id to ≡ loaded row
      → NoChange (decoded p unmarshal row) (diff_snapshots p unmarshal (some load) kind id from to)
  unfolding diff_snapshots
  diff_snapshots_same unmarshal load kind id from to row k i f t =
      rw (k, i, f, t) (same_decoded kind id from to row (decoded p unmarshal row))
