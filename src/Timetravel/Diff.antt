-- ===== src/Timetravel/Diff.antt =====
-- timetravel/diff.go: the field-level difference of two JSON values. A number and a string in quotes
-- are printed by parameters; the rest of json.Marshal, which writes a map in the order of its keys, is
-- written out. `diffValues` descends into the values of its first argument, so each of them is handed
-- to diffMaps and diffSlices together with its comparison.
pub mod Marshal
pub mod Keys
pub mod Detects
pub mod Laws
use platform_kit.Common.{
  ℕ, suc, Bool, true, false, ◌&&◌, ◌||◌, not, Option, none, some, List, [], ◌∷◌, ◌++◌,
  if◌then◌else◌, Str, lit, is_empty, Dict, lookup, insert, itoa,
}
use platform_kit.Common.Json.{
  Json, null, bool, num, str, arr, obj, Items, nil, cons, Fields, end, field, items, fields,
  is_null,
}
use platform_kit.Common.Sort.{sort_by}
use platform_kit.Timetravel.Recorder.{EntitySnapshot, LoadResult, loaded}
use platform_kit.Timetravel.Diff.Marshal.{Printer, json_equal}

pub data Op : Type 0 where
  added : Op
  removed : Op
  changed : Op

pub record FieldDiff : Type 0 where
  pub path : Str
  pub old_value : Json
  pub new_value : Json
  pub op : Op

unfoldable pub join_path : Str → Str → Str
join_path base segment = if is_empty base then segment else base ++ b'.' ∷ segment

unfoldable pub path_or_root : Str → Str
path_or_root p = if is_empty p then lit "$" else p

unfoldable pub op_for : Json → Json → Op
op_for from to =
    if is_null from && not (is_null to)
    then added
    else if not (is_null from) && is_null to
    then removed
    else changed

-- A value of `from` with `diffValues` of it at a path against another value.
abbrev pub Child : Type 0
Child = Json × (Str → Json → List FieldDiff)

abbrev pub added_at : Str → Json → FieldDiff
added_at path v = record { path = path; old_value = null; new_value = v; op = added }

abbrev pub removed_at : Str → Json → FieldDiff
removed_at path v = record { path = path; old_value = v; new_value = null; op = removed }

abbrev pub diff_key : Str → Option Child → Option Json → List FieldDiff
diff_key child none none = []
diff_key child none (some tv) = added_at child tv ∷ []
diff_key child (some fv) none = removed_at child fv.0 ∷ []
diff_key child (some fv) (some tv) = fv.1 child tv

abbrev pub diff_keys : Str → Dict Child → Dict Json → List Str → List FieldDiff
diff_keys path from to [] = []
diff_keys path from to (k ∷ ks) =
    diff_key (join_path path k) (lookup k from) (lookup k to) ++ diff_keys path from to ks

-- keys[k] = struct{}{} for each key
abbrev pub add_keys {ℓ} : {V : Type ℓ} → Dict V → Dict (Unit {0}) → Dict (Unit {0})
add_keys [] keys = keys
add_keys ((k, v) ∷ d) keys = add_keys d (insert k tt keys)

abbrev pub names : Dict (Unit {0}) → List Str
names [] = []
names ((k, u) ∷ d) = k ∷ names d

unfoldable pub diff_maps : Str → Dict Child → Dict Json → List FieldDiff
unfolding lookup insert join_path sort_by
diff_maps path from to =
    diff_keys path from to (sort_by (λ k. k) (names (add_keys to (add_keys from []))))

abbrev pub index_path : Str → ℕ → Str
index_path path i = path ++ b'[' ∷ (itoa i ++ b']' ∷ [])

-- The loop from index i on, over what is left of both slices.
unfoldable pub diff_slices : Str → ℕ → List Child → List Json → List FieldDiff
diff_slices path i [] [] = []
diff_slices path i [] (t ∷ ts) = added_at (index_path path i) t ∷ diff_slices path (suc i) [] ts
diff_slices path i (f ∷ fs) [] = removed_at (index_path path i) f.0 ∷ diff_slices path (suc i) fs []
diff_slices path i (f ∷ fs) (t ∷ ts) = f.1 (index_path path i) t ++ diff_slices path (suc i) fs ts

unfoldable pub diff_scalar : Str → Json → Json → List FieldDiff
unfolding path_or_root op_for
diff_scalar path from to =
    record { path = path_or_root path; old_value = from; new_value = to; op = op_for from to } ∷ []

-- What is left of diffValues for a map and for a slice, once the values are not equal.
unfoldable pub diff_map_value : Str → Json → Dict Child → Json → List FieldDiff
unfolding diff_maps diff_scalar
diff_map_value path from fs (obj gs) = diff_maps path fs (fields gs)
diff_map_value path from fs null = diff_scalar path from null
diff_map_value path from fs (bool b) = diff_scalar path from (bool b)
diff_map_value path from fs (num x) = diff_scalar path from (num x)
diff_map_value path from fs (str s) = diff_scalar path from (str s)
diff_map_value path from fs (arr ys) = diff_scalar path from (arr ys)

unfoldable pub diff_slice_value : Str → Json → List Child → Json → List FieldDiff
unfolding diff_slices diff_scalar
diff_slice_value path from xs (arr ys) = diff_slices path 0 xs (items ys)
diff_slice_value path from xs null = diff_scalar path from null
diff_slice_value path from xs (bool b) = diff_scalar path from (bool b)
diff_slice_value path from xs (num x) = diff_scalar path from (num x)
diff_slice_value path from xs (str s) = diff_scalar path from (str s)
diff_slice_value path from xs (obj gs) = diff_scalar path from (obj gs)

module _ (p : Printer) where
  unfoldable mutual
    unfolding diff_map_value diff_slice_value diff_scalar json_equal

    pub diff_values : Str → Json → Json → List FieldDiff
    diff_values path (obj fs) to =
        if json_equal p (obj fs) to then [] else diff_map_value path (obj fs) (children fs) to
    diff_values path (arr xs) to =
        if json_equal p (arr xs) to then [] else diff_slice_value path (arr xs) (elements xs) to
    diff_values path null to = if json_equal p null to then [] else diff_scalar path null to
    diff_values path (bool b) to =
        if json_equal p (bool b) to then [] else diff_scalar path (bool b) to
    diff_values path (num x) to =
        if json_equal p (num x) to then [] else diff_scalar path (num x) to
    diff_values path (str s) to =
        if json_equal p (str s) to then [] else diff_scalar path (str s) to

    pub children : Fields → Dict Child
    children end = []
    children (field k v fs) = (k, (v, λ path to. diff_values path v to)) ∷ children fs

    pub elements : Items → List Child
    elements nil = []
    elements (cons v vs) = (v, λ path to. diff_values path v to) ∷ elements vs

  unfoldable pub diff_payloads : Json → Json → List FieldDiff
  unfolding diff_values sort_by
  diff_payloads from to = sort_by (λ d. d.path) (diff_values [] from to)

-- The loaded rows are those of the two times; the errors are the early returns.
pub record SnapshotDiff : Type 0 where
  pub kind : Str
  pub entity_id : Str
  pub from : EntitySnapshot
  pub to : EntitySnapshot
  pub requested_from : ℕ
  pub requested_to : ℕ
  pub field_diffs : List FieldDiff

pub data DiffResult : Type 0 where
  diffed : SnapshotDiff → DiffResult
  loader_required : DiffResult
  kind_and_id_required : DiffResult
  from_snapshot : LoadResult → DiffResult
  to_snapshot : LoadResult → DiffResult
  decode_from_payload : DiffResult
  decode_to_payload : DiffResult

module _ (p : Printer) where
  abbrev pub diff_decoded :
      (kind id : Str)
      → (from to : ℕ) → (f t : EntitySnapshot) → Option Json
      → Option Json
      → DiffResult
  diff_decoded kind id from to f t none b = decode_from_payload
  diff_decoded kind id from to f t (some a) none = decode_to_payload
  diff_decoded kind id from to f t (some a) (some b) = diffed (record {
    kind = kind;
    entity_id = id;
    from = f;
    to = t;
    requested_from = from;
    requested_to = to;
    field_diffs = diff_payloads p a b;
  })

  -- json.Unmarshal of a payload into `any` is a parameter; an empty payload stays nil.
  module _ (unmarshal : Str → Option Json) where
    abbrev pub decoded : EntitySnapshot → Option Json
    decoded row = if is_empty row.payload then some null else unmarshal row.payload

    abbrev pub diff_loaded : (kind id : Str) → (from to : ℕ) → LoadResult → LoadResult → DiffResult
    diff_loaded kind id from to (loaded f) (loaded t) =
        diff_decoded kind id from to f t (decoded f) (decoded t)
    diff_loaded kind id from to (loaded f) e = to_snapshot e
    diff_loaded kind id from to e t = from_snapshot e

    abbrev pub diff_with :
        (Str → Str → ℕ → LoadResult) → (kind id : Str) → (from to : ℕ) → DiffResult
    diff_with load kind id from to =
        if is_empty kind || is_empty id
        then kind_and_id_required
        else diff_loaded kind id from to (load kind id from) (load kind id to)

    -- DiffSnapshots; `none` for a nil loader.
    unfoldable pub diff_snapshots :
        Option (Str → Str → ℕ → LoadResult) → (kind id : Str) → (from to : ℕ) → DiffResult
    unfolding diff_payloads
    diff_snapshots none kind id from to = loader_required
    diff_snapshots (some load) kind id from to = diff_with load kind id from to
