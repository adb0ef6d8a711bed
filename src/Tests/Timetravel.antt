-- ===== src/Tests/Timetravel.antt =====
-- A table held in memory meets the laws of the snapshot database; recording and loading with it.
use mathlib.Core.Bool.{false≢true}
use platform_kit.Common.{
  ℕ, ◌≤◌, true, false, Option, none, some, List, [], ◌∷◌, ◌≡◌, ◌≢◌, refl, sym, ap, ◌∙◌, map, ◌⊎◌,
  inl, inr, arith, if◌then◌else◌, Str, lit, str_eq, Bool-cases, In, ltb, subst,
}
use platform_kit.Timetravel.Recorder.{
  EntitySnapshot, Database, DatabaseLaws, GormRecorder, First, found, no_record, failed, covers,
  close, new_row, record_entity, loaded, load_failed, load_snapshot_at, new_gorm_recorder,
}
use platform_kit.Timetravel.Recorder.Laws.{after_count, open_count, record_entity-open_count}
use platform_kit.Timetravel.Recorder.Load.{record_entity-load_snapshot_at}

abbrev later : EntitySnapshot → First → First
later row (found x) = if ltb row.valid_from x.valid_from then found x else found row
later row no_record = found row
later row failed = found row

unfoldable latest : (kind id : Str) → ℕ → List EntitySnapshot → First
latest kind id at [] = no_record
latest kind id at (row ∷ rows) =
    let rest = latest kind id at rows in if covers kind id at row then later row rest else rest

abbrev table : Database
table = record {
  Store = List EntitySnapshot;
  rows = λ s. s;
  update_open = λ kind id now s. (true, map (close kind id now) s);
  create = λ row s. (true, row ∷ s);
  first_covering = latest;
}

found-inj : (x y : EntitySnapshot) → found x ≡ found y → x ≡ y
found-inj x y e = cc

from-eq : (x y : EntitySnapshot) → found x ≡ found y → x.valid_from ≡ y.valid_from
from-eq x y e = ap (λ (r : EntitySnapshot). r.valid_from) (found-inj x y e)

record Latest (row x : EntitySnapshot) (f : First) : Type 0 where
  pub chosen : (x ≡ row) ⊎ (f ≡ found x)
  pub not_before : row.valid_from ≤ x.valid_from
  pub not_before_rest : (y : EntitySnapshot) → f ≡ found y → y.valid_from ≤ x.valid_from

later-Latest :
    (row : EntitySnapshot) (f : First) (x : EntitySnapshot)
    → f ≢ failed
    → later row f ≡ found x
    → Latest row x f
later-Latest row (found y) x ok e = elim (Bool-cases (ltb row.valid_from y.valid_from)) [
  | inl t ↦
      let e' = rw t at e in
      let q = from-eq y x e' in
      record {
        chosen = inr e';
        not_before = ground arith;
        not_before_rest = λ z p. omega (arith, from-eq y z p, q);
      }
  | inr t ↦
      let e' = rw t at e in
      let q = from-eq row x e' in
      record {
        chosen = inl (sym (found-inj row x e'));
        not_before = omega (arith, q);
        not_before_rest = λ z p. let u = from-eq y z p in ground arith;
      }
]
later-Latest row no_record x ok e = record {
  chosen = inl (sym (found-inj row x e));
  not_before = omega (arith, from-eq row x e);
  not_before_rest = λ z p. cc;
}
later-Latest row failed x ok e = absurd (ok refl)

latest_answers : (k i : Str) (at : ℕ) (rows : List EntitySnapshot) → latest k i at rows ≢ failed
unfolding latest
latest_answers k i at [] p = cc
latest_answers k i at (row ∷ rows) p = elim (Bool-cases (covers k i at row)) [
  | inl t ↦ answers row _ (rw t at p)
  | inr t ↦ latest_answers k i at rows (rw t at p)
]
  where
    answers : (row : EntitySnapshot) (f : First) → later row f ≢ failed
    answers row (found y) p = elim (Bool-cases (ltb row.valid_from y.valid_from)) [
      | inl t ↦ let p' = rw t at p in cc
      | inr t ↦ let p' = rw t at p in cc
    ]
    answers row no_record p = cc
    answers row failed p = cc

latest_found :
    (k i : Str) (at : ℕ) (rows : List EntitySnapshot) (x : EntitySnapshot)
    → latest k i at rows ≡ found x
    → In x rows × (covers k i at x ≡ true)
unfolding latest
latest_found k i at [] x e = cc
latest_found k i at (row ∷ rows) x e = elim (Bool-cases (covers k i at row)) [
  | inl t ↦ elim (later-Latest row _ x (latest_answers k i at rows) (rw t at e)).chosen [
    | inl p ↦ (inl p, ap (covers k i at) p ∙ t)
    | inr q ↦ let (m, c) = latest_found k i at rows x q in (inr m, c)
  ]
  | inr t ↦ let (m, c) = latest_found k i at rows x (rw t at e) in (inr m, c)
]

latest_none :
    (k i : Str) (at : ℕ) (rows : List EntitySnapshot) (y : EntitySnapshot)
    → latest k i at rows ≡ no_record
    → In y rows
    → covers k i at y ≡ false
unfolding latest
latest_none k i at [] y e m = elim m [ ]
latest_none k i at (row ∷ rows) y e m = elim (Bool-cases (covers k i at row)) [
  | inl t ↦ absurd (found_one row _ (rw t at e))
  | inr t ↦ elim m [
    | inl p ↦ ap (covers k i at) p ∙ t
    | inr n ↦ latest_none k i at rows y (rw t at e) n
  ]
]
  where
    found_one : (row : EntitySnapshot) (f : First) → later row f ≢ no_record
    found_one row (found z) p = elim (Bool-cases (ltb row.valid_from z.valid_from)) [
      | inl t ↦ let p' = rw t at p in cc
      | inr t ↦ let p' = rw t at p in cc
    ]
    found_one row no_record p = cc
    found_one row failed p = cc

latest_last :
    (k i : Str) (at : ℕ) (rows : List EntitySnapshot) (x y : EntitySnapshot)
    → latest k i at rows ≡ found x
    → In y rows
    → covers k i at y ≡ true
    → y.valid_from ≤ x.valid_from
unfolding latest
latest_last k i at [] x y e m c = elim m [ ]
latest_last k i at (row ∷ rows) x y e m c = elim (Bool-cases (covers k i at row)) [
  | inl t ↦
      let l = later-Latest row _ x (latest_answers k i at rows) (rw t at e) in
      elim m [
        | inl p ↦ subst (λ r. r.valid_from ≤ x.valid_from) (sym p) l.not_before
        | inr n ↦ from_rest l.not_before_rest n (λ z q. latest_last k i at rows z y q n c) _ refl
      ]
  | inr t ↦ elim m [
    | inl p ↦ absurd (false≢true (sym t ∙ sym (ap (covers k i at) p) ∙ c))
    | inr n ↦ latest_last k i at rows x y (rw t at e) n c
  ]
]
  where
    from_rest :
        ((z : EntitySnapshot) → latest k i at rows ≡ found z → z.valid_from ≤ x.valid_from)
        → In y rows
        → ((z : EntitySnapshot) → latest k i at rows ≡ found z → y.valid_from ≤ z.valid_from)
        → (f : First) → latest k i at rows ≡ f
        → y.valid_from ≤ x.valid_from
    from_rest h n ih (found z) q = omega (arith, h z q, ih z q)
    from_rest h n ih no_record q = absurd (false≢true (sym (latest_none k i at rows y q n) ∙ c))
    from_rest h n ih failed q = absurd (latest_answers k i at rows q)

table-DatabaseLaws : DatabaseLaws table
table-DatabaseLaws = record {
  update_rows = λ k i now s. refl;
  create_rows = λ row s. refl;
  first_found = latest_found;
  first_latest = latest_last;
  first_none = λ k i at s row. latest_none k i at s row;
}

abbrev recorder : GormRecorder
recorder = new_gorm_recorder true (lit "work-service")

-- Two versions of one feature, at the times 5 and 8.
abbrev payload : Str → Option Str
payload s = some s

abbrev v1 : List EntitySnapshot
v1 =
    (record_entity table recorder none (lit "a") 5 (lit "feature") (lit "f1") (payload (lit "{}"))
      []).1

abbrev v2 : List EntitySnapshot
v2 =
    (record_entity table recorder none (lit "b") 8 (lit "feature") (lit "f1") (payload (lit "[]"))
      v1).1

record_entity-open_count_example :
    open_count
      (lit "feature")
      (lit "f1")
      (record_entity table recorder none
        (lit "b")
        8
        (lit "feature")
        (lit "f1")
        (payload (lit "[]"))
        v1).1
    ≡ after_count
        (record_entity table recorder none
          (lit "b")
          8
          (lit "feature")
          (lit "f1")
          (payload (lit "[]"))
          v1).0
        true
        true
        (open_count (lit "feature") (lit "f1") v1)
unfolding str_eq
record_entity-open_count_example =
    record_entity-open_count table table-DatabaseLaws recorder none (lit "b") 8 (lit "feature")
      (lit "f1") (payload (lit "[]")) (lit "feature") (lit "f1") v1

record_entity-load_snapshot_at_example :
    (bytes : Str) × (payload (lit "[]") ≡ some bytes)
    × ((load_snapshot_at table recorder (lit "feature") (lit "f1") 9 v2
          ≡ loaded (new_row recorder none (lit "b") 8 (lit "feature") (lit "f1") bytes))
        ⊎ (load_snapshot_at table recorder (lit "feature") (lit "f1") 9 v2 ≡ load_failed))
unfolding record_entity new_gorm_recorder close str_eq
record_entity-load_snapshot_at_example =
    record_entity-load_snapshot_at table table-DatabaseLaws recorder none (lit "b") 8 9
      (lit "feature") (lit "f1") (payload (lit "[]")) v1 v2 refl refl (omega arith) (tt, tt)
