-- ===== src/Timetravel/Recorder/Load.antt =====
-- Loading what was recorded.
use mathlib.Core.Bool.{false≢true}
use platform_kit.Common.{
  ℕ, ◌≤◌, true, false, ◌&&◌, Option, none, some, List, [], ◌∷◌, ◌≡◌, refl, sym, ap, ◌∙◌, map, ◌⊎◌,
  inl, inr, arith, Str, str_eq_refl, is_empty, ◌||◌, Bool-cases, if-both, Option-cases, In, All,
  All-In, subst,
}
use platform_kit.Timetravel.Recorder.{
  EntitySnapshot, ChangeContext, Database, DatabaseLaws, GormRecorder, First, found, no_record,
  failed, is_of, is_open, ends_after, covers, close, new_row, record_entity, write, loaded,
  load_result, load_failed, load_snapshot_at,
}

-- Closed rows of the entity ended by the time.
abbrev pub EndedBy : ℕ → Option ℕ → Type 0
EndedBy now none = Unit
EndedBy now (some t) = t ≤ now

ended_covers :
    (now at : ℕ) (v : Option ℕ)
    → now ≤ at
    → EndedBy now v
    → is_open v ≡ false
    → ends_after at v ≡ false
ended_covers now at none le h f = absurd (false≢true (sym f))
ended_covers now at (some t) le h f = ground arith

closed-covers :
    (k i : Str) (now at : ℕ) (row : EntitySnapshot)
    → now ≤ at
    → EndedBy now row.valid_to
    → covers k i at (close k i now row) ≡ false
unfolding close covers
closed-covers k i now at row le h =
    if-both (λ x. covers k i at x ≡ false) (is_of k i row && is_open row.valid_to) _ _
      (λ t. ground arith)
      (λ f. elim (Bool-cases (is_of k i row)) [
        | inl p ↦ ground (arith, ended_covers now at row.valid_to le h (ground arith))
        | inr p ↦ ground arith
      ])

closed_rows-covers :
    (k i : Str) (now at : ℕ) (rows : List EntitySnapshot)
    → now ≤ at
    → All (λ row. EndedBy now row.valid_to) rows
    → All (λ row. covers k i at row ≡ false) (map (close k i now) rows)
closed_rows-covers k i now at [] le h = tt
closed_rows-covers k i now at (row ∷ rows) le (h, hs) =
    (closed-covers k i now at row le h, closed_rows-covers k i now at rows le hs)

module _ (db : Database) (laws : DatabaseLaws db) where
  written_rows :
      (row : EntitySnapshot) (s s' : db.Store)
      → write db row s ≡ (none, s')
      → (db.update_open row.kind row.entity_id row.valid_from s).0 ≡ true
      → db.rows s' ≡ row ∷ map (close row.kind row.entity_id row.valid_from) (db.rows s)
  written_rows row s s' e u =
      let closed = db.update_open row.kind row.entity_id row.valid_from s in
      let lu = rw u at (laws.update_rows row.kind row.entity_id row.valid_from s) in
      let lc = laws.create_rows row closed.1 in
      let q : (db.create row closed.1).1 ≡ s' = ap (λ x. x.1) e in
      elim (Bool-cases (db.create row closed.1).0) [
        | inl t ↦ rw (t, lu, q) at lc
        | inr t ↦ let no = rw t at (ap (λ x. x.0) e) in cc
      ]

  -- The first covering row among a row that covers and rows that do not.
  only_covering :
      (k i : Str) (at : ℕ) (row : EntitySnapshot) (others : List EntitySnapshot) (s : db.Store)
      → db.rows s ≡ row ∷ others
      → covers k i at row ≡ true
      → All (λ other. covers k i at other ≡ false) others
      → (f : First) → db.first_covering k i at s ≡ f
      → (load_result f ≡ loaded row) ⊎ (load_result f ≡ load_failed)
  only_covering k i at row others s e c none_else (found x) q =
      let (m, cx) = laws.first_found k i at s x q in
      let m' : In x (row ∷ others) = subst (λ rows. In x rows) e m in
      elim m' [
        | inl p ↦ inl (ap loaded p)
        | inr n ↦ absurd (false≢true (sym (All-In _ others x none_else n) ∙ cx))
      ]
  only_covering k i at row others s e c none_else no_record q =
      let m : In row (db.rows s) = subst (λ rows. In row rows) (sym e) (inl refl) in
      absurd (false≢true (sym (laws.first_none k i at s row q m) ∙ c))
  only_covering k i at row others s e c none_else failed q = inr refl

  new_row-covers :
      (r : GormRecorder) (ctx : Option ChangeContext) (uuid : Str) (now at : ℕ)
      (kind id bytes : Str)
      → now ≤ at
      → covers kind id at (new_row r ctx uuid now kind id bytes) ≡ true
  unfolding covers
  new_row-covers r ctx uuid now at kind id bytes le =
      rw (str_eq_refl kind, str_eq_refl id) (ground arith)

  written-load :
      (r : GormRecorder) (ctx : Option ChangeContext) (uuid : Str) (now at : ℕ)
      (kind id bytes : Str) (s s' : db.Store)
      → write db (new_row r ctx uuid now kind id bytes) s ≡ (none, s')
      → (db.update_open kind id now s).0 ≡ true
      → now ≤ at
      → All (λ row. EndedBy now row.valid_to) (db.rows s)
      → (load_result (db.first_covering kind id at s')
          ≡ loaded (new_row r ctx uuid now kind id bytes))
        ⊎ (load_result (db.first_covering kind id at s') ≡ load_failed)
  written-load r ctx uuid now at kind id bytes s s' e u le h =
      let row = new_row r ctx uuid now kind id bytes in
      only_covering kind id at row (map (close kind id now) (db.rows s)) s'
        (written_rows row s s' e u) (new_row-covers r ctx uuid now at kind id bytes le)
        (closed_rows-covers kind id now at (db.rows s) le h) (db.first_covering kind id at s') refl

  -- Once RecordEntity returned nil with the previous rows closed, and if no row of the table ends
  -- after the time of the call, LoadSnapshotAt of the entity at that time or any later one returns
  -- the row of this call, unless the query fails. The payload is that of the call up to the text that a
  -- jsonb column does not keep.
  pub record_entity-load_snapshot_at :
      (r : GormRecorder) (ctx : Option ChangeContext) (uuid : Str) (now at : ℕ) (kind id : Str)
      (payload : Option Str) (s s' : db.Store)
      → record_entity db r ctx uuid now kind id payload s ≡ (none, s')
      → (db.update_open kind id now s).0 ≡ true
      → now ≤ at
      → All (λ row. EndedBy now row.valid_to) (db.rows s)
      → (bytes : Str) × (payload ≡ some bytes)
        × ((load_snapshot_at db r kind id at s' ≡ loaded (new_row r ctx uuid now kind id bytes))
            ⊎ (load_snapshot_at db r kind id at s' ≡ load_failed))
  unfolding record_entity load_snapshot_at
  record_entity-load_snapshot_at r ctx uuid now at kind id payload s s' e u le h =
      elim (Bool-cases r.configured) [
        | inl c ↦ elim (Bool-cases (is_empty kind || is_empty id)) [
          | inl t ↦ let no = rw (c, t) at e in cc
          | inr f ↦ elim (Option-cases payload) [
            | inl p ↦ let no = rw (c, f, p) at e in cc
            | inr (bytes, p) ↦
                let e' = rw (c, f, p) at e in
                (bytes, p, rw c (written-load r ctx uuid now at kind id bytes s s' e' u le h))
          ]
        ]
        | inr c ↦ let no = rw c at e in cc
      ]
