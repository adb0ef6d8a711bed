-- ===== src/Timetravel/Recorder/Laws.antt =====
-- What recording does to the open rows of an entity.
use platform_kit.Common.{
  ℕ, suc, Bool, false, ◌&&◌, Option, none, some, List, [], ◌∷◌, ◌≡◌, refl, map, inl, inr, arith,
  if◌then◌else◌, Str, str_eq, str_eq_iff, is_empty, not, ◌||◌, Bool-cases, if-both,
}
use platform_kit.Timetravel.Recorder.{
  EntitySnapshot, ChangeContext, Database, DatabaseLaws, GormRecorder, RecordError, not_configured,
  kind_and_id_required, marshal_failed, insert_failed, is_of, is_open, close, new_row,
  record_entity, record_marshalled, write,
}

abbrev pub open_of : Str → Str → EntitySnapshot → Bool
open_of kind id row = is_of kind id row && is_open row.valid_to

-- How many rows of an entity are open.
abbrev pub open_count : Str → Str → List EntitySnapshot → ℕ
open_count kind id [] = 0
open_count kind id (row ∷ rows) =
    let n = open_count kind id rows in if open_of kind id row then suc n else n

abbrev pub same_entity : (kind id kind' id' : Str) → Bool
same_entity kind id kind' id' = str_eq kind kind' && str_eq id id'

open_of-close :
    (k i k' i' : Str) (now : ℕ) (row : EntitySnapshot)
    → open_of k' i' (close k i now row)
      ≡ (if same_entity k i k' i' then false else open_of k' i' row)
unfolding close
open_of-close k i k' i' now row =
    if-both (λ x. open_of k' i' x ≡ (if same_entity k i k' i' then false else open_of k' i' row))
      (open_of k i row) _ _
      (λ t. ground (
        arith,
        str_eq_iff row.kind k,
        str_eq_iff row.kind k',
        str_eq_iff k k',
        str_eq_iff row.entity_id i,
        str_eq_iff row.entity_id i',
        str_eq_iff i i',
      ))
      (λ f. ground (
        arith,
        str_eq_iff row.kind k,
        str_eq_iff row.kind k',
        str_eq_iff k k',
        str_eq_iff row.entity_id i,
        str_eq_iff row.entity_id i',
        str_eq_iff i i',
      ))

open_count-close :
    (k i k' i' : Str) (now : ℕ) (rows : List EntitySnapshot)
    → open_count k' i' (map (close k i now) rows)
      ≡ (if same_entity k i k' i' then 0 else open_count k' i' rows)
open_count-close k i k' i' now [] = ground arith
open_count-close k i k' i' now (row ∷ rows) =
    let ih = open_count-close k i k' i' now rows in
    let step = open_of-close k i k' i' now row in ground arith

-- The open rows of an entity after the call, from its result, whether the first statement succeeded,
-- whether it is the entity of the call, and the open rows before.
abbrev pub after_count : Option RecordError → (closed same : Bool) → ℕ → ℕ
after_count none closed same n = if same then (if closed then 1 else suc n) else n
after_count (some not_configured) closed same n = n
after_count (some kind_and_id_required) closed same n = n
after_count (some marshal_failed) closed same n = n
after_count (some insert_failed) closed same n = if same && closed then 0 else n

module _ (db : Database) (laws : DatabaseLaws db) where
  write-open_count :
      (row : EntitySnapshot) (kind id : Str) (s : db.Store)
      → row.valid_to ≡ none
      → open_count kind id (db.rows (write db row s).1)
        ≡ after_count
            (write db row s).0
            (db.update_open row.kind row.entity_id row.valid_from s).0
            (same_entity row.kind row.entity_id kind id)
            (open_count kind id (db.rows s))
  write-open_count row kind id s e =
      let closed = db.update_open row.kind row.entity_id row.valid_from s in
      let n = open_count-close row.kind row.entity_id kind id row.valid_from (db.rows s) in
      let u = laws.update_rows row.kind row.entity_id row.valid_from s in
      let c = laws.create_rows row closed.1 in
      elim (Bool-cases (db.create row closed.1).0) [
        | inl t ↦ elim (Bool-cases closed.0) [
          | inl v ↦ let c' = rw (t, u, v) at c in rw (t, v, c', n, e) (ground arith)
          | inr v ↦ let c' = rw (t, u, v) at c in rw (t, v, c', e) (ground arith)
        ]
        | inr t ↦ elim (Bool-cases closed.0) [
          | inl v ↦ let c' = rw (t, u, v) at c in rw (t, v, c', n) (ground arith)
          | inr v ↦ let c' = rw (t, u, v) at c in rw (t, v, c') (ground arith)
        ]
      ]

  marshalled-open_count :
      (r : GormRecorder) (ctx : Option ChangeContext) (uuid : Str) (now : ℕ) (kind id : Str)
      (payload : Option Str) (kind' id' : Str) (s : db.Store)
      → (let x = record_marshalled db r ctx uuid now kind id payload s in
          open_count kind' id' (db.rows x.1)
          ≡ after_count x.0
              (db.update_open kind id now s).0
              (same_entity kind id kind' id')
              (open_count kind' id' (db.rows s)))
  marshalled-open_count r ctx uuid now kind id none kind' id' s = refl
  marshalled-open_count r ctx uuid now kind id (some bytes) kind' id' s =
      write-open_count (new_row r ctx uuid now kind id bytes) kind' id' s refl

  -- After RecordEntity returns nil, the recorded entity has exactly one open row if the previous ones
  -- could be closed, and one more than before if that statement failed; after a failed insert it has
  -- none left if they could be closed. Every other error, and every other entity, leaves the number
  -- of open rows as it was.
  pub record_entity-open_count :
      (r : GormRecorder) (ctx : Option ChangeContext) (uuid : Str) (now : ℕ) (kind id : Str)
      (payload : Option Str) (kind' id' : Str) (s : db.Store)
      → open_count kind' id' (db.rows (record_entity db r ctx uuid now kind id payload s).1)
        ≡ after_count
            (record_entity db r ctx uuid now kind id payload s).0
            (db.update_open kind id now s).0
            (same_entity kind id kind' id')
            (open_count kind' id' (db.rows s))
  unfolding record_entity
  record_entity-open_count r ctx uuid now kind id payload kind' id' s =
      let P : Option RecordError × db.Store → Type 0 = λ x.
        open_count kind' id' (db.rows x.1)
        ≡ after_count x.0 (db.update_open kind id now s).0 (same_entity kind id kind' id')
            (open_count kind' id' (db.rows s)) in
      if-both P (not r.configured) _ _ (λ t. refl)
        (λ f.
          if-both P (is_empty kind || is_empty id) _ _ (λ t. refl)
            (λ g. marshalled-open_count r ctx uuid now kind id payload kind' id' s))
