-- ===== src/Timetravel/Recorder.antt =====
-- timetravel/recorder.go and LoadSnapshotAt of timetravel/diff.go. The database behind gorm is a
-- parameter; its laws state what the three statements that the code builds mean. Times are numbers.
pub mod Laws
pub mod Load
use platform_kit.Common.{
  ℕ, ◌≤◌, Bool, true, false, ◌||◌, not, Option, none, some, List, [], ◌∷◌, ◌≡◌, map, leb, ltb, ◌&&◌,
  if◌then◌else◌, Str, lit, str_eq, is_empty, In,
}

pub record EntitySnapshot : Type 0 where
  pub id : Str
  pub kind : Str
  pub entity_id : Str
  pub payload : Str
  pub valid_from : ℕ
  pub valid_to : Option ℕ
  pub writer_service : Str
  pub changed_by : Str
  pub change_reason : Str
  pub created_at : ℕ

pub record ChangeContext : Type 0 where
  pub changed_by : Str
  pub reason : Str

-- ChangeContextFromContext; `none` for a nil context or one without the key. The nil UUID is empty.
unfoldable pub change_context_from_context : Option ChangeContext → ChangeContext
change_context_from_context none = record { changed_by = []; reason = lit "system" }
change_context_from_context (some v) = record v {
  reason = if is_empty v.reason then lit "system" else v.reason;
}

-- WHERE kind = ? AND entity_id = ?
abbrev pub is_of : Str → Str → EntitySnapshot → Bool
is_of kind id row = str_eq row.kind kind && str_eq row.entity_id id

abbrev pub is_open : Option ℕ → Bool
is_open none = true
is_open (some t) = false

-- UPDATE ... SET valid_to = now WHERE kind = ? AND entity_id = ? AND valid_to IS NULL, on one row
unfoldable pub close : Str → Str → ℕ → EntitySnapshot → EntitySnapshot
close kind id now row =
    if is_of kind id row && is_open row.valid_to then record row { valid_to = some now } else row

abbrev pub ends_after : ℕ → Option ℕ → Bool
ends_after at none = true
ends_after at (some t) = ltb at t

-- WHERE kind = ? AND entity_id = ? AND valid_from <= ? AND (valid_to IS NULL OR valid_to > ?)
unfoldable pub covers : Str → Str → ℕ → EntitySnapshot → Bool
covers kind id at row = is_of kind id row && leb row.valid_from at && ends_after at row.valid_to

pub data First : Type 0 where
  found : EntitySnapshot → First
  no_record : First
  failed : First

-- Each statement returns the store after it; `true` for a nil error.
pub record Database : Type 1 where
  pub Store : Type 0
  pub rows : Store → List EntitySnapshot
  pub update_open : (kind id : Str) → ℕ → Store → Bool × Store
  pub create : EntitySnapshot → Store → Bool × Store
  pub first_covering : (kind id : Str) → ℕ → Store → First

-- What SQL promises of the statements, the failing ones included. A row comes back as it was written: the
-- payload is taken up to the spaces, key order and repeated keys that a jsonb column does not keep.
pub record DatabaseLaws (db : Database) : Type 0 where
  pub update_rows :
      (kind id : Str) (now : ℕ) (s : db.Store)
      → db.rows (db.update_open kind id now s).1 ≡ (
          if (db.update_open kind id now s).0
          then map (close kind id now) (db.rows s)
          else db.rows s)
  pub create_rows :
      (row : EntitySnapshot) (s : db.Store)
      → db.rows (db.create row s).1 ≡ (if (db.create row s).0 then row ∷ db.rows s else db.rows s)
  pub first_found :
      (kind id : Str) (at : ℕ) (s : db.Store) (row : EntitySnapshot)
      → db.first_covering kind id at s ≡ found row
      → In row (db.rows s) × (covers kind id at row ≡ true)
  pub first_latest :
      (kind id : Str) (at : ℕ) (s : db.Store) (row other : EntitySnapshot)
      → db.first_covering kind id at s ≡ found row
      → In other (db.rows s)
      → covers kind id at other ≡ true
      → other.valid_from ≤ row.valid_from
  pub first_none :
      (kind id : Str) (at : ℕ) (s : db.Store) (row : EntitySnapshot)
      → db.first_covering kind id at s ≡ no_record
      → In row (db.rows s)
      → covers kind id at row ≡ false

-- `configured` is false for a nil recorder or a nil database.
pub record GormRecorder : Type 0 where
  pub configured : Bool
  pub writer_service : Str

unfoldable pub new_gorm_recorder : Bool → Str → GormRecorder
new_gorm_recorder db writer_service = record {
  configured = db;
  writer_service = if is_empty writer_service then lit "unknown-service" else writer_service;
}

pub data RecordError : Type 0 where
  not_configured : RecordError
  kind_and_id_required : RecordError
  marshal_failed : RecordError
  insert_failed : RecordError

pub data LoadResult : Type 0 where
  loaded : EntitySnapshot → LoadResult
  recorder_not_configured : LoadResult
  snapshot_not_found : LoadResult
  load_failed : LoadResult

-- The row that RecordEntity inserts, with the identifier that uuid.New returns.
abbrev pub new_row :
    GormRecorder
    → Option ChangeContext
    → (id : Str) → ℕ
    → (kind entity_id bytes : Str) → EntitySnapshot
new_row r ctx id now kind entity_id bytes =
    let cc = change_context_from_context ctx in
    record {
      id = id;
      kind = kind;
      entity_id = entity_id;
      payload = bytes;
      valid_from = now;
      valid_to = none;
      writer_service = r.writer_service;
      changed_by = cc.changed_by;
      change_reason = cc.reason;
      created_at = now;
    }

abbrev pub load_result : First → LoadResult
load_result (found row) = loaded row
load_result no_record = snapshot_not_found
load_result failed = load_failed

module _ (db : Database) where
  -- The two statements; an error of the first is only logged.
  abbrev pub write : EntitySnapshot → db.Store → Option RecordError × db.Store
  write row s =
      let closed = (db.update_open row.kind row.entity_id row.valid_from s).1 in
      let (ok, s') = db.create row closed in (if ok then none else some insert_failed, s')

  abbrev pub record_marshalled :
      GormRecorder
      → Option ChangeContext
      → (uuid : Str) → ℕ
      → (kind id : Str) → Option Str
      → db.Store
      → Option RecordError × db.Store
  record_marshalled r ctx uuid now kind id none s = (some marshal_failed, s)
  record_marshalled r ctx uuid now kind id (some bytes) s =
      write (new_row r ctx uuid now kind id bytes) s

  -- RecordEntity; `payload` is what json.Marshal returns for the payload, and the result is nil or
  -- the error, and the store after the call.
  unfoldable pub record_entity :
      GormRecorder
      → Option ChangeContext
      → (uuid : Str) → ℕ
      → (kind id : Str) → Option Str
      → db.Store
      → Option RecordError × db.Store
  unfolding change_context_from_context
  record_entity r ctx uuid now kind id payload s =
      if not r.configured
      then (some not_configured, s)
      else if is_empty kind || is_empty id
      then (some kind_and_id_required, s)
      else record_marshalled r ctx uuid now kind id payload s

  unfoldable pub load_snapshot_at : GormRecorder → (kind id : Str) → ℕ → db.Store → LoadResult
  load_snapshot_at r kind id at s =
      if not r.configured
      then recorder_not_configured
      else load_result (db.first_covering kind id at s)
