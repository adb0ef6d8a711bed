-- ===== src/Audit.antt =====
-- audit/recorder.go and audit/jsonmap.go: the recorder of administrators' actions. gorm's Create and the
-- publisher are parameters that change a state of their own; json.Marshal and json.Unmarshal are too.
pub mod Laws
use platform_kit.Common.{
  ℕ, Bool, true, false, ◌||◌, Option, none, some, List, [], ◌∷◌, if◌then◌else◌, Str, lit, is_empty,
}
use platform_kit.Common.Json.{Json, str, null, obj, Fields}
use platform_kit.Kafka.Envelope.{EventData}

pub record ActorRef : Type 0 where
  pub type : Str
  pub id : Str
  pub email : Str
  pub ip_address : Str
  pub user_agent : Str

pub record TargetRef : Type 0 where
  pub type : Str
  pub id : Str
  pub organization_id : Str

-- Event; a nil map of metadata is none.
pub record AuditEvent : Type 0 where
  pub id : Str
  pub service : Str
  pub actor_type : Str
  pub actor_id : Str
  pub actor_email : Str
  pub ip_address : Str
  pub user_agent : Str
  pub action : Str
  pub target_type : Str
  pub target_id : Str
  pub organization_id : Str
  pub metadata : Option Fields
  pub created_at : ℕ

-- Topic and EventType
abbrev pub audit_topic : Str
audit_topic = lit "sentiae.admin.action.recorded"

abbrev pub event_type : Str
event_type = lit "admin.action.recorded"

-- The recorder, with none for a nil database or publisher; E is the publisher's error. `created` is the
-- database's error.
pub record Recorder (D P E : Type 0) : Type 0 where
  pub create : Option (AuditEvent → D → Option Str × D)
  pub publisher : Option (Str → EventData → P → Option E × P)
  pub service : Str

unfoldable pub new_recorder :
    {D P E : Type 0}
    → Option (AuditEvent → D → Option Str × D)
    → Option (Str → EventData → P → Option E × P)
    → Str
    → Recorder D P E
new_recorder create publish service = record {
  create = create;
  publisher = publish;
  service = if is_empty service then lit "unknown" else service;
}

pub data RecordError (E : Type 0) : Type 0 where
  actor_required : RecordError E
  action_required : RecordError E
  target_required : RecordError E
  persist_and_publish : Str → E → RecordError E
  persist_failed : Str → RecordError E
  publish_failed : E → RecordError E

-- The switch at the end of Record.
abbrev pub verdict : {E : Type 0} → Option Str → Option E → Option (RecordError E)
verdict none none = none
verdict (some d) none = some (persist_failed d)
verdict none (some p) = some (publish_failed p)
verdict (some d) (some p) = some (persist_and_publish d p)

abbrev metadata_json : Option Fields → Json
metadata_json none = null
metadata_json (some fs) = obj fs

-- The row, with the identifier of uuid.New and the time of the clock.
abbrev pub event_of :
    Str → ActorRef → Str → TargetRef → Option Fields → (uuid : Str) → (now : ℕ) → AuditEvent
event_of service actor action target metadata uuid now = record {
  id = uuid;
  service = service;
  actor_type = actor.type;
  actor_id = actor.id;
  actor_email = actor.email;
  ip_address = actor.ip_address;
  user_agent = actor.user_agent;
  action = action;
  target_type = target.type;
  target_id = target.id;
  organization_id = target.organization_id;
  metadata = metadata;
  created_at = now;
}

-- The event's data; `rfc3339` is Time.Format.
abbrev pub data_of : (ℕ → Str) → AuditEvent → EventData
data_of rfc3339 e = record {
  actor_id = e.actor_id;
  actor_type = e.actor_type;
  resource_type = e.target_type;
  resource_id = e.target_id;
  organization_id = e.organization_id;
  team_id = [];
  metadata = some (
      (lit "event_id", str e.id)
      ∷ (lit "service", str e.service)
      ∷ (lit "action", str e.action)
      ∷ (lit "actor_email", str e.actor_email)
      ∷ (lit "ip_address", str e.ip_address)
      ∷ (lit "user_agent", str e.user_agent)
      ∷ (lit "created_at", str (rfc3339 e.created_at))
      ∷ (lit "action_meta", metadata_json e.metadata)
      ∷ []);
  timestamp = e.created_at;
}

module _ {D P E : Type 0} (r : Recorder D P E) (rfc3339 : ℕ → Str) where
  abbrev pub persist : AuditEvent → D → Option Str × D
  persist e d = elim r.create [ none ↦ (none, d) | some create ↦ create e d ]

  abbrev pub announce : AuditEvent → P → Option E × P
  announce e p = elim r.publisher [
    | none ↦ (none, p)
    | some publish ↦ publish event_type (data_of rfc3339 e) p
  ]

  abbrev pub both : AuditEvent → D × P → Option (RecordError E) × (D × P)
  both e (d, p) = (verdict (persist e d).0 (announce e p).0, ((persist e d).1, (announce e p).1))

  -- Record: nil or an error, and the states of the database and the publisher.
  unfoldable pub record_action :
      ActorRef
      → (action : Str) → TargetRef
      → Option Fields
      → (uuid : Str) → (now : ℕ) → D × P
      → Option (RecordError E) × (D × P)
  record_action actor action target metadata uuid now s =
      if is_empty actor.type || is_empty actor.id
      then (some actor_required, s)
      else if is_empty action
      then (some action_required, s)
      else if is_empty target.type || is_empty target.id
      then (some target_required, s)
      else both (event_of r.service actor action target metadata uuid now) s

-- A value of driver.Value or of Scan: NULL, bytes, a string, or anything else.
pub data Column : Type 0 where
  null_column : Column
  bytes : Str → Column
  text : Str → Column
  unsupported : Column

module _ (marshal : Fields → Option Str) (unmarshal : Str → Option Fields) where
  -- JSONMap.Value; the outer none is the error of json.Marshal.
  unfoldable pub value : Option Fields → Option Column
  value none = some null_column
  value (some m) = elim (marshal m) [ none ↦ none | some raw ↦ some (bytes raw) ]

  abbrev pub scan_raw : Str → Option (Option Fields)
  scan_raw raw =
      if is_empty raw
      then some none
      else (elim (unmarshal raw) [ none ↦ none | some m ↦ some (some m) ])

  -- JSONMap.Scan: the map afterwards; the outer none is an error.
  unfoldable pub scan : Column → Option (Option Fields)
  scan null_column = some none
  scan (bytes raw) = scan_raw raw
  scan (text raw) = scan_raw raw
  scan unsupported = none
