-- ===== src/Tests/Audits.antt =====
-- An audited action and a snapshot, over a Kafka publisher.
use platform_kit.Common.{Option, none, some, List, [], ◌∷◌, ◌≡◌, ◌≢◌, refl, Str, lit, Dict}
use platform_kit.Common.Json.{Json, end}
use platform_kit.Audit.{
  new_recorder, ActorRef, TargetRef, AuditEvent, event_of, record_action, scan, bytes,
}
use platform_kit.Audit.Laws.{over_kafka, record_action_unpublished}
use platform_kit.Timetravel.Recorder.{ChangeContext, change_context_from_context}
use platform_kit.Timetravel.KafkaRecorder.{Sink, snapshot_data, record_snapshot}
use platform_kit.Timetravel.KafkaRecorder.Laws
use platform_kit.Timetravel.KafkaRecorder.Laws.{record_snapshot_unpublished}
use platform_kit.Tests.Flow.{codec, ids, generic, accept, publisher, idle}

abbrev actor : ActorRef
actor = record { type = lit "user"; id = lit "u1"; email = []; ip_address = []; user_agent = [] }

abbrev target : TargetRef
target = record { type = lit "team"; id = lit "t1"; organization_id = [] }

-- A table of rows.
abbrev create : AuditEvent → List AuditEvent → Option Str × List AuditEvent
create e rows = (none, e ∷ rows)

record_action_unpublished_example :
    let r =
      record_action
        (over_kafka codec ids 7 generic accept publisher create (lit "identity"))
        codec.rfc3339
        actor
        (lit "team.deleted")
        target
        none
        (lit "id1")
        7
        ([], idle) in
    (r.0 ≢ none)
    × (r.1.0
        ≡ (create
            (event_of (lit "identity") actor (lit "team.deleted") target none (lit "id1") 7)
            []).1)
    × (r.1.1.writes ≡ idle.writes)
unfolding new_recorder
record_action_unpublished_example =
    record_action_unpublished codec ids 7 generic accept publisher create (lit "identity") actor
      (lit "team.deleted") target none (lit "id1") [] idle refl (refl, refl, refl, refl, refl)

empty_map : scan (λ fs. some (lit "{}")) (λ t. some end) (bytes (lit "{}")) ≡ some (some end)
unfolding scan
empty_map = refl

-- A UUID's text is the UUID with a mark.
abbrev uuid_string : Str → Str
uuid_string u = b'u' ∷ u

abbrev parse_uuid : Str → Option Str
parse_uuid [] = none
parse_uuid (c ∷ u) = some u

abbrev context : Option ChangeContext
context = some (record { changed_by = lit "7"; reason = [] })

abbrev sink : Sink (List (ChangeContext × Str))
sink cc kind id payload rows = (cc, payload) ∷ rows

abbrev metadata_of : Str → Option (Dict Json)
metadata_of t =
    (snapshot_data (lit "work") (change_context_from_context context) (lit "spec") (lit "s1")
      (lit "{}") (uuid_string (lit "7"))).metadata

record_snapshot_unpublished_example :
    ((record_snapshot
        (Laws.over_kafka codec ids 7 generic accept publisher (lit "work") uuid_string)
        uuid_string
        context
        (lit "spec")
        (lit "s1")
        (some (lit "{}"))
        idle).0
      ≢ none)
    × ((record_snapshot
          (Laws.over_kafka codec ids 7 generic accept publisher (lit "work") uuid_string)
          uuid_string
          context
          (lit "spec")
          (lit "s1")
          (some (lit "{}"))
          idle).1.writes
        ≡ idle.writes)
record_snapshot_unpublished_example =
    record_snapshot_unpublished codec ids 7 generic accept publisher (lit "work") uuid_string
      context (lit "spec") (lit "s1") (some (lit "{}")) idle refl
