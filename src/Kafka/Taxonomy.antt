-- ===== src/Kafka/Taxonomy.antt =====
-- kafka/event_taxonomy.go and kafka/event_taxonomy_conversation.go: the table of registered events, and
-- the registry that the two `init` functions build from it.
pub mod Entry
mod Work
mod Git
mod Ops
mod Canvas
mod Surfaces
mod Runtime
mod Foundry
mod Saga
mod Identity
mod WorkMore
mod OpsMore
mod GitLegacy
mod Rollups
pub mod Reachable
pub mod Absent
use platform_kit.Common.{List, [], ◌∷◌, ◌++◌}
use platform_kit.Kafka.Registry.{RegisteredEvent, Registry, register_all}
use platform_kit.Kafka.Taxonomy.Entry.{entry}
use Work.{work_events}
use Git.{git_events}
use Ops.{ops_events}
use Canvas.{canvas_events}
use Surfaces.{surface_events}
use Runtime.{runtime_events}
use Foundry.{foundry_events}
use Saga.{saga_events}
use Identity.{identity_events}
use WorkMore.{work_additions}
use OpsMore.{ops_additions}
use GitLegacy.{legacy_events}
use Rollups.{rollup_events}

-- The table by sections, in the source's order.
abbrev pub registered_events : List RegisteredEvent
registered_events =
    work_events
    ++ (git_events
        ++ (ops_events
            ++ (canvas_events
                ++ (surface_events
                    ++ (runtime_events
                        ++ (foundry_events
                            ++ (saga_events
                                ++ (identity_events
                                    ++ (work_additions
                                        ++ (ops_additions
                                            ++ (legacy_events ++ rollup_events)))))))))))

abbrev pub conversation_events : List RegisteredEvent
conversation_events =
    entry "conversation.feedback.submitted" "conversation"
      "A user rated a specific Eve/assistant message (thumbs_up|thumbs_down|neutral)."
      "conversation-service" ("message_id" ∷ "conversation_id" ∷ "user_id" ∷ "rating" ∷ [])
      "\"message_id\":{\"type\":\"string\",\"minLength\":1},\"conversation_id\":{\"type\":\"string\",\"minLength\":1},\"user_id\":{\"type\":\"string\",\"minLength\":1},\"rating\":{\"type\":\"string\",\"enum\":[\"thumbs_up\",\"thumbs_down\",\"neutral\"]},\"note\":{\"type\":\"string\"},\"submitted_at\":{\"type\":\"string\"}"
    ∷ []

-- The registry after the package's `init` functions.
unfoldable pub initial_registry : Registry
unfolding register_all
initial_registry = register_all conversation_events (register_all registered_events [])
