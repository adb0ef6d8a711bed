-- ===== src/Kafka/Taxonomy/Work.antt =====
-- kafka/event_taxonomy.go, registeredEvents: the events of the work domain.
use platform_kit.Common.{List, [], ◌∷◌}
use platform_kit.Kafka.Registry.{RegisteredEvent}
use platform_kit.Kafka.Taxonomy.Entry.{entry}

abbrev pub work_events : List RegisteredEvent
work_events =
    entry "work.spec.created" "work" "A product spec was created" "work-service"
      ("title" ∷ "status" ∷ [])
      "\"title\":{\"type\":\"string\"},\"status\":{\"type\":\"string\"},\"priority\":{\"type\":\"string\"},\"project_id\":{\"type\":\"string\"},\"autonomous\":{\"type\":\"boolean\"},\"source\":{\"type\":\"string\"}"
    ∷ entry "work.spec.updated" "work" "A product spec was updated" "work-service" ([])
        "\"changes\":{\"type\":\"object\"}"
    ∷ entry "work.spec.deleted" "work" "A product spec was deleted" "work-service" ([]) ""
    ∷ entry "work.spec.status_changed" "work" "A product spec's lifecycle status changed"
        "work-service" ("status" ∷ [])
        "\"title\":{\"type\":\"string\"},\"status\":{\"type\":\"string\"},\"completion_pct\":{\"type\":\"number\"},\"health_status\":{\"type\":\"string\"}"
    ∷ entry "work.feature.created" "work" "A feature was created" "work-service"
        ("name" ∷ "status" ∷ [])
        "\"name\":{\"type\":\"string\"},\"status\":{\"type\":\"string\"},\"project_id\":{\"type\":\"string\"}"
    ∷ entry "work.feature.updated" "work" "A feature was updated" "work-service" ([])
        "\"changes\":{\"type\":\"object\"}"
    ∷ entry "work.feature.deleted" "work" "A feature was deleted" "work-service" ([]) ""
    ∷ entry "work.feature.status_changed" "work" "A feature's lifecycle status changed"
        "work-service" ("status" ∷ [])
        "\"name\":{\"type\":\"string\"},\"status\":{\"type\":\"string\"},\"health_status\":{\"type\":\"string\"}"
    ∷ entry "work.feature.event_created" "work" "A feature timeline event was recorded"
        "work-service" ("feature_id" ∷ "kind" ∷ [])
        "\"feature_id\":{\"type\":\"string\"},\"kind\":{\"type\":\"string\"},\"summary\":{\"type\":\"string\"}"
    ∷ entry "work.signal.ingested" "work" "A product signal was ingested" "work-service"
        ("category" ∷ "status" ∷ [])
        "\"provider_id\":{\"type\":\"string\"},\"category\":{\"type\":\"string\"},\"status\":{\"type\":\"string\"},\"summary\":{\"type\":\"string\"},\"metric_name\":{\"type\":\"string\"}"
    ∷ entry "work.signal.resolved" "work" "A signal was resolved" "work-service" ("resolution" ∷ [])
        "\"resolution\":{\"type\":\"string\"}"
    ∷ entry "work.signal.classified" "work" "A signal was classified" "work-service"
        ("category" ∷ []) "\"category\":{\"type\":\"string\"},\"confidence\":{\"type\":\"number\"}"
    ∷ entry "work.acceptance_criterion.status_changed" "work" "Acceptance criterion status changed"
        "work-service" ("new_status" ∷ [])
        "\"spec_id\":{\"type\":\"string\"},\"old_status\":{\"type\":\"string\"},\"new_status\":{\"type\":\"string\"}"
    ∷ entry "work.acceptance_criterion.created" "work" "Acceptance criterion created" "work-service"
        ("spec_id" ∷ []) "\"spec_id\":{\"type\":\"string\"},\"text\":{\"type\":\"string\"}"
    ∷ entry "work.experiment.created" "work" "An experiment was created" "work-service"
        ("name" ∷ []) "\"name\":{\"type\":\"string\"},\"hypothesis\":{\"type\":\"string\"}"
    ∷ entry "work.experiment.started" "work" "An experiment started" "work-service" ([])
        "\"name\":{\"type\":\"string\"}"
    ∷ entry "work.experiment.completed" "work" "An experiment completed" "work-service"
        ("outcome" ∷ [])
        "\"outcome\":{\"type\":\"string\"},\"variant_winner\":{\"type\":\"string\"}"
    ∷ entry "work.item.assigned" "work" "A work item was assigned" "work-service"
        ("assignee_id" ∷ []) "\"assignee_id\":{\"type\":\"string\"}"
    ∷ entry "work.item.unassigned" "work" "A work item was unassigned" "work-service" ([])
        "\"former_assignee_id\":{\"type\":\"string\"}"
    ∷ entry "work.item.status_changed" "work" "A work item's status changed" "work-service"
        ("status" ∷ []) "\"status\":{\"type\":\"string\"}"
    ∷ entry "work.item.commented" "work" "A work item was commented on" "work-service"
        ("comment_id" ∷ []) "\"comment_id\":{\"type\":\"string\"}"
    ∷ entry "work.item.mentioned" "work" "A user was mentioned in a work item" "work-service"
        ("mentioned_user_id" ∷ []) "\"mentioned_user_id\":{\"type\":\"string\"}"
    ∷ entry "work.project.created" "work" "A project was created" "work-service" ("name" ∷ [])
        "\"name\":{\"type\":\"string\"}"
    ∷ entry "work.project.updated" "work" "A project was updated" "work-service" ([])
        "\"changes\":{\"type\":\"object\"}"
    ∷ entry "work.project.deleted" "work" "A project was deleted" "work-service" ([]) ""
    ∷ entry "work.project.activity_log" "work" "Project activity was logged" "work-service"
        ("action" ∷ []) "\"action\":{\"type\":\"string\"}"
    ∷ entry "work.content.created" "work" "Content was created" "work-service"
        ("title" ∷ "content_type" ∷ [])
        "\"title\":{\"type\":\"string\"},\"content_type\":{\"type\":\"string\"},\"project_id\":{\"type\":\"string\"}"
    ∷ entry "work.content.updated" "work" "Content was updated" "work-service" ("title" ∷ [])
        "\"title\":{\"type\":\"string\"},\"content_type\":{\"type\":\"string\"},\"version\":{\"type\":\"integer\"}"
    ∷ entry "work.content.deleted" "work" "Content was deleted" "work-service" ([])
        "\"project_id\":{\"type\":\"string\"}"
    ∷ []
