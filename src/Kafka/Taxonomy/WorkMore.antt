-- ===== src/Kafka/Taxonomy/WorkMore.antt =====
-- kafka/event_taxonomy.go, registeredEvents: aliases and additions of the work domain.
use platform_kit.Common.{List, [], ◌∷◌}
use platform_kit.Kafka.Registry.{RegisteredEvent}
use platform_kit.Kafka.Taxonomy.Entry.{entry}

abbrev pub work_additions : List RegisteredEvent
work_additions =
    entry "work.criterion.created" "work" "Acceptance criterion created (alias)" "work-service" ([])
      "\"spec_id\":{\"type\":\"string\"},\"given\":{\"type\":\"string\"},\"when\":{\"type\":\"string\"},\"then\":{\"type\":\"string\"},\"status\":{\"type\":\"string\"}"
    ∷ entry "work.criterion.completed" "work" "Acceptance criterion completed" "work-service" ([])
        "\"spec_id\":{\"type\":\"string\"},\"status\":{\"type\":\"string\"}"
    ∷ entry "work.criterion.status_changed" "work" "Acceptance criterion status changed (alias)"
        "work-service" ([])
        "\"spec_id\":{\"type\":\"string\"},\"old_status\":{\"type\":\"string\"},\"new_status\":{\"type\":\"string\"}"
    ∷ entry "work.spec.linked_to_node" "work" "Spec linked to a canvas node" "work-service" ([])
        "\"spec_id\":{\"type\":\"string\"},\"node_id\":{\"type\":\"string\"},\"link_type\":{\"type\":\"string\"}"
    ∷ entry "work.spec.unlinked_from_node" "work" "Spec unlinked from a canvas node" "work-service"
        ([]) "\"spec_id\":{\"type\":\"string\"},\"node_id\":{\"type\":\"string\"}"
    ∷ entry "work.spec.linked_to_feature" "work" "Spec linked to a feature" "work-service" ([])
        "\"feature_id\":{\"type\":\"string\"},\"spec_id\":{\"type\":\"string\"},\"relation\":{\"type\":\"string\"}"
    ∷ entry "work.spec.unlinked_from_feature" "work" "Spec unlinked from a feature" "work-service"
        ([]) "\"feature_id\":{\"type\":\"string\"},\"spec_id\":{\"type\":\"string\"}"
    ∷ entry "work.signal.received" "work" "A signal was received (lighter alias of signal.ingested)"
        "work-service" ([])
        "\"provider_id\":{\"type\":\"string\"},\"category\":{\"type\":\"string\"},\"status\":{\"type\":\"string\"},\"summary\":{\"type\":\"string\"},\"metric_name\":{\"type\":\"string\"}"
    ∷ entry "work.feature.health_changed" "work" "Feature health status transitioned" "work-service"
        ([])
        "\"name\":{\"type\":\"string\"},\"old_health\":{\"type\":\"string\"},\"new_health\":{\"type\":\"string\"},\"health_status\":{\"type\":\"string\"},\"incident_count\":{\"type\":\"integer\"},\"error_rate_pct\":{\"type\":\"number\"},\"uptime_pct\":{\"type\":\"number\"},\"latency_p99_ms\":{\"type\":\"number\"}"
    ∷ []
