-- ===== src/Kafka/Taxonomy/Rollups.antt =====
-- kafka/event_taxonomy.go, registeredEvents: spec hierarchy, rollups, analytics, pulse and audit events.
use platform_kit.Common.{List, [], ◌∷◌}
use platform_kit.Kafka.Registry.{RegisteredEvent}
use platform_kit.Kafka.Taxonomy.Entry.{entry}

abbrev pub rollup_events : List RegisteredEvent
rollup_events =
    entry "work.spec.child_created" "work" "A child spec was created under a parent spec"
      "work-service" ("parent_spec_id" ∷ "child_spec_id" ∷ [])
      "\"parent_spec_id\":{\"type\":\"string\"},\"child_spec_id\":{\"type\":\"string\"},\"title\":{\"type\":\"string\"},\"priority\":{\"type\":\"string\"}"
    ∷ entry "work.spec.decomposed" "work" "A spec was decomposed into child specs" "work-service"
        ("parent_spec_id" ∷ "child_count" ∷ [])
        "\"parent_spec_id\":{\"type\":\"string\"},\"child_count\":{\"type\":\"integer\"},\"child_spec_ids\":{\"type\":\"array\",\"items\":{\"type\":\"string\"}}"
    ∷ entry "work.spec.decomposition_triggered" "work"
        "A decomposition attempt was dispatched to foundry" "work-service" ("spec_id" ∷ [])
        "\"spec_id\":{\"type\":\"string\"},\"attempt\":{\"type\":\"integer\"},\"source_kind\":{\"type\":\"string\"},\"dispatch_target\":{\"type\":\"string\"}"
    ∷ entry "work.feature.metrics_updated" "work" "Feature usage metrics (DAU/MAU) were updated"
        "work-service" ("feature_id" ∷ "period_start" ∷ [])
        "\"feature_id\":{\"type\":\"string\"},\"period_start\":{\"type\":\"string\"},\"dau\":{\"type\":\"integer\"},\"mau\":{\"type\":\"integer\"},\"total_actions\":{\"type\":\"integer\"}"
    ∷ entry "work.feature.code_health_updated" "work" "Feature code-health metrics were updated"
        "work-service" ("feature_id" ∷ [])
        "\"feature_id\":{\"type\":\"string\"},\"churn_score\":{\"type\":\"number\"},\"test_coverage_pct\":{\"type\":\"number\"},\"static_analysis_severity\":{\"type\":\"string\"},\"commit_count_7d\":{\"type\":\"integer\"},\"pr_count_7d\":{\"type\":\"integer\"}"
    ∷ entry "work.feature.cost_updated" "work" "Feature live cost attribution was updated"
        "work-service" ("feature_id" ∷ [])
        "\"feature_id\":{\"type\":\"string\"},\"cost_usd_24h\":{\"type\":\"number\"},\"source\":{\"type\":\"string\"}"
    ∷ entry "analytics.usage.recorded" "analytics"
        "A single user action was recorded against a feature" "portal"
        ("user_id" ∷ "feature_id" ∷ "action" ∷ [])
        "\"user_id\":{\"type\":\"string\"},\"feature_id\":{\"type\":\"string\"},\"action\":{\"type\":\"string\"},\"session_id\":{\"type\":\"string\"},\"properties\":{\"type\":\"object\"}"
    ∷ entry "pulse.flow.created" "pulse" "Pulse created a new flow from a saga.*.started event"
        "pulse-service" ("saga_id" ∷ [])
        "\"saga_id\":{\"type\":\"string\"},\"kind\":{\"type\":\"string\"},\"state\":{\"type\":\"string\"},\"steps_total\":{\"type\":\"integer\"}"
    ∷ entry "pulse.flow.step_started" "pulse" "A step within a tracked flow started" "pulse-service"
        ("saga_id" ∷ [])
        "\"saga_id\":{\"type\":\"string\"},\"kind\":{\"type\":\"string\"},\"step\":{\"type\":\"string\"}"
    ∷ entry "pulse.flow.step_completed" "pulse" "A step within a tracked flow completed"
        "pulse-service" ("saga_id" ∷ [])
        "\"saga_id\":{\"type\":\"string\"},\"kind\":{\"type\":\"string\"},\"state\":{\"type\":\"string\"},\"steps_complete\":{\"type\":\"integer\"},\"steps_total\":{\"type\":\"integer\"}"
    ∷ entry "pulse.flow.completed" "pulse" "A tracked flow reached a terminal completed state"
        "pulse-service" ("saga_id" ∷ [])
        "\"saga_id\":{\"type\":\"string\"},\"kind\":{\"type\":\"string\"},\"state\":{\"type\":\"string\"},\"steps_complete\":{\"type\":\"integer\"},\"steps_total\":{\"type\":\"integer\"}"
    ∷ entry "pulse.flow.failed" "pulse" "A tracked flow failed (terminal)" "pulse-service"
        ("saga_id" ∷ [])
        "\"saga_id\":{\"type\":\"string\"},\"kind\":{\"type\":\"string\"},\"state\":{\"type\":\"string\"},\"steps_complete\":{\"type\":\"integer\"},\"steps_total\":{\"type\":\"integer\"}"
    ∷ entry "pulse.flow.replayed" "pulse" "Pulse replayed the audited event sequence for a flow"
        "pulse-service" ([])
        "\"saga_id\":{\"type\":\"string\"},\"original_event\":{\"type\":\"string\"},\"occurred_at\":{\"type\":\"string\"},\"payload\":{\"type\":\"string\"}"
    ∷ entry "audit.replay.executed" "audit" "An admin replayed a batch of audited events"
        "pulse-service" ([])
        "\"replayed_event\":{\"type\":\"string\"},\"payload\":{\"type\":\"string\"}"
    ∷ []
