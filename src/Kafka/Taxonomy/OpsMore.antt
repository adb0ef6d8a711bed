-- ===== src/Kafka/Taxonomy/OpsMore.antt =====
-- kafka/event_taxonomy.go, registeredEvents: aliases and additions of the ops domain.
use platform_kit.Common.{List, [], ◌∷◌}
use platform_kit.Kafka.Registry.{RegisteredEvent}
use platform_kit.Kafka.Taxonomy.Entry.{entry}

abbrev pub ops_additions : List RegisteredEvent
ops_additions =
    entry "ops.deploy.created" "ops" "A deployment was created" "ops-service" ([])
      "\"deployment_id\":{\"type\":\"string\"},\"environment\":{\"type\":\"string\"},\"version\":{\"type\":\"string\"}"
    ∷ entry "ops.deploy.started" "ops" "A deployment started" "ops-service" ([])
        "\"deployment_id\":{\"type\":\"string\"},\"environment\":{\"type\":\"string\"}"
    ∷ entry "ops.deploy.in_progress" "ops" "A deployment is in progress" "ops-service" ([])
        "\"deployment_id\":{\"type\":\"string\"},\"environment\":{\"type\":\"string\"},\"progress\":{\"type\":\"number\"}"
    ∷ entry "ops.deploy.completed" "ops" "A deployment completed" "ops-service" ([])
        "\"deployment_id\":{\"type\":\"string\"},\"environment\":{\"type\":\"string\"},\"status\":{\"type\":\"string\"},\"duration_ms\":{\"type\":\"integer\"}"
    ∷ entry "ops.deploy.failed" "ops" "A deployment failed" "ops-service" ([])
        "\"deployment_id\":{\"type\":\"string\"},\"environment\":{\"type\":\"string\"},\"error\":{\"type\":\"string\"}"
    ∷ entry "ops.deploy.rolled_back" "ops" "A deployment was rolled back" "ops-service" ([])
        "\"deployment_id\":{\"type\":\"string\"},\"reason\":{\"type\":\"string\"}"
    ∷ entry "ops.deploy.rollback_failed" "ops" "A deployment rollback failed" "ops-service" ([])
        "\"deployment_id\":{\"type\":\"string\"},\"error\":{\"type\":\"string\"}"
    ∷ entry "ops.deploy.promoted" "ops" "A deployment was promoted" "ops-service" ([])
        "\"deployment_id\":{\"type\":\"string\"},\"from_env\":{\"type\":\"string\"},\"to_env\":{\"type\":\"string\"}"
    ∷ entry "ops.deployment.failed" "ops" "A deployment failed (deployment.* form)" "ops-service"
        ([])
        "\"deployment_id\":{\"type\":\"string\"},\"environment\":{\"type\":\"string\"},\"error\":{\"type\":\"string\"}"
    ∷ entry "ops.deployment.requested" "ops"
        "Quality-gate evaluator requested a deployment after tests passed" "ops-service"
        ("deployment_id" ∷ [])
        "\"deployment_id\":{\"type\":\"string\"},\"test_run_id\":{\"type\":\"string\"},\"artifact\":{\"type\":\"string\"},\"session_id\":{\"type\":\"string\"},\"spec_id\":{\"type\":\"string\"},\"trigger\":{\"type\":\"string\"},\"passing_gates\":{\"type\":\"integer\"}"
    ∷ entry "ops.alert.fired" "ops"
        "An alert was fired (canonical name; ops.alert.triggered is an alias)" "ops-service" ([])
        "\"severity\":{\"type\":\"string\"},\"service\":{\"type\":\"string\"},\"summary\":{\"type\":\"string\"}"
    ∷ entry "ops.alert.silenced" "ops" "An alert was silenced" "ops-service" ([])
        "\"alert_id\":{\"type\":\"string\"},\"silenced_by\":{\"type\":\"string\"},\"duration\":{\"type\":\"string\"}"
    ∷ entry "ops.incident.created" "ops" "An incident was created" "ops-service" ([])
        "\"incident_id\":{\"type\":\"string\"},\"severity\":{\"type\":\"string\"},\"title\":{\"type\":\"string\"}"
    ∷ entry "ops.incident.severity_changed" "ops" "Incident severity changed" "ops-service" ([])
        "\"incident_id\":{\"type\":\"string\"},\"old_severity\":{\"type\":\"string\"},\"new_severity\":{\"type\":\"string\"}"
    ∷ entry "ops.incident.status_changed" "ops" "Incident status changed" "ops-service" ([])
        "\"incident_id\":{\"type\":\"string\"},\"old_status\":{\"type\":\"string\"},\"new_status\":{\"type\":\"string\"}"
    ∷ entry "ops.incident.post_mortem_created" "ops" "Incident post-mortem document created"
        "ops-service" ([])
        "\"incident_id\":{\"type\":\"string\"},\"post_mortem_id\":{\"type\":\"string\"}"
    ∷ entry "ops.probe.failed" "ops" "A probe failed (alias of probe.failure)" "ops-service" ([])
        "\"probe_id\":{\"type\":\"string\"},\"error\":{\"type\":\"string\"}"
    ∷ entry "ops.probe.result_signal" "ops" "A probe result published as a work-service signal"
        "ops-service" ([])
        "\"probe_id\":{\"type\":\"string\"},\"signal_status\":{\"type\":\"string\"},\"signal_category\":{\"type\":\"string\"},\"target_id\":{\"type\":\"string\"},\"latency_ms\":{\"type\":\"integer\"},\"metric_name\":{\"type\":\"string\"}"
    ∷ entry "ops.delivery_gate.passing" "ops" "A delivery gate is passing" "ops-service" ([])
        "\"gate\":{\"type\":\"string\"},\"pipeline_id\":{\"type\":\"string\"}"
    ∷ entry "ops.delivery_gate.failing" "ops" "A delivery gate is failing" "ops-service" ([])
        "\"gate\":{\"type\":\"string\"},\"pipeline_id\":{\"type\":\"string\"},\"reason\":{\"type\":\"string\"}"
    ∷ entry "ops.delivery_gate.overridden" "ops" "A delivery gate was overridden" "ops-service" ([])
        "\"gate\":{\"type\":\"string\"},\"pipeline_id\":{\"type\":\"string\"},\"overridden_by\":{\"type\":\"string\"}"
    ∷ entry "ops.pipeline.cancelled" "ops" "A pipeline was cancelled" "ops-service" ([])
        "\"pipeline_id\":{\"type\":\"string\"},\"reason\":{\"type\":\"string\"}"
    ∷ entry "ops.self_healing.triggered" "ops" "A self-healing action was triggered" "ops-service"
        ([]) "\"alert_id\":{\"type\":\"string\"},\"action\":{\"type\":\"string\"}"
    ∷ entry "ops.preview.created" "ops" "Preview environment created" "ops-service" ([])
        "\"preview_id\":{\"type\":\"string\"},\"branch\":{\"type\":\"string\"},\"url\":{\"type\":\"string\"}"
    ∷ entry "ops.preview.updated" "ops" "Preview environment updated" "ops-service" ([])
        "\"preview_id\":{\"type\":\"string\"},\"changes\":{\"type\":\"object\"}"
    ∷ entry "ops.preview.deleted" "ops" "Preview environment deleted" "ops-service" ([])
        "\"preview_id\":{\"type\":\"string\"}"
    ∷ entry "ops.cost.anomaly" "ops" "Cost anomaly detected" "ops-service" ([])
        "\"service\":{\"type\":\"string\"},\"amount\":{\"type\":\"number\"},\"baseline\":{\"type\":\"number\"}"
    ∷ entry "ops.cost.budget_threshold" "ops" "Cost budget threshold crossed" "ops-service" ([])
        "\"budget_id\":{\"type\":\"string\"},\"threshold\":{\"type\":\"number\"},\"current\":{\"type\":\"number\"}"
    ∷ entry "ops.compliance.continuous_report" "ops" "Continuous compliance report emitted"
        "ops-service" ([])
        "\"framework\":{\"type\":\"string\"},\"score\":{\"type\":\"number\"},\"findings\":{\"type\":\"integer\"}"
    ∷ entry "ops.monitoring.predictive_anomaly" "ops" "Predictive monitoring anomaly" "ops-service"
        ([])
        "\"metric\":{\"type\":\"string\"},\"forecast\":{\"type\":\"number\"},\"horizon_minutes\":{\"type\":\"integer\"}"
    ∷ entry "ops.service.created" "ops" "A service catalog entry was created" "ops-service" ([])
        "\"name\":{\"type\":\"string\"},\"owner\":{\"type\":\"string\"}"
    ∷ entry "ops.service.updated" "ops" "A service catalog entry was updated" "ops-service" ([])
        "\"name\":{\"type\":\"string\"},\"changes\":{\"type\":\"object\"}"
    ∷ entry "ops.service.deleted" "ops" "A service catalog entry was deleted" "ops-service" ([])
        "\"name\":{\"type\":\"string\"}"
    ∷ entry "ops.service.lifecycle_changed" "ops" "Service lifecycle stage changed" "ops-service"
        ([]) "\"name\":{\"type\":\"string\"},\"stage\":{\"type\":\"string\"}"
    ∷ entry "ops.service.discovered" "ops" "A service was discovered" "ops-service" ([])
        "\"name\":{\"type\":\"string\"},\"source\":{\"type\":\"string\"}"
    ∷ entry "ops.target.created" "ops" "A deploy target was created" "ops-service" ([])
        "\"name\":{\"type\":\"string\"},\"kind\":{\"type\":\"string\"}"
    ∷ entry "ops.target.updated" "ops" "A deploy target was updated" "ops-service" ([])
        "\"name\":{\"type\":\"string\"},\"changes\":{\"type\":\"object\"}"
    ∷ entry "ops.target.deleted" "ops" "A deploy target was deleted" "ops-service" ([])
        "\"name\":{\"type\":\"string\"}"
    ∷ entry "ops.test.post_merge_triggered" "ops" "Post-merge test triggered" "ops-service" ([])
        "\"suite\":{\"type\":\"string\"},\"commit_sha\":{\"type\":\"string\"}"
    ∷ entry "ops.test.on_commit_triggered" "ops" "On-commit test triggered" "ops-service" ([])
        "\"suite\":{\"type\":\"string\"},\"commit_sha\":{\"type\":\"string\"}"
    ∷ entry "ops.test.on_session_triggered" "ops" "On-session test triggered" "ops-service" ([])
        "\"suite\":{\"type\":\"string\"},\"session_id\":{\"type\":\"string\"}"
    ∷ entry "ops.admin.impersonation.started" "ops" "Admin impersonation session started"
        "ops-service" ([])
        "\"admin_id\":{\"type\":\"string\"},\"target_user_id\":{\"type\":\"string\"},\"reason\":{\"type\":\"string\"}"
    ∷ []
