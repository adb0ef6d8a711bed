-- ===== src/Kafka/Taxonomy/Ops.antt =====
-- kafka/event_taxonomy.go, registeredEvents: the events of the ops domain.
use platform_kit.Common.{List, [], ◌∷◌}
use platform_kit.Kafka.Registry.{RegisteredEvent}
use platform_kit.Kafka.Taxonomy.Entry.{entry}

abbrev pub ops_events : List RegisteredEvent
ops_events =
    entry "ops.deployment.started" "ops" "A deployment was started" "ops-service" ([])
      "\"service\":{\"type\":\"string\"},\"service_id\":{\"type\":\"string\"},\"environment\":{\"type\":\"string\"},\"environment_id\":{\"type\":\"string\"},\"deployment_id\":{\"type\":\"string\"},\"version\":{\"type\":\"string\"},\"commit_sha\":{\"type\":\"string\"},\"status\":{\"type\":\"string\"}"
    ∷ entry "ops.deployment.completed" "ops" "A deployment completed" "ops-service" ("status" ∷ [])
        "\"status\":{\"type\":\"string\"},\"environment_id\":{\"type\":\"string\"},\"environment\":{\"type\":\"string\"},\"service\":{\"type\":\"string\"},\"service_id\":{\"type\":\"string\"},\"deployment_id\":{\"type\":\"string\"},\"duration_ms\":{\"type\":\"integer\"},\"commit_sha\":{\"type\":\"string\"},\"version\":{\"type\":\"string\"},\"target_id\":{\"type\":\"string\"},\"target_type\":{\"type\":\"string\"}"
    ∷ entry "ops.deployment.promoted" "ops" "A deployment was promoted" "ops-service"
        ("service" ∷ "from_env" ∷ "to_env" ∷ [])
        "\"service\":{\"type\":\"string\"},\"from_env\":{\"type\":\"string\"},\"to_env\":{\"type\":\"string\"}"
    ∷ entry "ops.deployment.rolled_back" "ops" "A deployment was rolled back" "ops-service" ([])
        "\"service\":{\"type\":\"string\"},\"service_id\":{\"type\":\"string\"},\"environment\":{\"type\":\"string\"},\"environment_id\":{\"type\":\"string\"},\"deployment_id\":{\"type\":\"string\"},\"reason\":{\"type\":\"string\"},\"status\":{\"type\":\"string\"}"
    ∷ entry "ops.deployment.correlated" "ops" "Deployment correlated to metric change" "ops-service"
        ("deployment_id" ∷ [])
        "\"deployment_id\":{\"type\":\"string\"},\"metric\":{\"type\":\"string\"},\"impact\":{\"type\":\"string\"}"
    ∷ entry "ops.alert.triggered" "ops" "An alert was triggered" "ops-service"
        ("severity" ∷ "service" ∷ [])
        "\"severity\":{\"type\":\"string\"},\"service\":{\"type\":\"string\"},\"summary\":{\"type\":\"string\"}"
    ∷ entry "ops.alert.diagnosed" "ops" "An alert was diagnosed" "ops-service" ("alert_id" ∷ [])
        "\"alert_id\":{\"type\":\"string\"},\"root_cause\":{\"type\":\"string\"},\"confidence\":{\"type\":\"number\"}"
    ∷ entry "ops.alert.acknowledged" "ops" "An alert was acknowledged" "ops-service"
        ("alert_id" ∷ "acknowledged_by" ∷ [])
        "\"alert_id\":{\"type\":\"string\"},\"acknowledged_by\":{\"type\":\"string\"}"
    ∷ entry "ops.alert.resolved" "ops" "An alert was resolved" "ops-service" ("alert_id" ∷ [])
        "\"alert_id\":{\"type\":\"string\"},\"resolution\":{\"type\":\"string\"}"
    ∷ entry "ops.incident.opened" "ops" "An incident was opened" "ops-service"
        ("severity" ∷ "title" ∷ [])
        "\"severity\":{\"type\":\"string\"},\"title\":{\"type\":\"string\"}"
    ∷ entry "ops.incident.resolved" "ops" "An incident was resolved" "ops-service" ([])
        "\"resolution\":{\"type\":\"string\"},\"duration_ms\":{\"type\":\"integer\"}"
    ∷ entry "ops.incident.work_item_linked" "ops" "A work item was linked to an incident"
        "ops-service" ("incident_id" ∷ "work_item_id" ∷ [])
        "\"incident_id\":{\"type\":\"string\"},\"work_item_id\":{\"type\":\"string\"}"
    ∷ entry "ops.incident.channel_created" "ops" "An incident channel was created" "ops-service"
        ("incident_id" ∷ "channel" ∷ [])
        "\"incident_id\":{\"type\":\"string\"},\"channel\":{\"type\":\"string\"}"
    ∷ entry "ops.probe.failure" "ops" "A probe failed" "ops-service" ("probe_id" ∷ [])
        "\"probe_id\":{\"type\":\"string\"},\"error\":{\"type\":\"string\"}"
    ∷ entry "ops.probe.recovered" "ops" "A probe recovered" "ops-service" ("probe_id" ∷ [])
        "\"probe_id\":{\"type\":\"string\"}"
    ∷ entry "ops.probe.result" "ops" "A probe produced a result" "ops-service"
        ("probe_id" ∷ "status" ∷ [])
        "\"probe_id\":{\"type\":\"string\"},\"status\":{\"type\":\"string\"},\"latency_ms\":{\"type\":\"integer\"}"
    ∷ entry "ops.delivery_gate.passed" "ops" "A delivery gate passed" "ops-service"
        ("gate" ∷ "pipeline_id" ∷ [])
        "\"gate\":{\"type\":\"string\"},\"pipeline_id\":{\"type\":\"string\"}"
    ∷ entry "ops.delivery_gate.failed" "ops" "A delivery gate failed" "ops-service"
        ("gate" ∷ "pipeline_id" ∷ "reason" ∷ [])
        "\"gate\":{\"type\":\"string\"},\"pipeline_id\":{\"type\":\"string\"},\"reason\":{\"type\":\"string\"}"
    ∷ entry "ops.pipeline.started" "ops" "A pipeline started" "ops-service" ("pipeline_id" ∷ [])
        "\"pipeline_id\":{\"type\":\"string\"},\"trigger\":{\"type\":\"string\"}"
    ∷ entry "ops.pipeline.completed" "ops" "A pipeline completed" "ops-service" ("pipeline_id" ∷ [])
        "\"pipeline_id\":{\"type\":\"string\"},\"duration_ms\":{\"type\":\"integer\"}"
    ∷ entry "ops.pipeline.failed" "ops" "A pipeline failed" "ops-service"
        ("pipeline_id" ∷ "error" ∷ [])
        "\"pipeline_id\":{\"type\":\"string\"},\"error\":{\"type\":\"string\"}"
    ∷ entry "ops.feature_flag.created" "ops" "A feature flag was created" "ops-service"
        ("flag" ∷ []) "\"flag\":{\"type\":\"string\"}"
    ∷ entry "ops.feature_flag.updated" "ops" "A feature flag was updated" "ops-service"
        ("flag" ∷ []) "\"flag\":{\"type\":\"string\"},\"changes\":{\"type\":\"object\"}"
    ∷ entry "ops.feature_flag.stale_detected" "ops" "A stale feature flag was detected"
        "ops-service" ("flag" ∷ [])
        "\"flag\":{\"type\":\"string\"},\"stale_since\":{\"type\":\"string\"}"
    ∷ entry "ops.feature_flag.rollout_step" "ops" "A flag rollout advanced" "ops-service"
        ("flag" ∷ "percentage" ∷ [])
        "\"flag\":{\"type\":\"string\"},\"percentage\":{\"type\":\"number\"}"
    ∷ entry "ops.slo.burn_alert" "ops" "SLO error budget burn alert" "ops-service" ("slo_id" ∷ [])
        "\"slo_id\":{\"type\":\"string\"},\"burn_rate\":{\"type\":\"number\"}"
    ∷ entry "ops.security_scan.completed" "ops" "A security scan completed" "ops-service"
        ("scan_id" ∷ [])
        "\"scan_id\":{\"type\":\"string\"},\"findings\":{\"type\":\"integer\"},\"severity\":{\"type\":\"string\"}"
    ∷ entry "ops.deploy.auto_rollback" "ops" "An automatic rollback was triggered" "ops-service"
        ("service" ∷ []) "\"service\":{\"type\":\"string\"},\"reason\":{\"type\":\"string\"}"
    ∷ entry "ops.autoscaling.scale" "ops" "An autoscaling action was taken" "ops-service"
        ("service" ∷ "direction" ∷ [])
        "\"service\":{\"type\":\"string\"},\"direction\":{\"type\":\"string\"},\"replicas\":{\"type\":\"integer\"}"
    ∷ entry "ops.config_drift.detected" "ops" "Config drift detected" "ops-service" ("service" ∷ [])
        "\"service\":{\"type\":\"string\"},\"keys\":{\"type\":\"array\"}"
    ∷ entry "ops.config_drift.reconciled" "ops" "Config drift reconciled" "ops-service"
        ("service" ∷ []) "\"service\":{\"type\":\"string\"}"
    ∷ entry "ops.test.triggered" "ops" "A test suite was triggered" "ops-service"
        ("suite" ∷ "trigger" ∷ [])
        "\"suite\":{\"type\":\"string\"},\"trigger\":{\"type\":\"string\"}"
    ∷ entry "ops.monitoring.anomaly" "ops" "A monitoring anomaly was detected" "ops-service"
        ("metric" ∷ [])
        "\"metric\":{\"type\":\"string\"},\"value\":{\"type\":\"number\"},\"expected\":{\"type\":\"number\"}"
    ∷ []
