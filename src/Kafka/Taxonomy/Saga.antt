-- ===== src/Kafka/Taxonomy/Saga.antt =====
-- kafka/event_taxonomy.go, registeredEvents: the saga events.
use platform_kit.Common.{List, [], ◌∷◌}
use platform_kit.Kafka.Registry.{RegisteredEvent}
use platform_kit.Kafka.Taxonomy.Entry.{entry}

abbrev pub saga_events : List RegisteredEvent
saga_events =
    entry "saga.self_healing.started" "saga"
      "Self-healing saga started from an ops.alert.fired event" "foundry-service"
      ("saga_id" ∷ "alert_id" ∷ [])
      "\"saga_id\":{\"type\":\"string\"},\"alert_id\":{\"type\":\"string\"},\"incident_id\":{\"type\":\"string\"},\"severity\":{\"type\":\"string\"}"
    ∷ entry "saga.self_healing.diagnosed" "saga"
        "Self-healing saga produced an AI diagnosis for the triggering alert" "foundry-service"
        ("saga_id" ∷ [])
        "\"saga_id\":{\"type\":\"string\"},\"root_cause\":{\"type\":\"string\"},\"confidence\":{\"type\":\"number\"},\"severity\":{\"type\":\"string\"}"
    ∷ entry "saga.self_healing.approval_required" "saga"
        "Self-healing saga is awaiting human approval before proceeding" "foundry-service"
        ("saga_id" ∷ "approval_id" ∷ [])
        "\"saga_id\":{\"type\":\"string\"},\"approval_id\":{\"type\":\"string\"},\"reason\":{\"type\":\"string\"},\"confidence\":{\"type\":\"number\"}"
    ∷ entry "saga.self_healing.spec_created" "saga"
        "Self-healing saga created a remediation spec in work-service" "foundry-service"
        ("saga_id" ∷ "spec_id" ∷ [])
        "\"saga_id\":{\"type\":\"string\"},\"spec_id\":{\"type\":\"string\"},\"title\":{\"type\":\"string\"}"
    ∷ entry "saga.self_healing.deployed" "saga" "Self-healing saga deployed the remediation"
        "foundry-service" ("saga_id" ∷ [])
        "\"saga_id\":{\"type\":\"string\"},\"deployment_id\":{\"type\":\"string\"}"
    ∷ entry "saga.self_healing.verified" "saga"
        "Self-healing saga verified that the underlying metric recovered" "foundry-service"
        ("saga_id" ∷ []) "\"saga_id\":{\"type\":\"string\"},\"verified_at\":{\"type\":\"string\"}"
    ∷ entry "saga.self_healing.completed" "saga" "Self-healing saga completed successfully"
        "foundry-service" ("saga_id" ∷ [])
        "\"saga_id\":{\"type\":\"string\"},\"duration_ms\":{\"type\":\"integer\"}"
    ∷ entry "saga.self_healing.failed" "saga" "Self-healing saga failed" "foundry-service"
        ("saga_id" ∷ [])
        "\"saga_id\":{\"type\":\"string\"},\"error\":{\"type\":\"string\"},\"state\":{\"type\":\"string\"}"
    ∷ entry "saga.self_healing.rolled_back" "saga"
        "Self-healing saga rolled back a failed remediation" "foundry-service" ("saga_id" ∷ [])
        "\"saga_id\":{\"type\":\"string\"},\"deployment_id\":{\"type\":\"string\"},\"reason\":{\"type\":\"string\"}"
    ∷ entry "saga.spec_driven.started" "saga" "Spec-driven saga began orchestration"
        "foundry-service" ("spec_id" ∷ [])
        "\"spec_id\":{\"type\":\"string\"},\"saga_id\":{\"type\":\"string\"},\"title\":{\"type\":\"string\"}"
    ∷ entry "saga.spec_driven.decomposed" "saga" "Spec decomposed into canvas node graph"
        "foundry-service" ("spec_id" ∷ [])
        "\"spec_id\":{\"type\":\"string\"},\"saga_id\":{\"type\":\"string\"},\"node_count\":{\"type\":\"integer\"}"
    ∷ entry "saga.spec_driven.canvas_created" "saga" "Canvas created for spec-driven saga"
        "foundry-service" ("spec_id" ∷ [])
        "\"spec_id\":{\"type\":\"string\"},\"saga_id\":{\"type\":\"string\"},\"canvas_id\":{\"type\":\"string\"}"
    ∷ entry "saga.spec_driven.session_created" "saga" "Git session created for spec-driven saga"
        "foundry-service" ("spec_id" ∷ [])
        "\"spec_id\":{\"type\":\"string\"},\"saga_id\":{\"type\":\"string\"},\"session_id\":{\"type\":\"string\"},\"branch\":{\"type\":\"string\"}"
    ∷ entry "saga.spec_driven.code_written" "saga"
        "Coder agent finished a pass on the spec-driven saga" "foundry-service" ("spec_id" ∷ [])
        "\"spec_id\":{\"type\":\"string\"},\"saga_id\":{\"type\":\"string\"},\"session_id\":{\"type\":\"string\"},\"attempt\":{\"type\":\"integer\"}"
    ∷ entry "saga.spec_driven.testing_started" "saga"
        "Spec-driven saga kicked off a runtime test run" "foundry-service" ("spec_id" ∷ [])
        "\"spec_id\":{\"type\":\"string\"},\"saga_id\":{\"type\":\"string\"},\"session_id\":{\"type\":\"string\"},\"attempt\":{\"type\":\"integer\"}"
    ∷ entry "saga.spec_driven.retry_triggered" "saga" "Spec-driven saga retrying after test failure"
        "foundry-service" ("spec_id" ∷ [])
        "\"spec_id\":{\"type\":\"string\"},\"saga_id\":{\"type\":\"string\"},\"attempt\":{\"type\":\"integer\"},\"max_retries\":{\"type\":\"integer\"},\"reason\":{\"type\":\"string\"}"
    ∷ entry "saga.spec_driven.completed" "saga"
        "Spec-driven saga finished (used for cross-saga chaining)" "foundry-service"
        ("spec_id" ∷ [])
        "\"spec_id\":{\"type\":\"string\"},\"saga_id\":{\"type\":\"string\"},\"state\":{\"type\":\"string\"}"
    ∷ entry "saga.spec_driven.failed" "saga" "Spec-driven saga failed" "foundry-service"
        ("spec_id" ∷ [])
        "\"spec_id\":{\"type\":\"string\"},\"saga_id\":{\"type\":\"string\"},\"reason\":{\"type\":\"string\"}"
    ∷ entry "canvas.saga.import_analyze_canvas.started" "saga"
        "Import-analyze-canvas saga started after git analysis completed" "canvas-service"
        ("saga_id" ∷ [])
        "\"saga_id\":{\"type\":\"string\"},\"organization_id\":{\"type\":\"string\"},\"import_id\":{\"type\":\"string\"},\"repository_url\":{\"type\":\"string\"},\"symbol_count\":{\"type\":\"integer\"},\"state\":{\"type\":\"string\"}"
    ∷ entry "canvas.saga.import_analyze_canvas.nodes_created" "saga"
        "Import-analyze-canvas saga bulk-created nodes on the canvas" "canvas-service"
        ("saga_id" ∷ "canvas_id" ∷ [])
        "\"saga_id\":{\"type\":\"string\"},\"canvas_id\":{\"type\":\"string\"},\"organization_id\":{\"type\":\"string\"},\"import_id\":{\"type\":\"string\"},\"node_count\":{\"type\":\"integer\"},\"state\":{\"type\":\"string\"}"
    ∷ entry "canvas.saga.import_analyze_canvas.edges_inferred" "saga"
        "Import-analyze-canvas saga inferred edges between imported nodes" "canvas-service"
        ("saga_id" ∷ "canvas_id" ∷ [])
        "\"saga_id\":{\"type\":\"string\"},\"canvas_id\":{\"type\":\"string\"},\"organization_id\":{\"type\":\"string\"},\"import_id\":{\"type\":\"string\"},\"edge_count\":{\"type\":\"integer\"},\"state\":{\"type\":\"string\"}"
    ∷ entry "canvas.saga.import_analyze_canvas.layout_applied" "saga"
        "Import-analyze-canvas saga applied the auto-layout" "canvas-service"
        ("saga_id" ∷ "canvas_id" ∷ [])
        "\"saga_id\":{\"type\":\"string\"},\"canvas_id\":{\"type\":\"string\"},\"organization_id\":{\"type\":\"string\"},\"import_id\":{\"type\":\"string\"},\"state\":{\"type\":\"string\"}"
    ∷ entry "canvas.saga.import_analyze_canvas.completed" "saga"
        "Import-analyze-canvas saga completed successfully" "canvas-service"
        ("saga_id" ∷ "canvas_id" ∷ [])
        "\"saga_id\":{\"type\":\"string\"},\"canvas_id\":{\"type\":\"string\"},\"organization_id\":{\"type\":\"string\"},\"import_id\":{\"type\":\"string\"},\"node_count\":{\"type\":\"integer\"},\"edge_count\":{\"type\":\"integer\"},\"symbol_count\":{\"type\":\"integer\"},\"state\":{\"type\":\"string\"}"
    ∷ entry "canvas.saga.import_analyze_canvas.failed" "saga"
        "Import-analyze-canvas saga failed during one of its stages" "canvas-service"
        ("saga_id" ∷ [])
        "\"saga_id\":{\"type\":\"string\"},\"organization_id\":{\"type\":\"string\"},\"import_id\":{\"type\":\"string\"},\"error\":{\"type\":\"string\"},\"state\":{\"type\":\"string\"}"
    ∷ entry "saga.nl_query.started" "saga" "Natural-language query saga started" "foundry-service"
        ("saga_id" ∷ "question" ∷ [])
        "\"saga_id\":{\"type\":\"string\"},\"organization_id\":{\"type\":\"string\"},\"user_id\":{\"type\":\"string\"},\"state\":{\"type\":\"string\"},\"question\":{\"type\":\"string\"},\"query_id\":{\"type\":\"string\"},\"canvas_id\":{\"type\":\"string\"},\"node_id\":{\"type\":\"string\"},\"chart_type\":{\"type\":\"string\"},\"row_count\":{\"type\":\"integer\"},\"error\":{\"type\":\"string\"}"
    ∷ entry "saga.nl_query.translated" "saga"
        "NL-query saga translated the question into SQL via data-service" "foundry-service"
        ("saga_id" ∷ [])
        "\"saga_id\":{\"type\":\"string\"},\"organization_id\":{\"type\":\"string\"},\"user_id\":{\"type\":\"string\"},\"state\":{\"type\":\"string\"},\"question\":{\"type\":\"string\"},\"query_id\":{\"type\":\"string\"},\"canvas_id\":{\"type\":\"string\"},\"node_id\":{\"type\":\"string\"},\"chart_type\":{\"type\":\"string\"},\"row_count\":{\"type\":\"integer\"},\"error\":{\"type\":\"string\"}"
    ∷ entry "saga.nl_query.executed" "saga" "NL-query saga executed the translated SQL"
        "foundry-service" ("saga_id" ∷ [])
        "\"saga_id\":{\"type\":\"string\"},\"organization_id\":{\"type\":\"string\"},\"user_id\":{\"type\":\"string\"},\"state\":{\"type\":\"string\"},\"question\":{\"type\":\"string\"},\"query_id\":{\"type\":\"string\"},\"canvas_id\":{\"type\":\"string\"},\"node_id\":{\"type\":\"string\"},\"chart_type\":{\"type\":\"string\"},\"row_count\":{\"type\":\"integer\"},\"error\":{\"type\":\"string\"}"
    ∷ entry "saga.nl_query.rendered" "saga"
        "NL-query saga rendered the result as a canvas dashboard node" "foundry-service"
        ("saga_id" ∷ [])
        "\"saga_id\":{\"type\":\"string\"},\"organization_id\":{\"type\":\"string\"},\"user_id\":{\"type\":\"string\"},\"state\":{\"type\":\"string\"},\"question\":{\"type\":\"string\"},\"query_id\":{\"type\":\"string\"},\"canvas_id\":{\"type\":\"string\"},\"node_id\":{\"type\":\"string\"},\"chart_type\":{\"type\":\"string\"},\"row_count\":{\"type\":\"integer\"},\"error\":{\"type\":\"string\"}"
    ∷ entry "saga.nl_query.completed" "saga" "NL-query saga completed and posted the Eve reply"
        "foundry-service" ("saga_id" ∷ [])
        "\"saga_id\":{\"type\":\"string\"},\"organization_id\":{\"type\":\"string\"},\"user_id\":{\"type\":\"string\"},\"state\":{\"type\":\"string\"},\"question\":{\"type\":\"string\"},\"query_id\":{\"type\":\"string\"},\"canvas_id\":{\"type\":\"string\"},\"node_id\":{\"type\":\"string\"},\"chart_type\":{\"type\":\"string\"},\"row_count\":{\"type\":\"integer\"},\"error\":{\"type\":\"string\"}"
    ∷ entry "saga.nl_query.failed" "saga"
        "NL-query saga failed during translation, execution, or rendering" "foundry-service"
        ("saga_id" ∷ [])
        "\"saga_id\":{\"type\":\"string\"},\"organization_id\":{\"type\":\"string\"},\"user_id\":{\"type\":\"string\"},\"state\":{\"type\":\"string\"},\"question\":{\"type\":\"string\"},\"query_id\":{\"type\":\"string\"},\"canvas_id\":{\"type\":\"string\"},\"node_id\":{\"type\":\"string\"},\"chart_type\":{\"type\":\"string\"},\"row_count\":{\"type\":\"integer\"},\"error\":{\"type\":\"string\"}"
    ∷ []
