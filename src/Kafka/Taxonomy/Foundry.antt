-- ===== src/Kafka/Taxonomy/Foundry.antt =====
-- kafka/event_taxonomy.go, registeredEvents: the events of the foundry domain.
use platform_kit.Common.{List, [], ◌∷◌}
use platform_kit.Kafka.Registry.{RegisteredEvent}
use platform_kit.Kafka.Taxonomy.Entry.{entry}

abbrev pub foundry_events : List RegisteredEvent
foundry_events =
    entry "foundry.agent.started" "foundry" "An agent loop started" "foundry-service"
      ("agent" ∷ "session_id" ∷ [])
      "\"agent\":{\"type\":\"string\"},\"session_id\":{\"type\":\"string\"},\"prompt\":{\"type\":\"string\"}"
    ∷ entry "foundry.agent.completed" "foundry" "An agent loop completed" "foundry-service"
        ("agent" ∷ "session_id" ∷ [])
        "\"agent\":{\"type\":\"string\"},\"session_id\":{\"type\":\"string\"},\"tokens_used\":{\"type\":\"integer\"}"
    ∷ entry "foundry.agent.failed" "foundry" "An agent loop failed" "foundry-service"
        ("agent" ∷ "error" ∷ []) "\"agent\":{\"type\":\"string\"},\"error\":{\"type\":\"string\"}"
    ∷ entry "foundry.approval.requested" "foundry" "An approval was requested" "foundry-service"
        ("action" ∷ []) "\"action\":{\"type\":\"string\"},\"requester\":{\"type\":\"string\"}"
    ∷ entry "foundry.approval.granted" "foundry" "An approval was granted" "foundry-service"
        ("approval_id" ∷ "approver" ∷ [])
        "\"approval_id\":{\"type\":\"string\"},\"approver\":{\"type\":\"string\"}"
    ∷ entry "foundry.approval.rejected" "foundry" "An approval was rejected" "foundry-service"
        ("approval_id" ∷ "approver" ∷ [])
        "\"approval_id\":{\"type\":\"string\"},\"approver\":{\"type\":\"string\"},\"reason\":{\"type\":\"string\"}"
    ∷ entry "foundry.proposal.created" "foundry" "A proposal was created" "foundry-service"
        ("proposal_type" ∷ [])
        "\"proposal_type\":{\"type\":\"string\"},\"title\":{\"type\":\"string\"}"
    ∷ entry "foundry.proposal.accepted" "foundry" "A proposal was accepted" "foundry-service" ([])
        "\"reviewer\":{\"type\":\"string\"}"
    ∷ entry "foundry.proposal.rejected" "foundry" "A proposal was rejected" "foundry-service" ([])
        "\"reviewer\":{\"type\":\"string\"},\"reason\":{\"type\":\"string\"}"
    ∷ entry "foundry.diagnosis.started" "foundry" "A diagnosis started" "foundry-service"
        ("subject" ∷ []) "\"subject\":{\"type\":\"string\"}"
    ∷ entry "foundry.diagnosis.completed" "foundry" "A diagnosis completed" "foundry-service"
        ("subject" ∷ []) "\"subject\":{\"type\":\"string\"},\"verdict\":{\"type\":\"string\"}"
    ∷ entry "foundry.genesis.security_scan_completed" "foundry"
        "Genesis security scan for a node proposal completed" "foundry-service"
        ("proposal_id" ∷ "verdict" ∷ [])
        "\"proposal_id\":{\"type\":\"string\"},\"verdict\":{\"type\":\"string\"},\"critical_count\":{\"type\":\"integer\"},\"high_count\":{\"type\":\"integer\"},\"medium_count\":{\"type\":\"integer\"},\"low_count\":{\"type\":\"integer\"}"
    ∷ entry "foundry.genesis.security_blocked" "foundry"
        "A node proposal was blocked from publishing by security scan" "foundry-service"
        ("proposal_id" ∷ [])
        "\"proposal_id\":{\"type\":\"string\"},\"critical_count\":{\"type\":\"integer\"},\"high_count\":{\"type\":\"integer\"},\"summary\":{\"type\":\"string\"}"
    ∷ entry "foundry.reactive.throttled" "foundry" "A reactive rule trigger was throttled"
        "foundry-service" ("rule_id" ∷ "reason" ∷ [])
        "\"rule_id\":{\"type\":\"string\"},\"rule_name\":{\"type\":\"string\"},\"event_type\":{\"type\":\"string\"},\"reason\":{\"type\":\"string\"},\"window_triggers\":{\"type\":\"integer\"}"
    ∷ entry "foundry.eve.tool_calls_parallel_start" "foundry"
        "Eve launched a batch of tool calls in parallel" "foundry-service" ("batch_size" ∷ [])
        "\"batch_size\":{\"type\":\"integer\"},\"iteration\":{\"type\":\"integer\"},\"tool_names\":{\"type\":\"array\",\"items\":{\"type\":\"string\"}}"
    ∷ entry "foundry.eve.tool_calls_parallel_end" "foundry"
        "Eve completed a batch of parallel tool calls" "foundry-service" ("batch_size" ∷ [])
        "\"batch_size\":{\"type\":\"integer\"},\"iteration\":{\"type\":\"integer\"},\"duration_ms\":{\"type\":\"integer\"},\"success_count\":{\"type\":\"integer\"},\"error_count\":{\"type\":\"integer\"}"
    ∷ entry "foundry.memory.staleness_rescored" "foundry"
        "Background worker rescored freshness of agent memory entries" "foundry-service"
        ("total" ∷ [])
        "\"total\":{\"type\":\"integer\"},\"stale\":{\"type\":\"integer\"},\"fresh\":{\"type\":\"integer\"}"
    ∷ entry "foundry.decompose_spec.requested" "foundry" "A spec decomposition run was requested"
        "work-service" ("spec_id" ∷ [])
        "\"spec_id\":{\"type\":\"string\"},\"title\":{\"type\":\"string\"},\"description\":{\"type\":\"string\"},\"organization_id\":{\"type\":\"string\"},\"attempt\":{\"type\":\"integer\"},\"source_kind\":{\"type\":\"string\"}"
    ∷ entry "foundry.code_gen.started" "foundry" "Code generation for a canvas node started"
        "foundry-service" ("node_id" ∷ [])
        "\"node_id\":{\"type\":\"string\"},\"canvas_id\":{\"type\":\"string\"},\"spec_id\":{\"type\":\"string\"},\"organization_id\":{\"type\":\"string\"}"
    ∷ entry "foundry.code_gen.completed" "foundry" "Code generation for a canvas node completed"
        "foundry-service" ("node_id" ∷ [])
        "\"node_id\":{\"type\":\"string\"},\"canvas_id\":{\"type\":\"string\"},\"spec_id\":{\"type\":\"string\"},\"code\":{\"type\":\"string\"},\"duration_ms\":{\"type\":\"integer\"}"
    ∷ entry "foundry.code_gen.failed" "foundry" "Code generation for a canvas node failed"
        "foundry-service" ("node_id" ∷ "error" ∷ [])
        "\"node_id\":{\"type\":\"string\"},\"canvas_id\":{\"type\":\"string\"},\"spec_id\":{\"type\":\"string\"},\"error\":{\"type\":\"string\"}"
    ∷ []
