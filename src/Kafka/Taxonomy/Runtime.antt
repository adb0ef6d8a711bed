-- ===== src/Kafka/Taxonomy/Runtime.antt =====
-- kafka/event_taxonomy.go, registeredEvents: the events of the runtime domain.
use platform_kit.Common.{List, [], ◌∷◌}
use platform_kit.Kafka.Registry.{RegisteredEvent}
use platform_kit.Kafka.Taxonomy.Entry.{entry}

abbrev pub runtime_events : List RegisteredEvent
runtime_events =
    entry "runtime.execution.started" "runtime" "A runtime execution started" "runtime-service"
      ("execution_id" ∷ [])
      "\"execution_id\":{\"type\":\"string\"},\"canvas_id\":{\"type\":\"string\"}"
    ∷ entry "runtime.execution.completed" "runtime" "A runtime execution completed"
        "runtime-service" ("execution_id" ∷ [])
        "\"execution_id\":{\"type\":\"string\"},\"duration_ms\":{\"type\":\"integer\"},\"status\":{\"type\":\"string\"}"
    ∷ entry "runtime.execution.failed" "runtime" "A runtime execution failed" "runtime-service"
        ("execution_id" ∷ "error" ∷ [])
        "\"execution_id\":{\"type\":\"string\"},\"error\":{\"type\":\"string\"}"
    ∷ entry "runtime.test.started" "runtime" "A runtime test run started" "runtime-service"
        ("suite" ∷ []) "\"suite\":{\"type\":\"string\"}"
    ∷ entry "runtime.test.completed" "runtime" "A runtime test run completed" "runtime-service"
        ("suite" ∷ "passed" ∷ "failed" ∷ [])
        "\"suite\":{\"type\":\"string\"},\"passed\":{\"type\":\"integer\"},\"failed\":{\"type\":\"integer\"}"
    ∷ entry "runtime.test.failed" "runtime" "A runtime test run failed" "runtime-service"
        ("suite" ∷ "error" ∷ []) "\"suite\":{\"type\":\"string\"},\"error\":{\"type\":\"string\"}"
    ∷ entry "runtime.execution.requested" "runtime"
        "A runtime execution was requested (by a saga or orchestrator)" "ops-service"
        ("execution_id" ∷ [])
        "\"execution_id\":{\"type\":\"string\"},\"session_id\":{\"type\":\"string\"},\"saga_id\":{\"type\":\"string\"},\"reason\":{\"type\":\"string\"}"
    ∷ entry "saga.code_test_deploy.started" "saga" "A code_test_deploy saga started" "ops-service"
        ("saga_id" ∷ "session_id" ∷ [])
        "\"saga_id\":{\"type\":\"string\"},\"session_id\":{\"type\":\"string\"},\"spec_id\":{\"type\":\"string\"}"
    ∷ entry "saga.code_test_deploy.tests_requested" "saga" "The saga requested a runtime test run"
        "ops-service" ("saga_id" ∷ [])
        "\"saga_id\":{\"type\":\"string\"},\"execution_id\":{\"type\":\"string\"}"
    ∷ entry "saga.code_test_deploy.tests_completed" "saga" "The saga observed test completion"
        "ops-service" ("saga_id" ∷ "passed" ∷ [])
        "\"saga_id\":{\"type\":\"string\"},\"passed\":{\"type\":\"boolean\"},\"execution_id\":{\"type\":\"string\"}"
    ∷ entry "saga.code_test_deploy.gate_evaluated" "saga"
        "The saga evaluated the delivery quality gate" "ops-service" ("saga_id" ∷ "passed" ∷ [])
        "\"saga_id\":{\"type\":\"string\"},\"passed\":{\"type\":\"boolean\"},\"reason\":{\"type\":\"string\"}"
    ∷ entry "saga.code_test_deploy.deployment_requested" "saga" "The saga requested a deployment"
        "ops-service" ("saga_id" ∷ "deployment_id" ∷ [])
        "\"saga_id\":{\"type\":\"string\"},\"deployment_id\":{\"type\":\"string\"},\"environment_id\":{\"type\":\"string\"}"
    ∷ entry "saga.code_test_deploy.completed" "saga" "The saga completed successfully" "ops-service"
        ("saga_id" ∷ []) "\"saga_id\":{\"type\":\"string\"},\"deployment_id\":{\"type\":\"string\"}"
    ∷ entry "saga.code_test_deploy.failed" "saga" "The saga failed and compensation (if any) ran"
        "ops-service" ("saga_id" ∷ "reason" ∷ [])
        "\"saga_id\":{\"type\":\"string\"},\"reason\":{\"type\":\"string\"},\"failed_step\":{\"type\":\"string\"}"
    ∷ entry "runtime.checkpoint.created" "runtime" "A VM checkpoint was created by the scheduler"
        "runtime-service" ("vm_id" ∷ "snapshot_id" ∷ [])
        "\"vm_id\":{\"type\":\"string\"},\"snapshot_id\":{\"type\":\"string\"},\"size_bytes\":{\"type\":\"integer\"},\"interval_seconds\":{\"type\":\"integer\"}"
    ∷ entry "runtime.checkpoint.restored" "runtime" "A VM was restored from a checkpoint"
        "runtime-service" ("vm_id" ∷ "snapshot_id" ∷ [])
        "\"vm_id\":{\"type\":\"string\"},\"snapshot_id\":{\"type\":\"string\"},\"restore_time_ms\":{\"type\":\"integer\"}"
    ∷ entry "ops.trace.captured_for_regression" "ops"
        "A production trace was captured for regression test generation" "ops-service"
        ("trace_id" ∷ "service_id" ∷ [])
        "\"trace_id\":{\"type\":\"string\"},\"service_id\":{\"type\":\"string\"},\"organization_id\":{\"type\":\"string\"}"
    ∷ entry "runtime.regression_test.created" "runtime"
        "A regression test was generated from a production trace" "runtime-service"
        ("trace_id" ∷ "test_run_id" ∷ [])
        "\"trace_id\":{\"type\":\"string\"},\"test_run_id\":{\"type\":\"string\"},\"language\":{\"type\":\"string\"},\"framework\":{\"type\":\"string\"}"
    ∷ []
