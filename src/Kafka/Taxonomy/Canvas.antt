-- ===== src/Kafka/Taxonomy/Canvas.antt =====
-- kafka/event_taxonomy.go, registeredEvents: the events of the canvas domain.
use platform_kit.Common.{List, [], ◌∷◌}
use platform_kit.Kafka.Registry.{RegisteredEvent}
use platform_kit.Kafka.Taxonomy.Entry.{entry}

abbrev pub canvas_events : List RegisteredEvent
canvas_events =
    entry "canvas.canvas.created" "canvas" "A canvas was created" "canvas-service" ("name" ∷ [])
      "\"name\":{\"type\":\"string\"},\"project_id\":{\"type\":\"string\"}"
    ∷ entry "canvas.canvas.updated" "canvas" "A canvas was updated" "canvas-service" ([])
        "\"changes\":{\"type\":\"object\"}"
    ∷ entry "canvas.canvas.deleted" "canvas" "A canvas was deleted" "canvas-service" ([]) ""
    ∷ entry "canvas.node.created" "canvas" "A canvas node was created" "canvas-service"
        ("canvas_id" ∷ "node_type" ∷ [])
        "\"canvas_id\":{\"type\":\"string\"},\"node_type\":{\"type\":\"string\"},\"name\":{\"type\":\"string\"}"
    ∷ entry "canvas.node.updated" "canvas" "A canvas node was updated" "canvas-service"
        ("canvas_id" ∷ []) "\"canvas_id\":{\"type\":\"string\"},\"changes\":{\"type\":\"object\"}"
    ∷ entry "canvas.node.deleted" "canvas" "A canvas node was deleted" "canvas-service"
        ("canvas_id" ∷ []) "\"canvas_id\":{\"type\":\"string\"}"
    ∷ entry "canvas.node.certified" "canvas" "A canvas node was certified" "canvas-service"
        ("canvas_id" ∷ [])
        "\"canvas_id\":{\"type\":\"string\"},\"certification_level\":{\"type\":\"string\"}"
    ∷ entry "canvas.node.generated" "canvas" "A canvas node was generated by AI" "canvas-service"
        ("canvas_id" ∷ []) "\"canvas_id\":{\"type\":\"string\"},\"model\":{\"type\":\"string\"}"
    ∷ entry "canvas.node.published" "canvas" "A canvas node was published to marketplace"
        "canvas-service" ("marketplace_id" ∷ [])
        "\"marketplace_id\":{\"type\":\"string\"},\"version\":{\"type\":\"string\"}"
    ∷ entry "canvas.node.linked" "canvas" "A canvas node was linked to a spec or feature"
        "canvas-service" ("node_id" ∷ [])
        "\"node_id\":{\"type\":\"string\"},\"spec_id\":{\"type\":\"string\"},\"feature_id\":{\"type\":\"string\"},\"link_type\":{\"type\":\"string\"}"
    ∷ entry "canvas.node.unlinked" "canvas" "A canvas node was unlinked from a spec or feature"
        "canvas-service" ("node_id" ∷ [])
        "\"node_id\":{\"type\":\"string\"},\"spec_id\":{\"type\":\"string\"},\"feature_id\":{\"type\":\"string\"}"
    ∷ entry "canvas.edge.created" "canvas" "A canvas edge was created" "canvas-service"
        ("source" ∷ "target" ∷ [])
        "\"canvas_id\":{\"type\":\"string\"},\"source\":{\"type\":\"string\"},\"target\":{\"type\":\"string\"}"
    ∷ entry "canvas.edge.deleted" "canvas" "A canvas edge was deleted" "canvas-service"
        ("canvas_id" ∷ []) "\"canvas_id\":{\"type\":\"string\"}"
    ∷ entry "canvas.group.created" "canvas" "A canvas group was created" "canvas-service"
        ("canvas_id" ∷ "name" ∷ [])
        "\"canvas_id\":{\"type\":\"string\"},\"name\":{\"type\":\"string\"}"
    ∷ entry "canvas.group.updated" "canvas" "A canvas group was updated" "canvas-service"
        ("canvas_id" ∷ []) "\"canvas_id\":{\"type\":\"string\"},\"changes\":{\"type\":\"object\"}"
    ∷ entry "canvas.group.deleted" "canvas" "A canvas group was deleted" "canvas-service"
        ("canvas_id" ∷ []) "\"canvas_id\":{\"type\":\"string\"}"
    ∷ entry "canvas.debug.session.created" "canvas" "A debug session was created" "canvas-service"
        ([]) "\"canvas_id\":{\"type\":\"string\"}"
    ∷ entry "canvas.debug.session.started" "canvas" "A debug session started" "canvas-service" ([])
        "\"canvas_id\":{\"type\":\"string\"}"
    ∷ entry "canvas.debug.session.paused" "canvas" "A debug session paused" "canvas-service" ([])
        "\"canvas_id\":{\"type\":\"string\"},\"reason\":{\"type\":\"string\"}"
    ∷ entry "canvas.debug.session.cancelled" "canvas" "A debug session was cancelled"
        "canvas-service" ([]) "\"canvas_id\":{\"type\":\"string\"}"
    ∷ entry "canvas.debug.session.failed" "canvas" "A debug session failed" "canvas-service"
        ("error" ∷ []) "\"canvas_id\":{\"type\":\"string\"},\"error\":{\"type\":\"string\"}"
    ∷ entry "canvas.debug.session.completed" "canvas" "A debug session completed" "canvas-service"
        ([]) "\"canvas_id\":{\"type\":\"string\"},\"duration_ms\":{\"type\":\"integer\"}"
    ∷ entry "canvas.debug.step.completed" "canvas" "A debug step completed" "canvas-service" ([])
        "\"canvas_id\":{\"type\":\"string\"},\"node_id\":{\"type\":\"string\"}"
    ∷ entry "canvas.api.generated" "canvas" "A canvas API was generated" "canvas-service" ([])
        "\"canvas_id\":{\"type\":\"string\"},\"api_name\":{\"type\":\"string\"}"
    ∷ entry "canvas.api.deployed" "canvas" "A canvas API was deployed" "canvas-service" ([])
        "\"endpoint\":{\"type\":\"string\"},\"api_name\":{\"type\":\"string\"}"
    ∷ entry "canvas.api.stop_warning" "canvas" "Canvas API approaching stop" "canvas-service" ([])
        "\"reason\":{\"type\":\"string\"}"
    ∷ entry "canvas.api.stopped" "canvas" "A canvas API was stopped" "canvas-service" ([])
        "\"reason\":{\"type\":\"string\"}"
    ∷ entry "canvas.api.deleted" "canvas" "A canvas API was deleted" "canvas-service" ([]) ""
    ∷ entry "canvas.workflow.created" "canvas" "A canvas workflow was created" "canvas-service" ([])
        "\"name\":{\"type\":\"string\"}"
    ∷ entry "canvas.workflow.scheduled_trigger" "canvas"
        "A canvas workflow was triggered by schedule" "canvas-service" ([])
        "\"schedule\":{\"type\":\"string\"}"
    ∷ entry "canvas.codegen.completed" "canvas" "Canvas code generation completed" "canvas-service"
        ([])
        "\"canvas_id\":{\"type\":\"string\"},\"language\":{\"type\":\"string\"},\"files\":{\"type\":\"integer\"}"
    ∷ entry "canvas.runtime.deployed" "canvas" "Canvas runtime deployment" "canvas-service" ([])
        "\"canvas_id\":{\"type\":\"string\"},\"deployment_id\":{\"type\":\"string\"}"
    ∷ entry "canvas.runtime.undeployed" "canvas" "Canvas runtime undeployed" "canvas-service" ([])
        "\"canvas_id\":{\"type\":\"string\"}"
    ∷ entry "canvas.sync.enabled" "canvas" "Canvas sync was enabled" "canvas-service" ([])
        "\"canvas_id\":{\"type\":\"string\"},\"repo\":{\"type\":\"string\"}"
    ∷ entry "canvas.sync.completed" "canvas" "Canvas sync completed" "canvas-service" ([])
        "\"canvas_id\":{\"type\":\"string\"},\"direction\":{\"type\":\"string\"}"
    ∷ entry "canvas.sync.conflict_detected" "canvas" "Canvas sync conflict detected"
        "canvas-service" ([]) "\"canvas_id\":{\"type\":\"string\"},\"path\":{\"type\":\"string\"}"
    ∷ entry "canvas.sync.conflict_resolved" "canvas" "Canvas sync conflict resolved"
        "canvas-service" ([])
        "\"canvas_id\":{\"type\":\"string\"},\"resolution\":{\"type\":\"string\"}"
    ∷ entry "canvas.sync.status_changed" "canvas" "Canvas sync status changed" "canvas-service" ([])
        "\"canvas_id\":{\"type\":\"string\"},\"status\":{\"type\":\"string\"}"
    ∷ entry "canvas.sync.canvas_to_code.requested" "canvas" "Canvas-to-code sync requested"
        "canvas-service" ([]) "\"canvas_id\":{\"type\":\"string\"}"
    ∷ entry "canvas.sync.code_to_canvas.requested" "canvas" "Code-to-canvas sync requested"
        "canvas-service" ([]) "\"canvas_id\":{\"type\":\"string\"}"
    ∷ entry "canvas.marketplace.publisher.connected" "canvas" "Marketplace publisher connected"
        "canvas-service" ([]) "\"publisher_id\":{\"type\":\"string\"}"
    ∷ entry "canvas.marketplace.purchase.created" "canvas" "Marketplace purchase created"
        "canvas-service" ([]) "\"purchase_id\":{\"type\":\"string\"}"
    ∷ entry "canvas.marketplace.purchase.completed" "canvas" "Marketplace purchase completed"
        "canvas-service" ([]) "\"purchase_id\":{\"type\":\"string\"}"
    ∷ entry "canvas.marketplace.payout.requested" "canvas" "Marketplace payout requested"
        "canvas-service" ([]) "\"payout_id\":{\"type\":\"string\"},\"amount\":{\"type\":\"number\"}"
    ∷ entry "canvas.marketplace.payout.completed" "canvas" "Marketplace payout completed"
        "canvas-service" ([]) "\"payout_id\":{\"type\":\"string\"}"
    ∷ entry "canvas.marketplace.payment.succeeded" "canvas" "Marketplace payment succeeded"
        "canvas-service" ([]) "\"intent_id\":{\"type\":\"string\"}"
    ∷ entry "canvas.marketplace.account.updated" "canvas" "Marketplace account updated"
        "canvas-service" ([]) ""
    ∷ entry "canvas.marketplace.webhook.unhandled" "canvas" "Unhandled marketplace webhook"
        "canvas-service" ([]) "\"event\":{\"type\":\"string\"}"
    ∷ entry "canvas.marketplace.published" "canvas" "Canvas item published to marketplace"
        "canvas-service" ([]) "\"item_id\":{\"type\":\"string\"}"
    ∷ entry "canvas.secret.created" "canvas" "A canvas secret was created" "canvas-service" ([])
        "\"name\":{\"type\":\"string\"}"
    ∷ entry "canvas.secret.updated" "canvas" "A canvas secret was updated" "canvas-service" ([])
        "\"name\":{\"type\":\"string\"}"
    ∷ entry "canvas.secret.deleted" "canvas" "A canvas secret was deleted" "canvas-service" ([])
        "\"name\":{\"type\":\"string\"}"
    ∷ entry "canvas.composite_node.created" "canvas" "A composite node was created" "canvas-service"
        ([]) "\"canvas_id\":{\"type\":\"string\"}"
    ∷ entry "canvas.node.dependency.added" "canvas" "A node dependency was added" "canvas-service"
        ([]) "\"dependency_id\":{\"type\":\"string\"}"
    ∷ entry "canvas.eject.completed" "canvas" "Canvas eject completed" "canvas-service" ([])
        "\"project\":{\"type\":\"string\"}"
    ∷ entry "canvas.edge_comment.created" "canvas" "An edge comment was created" "canvas-service"
        ("canvas_id" ∷ "edge_id" ∷ [])
        "\"canvas_id\":{\"type\":\"string\"},\"edge_id\":{\"type\":\"string\"},\"comment_id\":{\"type\":\"string\"},\"author_id\":{\"type\":\"string\"}"
    ∷ entry "canvas.edge_comment.updated" "canvas" "An edge comment was updated" "canvas-service"
        ("comment_id" ∷ [])
        "\"canvas_id\":{\"type\":\"string\"},\"edge_id\":{\"type\":\"string\"},\"comment_id\":{\"type\":\"string\"}"
    ∷ entry "canvas.edge_comment.deleted" "canvas" "An edge comment was deleted" "canvas-service"
        ("comment_id" ∷ [])
        "\"canvas_id\":{\"type\":\"string\"},\"edge_id\":{\"type\":\"string\"},\"comment_id\":{\"type\":\"string\"}"
    ∷ entry "canvas.edge_comment.resolved" "canvas" "An edge comment was resolved" "canvas-service"
        ("comment_id" ∷ [])
        "\"canvas_id\":{\"type\":\"string\"},\"edge_id\":{\"type\":\"string\"},\"comment_id\":{\"type\":\"string\"},\"resolved\":{\"type\":\"boolean\"}"
    ∷ []
