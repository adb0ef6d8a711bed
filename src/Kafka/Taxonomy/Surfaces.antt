-- ===== src/Kafka/Taxonomy/Surfaces.antt =====
-- kafka/event_taxonomy.go, registeredEvents: the comment, presence and data events.
use platform_kit.Common.{List, [], ◌∷◌}
use platform_kit.Kafka.Registry.{RegisteredEvent}
use platform_kit.Kafka.Taxonomy.Entry.{entry}

abbrev pub surface_events : List RegisteredEvent
surface_events =
    entry "comments.events.created" "comments" "A polymorphic comment was created" "multi" ([])
      "\"id\":{\"type\":\"string\"},\"resourceType\":{\"type\":\"string\"},\"resourceId\":{\"type\":\"string\"},\"authorId\":{\"type\":\"string\"},\"body\":{\"type\":\"string\"},\"threadId\":{\"type\":\"string\"},\"metadata\":{\"type\":\"object\"}"
    ∷ entry "comments.events.updated" "comments" "A polymorphic comment was updated" "multi" ([])
        "\"id\":{\"type\":\"string\"},\"resourceType\":{\"type\":\"string\"},\"resourceId\":{\"type\":\"string\"},\"authorId\":{\"type\":\"string\"},\"body\":{\"type\":\"string\"}"
    ∷ entry "comments.events.deleted" "comments" "A polymorphic comment was deleted" "multi" ([])
        "\"id\":{\"type\":\"string\"},\"resourceType\":{\"type\":\"string\"},\"resourceId\":{\"type\":\"string\"}"
    ∷ entry "presence.events.updated" "presence" "A resource presence snapshot was updated"
        "bff-service" ("resourceType" ∷ "resourceId" ∷ [])
        "\"resourceType\":{\"type\":\"string\"},\"resourceId\":{\"type\":\"string\"},\"status\":{\"type\":\"string\"},\"userId\":{\"type\":\"string\"},\"activeUsers\":{\"type\":\"array\"},\"cursorPosition\":{\"type\":\"object\"},\"lastUpdated\":{\"type\":\"string\"}"
    ∷ entry "data.query.executed" "data" "A data query was executed" "data-service" ("query" ∷ [])
        "\"query\":{\"type\":\"string\"},\"row_count\":{\"type\":\"integer\"},\"duration_ms\":{\"type\":\"integer\"}"
    ∷ entry "data.query.translated" "data" "An NL query was translated to SQL" "data-service" ([])
        "\"nl_query\":{\"type\":\"string\"},\"question\":{\"type\":\"string\"},\"query_id\":{\"type\":\"string\"},\"data_source_id\":{\"type\":\"string\"},\"sql\":{\"type\":\"string\"}"
    ∷ entry "data.query.failed" "data" "A data query failed" "data-service" ("error" ∷ [])
        "\"error\":{\"type\":\"string\"},\"query\":{\"type\":\"string\"}"
    ∷ entry "data.data_source.created" "data" "A data source was created" "data-service"
        ("name" ∷ "type" ∷ []) "\"name\":{\"type\":\"string\"},\"type\":{\"type\":\"string\"}"
    ∷ entry "data.data_source.updated" "data" "A data source was updated" "data-service" ([])
        "\"changes\":{\"type\":\"object\"}"
    ∷ entry "data.data_source.deleted" "data" "A data source was deleted" "data-service" ([]) ""
    ∷ entry "data.data_source.connected" "data" "A data source connection succeeded" "data-service"
        ([]) "\"schema_count\":{\"type\":\"integer\"}"
    ∷ entry "data.dashboard.created" "data" "A dashboard was created" "data-service" ("name" ∷ [])
        "\"name\":{\"type\":\"string\"}"
    ∷ entry "data.dashboard.updated" "data" "A dashboard was updated" "data-service" ([])
        "\"changes\":{\"type\":\"object\"}"
    ∷ entry "data.dashboard.deleted" "data" "A dashboard was deleted" "data-service" ([]) ""
    ∷ entry "data.dashboard.shared" "data" "A dashboard was shared" "data-service" ([])
        "\"recipient\":{\"type\":\"string\"},\"recipients\":{\"type\":\"array\"},\"permission\":{\"type\":\"string\"},\"public\":{\"type\":\"boolean\"},\"scope\":{\"type\":\"string\"}"
    ∷ entry "data.semantic_field.created" "data" "A semantic field was created" "data-service"
        ("name" ∷ []) "\"name\":{\"type\":\"string\"},\"type\":{\"type\":\"string\"}"
    ∷ entry "data.semantic_field.updated" "data" "A semantic field was updated" "data-service" ([])
        "\"changes\":{\"type\":\"object\"}"
    ∷ entry "data.dashboard.alert_triggered" "data" "A dashboard alert threshold was breached"
        "data-service" ("alert_id" ∷ [])
        "\"alert_id\":{\"type\":\"string\"},\"dashboard_id\":{\"type\":\"string\"},\"panel_id\":{\"type\":\"string\"},\"value\":{\"type\":\"number\"},\"threshold\":{\"type\":\"number\"},\"notify_channel\":{\"type\":\"string\"}"
    ∷ entry "data.dashboard.embedded" "data" "A dashboard was embedded in a canvas node"
        "data-service" ("dashboard_id" ∷ "canvas_id" ∷ [])
        "\"dashboard_id\":{\"type\":\"string\"},\"canvas_id\":{\"type\":\"string\"},\"node_id\":{\"type\":\"string\"}"
    ∷ entry "data.data_source.sampled" "data" "Row samples were captured from a data source"
        "data-service" ("data_source_id" ∷ [])
        "\"data_source_id\":{\"type\":\"string\"},\"tables\":{\"type\":\"array\"},\"sample_rows\":{\"type\":\"integer\"}"
    ∷ []
