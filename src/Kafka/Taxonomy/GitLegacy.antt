-- ===== src/Kafka/Taxonomy/GitLegacy.antt =====
-- kafka/event_taxonomy.go, registeredEvents: canvas additions and the legacy git event types.
use platform_kit.Common.{List, [], ◌∷◌}
use platform_kit.Kafka.Registry.{RegisteredEvent}
use platform_kit.Kafka.Taxonomy.Entry.{entry}

abbrev pub legacy_events : List RegisteredEvent
legacy_events =
    entry "canvas.import.progress" "canvas" "Repository import progress update" "canvas-service"
      ([])
      "\"repository\":{\"type\":\"string\"},\"phase\":{\"type\":\"string\"},\"percent\":{\"type\":\"number\"}"
    ∷ entry "canvas.import.completed" "canvas" "Repository import completed" "canvas-service" ([])
        "\"repository\":{\"type\":\"string\"},\"node_count\":{\"type\":\"integer\"}"
    ∷ entry "canvas.import.failed" "canvas" "Repository import failed" "canvas-service" ([])
        "\"repository\":{\"type\":\"string\"},\"error\":{\"type\":\"string\"}"
    ∷ entry "canvas.external_proxy.created" "canvas" "An external proxy was created"
        "canvas-service" ([])
        "\"name\":{\"type\":\"string\"},\"endpoint\":{\"type\":\"string\"},\"kind\":{\"type\":\"string\"}"
    ∷ entry "sentiae.git.repository.created" "sentiae"
        "Repository created (legacy git-service event type)" "git-service" ([])
        "\"name\":{\"type\":\"string\"},\"default_branch\":{\"type\":\"string\"}"
    ∷ entry "sentiae.git.repository.imported" "sentiae" "Repository imported (legacy)" "git-service"
        ([]) "\"name\":{\"type\":\"string\"},\"source_url\":{\"type\":\"string\"}"
    ∷ entry "sentiae.git.repository.forked" "sentiae" "Repository forked (legacy)" "git-service"
        ([]) "\"name\":{\"type\":\"string\"},\"parent_id\":{\"type\":\"string\"}"
    ∷ entry "sentiae.git.push" "sentiae" "Git push received (legacy)" "git-service" ([])
        "\"branch\":{\"type\":\"string\"},\"repository_id\":{\"type\":\"string\"},\"commits\":{\"type\":\"array\"}"
    ∷ entry "sentiae.git.commit.created" "sentiae" "Commit created (legacy)" "git-service" ([])
        "\"sha\":{\"type\":\"string\"},\"author\":{\"type\":\"string\"},\"message\":{\"type\":\"string\"}"
    ∷ entry "sentiae.git.pr.created" "sentiae" "PR created (legacy)" "git-service" ([])
        "\"pr_number\":{\"type\":\"integer\"},\"title\":{\"type\":\"string\"}"
    ∷ entry "sentiae.git.pr.updated" "sentiae" "PR updated (legacy)" "git-service" ([])
        "\"pr_number\":{\"type\":\"integer\"}"
    ∷ entry "sentiae.git.pr.merged" "sentiae" "PR merged (legacy)" "git-service" ([])
        "\"pr_number\":{\"type\":\"integer\"},\"merge_sha\":{\"type\":\"string\"}"
    ∷ entry "sentiae.git.pr.closed" "sentiae" "PR closed (legacy)" "git-service" ([])
        "\"pr_number\":{\"type\":\"integer\"}"
    ∷ entry "sentiae.git.pr.review_requested" "sentiae" "PR review requested (legacy)" "git-service"
        ([]) "\"pr_number\":{\"type\":\"integer\"},\"reviewer_id\":{\"type\":\"string\"}"
    ∷ entry "sentiae.git.pr.approved" "sentiae" "PR approved (legacy)" "git-service" ([])
        "\"pr_number\":{\"type\":\"integer\"},\"reviewer_id\":{\"type\":\"string\"}"
    ∷ entry "sentiae.git.pr.changes_requested" "sentiae" "PR changes requested (legacy)"
        "git-service" ([])
        "\"pr_number\":{\"type\":\"integer\"},\"reviewer_id\":{\"type\":\"string\"}"
    ∷ entry "sentiae.git.pr.review.submitted" "sentiae" "PR review submitted (legacy)" "git-service"
        ([])
        "\"pr_number\":{\"type\":\"integer\"},\"reviewer_id\":{\"type\":\"string\"},\"state\":{\"type\":\"string\"}"
    ∷ entry "sentiae.git.branch.created" "sentiae" "Branch created (legacy)" "git-service" ([])
        "\"branch\":{\"type\":\"string\"},\"repository_id\":{\"type\":\"string\"}"
    ∷ entry "sentiae.git.branch.deleted" "sentiae" "Branch deleted (legacy)" "git-service" ([])
        "\"branch\":{\"type\":\"string\"},\"repository_id\":{\"type\":\"string\"}"
    ∷ entry "sentiae.git.branch.protected_changed" "sentiae" "Branch protection toggled (legacy)"
        "git-service" ([]) "\"branch\":{\"type\":\"string\"},\"protected\":{\"type\":\"boolean\"}"
    ∷ entry "sentiae.git.session.created" "sentiae" "Coding session created (legacy)" "git-service"
        ([]) "\"session_id\":{\"type\":\"string\"},\"branch\":{\"type\":\"string\"}"
    ∷ entry "sentiae.git.session.code_ready" "sentiae" "Coding session code ready (Tier 2 trigger)"
        "git-service" ([])
        "\"session_id\":{\"type\":\"string\"},\"branch\":{\"type\":\"string\"},\"commit_sha\":{\"type\":\"string\"}"
    ∷ entry "sentiae.git.session.merged" "sentiae" "Coding session merged (legacy)" "git-service"
        ([]) "\"session_id\":{\"type\":\"string\"},\"merge_sha\":{\"type\":\"string\"}"
    ∷ entry "sentiae.git.session.closed" "sentiae" "Coding session closed (legacy)" "git-service"
        ([]) "\"session_id\":{\"type\":\"string\"},\"reason\":{\"type\":\"string\"}"
    ∷ entry "sentiae.git.ai_review.completed" "sentiae" "AI code review completed (legacy)"
        "git-service" ([]) "\"pr_number\":{\"type\":\"integer\"},\"verdict\":{\"type\":\"string\"}"
    ∷ entry "sentiae.git.release.created" "sentiae" "Release created (legacy)" "git-service" ([])
        "\"tag\":{\"type\":\"string\"}"
    ∷ entry "sentiae.git.doc.stale" "sentiae" "Doc flagged stale (legacy)" "git-service" ([])
        "\"path\":{\"type\":\"string\"},\"reason\":{\"type\":\"string\"}"
    ∷ []
