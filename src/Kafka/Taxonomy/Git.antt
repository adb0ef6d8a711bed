-- ===== src/Kafka/Taxonomy/Git.antt =====
-- kafka/event_taxonomy.go, registeredEvents: the events of the git domain.
use platform_kit.Common.{List, [], ◌∷◌}
use platform_kit.Kafka.Registry.{RegisteredEvent}
use platform_kit.Kafka.Taxonomy.Entry.{entry}

abbrev pub git_events : List RegisteredEvent
git_events =
    entry "git.repository.created" "git" "A repository was created" "git-service" ("name" ∷ [])
      "\"name\":{\"type\":\"string\"},\"default_branch\":{\"type\":\"string\"},\"url\":{\"type\":\"string\"}"
    ∷ entry "git.repository.updated" "git" "A repository was updated" "git-service" ([])
        "\"changes\":{\"type\":\"object\"}"
    ∷ entry "git.repository.deleted" "git" "A repository was deleted" "git-service" ([]) ""
    ∷ entry "git.branch.created" "git" "A branch was created" "git-service"
        ("branch" ∷ "repository_id" ∷ [])
        "\"branch\":{\"type\":\"string\"},\"repository_id\":{\"type\":\"string\"},\"from_ref\":{\"type\":\"string\"}"
    ∷ entry "git.branch.deleted" "git" "A branch was deleted" "git-service"
        ("branch" ∷ "repository_id" ∷ [])
        "\"branch\":{\"type\":\"string\"},\"repository_id\":{\"type\":\"string\"}"
    ∷ entry "git.push.received" "git" "A push was received" "git-service"
        ("branch" ∷ "repository_id" ∷ "commits" ∷ [])
        "\"branch\":{\"type\":\"string\"},\"repository_id\":{\"type\":\"string\"},\"commits\":{\"type\":\"array\"},\"before_sha\":{\"type\":\"string\"},\"after_sha\":{\"type\":\"string\"}"
    ∷ entry "git.commit.authored" "git" "A commit was authored" "git-service"
        ("sha" ∷ "author" ∷ [])
        "\"sha\":{\"type\":\"string\"},\"author\":{\"type\":\"string\"},\"message\":{\"type\":\"string\"},\"repository_id\":{\"type\":\"string\"}"
    ∷ entry "git.session.started" "git" "A coding session started" "git-service" ("session_id" ∷ [])
        "\"session_id\":{\"type\":\"string\"},\"user_id\":{\"type\":\"string\"},\"branch\":{\"type\":\"string\"}"
    ∷ entry "git.session.completed" "git" "A coding session completed" "git-service"
        ("session_id" ∷ [])
        "\"session_id\":{\"type\":\"string\"},\"duration_ms\":{\"type\":\"integer\"}"
    ∷ entry "git.session.cancelled" "git" "A coding session was cancelled" "git-service"
        ("session_id" ∷ []) "\"session_id\":{\"type\":\"string\"},\"reason\":{\"type\":\"string\"}"
    ∷ entry "git.pr.created" "git" "A pull request was created" "git-service"
        ("pr_number" ∷ "repository_id" ∷ [])
        "\"pr_number\":{\"type\":\"integer\"},\"title\":{\"type\":\"string\"},\"repository_id\":{\"type\":\"string\"},\"source_branch\":{\"type\":\"string\"},\"target_branch\":{\"type\":\"string\"}"
    ∷ entry "git.pr.updated" "git" "A pull request was updated" "git-service" ("pr_number" ∷ [])
        "\"pr_number\":{\"type\":\"integer\"},\"changes\":{\"type\":\"object\"}"
    ∷ entry "git.pr.merged" "git" "A pull request was merged" "git-service" ("pr_number" ∷ [])
        "\"pr_number\":{\"type\":\"integer\"},\"merge_sha\":{\"type\":\"string\"}"
    ∷ entry "git.pr.closed" "git" "A pull request was closed" "git-service" ("pr_number" ∷ [])
        "\"pr_number\":{\"type\":\"integer\"}"
    ∷ entry "git.pr.review_submitted" "git" "A PR review was submitted" "git-service"
        ("pr_number" ∷ "reviewer_id" ∷ "state" ∷ [])
        "\"pr_number\":{\"type\":\"integer\"},\"reviewer_id\":{\"type\":\"string\"},\"state\":{\"type\":\"string\"}"
    ∷ entry "git.ai_review.requested" "git" "An AI code review was requested" "git-service"
        ("pr_number" ∷ []) "\"pr_number\":{\"type\":\"integer\"},\"model\":{\"type\":\"string\"}"
    ∷ entry "git.ai_review.completed" "git" "An AI code review completed" "git-service"
        ("pr_number" ∷ [])
        "\"pr_number\":{\"type\":\"integer\"},\"findings_count\":{\"type\":\"integer\"},\"verdict\":{\"type\":\"string\"}"
    ∷ entry "git.release.created" "git" "A release was created" "git-service" ("tag" ∷ [])
        "\"tag\":{\"type\":\"string\"},\"title\":{\"type\":\"string\"}"
    ∷ entry "git.doc.stale" "git" "A document was flagged as stale" "git-service" ("path" ∷ [])
        "\"path\":{\"type\":\"string\"},\"reason\":{\"type\":\"string\"}"
    ∷ entry "git.symbol_index.updated" "git" "Symbol index was refreshed" "git-service"
        ("repository_id" ∷ [])
        "\"repository_id\":{\"type\":\"string\"},\"commit_sha\":{\"type\":\"string\"},\"symbols\":{\"type\":\"array\"}"
    ∷ []
