-- ===== src/Kafka/Taxonomy/Identity.antt =====
-- kafka/event_taxonomy.go, registeredEvents: the events of the identity domain.
use platform_kit.Common.{List, [], ◌∷◌}
use platform_kit.Kafka.Registry.{RegisteredEvent}
use platform_kit.Kafka.Taxonomy.Entry.{entry}

abbrev pub identity_events : List RegisteredEvent
identity_events =
    entry "identity.user.registered" "identity" "A user registered" "identity-service"
      ("email" ∷ []) "\"email\":{\"type\":\"string\"},\"full_name\":{\"type\":\"string\"}"
    ∷ entry "identity.user.updated" "identity" "A user profile was updated" "identity-service" ([])
        "\"changes\":{\"type\":\"object\"}"
    ∷ entry "identity.user.deleted" "identity" "A user was deleted" "identity-service" ([]) ""
    ∷ entry "identity.user.logged_in" "identity" "A user logged in" "identity-service" ([])
        "\"ip\":{\"type\":\"string\"},\"user_agent\":{\"type\":\"string\"}"
    ∷ entry "identity.user.presence_changed" "identity"
        "A user's presence state changed (online/away/offline)" "identity-service"
        ("user_id" ∷ "state" ∷ [])
        "\"user_id\":{\"type\":\"string\"},\"state\":{\"type\":\"string\",\"enum\":[\"online\",\"away\",\"offline\"]},\"at\":{\"type\":\"string\"}"
    ∷ entry "identity.organization.created" "identity" "An organization was created"
        "identity-service" ("name" ∷ [])
        "\"name\":{\"type\":\"string\"},\"slug\":{\"type\":\"string\"}"
    ∷ entry "identity.organization.updated" "identity" "An organization was updated"
        "identity-service" ([]) "\"changes\":{\"type\":\"object\"}"
    ∷ entry "identity.organization.deleted" "identity" "An organization was deleted"
        "identity-service" ([]) ""
    ∷ entry "identity.team.created" "identity" "A team was created" "identity-service" ("name" ∷ [])
        "\"name\":{\"type\":\"string\"}"
    ∷ entry "identity.team.updated" "identity" "A team was updated" "identity-service" ([])
        "\"changes\":{\"type\":\"object\"}"
    ∷ entry "identity.team.deleted" "identity" "A team was deleted" "identity-service" ([]) ""
    ∷ entry "identity.member.added" "identity" "A member was added" "identity-service"
        ("user_id" ∷ []) "\"user_id\":{\"type\":\"string\"},\"role\":{\"type\":\"string\"}"
    ∷ entry "identity.member.removed" "identity" "A member was removed" "identity-service"
        ("user_id" ∷ []) "\"user_id\":{\"type\":\"string\"}"
    ∷ entry "identity.member.role_changed" "identity" "A member's role changed" "identity-service"
        ("user_id" ∷ "new_role" ∷ [])
        "\"user_id\":{\"type\":\"string\"},\"new_role\":{\"type\":\"string\"},\"old_role\":{\"type\":\"string\"}"
    ∷ entry "identity.invitation.created" "identity" "An invitation was created" "identity-service"
        ("email" ∷ []) "\"email\":{\"type\":\"string\"},\"role\":{\"type\":\"string\"}"
    ∷ entry "identity.invitation.accepted" "identity" "An invitation was accepted"
        "identity-service" ("email" ∷ []) "\"email\":{\"type\":\"string\"}"
    ∷ entry "identity.invitation.revoked" "identity" "An invitation was revoked" "identity-service"
        ("email" ∷ []) "\"email\":{\"type\":\"string\"}"
    ∷ []
