-- ===== src/Tests/Services.antt =====
-- Webhooks and regions at concrete values.
use platform_kit.Common.{
  ℕ, ◌≤◌, ◌*◌, none, some, [], ◌∷◌, ◌++◌, ◌≡◌, ◌≢◌, ◌↔◌, refl, arith, if◌then◌else◌, Str, lit,
  str_eq, pos, Dict,
}
use platform_kit.Webhook.Inbound.{Delivery, Provider, Receiver, State, admit, handle}
use platform_kit.Webhook.Inbound.Laws.{Effect, handle-Effect}
use platform_kit.Webhook.Inbound.Duplicates.{Call, handle_all, handle_duplicate}
use platform_kit.Webhook.Delivery.{minute, backoff_duration, Outgoing}
use platform_kit.Webhook.Delivery.Laws.{backoff_duration_monotone}
use platform_kit.Region.{ReplicationPolicy, allows_region, allowed, best_effort}
use platform_kit.Region.Laws.{MayGo, allows_region_iff}

abbrev hmac : Str → Str → Str
hmac secret body = secret ++ body

abbrev digest : Str → Str
digest body = body

-- A provider whose handler fails at the first call.
abbrev failing : Provider
failing = record {
  name = lit "generic";
  secret = lit "s";
  signature_header = [];
  verifier = none;
  handler = λ d n. if str_eq d.body [] then none else some (lit "down");
}

abbrev receiver : Receiver
receiver = record { providers = (lit "generic", failing) ∷ []; store = some 60 }

abbrev idle : State
idle = record { seen = []; handled = [] }

abbrev headers : Dict Str
headers = (lit "X-Sentiae-Signature", lit "sha256=s{}") ∷ (lit "X-Idempotency-Key", lit "k1") ∷ []

abbrev delivery : Delivery
delivery = record { org_id = lit "o"; key = lit "k1"; body = lit "{}" }

handle-Effect_example :
    Effect hmac digest receiver
      (lit "generic")
      (lit "o")
      headers
      (some (lit "{}"))
      5
      idle
      (handle hmac digest receiver (lit "generic") (lit "o") headers (some (lit "{}")) 5 idle)
handle-Effect_example =
    handle-Effect hmac digest receiver (lit "generic") (lit "o") headers (some (lit "{}")) 5 idle tt

abbrev after : State
after = (handle hmac digest receiver (lit "generic") (lit "o") headers (some (lit "{}")) 5 idle).1

statuses :
    ((handle hmac digest receiver (lit "generic") (lit "o") headers (some (lit "{}")) 5 idle).0
      ≡ 502)
    × ((handle hmac digest receiver (lit "generic") (lit "o") headers (some (lit "{}")) 6 after).0
        ≡ 409)
unfolding handle str_eq
statuses = (refl, refl)

is_502 : (n : ℕ) → n ≡ 502 → n ≢ 409
is_502 n e q = omega (arith, e, q)

-- A call for another key in between.
abbrev other_call : Call
other_call = record {
  name = lit "generic";
  org = lit "o";
  headers = (lit "X-Sentiae-Signature", lit "sha256=s{}") ∷ [];
  body = some (lit "{}");
  at = 7;
}

abbrev later : State
later = handle_all hmac digest receiver (other_call ∷ []) after

handle_duplicate_example :
    ((handle hmac digest receiver (lit "generic") (lit "o") headers (some (lit "{}")) 9 later).0
      ≡ 409)
    × ((handle hmac digest receiver
          (lit "generic")
          (lit "o")
          headers
          (some (lit "{}"))
          9
          later).1.handled
        ≡ later.handled)
unfolding admit str_eq
handle_duplicate_example =
    handle_duplicate hmac digest receiver (lit "generic") (lit "o") (lit "o") headers headers
      (some (lit "{}")) (some (lit "{}")) 60 5 9 idle failing failing delivery delivery
      (other_call ∷ []) refl tt refl (is_502 _ statuses.0) (omega arith, tt) refl refl (omega arith)

backoff_duration_monotone_example :
    (backoff_duration (pos 2) ≤ backoff_duration (pos 4))
    × (minute ≤ backoff_duration (pos 2))
    × (backoff_duration (pos 2) ≤ 600 * minute)
backoff_duration_monotone_example = backoff_duration_monotone (pos 2) (pos 4) refl

abbrev outgoing : Outgoing
outgoing = record {
  payload = lit "{}";
  event_type = lit "push";
  delivery_id = lit "d1";
  content_type = lit "json";
  secret = lit "s";
  user_agent = [];
  extra_headers = (lit "X-Team", lit "core") ∷ [];
}

abbrev policy : ReplicationPolicy
policy = record {
  org_id = lit "o";
  home_region = lit "eu-west-1";
  peer_regions = lit "eu-central-1" ∷ [];
  mode = best_effort;
}

allows_region_iff_example :
    (allows_region (some policy) (lit "eu-central-1") ≡ allowed)
    ↔ MayGo (some policy) (lit "eu-central-1")
allows_region_iff_example = allows_region_iff (some policy) (lit "eu-central-1")
