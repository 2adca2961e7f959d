-- ===== src/Stores/Delivery/Tests.antt =====
-- Examples over `makeTransport` of apps/web/src/stores.ts.
use reference_app.Prelude.{
  All, List, String, [], false, filter, if◌then◌else◌, includes, insert, lookup, map, nat_beq,
  nat_eq, none, not, option_eq, pair_eq, refl, some, string_eq, suc, take, true, zero, ℕ, ◌+◌, ◌<>◌,
  ◌<◌, ◌∷◌, ◌≡◌, ◌≢◌, ◌≤◌, ◌⊎◌,
}
use reference_app.Stores.Delivery.{
  DeliveryFailure, Failures, Leg, Network, OfferedEndpoint, by_send, default_send_retry_delays,
  deliver_with_retry, delivered, explain_delivery_failure, failed, is_stale, joined, leg_of,
  plan_of, record_delivery_failure, send, try_legs,
}
use reference_app.Stores.Delivery.Attempts.{EndsWith, deliver_with_retry-course}
use reference_app.Stores.Delivery.Explaining.{Has, explain_delivery_failure-latest, is_relevant}
use reference_app.Stores.Delivery.Failures.{Fails, send-not_delivered}

abbrev endpoint_one : Leg
endpoint_one = record { uri = "https://a"; carrier = by_send }

abbrev flaky : Network
flaky leg zero = failed true "busy"
flaky leg (suc n) = delivered

deliver_with_retry-course_example :
    (k : ℕ) × (k ≤ 2)
    × ((deliver_with_retry flaky endpoint_one 0 default_send_retry_delays).waited
        ≡ take k default_send_retry_delays)
    × ((j : ℕ) → j < k → (error : String) × (flaky endpoint_one (0 + j) ≡ failed true error))
    × EndsWith flaky endpoint_one
        (0 + k)
        (nat_beq k 2)
        (deliver_with_retry flaky endpoint_one 0 default_send_retry_delays).error
deliver_with_retry-course_example =
    deliver_with_retry-course flaky endpoint_one 0 default_send_retry_delays

abbrev keep_case : String → String
keep_case text = text

abbrev no_failures : Failures
no_failures = []

abbrev dead : Network
dead leg n = failed false "refused"

abbrev offers : List OfferedEndpoint
offers =
    record { protocol = "https"; uri = "https://a" }
    ∷ record { protocol = "grpc"; uri = "grpc://b" }
    ∷ []

abbrev dead_reason : String
dead_reason =
    "transport: no endpoint accepted the message — not delivered (https://a: refused; grpc://b: refused)"

abbrev dead_left : Failures
dead_left =
    ("https://a", record { message = dead_reason; at = 50 })
    ∷ ("grpc://b", record { message = dead_reason; at = 50 })
    ∷ []

send-not_delivered_example :
    (plan_of keep_case offers ≢ [])
    × All (Fails dead default_send_retry_delays) (plan_of keep_case offers)
    × ((uri : String)
        → lookup dead_left uri ≡ (
            if includes (map (λ leg. leg.uri) (plan_of keep_case offers)) uri
            then some (record { message = dead_reason; at = 50 })
            else lookup [] uri))
unfolding send plan_of leg_of try_legs deliver_with_retry joined record_delivery_failure insert
send-not_delivered_example =
    send-not_delivered keep_case dead default_send_retry_delays [] dead_left 50 offers dead_reason
      refl

explain_delivery_failure-latest_example :
    ((explain_delivery_failure (λ text. true) dead_left 90 "failed" none).1
      ≡ filter (λ e. not (is_stale 90 e.1)) dead_left)
    × ((All (λ e. is_relevant 90 none e ≡ false) dead_left
          × ((explain_delivery_failure (λ text. true) dead_left 90 "failed" none).0 ≡ "failed"))
        ⊎ ((uri : String) × (f : DeliveryFailure) × Has dead_left (uri, f)
            × (is_relevant 90 none (uri, f) ≡ true)
            × All (λ e. is_relevant 90 none e ≡ true → e.1.at ≤ f.at) dead_left
            × ((explain_delivery_failure (λ text. true) dead_left 90 "failed" none).0
                ≡ "failed" <> ": " <> f.message)))
explain_delivery_failure-latest_example =
    explain_delivery_failure-latest (λ text. true) dead_left 90 "failed" none refl
