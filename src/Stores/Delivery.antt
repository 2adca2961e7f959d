-- ===== src/Stores/Delivery.antt =====
-- `makeTransport` of apps/web/src/stores.ts, and the failures that it keeps. What the network answers
-- to an attempt is a parameter, and so are `toLowerCase` and the regular expression on an error.
pub mod Attempts
pub mod Failures
pub mod Explaining
mod Tests
use reference_app.Inbound.{accepted}
use reference_app.Prelude.{
  Bool, Dict, List, Option, String, [], if◌then◌else◌, includes, insert, length, ltb, map, nat_eq,
  none, not, option_eq, or_else, pair_eq, some, string_eq, true, ℕ, ◌+◌, ◌<>◌, ◌==◌, ◌∷◌,
}

pub record OfferedEndpoint : Type 0 where
  pub protocol : String
  pub uri : String

pub data Carrier : Type 0 where
  by_send by_relay : Carrier

pub record Leg : Type 0 where
  pub uri : String
  pub carrier : Carrier

-- an exception is transient where it is a `DeliveryError` that says so
pub data Reply : Type 0 where
  delivered : Reply
  failed : Bool → String → Reply

-- what the peer's side answers to the attempts at a leg, counted from 0
abbrev pub Network : Type 0
Network = Leg → ℕ → Reply

-- one leg: the error that it ends with, and the delays that were waited for
pub record LegResult : Type 0 where
  pub error : Option String
  pub waited : List ℕ

abbrev after_wait : ℕ → LegResult → LegResult
after_wait delay r = record r { waited = delay ∷ r.waited }

-- The loop of `deliverWithRetry`, from an attempt on, with the delays that are left.
unfoldable pub deliver_with_retry : Network → Leg → ℕ → List ℕ → LegResult
deliver_with_retry net leg attempt [] = elim (net leg attempt) [
  | delivered ↦ record { error = none; waited = [] }
  | failed transient error ↦ record { error = some error; waited = [] }
]
deliver_with_retry net leg attempt (delay ∷ delays) =
    let again = deliver_with_retry net leg (attempt + 1) delays in
    elim (net leg attempt) [
      | delivered ↦ record { error = none; waited = [] }
      | failed transient error ↦
          if transient then after_wait delay again else record { error = some error; waited = [] }
    ]

unfoldable pub leg_of : (String → String) → OfferedEndpoint → Option Leg
leg_of lower e =
    if lower e.protocol == "https"
    then some (record { uri = e.uri; carrier = by_send })
    else if lower e.protocol == "grpc"
    then some (record { uri = e.uri; carrier = by_relay })
    else none

unfoldable pub plan_of : (String → String) → List OfferedEndpoint → List Leg
unfolding leg_of
plan_of lower [] = []
plan_of lower (e ∷ es) =
    let rest = plan_of lower es in elim (leg_of lower e) [ none ↦ rest | some leg ↦ leg ∷ rest ]

pub record DeliveryFailure : Type 0 where
  pub message : String
  pub at : ℕ

abbrev pub Failures : Type 0
Failures = Dict String DeliveryFailure

pub data SendResult : Type 0 where
  sent : Leg → SendResult
  no_endpoint : ℕ → SendResult
  not_delivered : String → SendResult

-- The legs that were tried, each with its result.
pub record Tried : Type 0 where
  pub accepted : Option Leg
  pub tries : List (Leg × LegResult)

abbrev after_leg : Leg → LegResult → Tried → Tried
after_leg leg r t = record t { tries = (leg, r) ∷ t.tries }

unfoldable pub try_legs : Network → List ℕ → List Leg → Tried
unfolding deliver_with_retry
try_legs net delays [] = record { accepted = none; tries = [] }
try_legs net delays (leg ∷ legs) =
    let rest = try_legs net delays legs in
    let r = deliver_with_retry net leg 0 delays in
    elim r.error [
      | none ↦ record { accepted = some leg; tries = (leg, r) ∷ [] }
      | some error ↦ after_leg leg r rest
    ]

-- `failures.join('; ')`
abbrev failure_text : Leg × LegResult → String
failure_text t = t.0.uri <> ": " <> or_else t.1.error ""

unfoldable pub joined : List String → String
joined [] = ""
joined (t ∷ []) = t
joined (t ∷ u ∷ ts) = t <> "; " <> joined (u ∷ ts)

abbrev pub reason_of : List (Leg × LegResult) → String
reason_of tries =
    "transport: no endpoint accepted the message — not delivered ("
    <> joined (map failure_text tries)
    <> ")"

unfoldable pub record_delivery_failure : Failures → List String → String → ℕ → Failures
record_delivery_failure kept [] message now = kept
record_delivery_failure kept (uri ∷ uris) message now =
    record_delivery_failure (insert kept uri (record { message = message; at = now })) uris message
      now

abbrev pub end_of : Failures → ℕ → List Leg → Tried → SendResult × Failures
end_of kept now plan t = elim t.accepted [
  | some leg ↦ (sent leg, kept)
  | none ↦ (
    not_delivered (reason_of t.tries),
    record_delivery_failure kept (map (λ leg. leg.uri) plan) (reason_of t.tries) now,
  )
]

-- what `send` does with its plan; `offers` is the number of endpoints that it came from
abbrev pub send_plan : Network → List ℕ → Failures → ℕ → ℕ → List Leg → SendResult × Failures
send_plan net delays kept now offers [] = (no_endpoint offers, kept)
send_plan net delays kept now offers (leg ∷ legs) =
    end_of kept now (leg ∷ legs) (try_legs net delays (leg ∷ legs))

unfoldable pub send :
    (String → String)
    → Network
    → List ℕ
    → Failures
    → ℕ
    → List OfferedEndpoint
    → SendResult × Failures
unfolding plan_of try_legs record_delivery_failure joined
send lower net delays kept now endpoints =
    send_plan net delays kept now (length endpoints) (plan_of lower endpoints)

abbrev pub default_send_retry_delays : List ℕ
default_send_retry_delays = 400 ∷ 1200 ∷ []

abbrev pub delivery_failure_relevance_ms : ℕ
delivery_failure_relevance_ms = 30000

-- what the loop of `explainDeliveryFailure` has found, and the failures that it leaves
pub record Explained : Type 0 where
  pub latest : Option DeliveryFailure
  pub left : Failures

abbrev pub later_of : Option DeliveryFailure → DeliveryFailure → Option DeliveryFailure
later_of none f = some f
later_of (some g) f = if ltb g.at f.at then some f else some g

abbrev pub is_stale : ℕ → DeliveryFailure → Bool
is_stale now f = ltb (f.at + delivery_failure_relevance_ms) now

-- whether the caller asked about this endpoint
abbrev pub is_asked : Option (List String) → String → Bool
is_asked none uri = true
is_asked (some uris) uri = includes uris uri

unfoldable pub explain_from :
    ℕ → Option (List String) → Option DeliveryFailure → Failures → Explained
explain_from now uris latest [] = record { latest = latest; left = [] }
explain_from now uris latest ((uri, f) ∷ rest) =
    let dropped = explain_from now uris latest rest in
    let skipped = explain_from now uris latest rest in
    let taken = explain_from now uris (later_of latest f) rest in
    if is_stale now f
    then dropped
    else if not (is_asked uris uri)
    then record skipped { left = (uri, f) ∷ skipped.left }
    else record taken { left = (uri, f) ∷ taken.left }

unfoldable pub explain_delivery_failure :
    (String → Bool) → Failures → ℕ → String → Option (List String) → String × Failures
unfolding explain_from
explain_delivery_failure is_send_error kept now error uris =
    let found = explain_from now uris none kept in
    if not (is_send_error error) then (error, kept) else elim found.latest [
      | none ↦ (error, found.left)
      | some f ↦ (error <> ": " <> f.message, found.left)
    ]
