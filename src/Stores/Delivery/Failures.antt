-- ===== src/Stores/Delivery/Failures.antt =====
-- The end of `send`, and what `explainDeliveryFailure` makes of the failures that were kept.
use reference_app.Prelude.{
  All, List, Option, Option-cases, String, [], ap, arith, if◌then◌else◌, includes, inl, inr, insert,
  length, lookup, lookup-insert, map, nat_eq, none, option_eq, pair_eq, refl, some, string_eq, ℕ,
  ◌++◌, ◌∷◌, ◌≡◌, ◌≢◌,
}
use reference_app.Stores.Delivery.{
  Failures, Leg, Network, OfferedEndpoint, deliver_with_retry, not_delivered, plan_of,
  record_delivery_failure, send, send_plan, sent, try_legs,
}

abbrev pub leg_error : Network → List ℕ → Leg → Option String
leg_error net delays leg = (deliver_with_retry net leg 0 delays).error

abbrev pub Fails : Network → List ℕ → Leg → Type 0
Fails net delays leg = (error : String) × (leg_error net delays leg ≡ some error)

try_legs-none :
    (net : Network) (delays : List ℕ) (legs : List Leg)
    → (try_legs net delays legs).accepted ≡ none
    → All (Fails net delays) legs
unfolding try_legs
try_legs-none net delays [] h = tt
try_legs-none net delays (leg ∷ legs) h = elim (Option-cases (leg_error net delays leg)) [
  | inl ok ↦ absurd (ground (arith, h, ok))
  | inr (error, bad) ↦ ((error, bad), try_legs-none net delays legs (ground (arith, h, bad)))
]

try_legs-some :
    (net : Network) (delays : List ℕ) (legs : List Leg) (leg : Leg)
    → (try_legs net delays legs).accepted ≡ some leg
    → (before after_it : List Leg) × (legs ≡ before ++ leg ∷ after_it)
      × All (Fails net delays) before
      × (leg_error net delays leg ≡ none)
unfolding try_legs
try_legs-some net delays [] leg h = absurd (cc)
try_legs-some net delays (first ∷ legs) leg h = elim (Option-cases (leg_error net delays first)) [
  | inl ok ↦
      let same : first ≡ leg = ground (arith, h, ok) in
      ([], legs, ap (λ x. x ∷ legs) same, tt, rw (← same) ok)
  | inr (error, bad) ↦
      let (before, after_it, e, all_bad, ok) =
        try_legs-some net delays legs leg (ground (arith, h, bad)) in
      (first ∷ before, after_it, ap (λ xs. first ∷ xs) e, ((error, bad), all_bad), ok)
]

lookup-record_delivery_failure :
    (kept : Failures) (uris : List String) (message : String) (now : ℕ) (uri : String)
    → lookup (record_delivery_failure kept uris message now) uri ≡ (
        if includes uris uri
        then some (record { message = message; at = now })
        else lookup kept uri)
unfolding record_delivery_failure
lookup-record_delivery_failure kept [] message now uri = refl
lookup-record_delivery_failure kept (u ∷ uris) message now uri = ground (
  arith,
  lookup-record_delivery_failure (insert kept u (record { message = message; at = now })) uris
      message now uri,
  lookup-insert kept u (record { message = message; at = now }) uri,
)

plan_sent :
    (net : Network) (delays : List ℕ) (kept left : Failures) (now offers : ℕ) (plan : List Leg)
    (leg : Leg)
    → send_plan net delays kept now offers plan ≡ (sent leg, left)
    → ((try_legs net delays plan).accepted ≡ some leg) × (left ≡ kept)
plan_sent net delays kept left now offers [] leg h = absurd (ground (arith, h))
plan_sent net delays kept left now offers (first ∷ legs) leg h =
    elim (Option-cases (try_legs net delays (first ∷ legs)).accepted) [
      | inl nobody ↦ absurd (ground (arith, h, nobody))
      | inr (it, e) ↦ ground (arith, h, e)
    ]

plan_not_delivered :
    (net : Network) (delays : List ℕ) (kept left : Failures) (now offers : ℕ) (plan : List Leg)
    (reason : String)
    → send_plan net delays kept now offers plan ≡ (not_delivered reason, left)
    → (plan ≢ [])
      × ((try_legs net delays plan).accepted ≡ none)
      × (left ≡ record_delivery_failure kept (map (λ leg. leg.uri) plan) reason now)
plan_not_delivered net delays kept left now offers [] reason h = absurd (ground (arith, h))
plan_not_delivered net delays kept left now offers (first ∷ legs) reason h =
    elim (Option-cases (try_legs net delays (first ∷ legs)).accepted) [
      | inl nobody ↦ ground (arith, h, nobody)
      | inr (it, e) ↦ absurd (ground (arith, h, e))
    ]

-- A message that is sent went out on an endpoint of the plan, after every endpoint before it failed,
-- and leaves the failures as they were.
pub send-sent :
    (lower : String → String) (net : Network) (delays : List ℕ) (kept left : Failures) (now : ℕ)
    (endpoints : List OfferedEndpoint) (leg : Leg)
    → send lower net delays kept now endpoints ≡ (sent leg, left)
    → (left ≡ kept)
      × ((before after_it : List Leg) × (plan_of lower endpoints ≡ before ++ leg ∷ after_it)
          × All (Fails net delays) before
          × (leg_error net delays leg ≡ none))
unfolding send
send-sent lower net delays kept left now endpoints leg h =
    let plan = plan_of lower endpoints in
    let (took, same) = plan_sent net delays kept left now (length endpoints) plan leg h in
    (same, try_legs-some net delays plan leg took)

-- A message that is not delivered failed on every endpoint of the plan, which is not empty; each of
-- them is kept with the reason and the time, and the failures of other endpoints are as they were.
pub send-not_delivered :
    (lower : String → String) (net : Network) (delays : List ℕ) (kept left : Failures) (now : ℕ)
    (endpoints : List OfferedEndpoint) (reason : String)
    → send lower net delays kept now endpoints ≡ (not_delivered reason, left)
    → (plan_of lower endpoints ≢ [])
      × All (Fails net delays) (plan_of lower endpoints)
      × ((uri : String)
          → lookup left uri ≡ (
              if includes (map (λ leg. leg.uri) (plan_of lower endpoints)) uri
              then some (record { message = reason; at = now })
              else lookup kept uri))
unfolding send
send-not_delivered lower net delays kept left now endpoints reason h =
    let plan = plan_of lower endpoints in
    let (some_leg, nobody, written) =
      plan_not_delivered net delays kept left now (length endpoints) plan reason h in
    (
      some_leg,
      try_legs-none net delays plan nobody,
      λ uri.
          rw written
            (lookup-record_delivery_failure kept (map (λ leg. leg.uri) plan) reason now uri),
    )
