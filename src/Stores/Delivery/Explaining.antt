-- ===== src/Stores/Delivery/Explaining.antt =====
-- The search of `explainDeliveryFailure`.
use reference_app.Prelude.{
  All, Bool, Bool-cases, List, Option, Option-cases, String, [], ap, arith, false, filter, inl, inr,
  ltb, none, not, refl, some, sym, true, ℕ, ◌&&◌, ◌++◌, ◌<>◌, ◌∷◌, ◌≡◌, ◌≢◌, ◌≤◌, ◌⊎◌,
}
use reference_app.Stores.Delivery.{
  DeliveryFailure, Failures, explain_delivery_failure, explain_from, is_asked, is_stale, later_of,
}

-- a failure that is not stale, of an endpoint that is asked about
abbrev pub is_relevant : ℕ → Option (List String) → String × DeliveryFailure → Bool
is_relevant now uris entry = not (is_stale now entry.1) && is_asked uris entry.0

-- `entry` stands in the list
abbrev pub Has : Failures → String × DeliveryFailure → Type 0
Has kept entry = (before after_it : Failures) × (kept ≡ before ++ entry ∷ after_it)

Has-later : (kept : Failures) (e x : String × DeliveryFailure) → Has kept x → Has (e ∷ kept) x
Has-later kept e x (before, after_it, h) = (e ∷ before, after_it, ap (λ xs. e ∷ xs) h)

abbrev NoLater : ℕ → Option (List String) → DeliveryFailure → Failures → Type 0
NoLater now uris f kept = All (λ e. is_relevant now uris e ≡ true → e.1.at ≤ f.at) kept

explain_grows :
    (now : ℕ) (uris : Option (List String)) (g f : DeliveryFailure) (kept : Failures)
    → (explain_from now uris (some g) kept).latest ≡ some f
    → (g.at ≤ f.at)
      × NoLater now uris f kept
      × ((f ≡ g) ⊎ ((uri : String) × (is_relevant now uris (uri, f) ≡ true) × Has kept (uri, f)))
unfolding explain_from
explain_grows now uris g f [] h =
    let same : g ≡ f = ground (arith, h) in (ground (arith, same), tt, inl (sym same))
explain_grows now uris g f ((u, e) ∷ kept) h = elim (Bool-cases (is_relevant now uris (u, e))) [
  | inl fits ↦ elim (Bool-cases (ltb g.at e.at)) [
    | inl more ↦
        let (le, no_later, from) =
          explain_grows now uris e f kept (ground (arith, h, fits, more)) in
        (
          ground (arith, le, more),
          (λ _. le, no_later),
          elim from [
            | inl same ↦ inr (u, rw same fits, rw same ([], kept, refl))
            | inr (uri, r, there) ↦ inr (uri, r, Has-later kept (u, e) (uri, f) there)
          ],
        )
    | inr less ↦
        let (le, no_later, from) =
          explain_grows now uris g f kept (ground (arith, h, fits, less)) in
        (
          le,
          (λ _. ground (arith, le, less), no_later),
          elim from [
            | inl same ↦ inl same
            | inr (uri, r, there) ↦ inr (uri, r, Has-later kept (u, e) (uri, f) there)
          ],
        )
  ]
  | inr unfit ↦
      let (le, no_later, from) = explain_grows now uris g f kept (ground (arith, h, unfit)) in
      (
        le,
        (λ fits. absurd (ground (arith, fits, unfit)), no_later),
        elim from [
          | inl same ↦ inl same
          | inr (uri, r, there) ↦ inr (uri, r, Has-later kept (u, e) (uri, f) there)
        ],
      )
]

explain_starts :
    (now : ℕ) (uris : Option (List String)) (f : DeliveryFailure) (kept : Failures)
    → (explain_from now uris none kept).latest ≡ some f
    → NoLater now uris f kept
      × ((uri : String) × (is_relevant now uris (uri, f) ≡ true) × Has kept (uri, f))
unfolding explain_from
explain_starts now uris f [] h = absurd (cc)
explain_starts now uris f ((u, e) ∷ kept) h = elim (Bool-cases (is_relevant now uris (u, e))) [
  | inl fits ↦
      let (le, no_later, from) = explain_grows now uris e f kept (ground (arith, h, fits)) in
      (
        (λ _. le, no_later),
        elim from [
          | inl same ↦ (u, rw same fits, rw same ([], kept, refl))
          | inr (uri, r, there) ↦ (uri, r, Has-later kept (u, e) (uri, f) there)
        ],
      )
  | inr unfit ↦
      let (no_later, (uri, r, there)) = explain_starts now uris f kept (ground (arith, h, unfit)) in
      (
        (λ fits. absurd (ground (arith, fits, unfit)), no_later),
        (uri, r, Has-later kept (u, e) (uri, f) there),
      )
]

explain_some :
    (now : ℕ) (uris : Option (List String)) (g : DeliveryFailure) (kept : Failures)
    → (explain_from now uris (some g) kept).latest ≢ none
unfolding explain_from
explain_some now uris g [] h = cc
explain_some now uris g ((u, e) ∷ kept) h =
    ground (arith, h, explain_some now uris g kept, explain_some now uris e kept)

explain_silent :
    (now : ℕ) (uris : Option (List String)) (kept : Failures)
    → (explain_from now uris none kept).latest ≡ none
    → All (λ e. is_relevant now uris e ≡ false) kept
unfolding explain_from
explain_silent now uris [] h = tt
explain_silent now uris ((u, e) ∷ kept) h =
    ground (arith, h, explain_some now uris e kept, explain_silent now uris kept)

explain_left :
    (now : ℕ) (uris : Option (List String)) (latest : Option DeliveryFailure) (kept : Failures)
    → (explain_from now uris latest kept).left ≡ filter (λ e. not (is_stale now e.1)) kept
unfolding explain_from
explain_left now uris latest [] = refl
explain_left now uris latest ((u, e) ∷ kept) =
    ground
      (arith, explain_left now uris latest kept, explain_left now uris (later_of latest e) kept)

-- An error of the transport is explained with the message of a failure of the last 30 seconds, on an
-- endpoint that is asked about, with none later among those; where there is no such failure it stays
-- as it is. Older failures are dropped.
pub explain_delivery_failure-latest :
    (is_send_error : String → Bool) (kept : Failures) (now : ℕ) (error : String)
    (uris : Option (List String))
    → is_send_error error ≡ true
    → ((explain_delivery_failure is_send_error kept now error uris).1
        ≡ filter (λ e. not (is_stale now e.1)) kept)
      × ((All (λ e. is_relevant now uris e ≡ false) kept
            × ((explain_delivery_failure is_send_error kept now error uris).0 ≡ error))
          ⊎ ((uri : String) × (f : DeliveryFailure) × Has kept (uri, f)
              × (is_relevant now uris (uri, f) ≡ true)
              × All (λ e. is_relevant now uris e ≡ true → e.1.at ≤ f.at) kept
              × ((explain_delivery_failure is_send_error kept now error uris).0
                  ≡ error <> ": " <> f.message)))
unfolding explain_delivery_failure
explain_delivery_failure-latest is_send_error kept now error uris h =
    elim (Option-cases (explain_from now uris none kept).latest) [
      | inl nothing ↦
          rw (h, nothing)
            (explain_left now uris none kept, inl (explain_silent now uris kept nothing, refl))
      | inr (f, found) ↦
          let (no_later, (uri, r, there)) = explain_starts now uris f kept found in
          rw (h, found) (explain_left now uris none kept, inr (uri, f, there, r, no_later, refl))
    ]
