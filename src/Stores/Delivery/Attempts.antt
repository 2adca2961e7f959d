-- ===== src/Stores/Delivery/Attempts.antt =====
-- The attempts at a leg, and the legs of a message.
use reference_app.Prelude.{
  Bool, List, Option, String, [], ap, arith, false, inl, inr, length, nat_beq, none, refl, some,
  suc, take, true, zero, ℕ, ◌+◌, ◌<◌, ◌∷◌, ◌≡◌, ◌≤◌, ◌⊎◌,
}
use reference_app.Stores.Delivery.{
  Leg, LegResult, Network, Reply, deliver_with_retry, delivered, failed,
}

-- how the attempt that ends a leg came out; a transient failure ends it where no delay is left
abbrev pub EndsWith : Network → Leg → ℕ → Bool → Option String → Type 0
EndsWith net leg attempt at_last none = net leg attempt ≡ delivered
EndsWith net leg attempt at_last (some error) =
    (transient : Bool) × (net leg attempt ≡ failed transient error)
    × (transient ≡ true → at_last ≡ true)

Reply-cases :
    (r : Reply)
    → (r ≡ delivered) ⊎ ((transient : Bool) × (error : String) × (r ≡ failed transient error))
Reply-cases delivered = inl refl
Reply-cases (failed transient error) = inr (transient, error, refl)

abbrev Course : Network → Leg → ℕ → List ℕ → LegResult → Type 0
Course net leg attempt delays r =
    (k : ℕ) × (k ≤ length delays)
    × (r.waited ≡ take k delays)
    × ((j : ℕ) → j < k → (error : String) × (net leg (attempt + j) ≡ failed true error))
    × EndsWith net leg (attempt + k) (nat_beq k (length delays)) r.error

-- a leg that ends at once
ended :
    (net : Network) (leg : Leg) (attempt : ℕ) (delays : List ℕ) (error : Option String)
    → EndsWith net leg attempt (nat_beq 0 (length delays)) error
    → Course net leg attempt delays (record { error = error; waited = [] })
ended net leg attempt delays error h =
    let same : attempt + 0 ≡ attempt = omega arith in
    (0, omega arith, refl, λ j lt. absurd (omega (arith, lt)), rw same h)

Nat-cases : (n : ℕ) → (n ≡ 0) ⊎ ((m : ℕ) × (n ≡ suc m))
Nat-cases zero = inl refl
Nat-cases (suc m) = inr (m, refl)

-- and one that goes on after a delay
continued :
    (net : Network) (leg : Leg) (attempt delay : ℕ) (delays : List ℕ) (error : String)
    (r : LegResult)
    → net leg attempt ≡ failed true error
    → Course net leg (attempt + 1) delays r
    → Course net leg attempt
        (delay ∷ delays)
        (record { error = r.error; waited = delay ∷ r.waited })
continued net leg attempt delay delays error r h (k, le, waits, before, ending) =
    let shift : attempt + suc k ≡ (attempt + 1) + k = omega arith in
    let last : nat_beq (suc k) (suc (length delays)) ≡ nat_beq k (length delays) = ground arith in
    (
      suc k,
      omega (arith, le),
      ap (λ xs. delay ∷ xs) waits,
      λ j lt. elim (Nat-cases j) [
        | inl none_before ↦
            let at : attempt + j ≡ attempt = omega (arith, none_before) in rw at (error, h)
        | inr (i, e) ↦
            let at : attempt + j ≡ (attempt + 1) + i = omega (arith, e) in
            rw at (before i (omega (arith, lt, e)))
      ],
      rw (shift, last) ending,
    )

-- A leg is tried again after each transient failure and no other, with the delays in their order, and
-- so once more than there are delays at most; it ends with the first attempt that is delivered or
-- that fails for good, or with the last one.
pub deliver_with_retry-course :
    (net : Network) (leg : Leg) (attempt : ℕ) (delays : List ℕ)
    → (k : ℕ) × (k ≤ length delays)
      × ((deliver_with_retry net leg attempt delays).waited ≡ take k delays)
      × ((j : ℕ) → j < k → (error : String) × (net leg (attempt + j) ≡ failed true error))
      × EndsWith net leg
          (attempt + k)
          (nat_beq k (length delays))
          (deliver_with_retry net leg attempt delays).error
unfolding deliver_with_retry
deliver_with_retry-course net leg attempt [] = elim (Reply-cases (net leg attempt)) [
  | inl ok ↦ rw (deliver_with_retry, ok) (ended net leg attempt [] none ok)
  | inr (transient, error, bad) ↦
      rw (deliver_with_retry, bad)
        (ended net leg attempt [] (some error) (transient, bad, λ t. refl))
]
deliver_with_retry-course net leg attempt (delay ∷ delays) = elim (Reply-cases (net leg attempt)) [
  | inl ok ↦ rw (deliver_with_retry, ok) (ended net leg attempt (delay ∷ delays) none ok)
  | inr (true, error, bad) ↦
      rw (deliver_with_retry, bad)
        (continued net leg attempt delay delays error
          (deliver_with_retry net leg (attempt + 1) delays) bad
          (deliver_with_retry-course net leg (attempt + 1) delays))
  | inr (false, error, bad) ↦
      rw (deliver_with_retry, bad)
        (ended net leg attempt (delay ∷ delays) (some error) (false, bad, λ t. absurd (cc)))
]
