-- ===== src/Roster/Entries/Claims.antt =====
-- Who claims an actor.
use reference_app.Prelude.{
  Bool-cases, List, Option, Option-cases, [], arith, false, if◌then◌else◌, includes,
  includes-set_add, inl, inr, map, nat_eq, none, option_eq, pair_eq, refl, set_add, some, string_eq,
  ℕ, ◌+◌, ◌==◌, ◌∷◌, ◌≡◌, ◌≤◌,
}
use reference_app.Roster.Entries.{
  RosterCandidate, RosterEntry, RosterMatch, Slot, by_channel, by_endpoint, by_name, claim_pass,
  claimable, claimed_slots, match_of, resolve_roster_entries,
}

-- the entries that an actor is matched to
abbrev pub match_count : ℕ → List RosterMatch → ℕ
match_count object [] = 0
match_count object (m ∷ ms) =
    (elim m.actor [ none ↦ 0 | some actor ↦ if actor.object == object then 1 else 0 ])
    + match_count object ms

abbrev slot_count : ℕ → List Slot → ℕ
slot_count object [] = 0
slot_count object ((entry, none) ∷ slots) = slot_count object slots
slot_count object ((entry, some actor) ∷ slots) =
    (if actor.object == object then 1 else 0) + slot_count object slots

-- one more slot may still take an actor that nobody has claimed
abbrev free : ℕ → List ℕ → ℕ
free object claimed = if includes claimed object then 0 else 1

claimable-free :
    (claimed : List ℕ) (pick : Option RosterCandidate) (actor : RosterCandidate)
    → claimable claimed pick ≡ some actor
    → includes claimed actor.object ≡ false
claimable-free claimed none actor h = absurd (cc)
claimable-free claimed (some it) actor h = elim (Bool-cases (includes claimed it.object)) [
  | inl there ↦ absurd (ground (arith, there, h))
  | inr gone ↦ let e : it ≡ actor = ground (arith, gone, h) in rw (← e) gone
]

taken :
    (claimed : List ℕ) (actor : RosterCandidate) (object : ℕ) (before after_it left : ℕ)
    → includes claimed actor.object ≡ false
    → after_it + left ≤ before + free object (set_add claimed actor.object)
    → (if actor.object == object then 1 else 0) + after_it + left ≤ before + free object claimed
taken claimed actor object before after_it left gone h =
    ground (arith, h, gone, includes-set_add object claimed actor.object)

claim_pass-count :
    (choose : List ℕ → RosterEntry → Option RosterCandidate) (object : ℕ) (slots : List Slot)
    (claimed : List ℕ)
    → slot_count object (claim_pass choose claimed slots).0
        + free object (claim_pass choose claimed slots).1
      ≤ slot_count object slots + free object claimed
unfolding claim_pass
claim_pass-count choose object [] claimed = omega arith
claim_pass-count choose object ((entry, some actor) ∷ slots) claimed =
    omega (arith, claim_pass-count choose object slots claimed)
claim_pass-count choose object ((entry, none) ∷ slots) claimed =
    elim (Option-cases (claimable claimed (choose claimed entry))) [
      | inl nobody ↦ rw nobody (omega (arith, claim_pass-count choose object slots claimed))
      | inr (actor, e) ↦ rw e (
          taken claimed actor object (slot_count object slots)
            (slot_count object (claim_pass choose (set_add claimed actor.object) slots).0)
            (free object (claim_pass choose (set_add claimed actor.object) slots).1)
            (claimable-free claimed (choose claimed entry) actor e)
            (claim_pass-count choose object slots (set_add claimed actor.object)))
    ]

slots_at_start :
    (object : ℕ) (entries : List RosterEntry)
    → slot_count object (map (λ entry. (entry, none)) entries) ≡ 0
slots_at_start object [] = refl
slots_at_start object (entry ∷ entries) = slots_at_start object entries

match_count-match_of :
    (object : ℕ) (slots : List Slot)
    → match_count object (map match_of slots) ≡ slot_count object slots
match_count-match_of object [] = refl
match_count-match_of object ((entry, none) ∷ slots) =
    omega (arith, match_count-match_of object slots)
match_count-match_of object ((entry, some actor) ∷ slots) =
    omega (arith, match_count-match_of object slots)

-- No actor is matched to two entries of a roster, however the actors' ids, names and endpoints
-- coincide.
pub resolve_roster_entries-once :
    (entries : List RosterEntry) (actors : List RosterCandidate) (object : ℕ)
    → match_count object (resolve_roster_entries entries actors) ≤ 1
unfolding resolve_roster_entries claimed_slots
resolve_roster_entries-once entries actors object =
    let start : List Slot = map (λ entry. (entry, none)) entries in
    let first = claim_pass (by_endpoint actors) [] start in
    let second = claim_pass (by_channel actors) first.1 first.0 in
    let third = claim_pass (by_name actors) second.1 second.0 in
    omega (
      arith,
      match_count-match_of object third.0,
      claim_pass-count (by_name actors) object second.0 second.1,
      claim_pass-count (by_channel actors) object first.0 first.1,
      claim_pass-count (by_endpoint actors) object start [],
      slots_at_start object entries,
    )
