-- ===== src/Rounds/Redelivery.antt =====
-- The confirmation of a share that is delivered more than once.
use reference_app.Bag.{add_participant, update_at, update_bag_participant}
use reference_app.Prelude.{
  Bool-cases, List, Option, Option-cases, String, [], any-append, arith, eq_iff, includes, inl, inr,
  insert-insert, lookup, lookup-insert, map, nat_eq, none, refl, set_add, some, string_eq, ℕ, ◌++◌,
  ◌==◌, ◌||◌, ◌∷◌, ◌≡◌,
}
use reference_app.Rounds.{OpenRound, RoundTracker, confirm_in, record_share_confirmed}
use reference_app.Types.{BagVersion, SecretBag}

includes-append :
    (xs ys : List String) (a : String) → includes (xs ++ ys) a ≡ (includes xs a || includes ys a)
includes-append xs ys a = any-append (λ x. x == a) xs ys

pub set_add_idem : (xs : List String) (a : String) → set_add (set_add xs a) a ≡ set_add xs a
set_add_idem xs a = ground (arith, includes-append xs (a ∷ []) a, eq_iff a a)

pub includes-set_add :
    (xs : List String) (a b : String) → includes (set_add xs a) b ≡ (includes xs b || a == b)
includes-set_add xs a b = ground (arith, includes-append xs (a ∷ []) b, eq_iff a b)

add_participant_idem :
    (id : String) (v : BagVersion)
    → add_participant id (add_participant id v) ≡ add_participant id v
add_participant_idem id v =
    ground (arith, includes-append v.participant_ids (id ∷ []) id, eq_iff id id)

map-update_at_idem :
    (version : ℕ) (id : String) (vs : List BagVersion)
    → map (update_at version (add_participant id)) (map (update_at version (add_participant id)) vs)
      ≡ map (update_at version (add_participant id)) vs
map-update_at_idem version id [] = refl
map-update_at_idem version id (v ∷ vs) =
    ground (arith, add_participant_idem id v, map-update_at_idem version id vs)

update_bag_participant_idem :
    (bag : SecretBag) (version : ℕ) (id : String)
    → update_bag_participant (update_bag_participant bag version id) version id
      ≡ update_bag_participant bag version id
unfolding update_bag_participant
update_bag_participant_idem bag version id = ground (
  arith,
  add_participant_idem id bag.current_version,
  map-update_at_idem version id bag.previous_versions,
)

confirm_in_idem :
    (version : ℕ) (id : String) (channel_id : Option String) (round : OpenRound)
    → confirm_in version id channel_id (confirm_in version id channel_id round)
      ≡ confirm_in version id channel_id round
confirm_in_idem version id none round = rw update_bag_participant_idem
confirm_in_idem version id (some c) round = elim (Bool-cases (c == "")) [
  | inl blank ↦ rw (blank, update_bag_participant_idem)
  | inr filled ↦ rw (filled, update_bag_participant_idem, set_add_idem)
]

-- Recording the confirmation of a share a second time changes nothing in the tracker.
pub record_share_confirmed_idem :
    (t : RoundTracker) (version : ℕ) (id : String) (channel_id : Option String)
    → record_share_confirmed (record_share_confirmed t version id channel_id) version id channel_id
      ≡ record_share_confirmed t version id channel_id
unfolding record_share_confirmed
record_share_confirmed_idem t version id channel_id =
    elim (Option-cases (lookup t.rounds version)) [
      | inl closed ↦ rw closed (rw closed)
      | inr (round, found) ↦
          let once = confirm_in version id channel_id round in
          let again = confirm_in version id channel_id once in
          rw found (
            ground (
              arith,
              lookup-insert t.rounds version once version,
              confirm_in_idem version id channel_id round,
              insert-insert t.rounds version once again,
            ))
    ]
