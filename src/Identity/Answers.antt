-- ===== src/Identity/Answers.antt =====
-- The answers of the peers.
use reference_app.Fold.Context.{ChannelInfoOutcome}
use reference_app.Identity.{
  IdentityUpdate, IdentityUpdateChannel, OutcomeDetail, expired_entry, is_pending_outcome,
  with_channel_outcome, with_expired_waits,
}
use reference_app.Prelude.{
  Bool-cases, Dict, String, [], arith, eq_iff, false, inl, inr, insert, lookup, lookup-insert, map,
  nat_eq, option_eq, pair_eq, refl, some, string_eq, true, ℕ, ◌==◌, ◌∙◌, ◌∷◌, ◌≡◌,
}

lookup-map_values :
    (f : IdentityUpdateChannel → IdentityUpdateChannel) (m : Dict String IdentityUpdateChannel)
    (id : String) (entry : IdentityUpdateChannel)
    → lookup m id ≡ some entry
    → lookup (map (λ kv. (kv.0, f kv.1)) m) id ≡ some (f entry)
unfolding lookup
lookup-map_values f [] id entry h = absurd (cc)
lookup-map_values f ((k, e) ∷ m) id entry h = elim (Bool-cases (k == id)) [
  | inl same ↦ let e' : e ≡ entry = ground (arith, h, same) in rw (same, e') refl
  | inr other ↦ rw other (lookup-map_values f m id entry (ground (arith, h, other)))
]

-- The first answer of a peer that is waited for stands: no later answer changes it, and no wait that
-- runs out afterwards does.
pub with_channel_outcome_first :
    (update : IdentityUpdate) (id : String) (entry : IdentityUpdateChannel)
    (first second : ChannelInfoOutcome) (detail other_detail : OutcomeDetail) (now timeout : ℕ)
    → lookup update.channels id ≡ some entry
    → is_pending_outcome entry.outcome ≡ true
    → is_pending_outcome first ≡ false
    → (left : IdentityUpdate) × (with_channel_outcome (some update) id first detail ≡ some left)
      × (lookup left.channels id ≡ some (record entry { outcome = first; detail = detail }))
      × (with_channel_outcome (some left) id second other_detail ≡ some left)
      × ((later : IdentityUpdate)
          → with_expired_waits (some left) now timeout ≡ some later
          → lookup later.channels id ≡ some (record entry { outcome = first; detail = detail }))
unfolding with_channel_outcome with_expired_waits
with_channel_outcome_first update id entry first second detail other_detail now timeout there waits
      settled =
    let new : IdentityUpdateChannel = record entry { outcome = first; detail = detail } in
    let left : IdentityUpdate = record update { channels = insert update.channels id new } in
    let found : lookup left.channels id ≡ some new =
      ground (arith, lookup-insert update.channels id new id, eq_iff id id) in
    (
      left,
      ground (arith, there, waits),
      found,
      ground (arith, found, settled),
      λ later h.
          let same : record left {
            channels = map (λ kv. (kv.0, expired_entry now timeout kv.1)) left.channels;
          }
              ≡ later =
            ground (arith, h) in
          rw (← same) (
            lookup-map_values (expired_entry now timeout) left.channels id new found
            ∙ ground (arith, settled)),
    )
