-- ===== src/Fold/Versions.antt =====
-- The versions of the secret bag before and after the events of the table.
use reference_app.Bag.Commit.{BagIsOrdered}
use reference_app.Fold.{
  FoldEvent, fold_event, fold_events, got_action_required, got_auto_accepted,
  got_channel_info_update_rejected, got_channel_info_updated, got_discovery_failed,
  got_dispatch_failed, got_dispatch_started, got_message_ignored, got_no_op, got_pairing_completed,
  got_peer_not_restored, got_pre_pair_rejected, got_recovery_share_corrupted,
  got_recovery_share_error, got_recovery_share_received, got_recovery_share_refused, got_replica,
  got_secret_recovered, got_secrets_discovered, got_share_confirmed, got_share_rejected,
  got_share_stored, got_share_verified, got_share_verify_rejected, got_sharing_complete,
  got_unknown, got_unpair_failed, got_unpair_rejected, got_unpaired, got_update_channel_info_failed,
}
use reference_app.Fold.BagMoves.{
  Advances, Advances-refl, bag_current, share_confirmed-Moves, share_rejected-Moves,
  share_verified-Moves, share_verify_rejected-Moves, sharing_complete-Moves, unpaired-Moves,
}
use reference_app.Fold.Context.{FoldContext, FoldState}
use reference_app.Fold.Corruption.{recovery_share_corrupted}
use reference_app.Fold.Outcomes.{
  auto_accepted, discovery_failed, dispatch_failed, dispatch_started, message_ignored, no_op,
  update_channel_info_failed,
}
use reference_app.Fold.Pairing.{
  channel_info_update_rejected, channel_info_updated, pre_pair_rejected, unpair_failed,
  unpair_rejected, with_peer_info,
}
use reference_app.Fold.PairingCompleted.{
  apply_pairing_completed, pairing_completed, peer_paired, replica_paired,
}
use reference_app.Fold.PeerRows.{PairingEvent}
use reference_app.Fold.Recovery.{
  peer_not_restored_event, recovery_share_error, recovery_share_received, recovery_share_refused,
  secret_recovered_event, secrets_discovered, settle_if_every_answer_is_in,
}
use reference_app.Fold.ReplicaEvents.{is_self_removed, replica_event}
use reference_app.Fold.ReplicaMoves.{replica_event-bag}
use reference_app.Fold.Sharing.{share_stored}
use reference_app.Prelude.{
  Bool, Bool-cases, List, Option, String, [], any, arith, false, inl, inr, none, refl, true, ℕ, ◌∙◌,
  ◌∷◌, ◌≡◌, ◌≤◌, ◌⊎◌,
}
use reference_app.Stores.{after}
use reference_app.Types.{
  CorruptionReason, DiscoveredVersion, RecoveredSecretSnapshot, SecretBag, Vault,
}

module _ (ctx : FoldContext) (v : Vault) (st : FoldState) where
  pairing_completed-bag :
      (e : PairingEvent) → (pairing_completed ctx v e st).0.secret_bag ≡ v.secret_bag
  unfolding pairing_completed apply_pairing_completed replica_paired peer_paired
  pairing_completed-bag e = ground arith

  unpair_rejected-bag :
      (channel_id : String) (status : Option ℕ) (memo : Option String)
      → (unpair_rejected v channel_id status memo st).0.secret_bag ≡ v.secret_bag
  unfolding unpair_rejected
  unpair_rejected-bag channel_id status memo = ground arith

  with_peer_info-bag :
      (channel_id : String) → (channel_info_updated ctx v channel_id st).0.secret_bag ≡ v.secret_bag
  unfolding channel_info_updated with_peer_info
  with_peer_info-bag channel_id = ground arith

  share_stored-bag :
      (channel_id : String) (given : Option ℕ)
      → (share_stored ctx v channel_id given st).0.secret_bag ≡ v.secret_bag
  unfolding share_stored
  share_stored-bag channel_id given = ground arith

  secrets_discovered-bag :
      (channel_id : String) (versions : Option (List DiscoveredVersion))
      → (secrets_discovered v channel_id versions st).0.secret_bag ≡ v.secret_bag
  unfolding secrets_discovered
  secrets_discovered-bag channel_id versions = ground arith

  secret_recovered-bag :
      (snapshot : Option RecoveredSecretSnapshot)
      → (secret_recovered_event v snapshot st).0.secret_bag ≡ v.secret_bag
  unfolding secret_recovered_event
  secret_recovered-bag snapshot = ground arith

  recovery_share_error-bag :
      (received : Option ℕ) (error : Option String)
      → (recovery_share_error ctx v received error st).0.secret_bag ≡ v.secret_bag
  unfolding recovery_share_error
  recovery_share_error-bag received error = ground arith

  discovery_failed-bag :
      (channel_id error : String)
      → (discovery_failed v channel_id error st).0.secret_bag ≡ v.secret_bag
  unfolding discovery_failed
  discovery_failed-bag channel_id error = ground arith

  received-bag :
      (received : Option ℕ) → (recovery_share_received v received st).0.secret_bag ≡ v.secret_bag
  unfolding recovery_share_received settle_if_every_answer_is_in
  received-bag received = ground arith

  refused-bag :
      (channel_id : String) (version status : ℕ) (memo : String)
      → (recovery_share_refused v channel_id version status memo st).0.secret_bag ≡ v.secret_bag
  unfolding recovery_share_refused settle_if_every_answer_is_in
  refused-bag channel_id version status memo = ground arith

  corrupted-bag :
      (channel_id : String) (version : ℕ) (reason : CorruptionReason)
      → (recovery_share_corrupted ctx v channel_id version reason st).0.secret_bag ≡ v.secret_bag
  unfolding recovery_share_corrupted settle_if_every_answer_is_in
  corrupted-bag channel_id version reason = ground arith

stays : {a b : Option SecretBag} → b ≡ a → Advances a b
stays {a} e = rw e (Advances-refl a)

-- the device was put out of its replica group
abbrev pub empties_bag : FoldEvent → Bool
empties_bag (got_replica e) = is_self_removed e
empties_bag _ = false

-- Whatever the protocol reports but the device's removal from its replica group, the fold of the event
-- keeps the versions of the bag listed newest first with no number twice, where they were, and never
-- takes the current version to an older number.
pub fold_event-Advances :
    (ctx : FoldContext) (v : Vault) (e : FoldEvent) (st : FoldState)
    → empties_bag e ≡ false
    → Advances v.secret_bag (fold_event ctx v e st).0.secret_bag
unfolding fold_event update_channel_info_failed dispatch_failed dispatch_started no_op
    message_ignored auto_accepted unpair_failed channel_info_update_rejected pre_pair_rejected
    peer_not_restored_event
fold_event-Advances ctx v (got_pairing_completed e) st h = stays (pairing_completed-bag ctx v st e)
fold_event-Advances ctx v (got_unpaired channel_id) st h = unpaired-Moves ctx v st channel_id
fold_event-Advances ctx v (got_unpair_rejected channel_id status memo) st h =
    stays (unpair_rejected-bag ctx v st channel_id status memo)
fold_event-Advances ctx v got_unpair_failed st h = Advances-refl v.secret_bag
fold_event-Advances ctx v (got_channel_info_updated channel_id) st h =
    stays (with_peer_info-bag ctx v st channel_id)
fold_event-Advances ctx v (got_channel_info_update_rejected channel_id memo) st h =
    Advances-refl v.secret_bag
fold_event-Advances ctx v (got_pre_pair_rejected channel_id memo) st h = Advances-refl v.secret_bag
fold_event-Advances ctx v (got_share_stored channel_id version) st h =
    stays (share_stored-bag ctx v st channel_id version)
fold_event-Advances ctx v (got_share_confirmed channel_id version) st h =
    share_confirmed-Moves v st channel_id version
fold_event-Advances ctx v (got_share_verified channel_id version) st h =
    share_verified-Moves ctx v st channel_id version
fold_event-Advances ctx v (got_share_rejected channel_id version status memo) st h =
    share_rejected-Moves v st channel_id version status memo
fold_event-Advances ctx v (got_sharing_complete version met) st h =
    sharing_complete-Moves ctx v st version met
fold_event-Advances ctx v (got_share_verify_rejected channel_id version status memo) st h =
    share_verify_rejected-Moves ctx v st channel_id version status memo
fold_event-Advances ctx v (got_secrets_discovered channel_id versions) st h =
    stays (secrets_discovered-bag ctx v st channel_id versions)
fold_event-Advances ctx v (got_recovery_share_received received) st h =
    stays (received-bag ctx v st received)
fold_event-Advances ctx v (got_recovery_share_refused channel_id version status memo) st h =
    stays (refused-bag ctx v st channel_id version status memo)
fold_event-Advances ctx v (got_recovery_share_corrupted channel_id version reason) st h =
    stays (corrupted-bag ctx v st channel_id version reason)
fold_event-Advances ctx v (got_recovery_share_error received error) st h =
    stays (recovery_share_error-bag ctx v st received error)
fold_event-Advances ctx v (got_secret_recovered snapshot) st h =
    stays (secret_recovered-bag ctx v st snapshot)
fold_event-Advances ctx v (got_peer_not_restored who reason) st h = Advances-refl v.secret_bag
fold_event-Advances ctx v got_dispatch_started st h = Advances-refl v.secret_bag
fold_event-Advances ctx v (got_dispatch_failed step error) st h = Advances-refl v.secret_bag
fold_event-Advances ctx v (got_discovery_failed channel_id error) st h =
    stays (discovery_failed-bag ctx v st channel_id error)
fold_event-Advances ctx v (got_update_channel_info_failed channel_id error) st h =
    Advances-refl v.secret_bag
fold_event-Advances ctx v got_no_op st h = Advances-refl v.secret_bag
fold_event-Advances ctx v got_message_ignored st h = Advances-refl v.secret_bag
fold_event-Advances ctx v got_auto_accepted st h = Advances-refl v.secret_bag
fold_event-Advances ctx v got_action_required st h = Advances-refl v.secret_bag
fold_event-Advances ctx v (got_unknown type) st h = Advances-refl v.secret_bag
fold_event-Advances ctx v (got_replica e) st h = stays (replica_event-bag ctx v st e ∙ rw h refl)

-- where it is empty, it is in order
emptied-IsOrdered :
    (ctx : FoldContext) (v : Vault) (e : FoldEvent) (st : FoldState)
    → empties_bag e ≡ true
    → BagIsOrdered (fold_event ctx v e st).0.secret_bag
unfolding fold_event
emptied-IsOrdered ctx v (got_replica e) st h =
    let empty_now : (replica_event ctx v e st).0.secret_bag ≡ none =
      replica_event-bag ctx v st e ∙ rw h refl in
    rw empty_now tt
emptied-IsOrdered ctx v _ st h = absurd (cc)

-- Where the versions of the bag are listed newest first with no number twice, they are after any
-- events of the table in any order; and the current version is no older than it was, unless one of the
-- events puts this device out of its replica group, which empties the bag.
pub fold_events-Advances :
    (ctx : FoldContext) (v : Vault) (es : List FoldEvent) (st : FoldState)
    → BagIsOrdered v.secret_bag
    → BagIsOrdered (fold_events ctx v es st).0.secret_bag
      × ((any empties_bag es ≡ true)
          ⊎ (bag_current v.secret_bag ≤ bag_current (fold_events ctx v es st).0.secret_bag))
unfolding fold_events
fold_events-Advances ctx v [] st o = (o, inr (omega arith))
fold_events-Advances ctx v (e ∷ es) st o =
    let (next, after) = fold_event ctx v e st in
    elim (Bool-cases (empties_bag e)) [
      | inl out ↦ (
        (fold_events-Advances ctx next es after (emptied-IsOrdered ctx v e st out)).0,
        inl (ground (arith, out)),
      )
      | inr stay ↦
          let step = fold_event-Advances ctx v e st stay in
          let rest = fold_events-Advances ctx next es after (step.ordered o) in
          (rest.0, ground (arith, step.current, rest.1))
    ]
