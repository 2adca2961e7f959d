-- ===== src/Fold/Tracking.antt =====
-- The round tracker before and after the events of the table.
use reference_app.Fold.{
  FoldEvent, fold_event, fold_events, got_discovery_failed, got_pairing_completed,
  got_recovery_share_corrupted, got_recovery_share_error, got_recovery_share_received,
  got_recovery_share_refused, got_replica, got_secret_recovered, got_secrets_discovered,
  got_share_confirmed, got_share_rejected, got_share_stored, got_share_verified,
  got_share_verify_rejected, got_sharing_complete, got_unpair_rejected, got_unpaired,
}
use reference_app.Fold.Context.{FoldContext, FoldState}
use reference_app.Fold.Corruption.{recovery_share_corrupted}
use reference_app.Fold.Outcomes.{
  auto_accepted, discovery_failed, dispatch_failed, dispatch_started, message_ignored, no_op,
  update_channel_info_failed,
}
use reference_app.Fold.Pairing.{
  channel_info_update_rejected, channel_info_updated, pre_pair_rejected, unpair_failed,
  unpair_rejected, unpaired,
}
use reference_app.Fold.PairingCompleted.{
  apply_pairing_completed, pairing_completed, peer_paired, replica_paired, start_lookup,
}
use reference_app.Fold.PeerRows.{PairingEvent}
use reference_app.Fold.Recovery.{
  peer_not_restored_event, recovery_share_error, recovery_share_received, recovery_share_refused,
  secrets_discovered, settle_if_every_answer_is_in,
}
use reference_app.Fold.ReplicaMoves.{replica_event-rounds}
use reference_app.Fold.Sharing.{share_stored}
use reference_app.Fold.TrackerMoves.{
  secret_recovered-IsWellFormed, share_confirmed-IsWellFormed, share_rejected-IsWellFormed,
  share_verified-IsWellFormed, share_verify_rejected-IsWellFormed, sharing_complete-IsWellFormed,
}
use reference_app.Prelude.{List, Option, String, [], arith, none, ℕ, ◌∷◌, ◌≡◌}
use reference_app.Rounds.{RoundTracker}
use reference_app.Rounds.Invariant.{IsWellFormed}
use reference_app.Types.{CorruptionReason, DiscoveredVersion, Vault, malformed}

-- the handlers that leave the tracker alone
module _ (ctx : FoldContext) (v : Vault) (st : FoldState) where
  pairing_completed-rounds :
      (e : PairingEvent) → (pairing_completed ctx v e st).1.rounds ≡ st.rounds
  unfolding pairing_completed apply_pairing_completed replica_paired peer_paired start_lookup
  pairing_completed-rounds e = ground arith

  pairing-rounds :
      (channel_id : String) (status : Option ℕ) (memo : Option String)
      → ((unpaired v channel_id st).1.rounds ≡ st.rounds)
        × ((unpair_rejected v channel_id status memo st).1.rounds ≡ st.rounds)
        × ((share_stored ctx v channel_id status st).1.rounds ≡ st.rounds)
  unfolding unpaired unpair_rejected share_stored
  pairing-rounds channel_id status memo = (ground arith, ground arith, ground arith)

  discovery-rounds :
      (channel_id error : String) (versions : Option (List DiscoveredVersion))
      → ((secrets_discovered v channel_id versions st).1.rounds ≡ st.rounds)
        × ((discovery_failed v channel_id error st).1.rounds ≡ st.rounds)
  unfolding secrets_discovered discovery_failed
  discovery-rounds channel_id error versions = (ground arith, ground arith)

  recovery-rounds :
      (received : Option ℕ) (error : Option String) (channel_id memo : String) (version status : ℕ)
      (reason : CorruptionReason)
      → ((recovery_share_received v received st).1.rounds ≡ st.rounds)
        × ((recovery_share_error ctx v received error st).1.rounds ≡ st.rounds)
        × ((recovery_share_refused v channel_id version status memo st).1.rounds ≡ st.rounds)
        × ((recovery_share_corrupted ctx v channel_id version reason st).1.rounds ≡ st.rounds)
  unfolding recovery_share_received recovery_share_error recovery_share_refused
      recovery_share_corrupted settle_if_every_answer_is_in
  recovery-rounds received error channel_id memo version status reason =
      (ground arith, ground arith, ground arith, ground arith)

untouched : {a b : RoundTracker} → b ≡ a → IsWellFormed a → IsWellFormed b
untouched e w = rw e w

fold_event-IsWellFormed :
    (ctx : FoldContext) (v : Vault) (e : FoldEvent) (st : FoldState)
    → IsWellFormed st.rounds
    → IsWellFormed (fold_event ctx v e st).1.rounds
unfolding fold_event update_channel_info_failed dispatch_failed dispatch_started no_op
    message_ignored auto_accepted unpair_failed channel_info_update_rejected pre_pair_rejected
    peer_not_restored_event channel_info_updated
fold_event-IsWellFormed ctx v (got_pairing_completed e) st w =
    untouched (pairing_completed-rounds ctx v st e) w
fold_event-IsWellFormed ctx v (got_unpaired channel_id) st w =
    untouched (pairing-rounds ctx v st channel_id none none).0 w
fold_event-IsWellFormed ctx v (got_unpair_rejected channel_id status memo) st w =
    untouched (pairing-rounds ctx v st channel_id status memo).1 w
fold_event-IsWellFormed ctx v (got_share_stored channel_id version) st w =
    untouched (pairing-rounds ctx v st channel_id version none).2 w
fold_event-IsWellFormed ctx v (got_share_confirmed channel_id version) st w =
    share_confirmed-IsWellFormed ctx v st w channel_id version
fold_event-IsWellFormed ctx v (got_share_verified channel_id version) st w =
    share_verified-IsWellFormed ctx v st w channel_id version
fold_event-IsWellFormed ctx v (got_share_rejected channel_id version status memo) st w =
    share_rejected-IsWellFormed ctx v st w channel_id version status memo
fold_event-IsWellFormed ctx v (got_sharing_complete version met) st w =
    sharing_complete-IsWellFormed ctx v st w version met
fold_event-IsWellFormed ctx v (got_share_verify_rejected channel_id version status memo) st w =
    share_verify_rejected-IsWellFormed ctx v st w channel_id version status memo
fold_event-IsWellFormed ctx v (got_secrets_discovered channel_id versions) st w =
    untouched (discovery-rounds ctx v st channel_id "" versions).0 w
fold_event-IsWellFormed ctx v (got_discovery_failed channel_id error) st w =
    untouched (discovery-rounds ctx v st channel_id error none).1 w
fold_event-IsWellFormed ctx v (got_recovery_share_received received) st w =
    untouched (recovery-rounds ctx v st received none "" "" 0 0 malformed).0 w
fold_event-IsWellFormed ctx v (got_recovery_share_error received error) st w =
    untouched (recovery-rounds ctx v st received error "" "" 0 0 malformed).1 w
fold_event-IsWellFormed ctx v (got_recovery_share_refused channel_id version status memo) st w =
    untouched (recovery-rounds ctx v st none none channel_id memo version status malformed).2 w
fold_event-IsWellFormed ctx v (got_recovery_share_corrupted channel_id version reason) st w =
    untouched (recovery-rounds ctx v st none none channel_id "" version 0 reason).3 w
fold_event-IsWellFormed ctx v (got_secret_recovered snapshot) st w =
    secret_recovered-IsWellFormed ctx v st w snapshot
fold_event-IsWellFormed ctx v (got_replica e) st w = untouched (replica_event-rounds ctx v st e) w
fold_event-IsWellFormed ctx v _ st w = w

-- Where each round of the tracker stands under its own version, none is both open and abandoned, no
-- round or challenge stands twice, and the number of abandoned rounds is within its bound, the same
-- holds after any events of the table in any order.
pub fold_events-IsWellFormed :
    (ctx : FoldContext) (v : Vault) (es : List FoldEvent) (st : FoldState)
    → IsWellFormed st.rounds
    → IsWellFormed (fold_events ctx v es st).1.rounds
unfolding fold_events
fold_events-IsWellFormed ctx v [] st w = w
fold_events-IsWellFormed ctx v (e ∷ es) st w =
    fold_events-IsWellFormed ctx (fold_event ctx v e st).0 es (fold_event ctx v e st).1
      (fold_event-IsWellFormed ctx v e st w)
