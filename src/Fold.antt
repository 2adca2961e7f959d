-- ===== src/Fold.antt =====
-- vault/fold/: how a protocol event changes the vault record. Each handler takes the record, the
-- fields of its event and the state, and returns the new record and state. The table of handlers
-- (vault/fold/index.ts) is `fold_event`.
pub mod Context
pub mod Sharing
pub mod Verifying
pub mod Failures
pub mod Recovery
pub mod Corruption
pub mod Outcomes
pub mod Pairing
pub mod PeerRows
pub mod PairingCompleted
pub mod Replicas
pub mod ReplicaEvents
pub mod ReplicaMoves
pub mod BagMoves
pub mod Versions
pub mod Verdicts
pub mod TrackerMoves
pub mod Tracking
pub mod Attempts
mod Tests
use reference_app.Fold.Context.{FoldContext, FoldState, log, ◌▹◌}
use reference_app.Fold.Corruption.{recovery_share_corrupted}
use reference_app.Fold.Outcomes.{
  auto_accepted, discovery_failed, dispatch_failed, dispatch_started, message_ignored, no_op,
  update_channel_info_failed,
}
use reference_app.Fold.Pairing.{
  channel_info_update_rejected, channel_info_updated, pre_pair_rejected, unpair_failed,
  unpair_rejected, unpaired,
}
use reference_app.Fold.PairingCompleted.{pairing_completed}
use reference_app.Fold.PeerRows.{PairingEvent}
use reference_app.Fold.Recovery.{
  peer_not_restored_event, recovery_share_error, recovery_share_received, recovery_share_refused,
  secret_recovered_event, secrets_discovered,
}
use reference_app.Fold.ReplicaEvents.{ReplicaEvent, replica_event}
use reference_app.Fold.Sharing.{share_confirmed, share_rejected, share_stored, sharing_complete}
use reference_app.Fold.Verifying.{share_verified, share_verify_rejected}
use reference_app.Prelude.{Bool, List, Option, String, [], ℕ, ◌∷◌}
use reference_app.Stores.{after}
use reference_app.Types.{CorruptionReason, DiscoveredVersion, RecoveredSecretSnapshot, Vault}

-- the events of the SDK that the table has handlers for, with the fields that these read
pub data FoldEvent : Type 0 where
  got_pairing_completed : PairingEvent → FoldEvent
  got_unpaired : String → FoldEvent
  got_unpair_rejected : String → Option ℕ → Option String → FoldEvent
  got_unpair_failed : FoldEvent
  got_channel_info_updated : String → FoldEvent
  got_channel_info_update_rejected got_pre_pair_rejected : String → String → FoldEvent
  got_share_stored got_share_confirmed got_share_verified : String → Option ℕ → FoldEvent
  got_share_rejected : String → Option ℕ → Option ℕ → Option String → FoldEvent
  got_sharing_complete : Option ℕ → Option Bool → FoldEvent
  got_share_verify_rejected : String → ℕ → ℕ → String → FoldEvent
  got_secrets_discovered : String → Option (List DiscoveredVersion) → FoldEvent
  got_recovery_share_received : Option ℕ → FoldEvent
  got_recovery_share_refused : String → ℕ → ℕ → String → FoldEvent
  got_recovery_share_corrupted : String → ℕ → CorruptionReason → FoldEvent
  got_recovery_share_error : Option ℕ → Option String → FoldEvent
  got_secret_recovered : Option RecoveredSecretSnapshot → FoldEvent
  got_peer_not_restored : String → String → FoldEvent
  got_dispatch_started : FoldEvent
  got_dispatch_failed : String → String → FoldEvent
  got_discovery_failed got_update_channel_info_failed : String → String → FoldEvent
  got_no_op got_message_ignored got_auto_accepted got_action_required : FoldEvent
  got_replica : ReplicaEvent → FoldEvent
  got_unknown : String → FoldEvent

unfoldable pub fold_event : FoldContext → Vault → FoldEvent → FoldState → Vault × FoldState
fold_event ctx v (got_pairing_completed e) st = pairing_completed ctx v e st
fold_event ctx v (got_unpaired channel_id) st = unpaired v channel_id st
fold_event ctx v (got_unpair_rejected channel_id status memo) st =
    unpair_rejected v channel_id status memo st
fold_event ctx v got_unpair_failed st = unpair_failed v st
fold_event ctx v (got_channel_info_updated channel_id) st = channel_info_updated ctx v channel_id st
fold_event ctx v (got_channel_info_update_rejected channel_id memo) st =
    channel_info_update_rejected v channel_id memo st
fold_event ctx v (got_pre_pair_rejected channel_id memo) st = pre_pair_rejected v channel_id memo st
fold_event ctx v (got_share_stored channel_id version) st = share_stored ctx v channel_id version st
fold_event ctx v (got_share_confirmed channel_id version) st =
    share_confirmed v channel_id version st
fold_event ctx v (got_share_verified channel_id version) st =
    share_verified ctx v channel_id version st
fold_event ctx v (got_share_rejected channel_id version status memo) st =
    share_rejected v channel_id version status memo st
fold_event ctx v (got_sharing_complete version threshold_met) st =
    sharing_complete v version threshold_met st
fold_event ctx v (got_share_verify_rejected channel_id version status memo) st =
    share_verify_rejected ctx v channel_id version status memo st
fold_event ctx v (got_secrets_discovered channel_id versions) st =
    secrets_discovered v channel_id versions st
fold_event ctx v (got_recovery_share_received received) st = recovery_share_received v received st
fold_event ctx v (got_recovery_share_refused channel_id version status memo) st =
    recovery_share_refused v channel_id version status memo st
fold_event ctx v (got_recovery_share_corrupted channel_id version reason) st =
    recovery_share_corrupted ctx v channel_id version reason st
fold_event ctx v (got_recovery_share_error received error) st =
    recovery_share_error ctx v received error st
fold_event ctx v (got_secret_recovered snapshot) st = secret_recovered_event v snapshot st
fold_event ctx v (got_peer_not_restored who reason) st = peer_not_restored_event v who reason st
fold_event ctx v got_dispatch_started st = dispatch_started v st
fold_event ctx v (got_dispatch_failed step error) st = dispatch_failed v step error st
fold_event ctx v (got_discovery_failed channel_id error) st = discovery_failed v channel_id error st
fold_event ctx v (got_update_channel_info_failed channel_id error) st =
    update_channel_info_failed v channel_id error st
fold_event ctx v got_no_op st = no_op v st
fold_event ctx v got_message_ignored st = message_ignored v st
fold_event ctx v got_auto_accepted st = auto_accepted v st
fold_event ctx v got_action_required st = (v, st)
fold_event ctx v (got_replica e) st = replica_event ctx v e st
fold_event ctx v (got_unknown type) st = (v, st ▹ log "protocol" "unhandled_event")

-- the record is threaded through the events of a batch in their order
unfoldable pub fold_events : FoldContext → Vault → List FoldEvent → FoldState → Vault × FoldState
fold_events ctx v [] st = (v, st)
fold_events ctx v (e ∷ es) st =
    let (next, after) = fold_event ctx v e st in fold_events ctx next es after
