-- ===== src/Fold/ReplicaMoves.antt =====
-- The secret bag and the round tracker before and after the events about replicas.
use reference_app.Conflict.{superseded_conflict, with_replica_conflict}
use reference_app.Fold.Context.{FoldContext, FoldState}
use reference_app.Fold.ReplicaEvents.{
  MirroredCopy, ReplicaEvent, got_discovery_complete, got_mirrored_copy, got_replica_acked,
  got_replica_paired, got_replica_removed, got_self_removed, got_source_changed, got_sync_complete,
  got_sync_failed, got_sync_rejected, got_version_conflict, group_discovered, is_self_removed,
  receive_mirrored_secret, replica_acked, replica_announced, replica_event, replica_removed,
  self_removed, source_changed, sync_complete, sync_failed, sync_rejected, version_conflict,
}
use reference_app.Prelude.{Option, String, arith, if◌then◌else◌, none, refl, ℕ, ◌≡◌}
use reference_app.Types.{Vault}

module _ (ctx : FoldContext) (v : Vault) (st : FoldState) where
  mirrored-stays :
      (e : MirroredCopy)
      → ((receive_mirrored_secret ctx v e st).0.secret_bag ≡ v.secret_bag)
        × ((receive_mirrored_secret ctx v e st).1.rounds ≡ st.rounds)
  unfolding receive_mirrored_secret superseded_conflict
  mirrored-stays e = (ground arith, ground arith)

  acked-stays :
      (channel_id from_replica_id : String) (version status : ℕ) (memo : String)
      → ((replica_acked ctx v channel_id from_replica_id version status memo st).0.secret_bag
          ≡ v.secret_bag)
        × ((replica_acked ctx v channel_id from_replica_id version status memo st).1.rounds
            ≡ st.rounds)
  unfolding replica_acked
  acked-stays channel_id from_replica_id version status memo = (ground arith, ground arith)

  announced-stays :
      (channel_id peer_replica_id : String)
      → ((replica_announced v channel_id peer_replica_id st).0.secret_bag ≡ v.secret_bag)
        × ((replica_announced v channel_id peer_replica_id st).1.rounds ≡ st.rounds)
  unfolding replica_announced
  announced-stays channel_id peer_replica_id = (ground arith, ground arith)

  rejected-stays :
      (replica_id : String) (version status : ℕ) (memo : String)
      → ((sync_rejected ctx v replica_id version status memo st).0.secret_bag ≡ v.secret_bag)
        × ((sync_rejected ctx v replica_id version status memo st).1.rounds ≡ st.rounds)
  unfolding sync_rejected with_replica_conflict
  rejected-stays replica_id version status memo = (ground arith, ground arith)

  discovered-stays :
      (fetched_from : Option String) (version : ℕ)
      → ((group_discovered v fetched_from version st).0.secret_bag ≡ v.secret_bag)
        × ((group_discovered v fetched_from version st).1.rounds ≡ st.rounds)
  unfolding group_discovered
  discovered-stays fetched_from version = (ground arith, ground arith)

  pub replica_event-rounds : (e : ReplicaEvent) → (replica_event ctx v e st).1.rounds ≡ st.rounds
  unfolding replica_event version_conflict sync_failed sync_complete replica_removed source_changed
      self_removed
  replica_event-rounds (got_mirrored_copy e) = (mirrored-stays e).1
  replica_event-rounds (got_replica_acked channel_id from_replica_id version status memo) =
      (acked-stays channel_id from_replica_id version status memo).1
  replica_event-rounds (got_replica_paired channel_id peer_replica_id) =
      (announced-stays channel_id peer_replica_id).1
  replica_event-rounds (got_version_conflict from_replica_id version rival) = refl
  replica_event-rounds (got_sync_rejected replica_id version status memo) =
      (rejected-stays replica_id version status memo).1
  replica_event-rounds (got_sync_failed replica_id version reason) = refl
  replica_event-rounds (got_sync_complete version) = refl
  replica_event-rounds (got_discovery_complete fetched_from version) =
      (discovered-stays fetched_from version).1
  replica_event-rounds (got_replica_removed replica_id) = refl
  replica_event-rounds (got_source_changed replica_id) = refl
  replica_event-rounds (got_self_removed version) = refl

  -- An event about replicas leaves the bag as it is, or empties it where this device was put out of
  -- its group.
  pub replica_event-bag :
      (e : ReplicaEvent)
      → (replica_event ctx v e st).0.secret_bag ≡ (if is_self_removed e then none else v.secret_bag)
  unfolding replica_event version_conflict with_replica_conflict sync_failed sync_complete
      replica_removed source_changed self_removed
  replica_event-bag (got_mirrored_copy e) = (mirrored-stays e).0
  replica_event-bag (got_replica_acked channel_id from_replica_id version status memo) =
      (acked-stays channel_id from_replica_id version status memo).0
  replica_event-bag (got_replica_paired channel_id peer_replica_id) =
      (announced-stays channel_id peer_replica_id).0
  replica_event-bag (got_version_conflict from_replica_id version rival) = refl
  replica_event-bag (got_sync_rejected replica_id version status memo) =
      (rejected-stays replica_id version status memo).0
  replica_event-bag (got_sync_failed replica_id version reason) = refl
  replica_event-bag (got_sync_complete version) = refl
  replica_event-bag (got_discovery_complete fetched_from version) =
      (discovered-stays fetched_from version).0
  replica_event-bag (got_replica_removed replica_id) = refl
  replica_event-bag (got_source_changed replica_id) = refl
  replica_event-bag (got_self_removed version) = refl
