-- ===== src/Replicas/Tests.antt =====
-- Examples over the replica records of apps/web/src/replicaFlows.ts.
use reference_app.Prelude.{
  All, String, [], any, arith, eq_iff, false, inl, lookup, nat_eq, none, option_eq, pair_eq, refl,
  some, string_eq, true, ℕ, ◌*◌, ◌+◌, ◌<◌, ◌↔◌, ◌∷◌, ◌≡◌, ◌≤◌,
}
use reference_app.Replicas.{
  ReplicaChannelRecord, ReplicaExpiry, ReplicaRecord, ReplicaState, ReplicaSyncRecord, empty_record,
  expired, expiring_soon, next_replica_status, protocol_verified, record_of,
  record_pending_replica_pairing, replica_channel_expiry, resolve_replica_pairing,
}
use reference_app.Replicas.Adoption.{AdoptionWorld, PendingReplicaAdoption, adopt_replica_secret}
use reference_app.Replicas.Adoption.Order.{IsSafe, adopt_replica_secret-IsSafe}
use reference_app.Replicas.Channels.{
  forget_replica_channel, names_doomed, prune_channels, record_replica_sync, replica_channel_row_id,
}
use reference_app.Replicas.FirstSync.{
  TriggerStep, due_ids, idle_trigger, observe, observe_views, round_dispatched, settle, sync_now,
  trigger_step,
}
use reference_app.Replicas.FirstSync.Once.{
  alternates, marks, trigger_run, trigger_run-alternates, trigger_run-marks_once,
}
use reference_app.Replicas.Pruning.{forget_replica_channel-confirmation, prune_channels-lookup}
use reference_app.Replicas.Syncs.{
  record_replica_sync_comm, replica_channel_expiry-bounds, resolve_replica_pairing-record_pending,
}
use reference_app.Replicas.Views.{
  ReplicaView, default_peer_label, local_channel_view, replica_sync_targets,
  replicas_awaiting_first_sync,
}
use reference_app.Types.{replica_source}

abbrev phone : ReplicaChannelRecord
phone = record {
  channel_id = "77";
  role = replica_source;
  peer_name = some "Phone";
  established_at = some 1000;
  peer_replica_id = some "5";
}

abbrev confirmed_phone : ReplicaRecord
confirmed_phone = record empty_record { local_side = true; peer = protocol_verified }

abbrev with_phone : ReplicaState
with_phone = record {
  replicas = ("replica-channel:77", confirmed_phone) ∷ [];
  pending_pairings = ("t1", "9") ∷ [];
  channels = ("77", phone) ∷ [];
  syncs = ("77", record { version = 3; synced_at = 500 }) ∷ [];
}

prune_channels-lookup_example :
    (lookup (prune_channels with_phone ("77" ∷ [])).channels "77" ≡ none)
    × (lookup (prune_channels with_phone ("77" ∷ [])).syncs "77" ≡ none)
    × (lookup (prune_channels with_phone ("77" ∷ [])).pending_pairings "77" ≡ none)
    × All
        (λ entry. names_doomed ("77" ∷ []) entry.1.channel_id ≡ false)
        (prune_channels with_phone ("77" ∷ [])).replicas
prune_channels-lookup_example = prune_channels-lookup with_phone ("77" ∷ []) "77"

abbrev without_phone : ReplicaState
unfolding prune_channels
without_phone = prune_channels with_phone ("77" ∷ [])

forget_replica_channel-confirmation_example :
    lookup without_phone.replicas "replica-channel:77" ≡ some confirmed_phone
unfolding forget_replica_channel without_phone replica_channel_row_id lookup
forget_replica_channel-confirmation_example =
    forget_replica_channel-confirmation with_phone "77" confirmed_phone without_phone refl refl
      (λ h. absurd (ground (arith, h, eq_iff "77" "replica-channel:replica-channel:77"))) refl

abbrev sync_four : ReplicaSyncRecord
sync_four = record { version = 4; synced_at = 600 }

abbrev sync_five : ReplicaSyncRecord
sync_five = record { version = 5; synced_at = 550 }

record_replica_sync_comm_example :
    lookup
      (record_replica_sync "77" sync_four (record_replica_sync "77" sync_five with_phone)).syncs
      "77"
    ≡ lookup
        (record_replica_sync "77" sync_five (record_replica_sync "77" sync_four with_phone)).syncs
        "77"
record_replica_sync_comm_example =
    record_replica_sync_comm with_phone "77" "77" sync_four sync_five "77"
      (λ same h. absurd (omega (arith, h)))

resolve_replica_pairing-record_pending_example :
    (pending : ReplicaState) × (left : ReplicaState) × (record_pending_replica_pairing "t2"
        "actor-1" with_phone
      ≡ some pending)
    × (resolve_replica_pairing "t2" "88" pending ≡ some left)
    × ((record_of left.replicas "actor-1").channel_id ≡ some "88")
    × (lookup left.pending_pairings "t2" ≡ none)
    × ((other : String) → resolve_replica_pairing "t2" other left ≡ none)
resolve_replica_pairing-record_pending_example =
    resolve_replica_pairing-record_pending with_phone "t2" "actor-1" "88"
      (λ h. absurd (ground (arith, h, eq_iff "actor-1" "")))

abbrev soon_over : ReplicaExpiry
soon_over = record { state = expiring_soon; remaining_secs = 60; expires_at = 301000 }

replica_channel_expiry-bounds_example :
    (301000 ≡ 1000 + 300 * 1000)
    × ((soon_over.state ≡ expired) ↔ (301000 ≤ 241500))
    × (241500 < 301000 → (301000 ≤ 241500 + 60 * 1000) × (241500 + 60 * 1000 < 301000 + 1000))
    × ((soon_over.state ≡ expiring_soon) ↔ ((241500 < 301000) × (60 ≤ 60)))
unfolding replica_channel_expiry
replica_channel_expiry-bounds_example = replica_channel_expiry-bounds 1000 300 241500 soon_over refl

abbrev phone_view : ReplicaView
unfolding local_channel_view replica_channel_row_id default_peer_label next_replica_status
phone_view = local_channel_view phone with_phone none

abbrev seen_phone : TriggerStep
seen_phone = observe (phone_view ∷ []) true

trigger_run-marks_once_example :
    any (marks "replica-channel:77") (
      trigger_run
        (trigger_step idle_trigger seen_phone).0
        (settle round_dispatched ∷ seen_phone ∷ []))
    ≡ false
unfolding trigger_step observe_views due_ids replicas_awaiting_first_sync replica_sync_targets
    phone_view local_channel_view replica_channel_row_id next_replica_status lookup
trigger_run-marks_once_example =
    trigger_run-marks_once idle_trigger seen_phone (settle round_dispatched ∷ seen_phone ∷ [])
      "replica-channel:77" refl

trigger_run-alternates_example :
    alternates false (
      trigger_run idle_trigger
        (seen_phone ∷ sync_now true ∷ settle round_dispatched ∷ sync_now true ∷ []))
    ≡ true
trigger_run-alternates_example =
    trigger_run-alternates
      (seen_phone ∷ sync_now true ∷ settle round_dispatched ∷ sync_now true ∷ []) idle_trigger

abbrev calm_world : AdoptionWorld String ℕ
calm_world = record {
  normalized = λ payload. inl payload;
  replica_id = 6;
  restore = λ payload version. inl (1 ∷ 2 ∷ []);
  tracking_error = some "full";
}

abbrev offered_copy : PendingReplicaAdoption String
offered_copy = record {
  channel_id = "77";
  from_replica_id = "5";
  secret_id = "s";
  version = 3;
  payload = "AQ";
}

adopt_replica_secret-IsSafe_example :
    IsSafe calm_world offered_copy
      (calm_world.normalized offered_copy.payload)
      (adopt_replica_secret calm_world offered_copy)
adopt_replica_secret-IsSafe_example = adopt_replica_secret-IsSafe calm_world offered_copy
