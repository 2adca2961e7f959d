-- ===== src/Fold/ReplicaEvents.antt =====
-- vault/fold/replica.ts: the handlers of events about replicas. A write to the replica records, the
-- offer of an adoption and the update of an own mirrored copy (`applyMirroredUpdate`, which commits on
-- its own schedule) are calls that leave the reducer. The secrets of a rival copy are an argument, as
-- they read off the wire; the payload of a mirrored copy stays with its offer.
use reference_app.Conflict.{superseded_conflict, with_replica_conflict}
use reference_app.Fold.Context.{
  FoldContext, FoldState, apply_mirrored_update, caught_up, clear_replica_records,
  forget_replica_records, log, mirror_rejected, new_source, notify_error, notify_info,
  offer_replica_adoption, record_peer_id, record_sync, refresh_replicas, removed_from_group,
  rival_copy, sync_refused, sync_undelivered, ◌▹◌,
}
use reference_app.Prelude.{
  Bool, List, Option, String, [], false, filter, if◌then◌else◌, includes, is_some, length, map,
  nat_eq, none, not, option_eq, pair_eq, set_of, some, string_eq, true, ℕ, ◌&&◌, ◌==◌, ◌||◌,
}
use reference_app.Replicas.Channels.{channels_of_member, resolve_ack_channel_id}
use reference_app.Roster.{is_replica_channel}
use reference_app.Types.{
  PairedParticipant, UserSecret, Vault, replica_sync_rejected, replica_version_conflict,
}

-- the fields that every mirrored copy comes with; `installed` tells the two events apart
pub record MirroredCopy : Type 0 where
  pub installed : Bool
  pub channel_id : String
  pub from_replica_id : String
  pub secret_id : String
  pub version : ℕ

pub data ReplicaEvent : Type 0 where
  got_mirrored_copy : MirroredCopy → ReplicaEvent
  got_replica_acked :
      (channel_id from_replica_id : String) (version status : ℕ) (memo : String) → ReplicaEvent
  got_replica_paired : (channel_id peer_replica_id : String) → ReplicaEvent
  got_version_conflict :
      (from_replica_id : String) (version : ℕ) (rival : List UserSecret) → ReplicaEvent
  got_sync_rejected : (replica_id : String) (version status : ℕ) (memo : String) → ReplicaEvent
  got_sync_failed : (replica_id : String) (version : ℕ) (reason : String) → ReplicaEvent
  got_sync_complete : (version : ℕ) → ReplicaEvent
  got_discovery_complete : (fetched_from : Option String) (group_version : ℕ) → ReplicaEvent
  got_replica_removed got_source_changed : (replica_id : String) → ReplicaEvent
  got_self_removed : (version : ℕ) → ReplicaEvent

unfoldable pub receive_mirrored_secret :
    FoldContext → Vault → MirroredCopy → FoldState → Vault × FoldState
unfolding resolve_ack_channel_id superseded_conflict
receive_mirrored_secret ctx current e st =
    if e.channel_id == ""
    then (current, st)
    else let st =
        st
        ▹ log "sharing"
            (if e.installed then "ReplicaSecretInstalled" else "ReplicaSecretReceived") in
      if e.secret_id == current.secret_id
      then superseded_conflict current e.version (
          st
          ▹ record_sync
              (resolve_ack_channel_id (ctx.replica_records st.effects) e.from_replica_id
                e.channel_id)
              e.version ctx.now
          ▹ apply_mirrored_update e.channel_id e.from_replica_id e.secret_id e.version)
      else (
        current,
        st ▹ offer_replica_adoption e.channel_id e.from_replica_id e.secret_id e.version,
      )

unfoldable pub replica_acked :
    FoldContext → Vault → String → String → ℕ → ℕ → String → FoldState → Vault × FoldState
unfolding resolve_ack_channel_id
replica_acked ctx current channel_id from_replica_id version status memo st =
    if channel_id == ""
    then (current, st)
    else if not (status == 0)
    then (
      current,
      st
          ▹ log "sharing" "ReplicaSecretRejected"
          ▹ notify_error (mirror_rejected channel_id version status memo),
    )
    else (
      current,
      st
          ▹ record_sync
              (resolve_ack_channel_id (ctx.replica_records st.effects) from_replica_id channel_id)
              version ctx.now
          ▹ log "sharing" "ReplicaSecretAcked"
          ▹ refresh_replicas,
    )

unfoldable pub replica_announced : Vault → String → String → FoldState → Vault × FoldState
replica_announced current channel_id peer_replica_id st =
    if channel_id == "" then (current, st) else (
      current,
      st
          ▹ record_peer_id channel_id peer_replica_id
          ▹ log "pairing" "ReplicaPaired"
          ▹ refresh_replicas,
    )

unfoldable pub version_conflict :
    FoldContext → Vault → String → ℕ → List UserSecret → FoldState → Vault × FoldState
unfolding with_replica_conflict
version_conflict ctx current from_replica_id version rival st = (
  with_replica_conflict current (record {
    version = version;
    detected_via = replica_version_conflict;
    rival_replica_id = some from_replica_id;
    rival_secrets = some rival;
    detected_at = ctx.now;
  }),
  st ▹ log "sharing" "ReplicaVersionConflict" ▹ notify_error (rival_copy from_replica_id version),
)

abbrev pub version_conflict_status : ℕ
version_conflict_status = 13

unfoldable pub sync_rejected :
    FoldContext → Vault → String → ℕ → ℕ → String → FoldState → Vault × FoldState
unfolding with_replica_conflict
sync_rejected ctx current replica_id version status memo st =
    let conflict = status == version_conflict_status in
    let told =
      st
      ▹ notify_error (sync_refused replica_id version conflict memo)
      ▹ log "sharing" "ReplicaSyncRejected" in
    if not conflict then (current, told) else (
      with_replica_conflict current (record {
        version = version;
        detected_via = replica_sync_rejected;
        rival_replica_id = some replica_id;
        rival_secrets = none;
        detected_at = ctx.now;
      }),
      told,
    )

unfoldable pub sync_failed : Vault → String → ℕ → String → FoldState → Vault × FoldState
sync_failed current replica_id version reason st = (
  current,
  st
      ▹ log "sharing" "ReplicaSyncFailed"
      ▹ notify_error (sync_undelivered replica_id version reason),
)

unfoldable pub sync_complete : Vault → FoldState → Vault × FoldState
sync_complete current st = (current, st ▹ log "sharing" "ReplicaSyncComplete")

unfoldable pub group_discovered : Vault → Option String → ℕ → FoldState → Vault × FoldState
group_discovered current fetched_from group_version st =
    let told = st ▹ log "sharing" "ReplicaDiscoveryComplete" in
    (current, if is_some fetched_from then told ▹ notify_info (caught_up group_version) else told)

abbrev pub off_channels : List String → PairedParticipant → Bool
off_channels doomed p = not (includes doomed p.channel_id)

unfoldable pub replica_removed : FoldContext → Vault → String → FoldState → Vault × FoldState
unfolding channels_of_member
replica_removed ctx current replica_id st =
    let doomed = channels_of_member (ctx.replica_records st.effects) replica_id in
    (
      record current { participants = filter (off_channels doomed) current.participants },
      st ▹ forget_replica_records replica_id ▹ log "unpairing" "ReplicaRemoved" ▹ refresh_replicas,
    )

unfoldable pub source_changed : Vault → String → FoldState → Vault × FoldState
source_changed current replica_id st = (
  current,
  st
      ▹ log "unpairing" "ReplicaSourceChanged"
      ▹ notify_info (new_source replica_id)
      ▹ refresh_replicas,
)

-- a row that the library kept the channel of, or that has none
abbrev pub outlives : FoldContext → PairedParticipant → Bool
unfolding is_replica_channel
outlives ctx p =
    p.channel_id == ""
    || (not (is_replica_channel p) && is_some (ctx.read_channel_info p.channel_id))

abbrev pub has_channel : PairedParticipant → Bool
has_channel p = not (p.channel_id == "")

abbrev pub channel_ids_of : List PairedParticipant → List String
channel_ids_of rows = set_of [] (map (λ p. p.channel_id) (filter has_channel rows))

unfoldable pub self_removed : FoldContext → Vault → FoldState → Vault × FoldState
unfolding outlives
self_removed ctx current st =
    let surviving = filter (outlives ctx) current.participants in
    let erased = filter (λ p. not (outlives ctx p)) current.participants in
    (
      record current {
        secret_bag = none;
        held_shares = [];
        participants = surviving;
        main_channels = filter (includes (channel_ids_of surviving)) current.main_channels;
      },
      st
          ▹ log "unpairing" "SelfRemovedFromGroup"
          ▹ clear_replica_records
          ▹ notify_error (removed_from_group (length (channel_ids_of erased)))
          ▹ refresh_replicas,
    )

-- the handlers of `replicaHandlers`
unfoldable pub replica_event : FoldContext → Vault → ReplicaEvent → FoldState → Vault × FoldState
unfolding sync_complete
replica_event ctx v (got_mirrored_copy e) st = receive_mirrored_secret ctx v e st
replica_event ctx v (got_replica_acked channel_id from_replica_id version status memo) st =
    replica_acked ctx v channel_id from_replica_id version status memo st
replica_event ctx v (got_replica_paired channel_id peer_replica_id) st =
    replica_announced v channel_id peer_replica_id st
replica_event ctx v (got_version_conflict from_replica_id version rival) st =
    version_conflict ctx v from_replica_id version rival st
replica_event ctx v (got_sync_rejected replica_id version status memo) st =
    sync_rejected ctx v replica_id version status memo st
replica_event ctx v (got_sync_failed replica_id version reason) st =
    sync_failed v replica_id version reason st
replica_event ctx v (got_sync_complete version) st = sync_complete v st
replica_event ctx v (got_discovery_complete fetched_from group_version) st =
    group_discovered v fetched_from group_version st
replica_event ctx v (got_replica_removed replica_id) st = replica_removed ctx v replica_id st
replica_event ctx v (got_source_changed replica_id) st = source_changed v replica_id st
replica_event ctx v (got_self_removed version) st = self_removed ctx v st

-- the event by which this device learns that it was put out of its group
abbrev pub is_self_removed : ReplicaEvent → Bool
is_self_removed (got_self_removed version) = true
is_self_removed _ = false
