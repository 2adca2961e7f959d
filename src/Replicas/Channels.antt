-- ===== src/Replicas/Channels.antt =====
-- The second half of the replica records of apps/web/src/replicaFlows.ts: forgetting channels and
-- members, and what was acknowledged to whom.
use reference_app.Prelude.{
  Bool, Dict, List, Option, String, [], delete, false, filter, find, if◌then◌else◌, includes,
  insert, keys, lookup, ltb, map, nat_eq, none, not, option_eq, pair_eq, some, string_eq, values,
  ◌&&◌, ◌<>◌, ◌==◌, ◌∷◌,
}
use reference_app.Replicas.{ReplicaChannelRecord, ReplicaRecord, ReplicaState, ReplicaSyncRecord}

unfoldable pub replica_channel_row_id : String → String
replica_channel_row_id channel_id = "replica-channel:" <> channel_id

module _ {V : Type 0} where
  -- the loop of `delete`
  unfoldable pub delete_all : Dict String V → List String → Dict String V
  delete_all m [] = m
  delete_all m (k ∷ ks) = delete_all (delete m k) ks

abbrev pub names_doomed : List String → Option String → Bool
names_doomed doomed none = false
names_doomed doomed (some channel_id) = includes doomed channel_id

-- whether a record survives
abbrev pub keeps_record : List String → String × ReplicaRecord → Bool
keeps_record doomed entry =
    not (includes doomed (replica_channel_row_id entry.0))
    && not (names_doomed doomed entry.1.channel_id)

unfoldable pub prune_channels : ReplicaState → List String → ReplicaState
unfolding delete_all replica_channel_row_id
prune_channels current doomed = record {
  channels = delete_all current.channels doomed;
  syncs = delete_all current.syncs doomed;
  replicas = filter (keeps_record doomed) current.replicas;
  pending_pairings = filter (λ entry. not (includes doomed entry.0)) current.pending_pairings;
}

abbrev pub is_of_member : String → ReplicaChannelRecord → Bool
is_of_member replica_id c = c.peer_replica_id == some replica_id

unfoldable pub channels_of_member : ReplicaState → String → List String
channels_of_member state replica_id =
    map (λ c. c.channel_id) (filter (is_of_member replica_id) (values state.channels))

abbrev prune_some : ReplicaState → List String → Option ReplicaState
prune_some current [] = none
prune_some current (c ∷ doomed) = some (prune_channels current (c ∷ doomed))

unfoldable pub forget_replica_member : String → ReplicaState → Option ReplicaState
unfolding prune_channels channels_of_member
forget_replica_member peer_replica_id current =
    prune_some current (channels_of_member current peer_replica_id)

unfoldable pub forget_replica_channel : String → ReplicaState → Option ReplicaState
unfolding prune_channels
forget_replica_channel channel_id current = some (prune_channels current (channel_id ∷ []))

unfoldable pub retain_replica_channels : List String → ReplicaState → Option ReplicaState
unfolding prune_channels
retain_replica_channels keep current =
    prune_some current (filter (λ id. not (includes keep id)) (keys current.channels))

unfoldable pub record_peer_replica_id : String → String → ReplicaState → Option ReplicaState
record_peer_replica_id channel_id peer_replica_id current =
    elim (lookup current.channels channel_id) [
      | none ↦ none
      | some existing ↦ some (record current {
        channels =
            insert current.channels channel_id
              (record existing { peer_replica_id = some peer_replica_id });
      })
    ]

unfoldable pub merge_replica_sync : Option ReplicaSyncRecord → ReplicaSyncRecord → ReplicaSyncRecord
merge_replica_sync none incoming = incoming
merge_replica_sync (some existing) incoming =
    if ltb existing.version incoming.version then incoming else existing

unfoldable pub resolve_ack_channel_id : ReplicaState → String → String → String
resolve_ack_channel_id state from_replica_id event_channel_id =
    elim (find (is_of_member from_replica_id) (values state.channels)) [
      | none ↦ event_channel_id
      | some c ↦ c.channel_id
    ]

unfoldable pub record_replica_sync : String → ReplicaSyncRecord → ReplicaState → ReplicaState
unfolding merge_replica_sync
record_replica_sync channel_id sync current = record current {
  syncs =
      insert current.syncs channel_id (merge_replica_sync (lookup current.syncs channel_id) sync);
}
