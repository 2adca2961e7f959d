-- ===== src/Replicas/Views.antt =====
-- The rows of the replicas tab: `replicaViews`, and which of them are sent copies
-- (apps/web/src/replicaFlows.ts).
use reference_app.Prelude.{
  Bool, List, Option, String, [], any, false, filter, find, if◌then◌else◌, length, lookup, ltb, map,
  nat_eq, none, not, option_eq, or_else, pair_eq, some, string_eq, trim, true, values, ℕ, ◌&&◌,
  ◌==◌, ◌∷◌,
}
use reference_app.Replicas.{
  PeerConfirmation, ReplicaChannelRecord, ReplicaRecord, ReplicaState, ReplicaStatus,
  ReplicaSyncRecord, next_replica_status, no_confirmation, paired_replica, pending_replica,
  protocol_verified, record_of,
}
use reference_app.Replicas.Channels.{replica_channel_row_id}
use reference_app.Roles.{complement_role, pairing_role_label}
use reference_app.Types.{PairingRole, replica_source}

-- `BEActorWithStatus` of api.ts, in the fields that the views read
pub record RosterActor : Type 0 where
  pub id : String
  pub is_helper : Bool
  pub name : String
  pub secret_id : String
  pub disabled : Option Bool

pub record ReplicaView : Type 0 where
  pub id : String
  pub name : String
  pub channel_id : Option String
  pub status : ReplicaStatus
  pub offline : Bool
  pub peer_confirmation : PeerConfirmation
  pub last_sync : Option ReplicaSyncRecord
  pub established_at : Option ℕ
  pub first_sync_started : Bool
  pub direction : PairingRole
  pub peer_replica_id : Option String
  pub helper_actor_id : Option String
  pub refused_here : Bool
  pub adoption_declined : Bool

pub record ReplicaSyncTarget : Type 0 where
  pub replica_id : String
  pub name : String
  pub channel_id : String

unfoldable pub default_peer_label : PairingRole → String
unfolding pairing_role_label complement_role
default_peer_label local_role = pairing_role_label (complement_role local_role)

abbrev of_channel : String → String × ReplicaRecord → Bool
of_channel channel_id entry = entry.1.channel_id == some channel_id

abbrev helper_named : List RosterActor → Option (String × ReplicaRecord) → Option RosterActor
helper_named actors none = none
helper_named actors (some entry) = find (λ a. a.id == entry.0 && a.is_helper) actors

unfoldable pub helper_actor_for_channel :
    List RosterActor → ReplicaState → String → Option RosterActor
helper_actor_for_channel actors state channel_id =
    helper_named actors (find (of_channel channel_id) state.replicas)

abbrev is_disabled : Option RosterActor → Bool
is_disabled none = false
is_disabled (some a) = or_else a.disabled false

abbrev pub trimmed_or : Option String → String → String
trimmed_or none d = d
trimmed_or (some s) d = if trim s == "" then d else trim s

abbrev id_of_actor : Option RosterActor → Option String
id_of_actor none = none
id_of_actor (some a) = some a.id

unfoldable pub local_channel_view :
    ReplicaChannelRecord → ReplicaState → Option RosterActor → ReplicaView
unfolding replica_channel_row_id default_peer_label next_replica_status
local_channel_view channel state helper_actor =
    let id = replica_channel_row_id channel.channel_id in
    let r = record_of state.replicas id in
    record {
      id = id;
      name = trimmed_or channel.peer_name (default_peer_label channel.role);
      channel_id = some channel.channel_id;
      status = next_replica_status pending_replica r.local_side;
      offline = is_disabled helper_actor;
      peer_confirmation = r.peer;
      last_sync = lookup state.syncs channel.channel_id;
      established_at = channel.established_at;
      first_sync_started = r.first_sync_started;
      direction = channel.role;
      peer_replica_id = channel.peer_replica_id;
      helper_actor_id = id_of_actor helper_actor;
      refused_here = r.refused_here && not r.local_side;
      adoption_declined = r.adoption_declined && not r.local_side;
    }

unfoldable pub replica_views : List RosterActor → ReplicaState → List ReplicaView
unfolding local_channel_view helper_actor_for_channel
replica_views actors state =
    map
      (λ channel.
        local_channel_view channel state (helper_actor_for_channel actors state channel.channel_id))
      (values state.channels)

unfoldable pub is_replica_channel_confirmed_locally : ReplicaState → String → Bool
unfolding replica_channel_row_id
is_replica_channel_confirmed_locally state channel_id =
    (record_of state.replicas (replica_channel_row_id channel_id)).local_side

unfoldable pub has_adoption_consent : ReplicaState → Bool
has_adoption_consent state = any (λ r. r.adoption_consented) (values state.replicas)

abbrev is_paired_status : ReplicaStatus → Bool
is_paired_status paired_replica = true
is_paired_status _ = false

abbrev is_source : PairingRole → Bool
is_source replica_source = true
is_source _ = false

abbrev target_on : ReplicaView → Option String → Option ReplicaSyncTarget
target_on view none = none
target_on view (some channel_id) =
    if is_paired_status view.status && is_source view.direction
    then some (record { replica_id = view.id; name = view.name; channel_id = channel_id })
    else none

unfoldable pub replica_sync_targets : List ReplicaView → List ReplicaSyncTarget
replica_sync_targets [] = []
replica_sync_targets (view ∷ views) =
    let rest = replica_sync_targets views in
    elim (target_on view view.channel_id) [ none ↦ rest | some target ↦ target ∷ rest ]

unfoldable pub can_request_replica_sync : ReplicaView → Bool
unfolding replica_sync_targets
can_request_replica_sync view = ltb 0 (length (replica_sync_targets (view ∷ [])))

abbrev behind : Option ℕ → Option ReplicaSyncRecord → Bool
behind (some vault_version) (some sync) = ltb sync.version vault_version
behind _ _ = false

unfoldable pub is_replica_behind : Option ReplicaView → Option ℕ → Bool
is_replica_behind none vault_version = false
is_replica_behind (some view) vault_version =
    if is_source view.direction && is_paired_status view.status
    then behind vault_version view.last_sync
    else false

abbrev is_protocol_verified : PeerConfirmation → Bool
is_protocol_verified protocol_verified = true
is_protocol_verified no_confirmation = false

unfoldable pub replicas_awaiting_first_sync : List ReplicaView → List ReplicaSyncTarget
unfolding replica_sync_targets
replicas_awaiting_first_sync views =
    replica_sync_targets
      (filter (λ v. not v.first_sync_started && is_protocol_verified v.peer_confirmation) views)
