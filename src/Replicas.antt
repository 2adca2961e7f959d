-- ===== src/Replicas.antt =====
-- The replica records of apps/web/src/replicaFlows.ts, which are kept for each vault in
-- `localStorage`. An object of the source is a dictionary in the order of insertion. A change that the
-- source returns from before it saves is `none`. A flag is the test `=== true` on its field.
pub mod Channels
pub mod Views
pub mod FirstSync
pub mod Adoption
pub mod Pruning
pub mod Syncs
mod Tests
use reference_app.Prelude.{
  Bool, Dict, List, Option, String, [], delete, false, if◌then◌else◌, insert, leb, lookup, nat_eq,
  none, option_eq, or_else, pair_eq, some, string_eq, true, ℕ, ◌*◌, ◌+◌, ◌-◌, ◌/◌, ◌==◌, ◌∷◌,
}
use reference_app.Types.{PairingRole}

pub data ReplicaStatus : Type 0 where
  unpaired_replica pending_replica paired_replica : ReplicaStatus

unfoldable pub next_replica_status : ReplicaStatus → Bool → ReplicaStatus
next_replica_status pending_replica local_confirmed =
    if local_confirmed then paired_replica else pending_replica
next_replica_status current local_confirmed = current

pub data ReplicaExpiryState : Type 0 where
  ample expiring_soon expired : ReplicaExpiryState

pub record ReplicaExpiry : Type 0 where
  pub state : ReplicaExpiryState
  pub remaining_secs : ℕ
  pub expires_at : ℕ

abbrev pub replica_expiry_warning_secs : ℕ
replica_expiry_warning_secs = 60

-- `Math.ceil(ms / 1000)`
abbrev pub ceil_secs : ℕ → ℕ
ceil_secs ms = (ms + 999) / 1000

abbrev pub expiry_at : ℕ → ℕ → ReplicaExpiry
expiry_at expires_at now =
    if leb expires_at now
    then record { state = expired; remaining_secs = 0; expires_at = expires_at }
    else record {
      state =
          if leb (ceil_secs (expires_at - now)) replica_expiry_warning_secs
          then expiring_soon
          else ample;
      remaining_secs = ceil_secs (expires_at - now);
      expires_at = expires_at;
    }

-- `timeout` is none where it is not a finite number
unfoldable pub replica_channel_expiry :
    ReplicaStatus → Option ℕ → Option ℕ → ℕ → Option ReplicaExpiry
replica_channel_expiry pending_replica (some established) (some timeout) now =
    if leb timeout 0 then none else some (expiry_at (established + timeout * 1000) now)
replica_channel_expiry status established timeout now = none

pub data PeerConfirmation : Type 0 where
  no_confirmation protocol_verified : PeerConfirmation

pub record ReplicaRecord : Type 0 where
  pub local_side : Bool
  pub peer : PeerConfirmation
  pub channel_id : Option String
  pub first_sync_started : Bool
  pub refused_here : Bool
  pub adoption_consented : Bool
  pub adoption_declined : Bool

pub record ReplicaChannelRecord : Type 0 where
  pub channel_id : String
  pub role : PairingRole
  pub peer_name : Option String
  pub established_at : Option ℕ
  pub peer_replica_id : Option String

pub record ReplicaSyncRecord : Type 0 where
  pub version : ℕ
  pub synced_at : ℕ

pub record ReplicaState : Type 0 where
  pub replicas : Dict String ReplicaRecord
  pub pending_pairings : Dict String String
  pub channels : Dict String ReplicaChannelRecord
  pub syncs : Dict String ReplicaSyncRecord

abbrev pub empty_state : ReplicaState
empty_state = record { replicas = []; pending_pairings = []; channels = []; syncs = [] }

abbrev pub empty_record : ReplicaRecord
empty_record = record {
  local_side = false;
  peer = no_confirmation;
  channel_id = none;
  first_sync_started = false;
  refused_here = false;
  adoption_consented = false;
  adoption_declined = false;
}

abbrev pub ReplicaStorage : Type 0
ReplicaStorage = Dict String ReplicaState

unfoldable pub load_replica_state : ReplicaStorage → String → ReplicaState
load_replica_state storage vault_id = or_else (lookup storage vault_id) empty_state

-- `has_room` is whether `setItem` succeeds; that it does not is ignored
unfoldable pub save_replica_state :
    Bool → ReplicaStorage → String → ReplicaState → ReplicaState × ReplicaStorage
save_replica_state has_room storage vault_id state =
    (state, if has_room then insert storage vault_id state else storage)

unfoldable pub clear_replica_state : ReplicaStorage → String → ReplicaStorage
clear_replica_state storage vault_id = delete storage vault_id

-- an operation: what it makes of the state that it loads is saved
unfoldable pub change_replica_state :
    (ReplicaState → Option ReplicaState)
    → Bool
    → ReplicaStorage
    → String
    → ReplicaState × ReplicaStorage
unfolding load_replica_state save_replica_state
change_replica_state change has_room storage vault_id =
    elim (change (load_replica_state storage vault_id)) [
      | none ↦ (load_replica_state storage vault_id, storage)
      | some state ↦ save_replica_state has_room storage vault_id state
    ]

abbrev pub record_of : Dict String ReplicaRecord → String → ReplicaRecord
record_of replicas replica_id = or_else (lookup replicas replica_id) empty_record

-- what the patch does to the record
unfoldable pub record_confirmation :
    String → (ReplicaRecord → ReplicaRecord) → ReplicaState → Option ReplicaState
record_confirmation replica_id patch current = some (record current {
  replicas = insert current.replicas replica_id (patch (record_of current.replicas replica_id));
})

abbrev pub mark_started : Dict String ReplicaRecord → List String → Dict String ReplicaRecord
mark_started replicas [] = replicas
mark_started replicas (id ∷ ids) =
    mark_started (insert replicas id (record (record_of replicas id) { first_sync_started = true }))
      ids

unfoldable pub mark_replica_first_sync_started : List String → ReplicaState → Option ReplicaState
mark_replica_first_sync_started [] current = none
mark_replica_first_sync_started (id ∷ ids) current =
    some (record current { replicas = mark_started current.replicas (id ∷ ids) })

unfoldable pub record_pending_replica_pairing : String → String → ReplicaState → Option ReplicaState
record_pending_replica_pairing transient_channel_id replica_id current = some (record current {
  pending_pairings = insert current.pending_pairings transient_channel_id replica_id;
})

abbrev pub resolved : String → String → String → ReplicaState → ReplicaState
resolved transient_channel_id channel_id replica_id current = record current {
  replicas =
      insert current.replicas replica_id
        (record (record_of current.replicas replica_id) { channel_id = some channel_id });
  pending_pairings = delete current.pending_pairings transient_channel_id;
}

unfoldable pub resolve_replica_pairing : String → String → ReplicaState → Option ReplicaState
resolve_replica_pairing transient_channel_id channel_id current =
    elim (lookup current.pending_pairings transient_channel_id) [
      | none ↦ none
      | some replica_id ↦
          if replica_id == ""
          then none
          else some (resolved transient_channel_id channel_id replica_id current)
    ]

-- `a ?? b`
abbrev pub or_option : {A : Type 0} → Option A → Option A → Option A
or_option none b = b
or_option (some a) b = some a

abbrev merged_channel : Option ReplicaChannelRecord → ReplicaChannelRecord → ReplicaChannelRecord
merged_channel none incoming = incoming
merged_channel (some existing) incoming = record {
  channel_id = incoming.channel_id;
  role = incoming.role;
  peer_name = or_option incoming.peer_name existing.peer_name;
  established_at = or_option existing.established_at incoming.established_at;
  peer_replica_id = or_option incoming.peer_replica_id existing.peer_replica_id;
}

unfoldable pub record_replica_channel : ReplicaChannelRecord → ReplicaState → Option ReplicaState
record_replica_channel incoming current = some (record current {
  channels =
      insert current.channels incoming.channel_id
        (merged_channel (lookup current.channels incoming.channel_id) incoming);
})
