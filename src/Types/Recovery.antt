-- ===== src/Types/Recovery.antt =====
-- Recovery progress, failures and recovered snapshots (apps/web/src/types.ts).
use reference_app.Prelude.{ℕ, String, Bool, Option, List}
use reference_app.Types.Participant.{Transport}

pub record RecoveredSecretHelper : Type 0 where
  pub channel_id : String
  pub transports : List Transport
  pub communication_info : Option (List (String × String))
  pub shared_key : String

pub data ReplicaRole : Type 0 where
  source destination : ReplicaRole

pub record RecoveredSecretReplica : Type 0 where
  pub transports : List Transport
  pub communication_info : Option (List (String × String))
  pub replica_id : String
  pub role : ReplicaRole

pub record RecoveredSecretEntry : Type 0 where
  pub id : String
  pub name : String
  pub value : String

pub record RecoveredReplicaGroup : Type 0 where
  pub channel_id : String
  pub members : List RecoveredSecretReplica
  pub shared_key : String

pub record RecoveredSecretSnapshot : Type 0 where
  pub helpers : List RecoveredSecretHelper
  pub secrets : List RecoveredSecretEntry
  pub replicas : Option RecoveredReplicaGroup

pub record RecoveredSecret : Type 0 where
  pub secret_id : String
  pub version : ℕ
  pub label : String
  pub snapshot : RecoveredSecretSnapshot
  pub restored : Option Bool

pub data CorruptionReason : Type 0 where
  malformed invalid_proof inconsistent : CorruptionReason

pub record RecoveryRefusal : Type 0 where
  pub channel_id : String
  pub status : ℕ
  pub memo : String

pub record CorruptedShare : Type 0 where
  pub channel_id : String
  pub reason : CorruptionReason

pub record RecoveryProgress : Type 0 where
  pub secret_id : String
  pub version : ℕ
  pub shares_received : ℕ
  pub total_requested : ℕ
  pub requested_channel_ids : Option (List String)
  pub refusals : Option (List RecoveryRefusal)
  pub corrupted : Option (List CorruptedShare)
  pub error : Option String

pub record CorruptShareReport : Type 0 where
  pub channel_id : String
  pub peer_name : String
  pub version : ℕ
  pub reason : CorruptionReason
  pub reported_at : ℕ

pub record RecoveryFailure : Type 0 where
  pub secret_id : String
  pub version : ℕ
  pub error : String
