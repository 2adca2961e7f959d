-- ===== src/Types/Vaults.antt =====
-- The vault record, the root of the persisted state (apps/web/src/types.ts).
use reference_app.Prelude.{ℕ, String, Bool, Option, List}
use reference_app.Types.Participant.{Transport, HeldShare, PairedParticipant}
use reference_app.Types.Bags.{SecretBag, UserSecret}
use reference_app.Types.Recovery.{
  RecoveredSecret, RecoveryProgress, RecoveryFailure, CorruptShareReport,
}

-- `channel_id` is a `bigint` in the source, and is read only through `toString()`: the numeral.
pub record PendingPairing : Type 0 where
  pub channel_id : String
  pub participant_id : Option String
  pub peer_transport_uri : Option String

pub data ConflictSource : Type 0 where
  replica_version_conflict replica_sync_rejected : ConflictSource

pub record ReplicaConflict : Type 0 where
  pub version : ℕ
  pub detected_via : ConflictSource
  pub rival_replica_id : Option String
  pub rival_secrets : Option (List UserSecret)
  pub detected_at : ℕ

pub record PendingVerification : Type 0 where
  pub channel_id : String
  pub protocol_secret_id : String
  pub version : ℕ
  pub deadline : ℕ

pub record PendingProtectRound : Type 0 where
  pub version : ℕ
  pub protocol_secret_id : String
  pub bag : SecretBag
  pub channel_ids : List String

-- `VaultConfig`; the overrides of a vault are a partial one.
pub data AuthenticationMethod : Type 0 where
  user application : AuthenticationMethod

pub data UnpairAck : Type 0 where
  required not_required : UnpairAck

pub record VaultConfig : Type 0 where
  pub protocol_timeout_secs : ℕ
  pub authentication_method : AuthenticationMethod
  pub unpair_ack : UnpairAck
  pub auto_accept_unpair_requests : Bool
  pub auto_accept_store_share_requests : Bool
  pub auto_accept_verify_share_requests : Bool

pub record VaultConfigOverrides : Type 0 where
  pub protocol_timeout_secs : Option ℕ
  pub authentication_method : Option AuthenticationMethod
  pub unpair_ack : Option UnpairAck
  pub auto_accept_unpair_requests : Option Bool
  pub auto_accept_store_share_requests : Option Bool
  pub auto_accept_verify_share_requests : Option Bool

pub record Vault : Type 0 where
  pub id : String
  pub name : String
  pub secret_id : String
  pub transport : Transport
  pub own_transport_pinned : Option Bool
  pub participants : List PairedParticipant
  pub secret_bag : Option SecretBag
  pub pending_pairings : List PendingPairing
  pub pre_paired_count : Option ℕ
  pub min_participants : ℕ
  pub recommended_participants : ℕ
  pub recovered_secrets : List RecoveredSecret
  pub recovery_progress : Option RecoveryProgress
  pub recovery_failures : List RecoveryFailure
  pub held_shares : List HeldShare
  pub main_channels : List String
  pub config_overrides : VaultConfigOverrides
  pub pending_protect_rounds : Option (List PendingProtectRound)
  pub pending_verifications : Option (List PendingVerification)
  pub corrupt_share_reports : Option (List CorruptShareReport)
  pub replica_conflict : Option ReplicaConflict
