-- ===== src/Types/Bags.antt =====
-- The secret bag and its versions (apps/web/src/types.ts).
use reference_app.Prelude.{ℕ, String, Bool, Option, List}

pub record UserSecret : Type 0 where
  pub id : String
  pub name : String
  pub value : String

-- A participant that did not take, or did not prove, a share: its id, status and memo.
pub record Refusal : Type 0 where
  pub id : String
  pub status : ℕ
  pub memo : String

pub record HelperInfo : Type 0 where
  pub id : String
  pub name : String
  pub channel_id : String

pub record BagReplicaMember : Type 0 where
  pub replica_id : String
  pub role : Option String
  pub name : Option String

pub record BagReplicaGroup : Type 0 where
  pub channel_id : String
  pub members : List BagReplicaMember

-- `replicas` is absent, `null` or a group in the source: an option of an option.
pub record BagVersion : Type 0 where
  pub version : ℕ
  pub participant_ids : List String
  pub verified_participant_ids : List String
  pub verify_rejections : Option (List Refusal)
  pub failed_participant_ids : List Refusal
  pub secrets : List UserSecret
  pub raw_bytes : String
  pub restored_from_recovery : Option Bool
  pub helpers : List HelperInfo
  pub replicas : Option (Option BagReplicaGroup)

pub record SecretBag : Type 0 where
  pub secret_id : String
  pub current_version : BagVersion
  pub previous_versions : List BagVersion
  pub threshold : ℕ
