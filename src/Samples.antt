-- ===== src/Samples.antt =====
-- A small vault with its rows, its bag and its rounds, on which the tests and the examples of the
-- other modules run.
use reference_app.Fold.Context.{FoldContext, FoldState}
use reference_app.Prelude.{List, Option, String, [], false, map, none, some, ℕ, ◌∷◌}
use reference_app.Replicas.{empty_state}
use reference_app.Rounds.{PendingBag, ProtectRound, RoundTracker, VerificationChallenge, opened}
use reference_app.Types.{
  BagVersion, PairedParticipant, PairingRole, SecretBag, Transport, UserSecret, Vault,
  VaultConfigOverrides, helper, https, paired, replica_destination,
}

abbrev pub secret_named : String → UserSecret
secret_named name = record { id = "6b6579"; name = name; value = "hunter2" }

abbrev pub version_of : ℕ → BagVersion
version_of n = record {
  version = n;
  participant_ids = [];
  verified_participant_ids = [];
  verify_rejections = none;
  failed_participant_ids = [];
  secrets = secret_named "mail" ∷ [];
  raw_bytes = "";
  restored_from_recovery = none;
  helpers = [];
  replicas = none;
}

abbrev pub bag_of : ℕ → List ℕ → SecretBag
bag_of n older = record {
  secret_id = "s";
  current_version = version_of n;
  previous_versions = map version_of older;
  threshold = 2;
}

abbrev pub three_versions : SecretBag
three_versions = bag_of 4 (2 ∷ 1 ∷ [])

abbrev pub endpoint : String → Transport
endpoint uri = record { protocol = https; uri = uri }

abbrev pub row_of : String → String → Option PairingRole → PairedParticipant
row_of id channel_id role = record {
  id = id;
  name = id;
  channel_id = channel_id;
  transport = endpoint "https://a.example";
  transports = none;
  secret_shares = [];
  connection_status = paired;
  peer_role = role;
  offline = none;
  discovery_complete = none;
  discovery_error = none;
  discovered_versions = none;
  shared_key = none;
  browser_managed = none;
}

abbrev pub alice : PairedParticipant
alice = row_of "alice" "11" (some helper)

abbrev pub bob : PairedParticipant
bob = row_of "bob" "12" none

abbrev pub mirror : PairedParticipant
mirror = row_of "mirror" "13" (some replica_destination)

abbrev pub roster : List PairedParticipant
roster = alice ∷ bob ∷ mirror ∷ []

abbrev pub no_overrides : VaultConfigOverrides
no_overrides = record {
  protocol_timeout_secs = none;
  authentication_method = none;
  unpair_ack = none;
  auto_accept_unpair_requests = none;
  auto_accept_store_share_requests = none;
  auto_accept_verify_share_requests = none;
}

abbrev pub sample_vault : Vault
sample_vault = record {
  id = "v";
  name = "Vault";
  secret_id = "s";
  transport = endpoint "https://own.example";
  own_transport_pinned = none;
  participants = roster;
  secret_bag = some three_versions;
  pending_pairings = [];
  pre_paired_count = none;
  min_participants = 2;
  recommended_participants = 3;
  recovered_secrets = [];
  recovery_progress = none;
  recovery_failures = [];
  held_shares = [];
  main_channels = [];
  config_overrides = no_overrides;
  pending_protect_rounds = none;
  pending_verifications = none;
  corrupt_share_reports = none;
  replica_conflict = none;
}

-- the round of version 5, sent to the two helpers
abbrev pub round_five : ProtectRound
round_five = record {
  bag = bag_of 5 [];
  version = 5;
  protocol_secret_id = "s";
  channel_ids = "11" ∷ "12" ∷ [];
}

abbrev pub staged_five : PendingBag
staged_five = record { bag = bag_of 5 []; version = 5; protocol_secret_id = "s" }

abbrev pub one_challenge : VerificationChallenge
one_challenge = record { protocol_secret_id = "s"; version = 4; deadline = 90 }

-- the tracker where round 5 is open, and one channel is challenged
abbrev pub tracking : RoundTracker
tracking = record {
  rounds = (5, opened round_five) ∷ [];
  abandoned = [];
  verifications = ("11", one_challenge) ∷ [];
  recovery = none;
}

abbrev pub quiet : FoldContext
quiet = record {
  now = 50;
  read_channel_info = λ c. none;
  awaiting_identity_answer = λ c. false;
  is_share_held = λ c v. false;
  read_shared_key = λ c. none;
  describe_storage_failure = λ m. m;
  replica_records = λ effects. empty_state;
}

abbrev pub state_of : RoundTracker → FoldState
state_of t = record { rounds = t; effects = [] }
