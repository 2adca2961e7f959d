-- ===== src/Fold/Context.antt =====
-- vault/fold/context.ts: what an event handler may reach. Reads are functions of `FoldContext`;
-- the tracker and what the handlers report or ask for, in order, are the state `FoldState`.
use reference_app.Prelude.{
  Bool, List, Option, String, [], find, if◌then◌else◌, map, nat_eq, option_eq, pair_eq, string_eq,
  ℕ, ◌++◌, ◌==◌, ◌∷◌,
}
use reference_app.Replicas.{ReplicaState}
use reference_app.Rounds.{RoundTracker}
use reference_app.Types.{CorruptionReason, PairedParticipant, PairingRole, Transport, Vault}

-- what a person is told
pub data Notice : Type 0 where
  paired_with : String → Notice
  unpaired_peer : String → String → Notice
  rejected_unpair : String → String → Option ℕ → Notice
  rejected_endpoint_update refused_pre_pair : String → String → Notice
  round_complete : ℕ → Bool → Notice
  verification_complete : ℕ → ℕ → ℕ → Notice
  not_dispatched : String → String → Notice
  peer_not_restored : String → String → Notice
  share_set_aside : String → ℕ → CorruptionReason → Notice
  recovery_failed : String → Notice
  secret_recovered : Notice
  conflict_settled : ℕ → ℕ → Notice
  mirror_rejected : String → ℕ → ℕ → String → Notice
  rival_copy : String → ℕ → Notice
  sync_refused : String → ℕ → Bool → String → Notice
  sync_undelivered : String → ℕ → String → Notice
  caught_up removed_from_group : ℕ → Notice
  new_source : String → Notice

-- `ChannelInfoOutcome` of vault/types.ts
pub data ChannelInfoOutcome : Type 0 where
  outcome_pending updated outcome_rejected outcome_failed no_answer : ChannelInfoOutcome

-- A call that leaves the reducer. `log` has the flow and the step of the entry.
pub data Effect : Type 0 where
  log : String → String → Effect
  notify_outcome notify_info notify_error : Notice → Effect
  refresh_replicas : Effect
  open_fingerprint : String → Effect
  flow_progressed round_resolved : Effect
  channel_info_outcome : String → ChannelInfoOutcome → Option String → Effect
  resolve_replica_pairing : String → String → Effect
  record_replica_channel : String → PairingRole → Option String → ℕ → Effect
  look_up_actor : String → List String → Option String → Effect
  record_sync : String → ℕ → ℕ → Effect
  record_peer_id : String → String → Effect
  forget_replica_records : String → Effect
  clear_replica_records : Effect
  offer_replica_adoption apply_mirrored_update : String → String → String → ℕ → Effect

-- `StoredChannelInfo` of stores.ts
pub record StoredChannelInfo : Type 0 where
  pub name : Option String
  pub transports : List Transport

-- `now` is `Date.now()`; `read_shared_key` and `describe_storage_failure` read the browser's storage;
-- `replica_records` is `loadReplicaState`, which sees the calls made so far.
pub record FoldContext : Type 0 where
  pub now : ℕ
  pub read_channel_info : String → Option StoredChannelInfo
  pub awaiting_identity_answer : String → Bool
  pub is_share_held : String → ℕ → Bool
  pub read_shared_key : String → Option String
  pub describe_storage_failure : String → String
  pub replica_records : List Effect → ReplicaState

pub record FoldState : Type 0 where
  pub rounds : RoundTracker
  pub effects : List Effect

infixl 20 ◌▹◌
abbrev pub ◌▹◌ : FoldState → Effect → FoldState
s ▹ e = record s { effects = s.effects ++ e ∷ [] }

abbrev pub with_rounds : FoldState → RoundTracker → FoldState
with_rounds s t = record s { rounds = t }

abbrev pub on_channel : String → PairedParticipant → Bool
on_channel channel_id p = p.channel_id == channel_id

abbrev pub row_on : Vault → String → Option PairedParticipant
row_on vault channel_id = find (on_channel channel_id) vault.participants

-- `participants.map(h => h.id === id ? change(h) : h)`
abbrev pub change_row :
    String
    → (PairedParticipant → PairedParticipant)
    → List PairedParticipant
    → List PairedParticipant
change_row id change = map (λ h. if h.id == id then change h else h)

-- the same, by the channel
abbrev pub change_channel :
    String
    → (PairedParticipant → PairedParticipant)
    → List PairedParticipant
    → List PairedParticipant
change_channel channel_id change = map (λ h. if on_channel channel_id h then change h else h)
