-- ===== src/Fold/Recovery.antt =====
-- vault/fold/recovery.ts: discovery and recovery events. The report of a corrupted share is in
-- Fold/Corruption. A recovered
-- secret is given as the snapshot that `snapshotFromEvent` makes of the event's payload.
use reference_app.Fold.Context.{
  FoldContext, FoldState, change_row, log, notify_error, notify_outcome, peer_not_restored,
  recovery_failed, row_on, secret_recovered, with_rounds, ◌▹◌,
}
use reference_app.Fold.Failures.{remove_recovery_failure, upsert_recovery_failure}
use reference_app.Prelude.{
  Bool, List, Option, String, [], any, decimal, filter, if◌then◌else◌, includes, is_some, length,
  ltb, map, nat_beq, nat_eq, none, not, or_else, set_of, some, string_eq, true, ℕ, ◌++◌, ◌+◌, ◌<>◌,
  ◌==◌, ◌||◌, ◌∷◌,
}
use reference_app.Rounds.{RecoveryRequest, take_recovery}
use reference_app.Types.{
  CorruptedShare, DiscoveredVersion, PairedParticipant, RecoveredSecretSnapshot, RecoveryProgress,
  RecoveryRefusal, Vault,
}

abbrev pub helper_name : Vault → String → String
helper_name vault channel_id = elim (row_on vault channel_id) [
  | none ↦ "The helper on channel " <> channel_id
  | some p ↦ p.name
]

abbrev pub refusals_of : RecoveryProgress → List RecoveryRefusal
refusals_of progress = or_else progress.refusals []

abbrev pub corrupted_of : RecoveryProgress → List CorruptedShare
corrupted_of progress = or_else progress.corrupted []

abbrev pub is_expected : Option (List String) → String → Bool
is_expected none channel_id = true
is_expected (some asked) channel_id = includes (set_of [] asked) channel_id

abbrev pub answers_without_share : RecoveryProgress → List String
answers_without_share progress = set_of [] (
    filter (is_expected progress.requested_channel_ids) (
      map (λ r. r.channel_id) (refusals_of progress)
      ++ map (λ c. c.channel_id) (corrupted_of progress)))

unfoldable pub answered_count : RecoveryProgress → ℕ
answered_count progress = progress.shares_received + length (answers_without_share progress)

abbrev pub plural_of : ℕ → String
plural_of n = if nat_beq n 1 then "" else "s"

-- the sentence that the failure list keeps
unfoldable pub insufficient : ℕ → String
insufficient without_share =
    "Not enough shares to reconstruct the secret"
    <> (if ltb 0 without_share
        then " — "
          <> decimal without_share
          <> " helper"
          <> plural_of without_share
          <> " answered without a usable share"
        else "")
    <> ". Pair with more helpers and try again."

abbrev given_up : Vault → RecoveryProgress → String → Vault
given_up current next error = record current {
  recovery_progress = some (record next { error = some error });
  recovery_failures =
      upsert_recovery_failure current.recovery_failures next.secret_id next.version error;
}

unfoldable pub settle_if_every_answer_is_in :
    Vault → RecoveryProgress → FoldState → Vault × FoldState
settle_if_every_answer_is_in current next st =
    if is_some next.error || ltb (answered_count next) next.total_requested
    then (record current { recovery_progress = some next }, st)
    else (
      given_up current next (insufficient (length (refusals_of next) + length (corrupted_of next))),
      st ▹ log "recovery" "recovery_insufficient",
    )

unfoldable pub peer_not_restored_event : Vault → String → String → FoldState → Vault × FoldState
peer_not_restored_event current who reason st =
    (current, st ▹ notify_error (peer_not_restored who reason) ▹ log "recovery" "PeerNotRestored")

abbrev discovered : List DiscoveredVersion → PairedParticipant → PairedParticipant
discovered versions h = record h {
  discovery_complete = some true;
  discovery_error = none;
  discovered_versions = some versions;
}

abbrev discovered_by :
    Vault → List DiscoveredVersion → FoldState → Option PairedParticipant → Vault × FoldState
discovered_by current versions st none = (current, st)
discovered_by current versions st (some participant) = (
  record current {
    participants = change_row participant.id (discovered versions) current.participants;
  },
  st ▹ log "recovery" "SecretsDiscovered",
)

-- the event's secrets, each with its versions, flattened as `discoveredVersions` is
unfoldable pub secrets_discovered :
    Vault → String → Option (List DiscoveredVersion) → FoldState → Vault × FoldState
secrets_discovered current channel_id none st = (current, st)
secrets_discovered current channel_id (some versions) st =
    if channel_id == ""
    then (current, st)
    else discovered_by current versions st (row_on current channel_id)

abbrev share_received_in :
    Vault → Option ℕ → FoldState → Option RecoveryProgress → Vault × FoldState
share_received_in current received st none = (current, st)
share_received_in current received st (some progress) =
    settle_if_every_answer_is_in current
      (record progress { shares_received = or_else received progress.shares_received })
      (st ▹ log "recovery" "RecoveryShareReceived")

unfoldable pub recovery_share_received : Vault → Option ℕ → FoldState → Vault × FoldState
recovery_share_received current received st =
    share_received_in current received st current.recovery_progress

abbrev pub refused_before : String → RecoveryProgress → Bool
refused_before channel_id progress = any (λ r. r.channel_id == channel_id) (refusals_of progress)

abbrev add_refusal : RecoveryRefusal → RecoveryProgress → RecoveryProgress
add_refusal refusal progress = record progress {
  refusals = some (refusals_of progress ++ refusal ∷ []);
}

abbrev share_refused_in :
    Vault → RecoveryRefusal → ℕ → FoldState → Option RecoveryProgress → Vault × FoldState
share_refused_in current refusal version st none = (current, st)
share_refused_in current refusal version st (some progress) =
    if not (progress.version == version)
    then (current, st)
    else if refused_before refusal.channel_id progress
    then (current, st)
    else settle_if_every_answer_is_in current (add_refusal refusal progress) st

unfoldable pub recovery_share_refused :
    Vault → String → ℕ → ℕ → String → FoldState → Vault × FoldState
recovery_share_refused current channel_id version status memo st =
    share_refused_in current (record { channel_id = channel_id; status = status; memo = memo })
      version (st ▹ log "recovery" "RecoveryShareRefused") current.recovery_progress

abbrev recovery_error_in :
    FoldContext
    → Vault
    → Option ℕ
    → Option String
    → FoldState
    → Option RecoveryProgress
    → Vault × FoldState
recovery_error_in ctx current received error st none = (current, st)
recovery_error_in ctx current received error st (some progress) =
    let message = ctx.describe_storage_failure (or_else error "Unknown recovery error") in
    (
      record current {
        recovery_progress = some (record progress {
          shares_received = or_else received progress.shares_received;
          error = some message;
        });
        recovery_failures =
            upsert_recovery_failure current.recovery_failures progress.secret_id progress.version
              message;
      },
      st ▹ notify_outcome (recovery_failed message),
    )

unfoldable pub recovery_share_error :
    FoldContext → Vault → Option ℕ → Option String → FoldState → Vault × FoldState
recovery_share_error ctx current received error st =
    recovery_error_in ctx current received error (st ▹ log "recovery" "RecoveryShareError")
      current.recovery_progress

abbrev recovered_with :
    Vault → RecoveredSecretSnapshot → FoldState → Option RecoveryRequest → Vault × FoldState
recovered_with current snapshot st none = (current, st)
recovered_with current snapshot st (some request) = (
  record current {
    recovery_progress = none;
    recovery_failures =
        remove_recovery_failure current.recovery_failures request.secret_id request.version;
    recovered_secrets =
        current.recovered_secrets
        ++ record {
          secret_id = request.secret_id;
          version = request.version;
          label = request.label;
          snapshot = snapshot;
          restored = none;
        }
          ∷ [];
  },
  st ▹ notify_outcome secret_recovered,
)

unfoldable pub secret_recovered_event :
    Vault → Option RecoveredSecretSnapshot → FoldState → Vault × FoldState
secret_recovered_event current none st = (current, st)
secret_recovered_event current (some snapshot) st =
    let (request, t) = take_recovery st.rounds in
    recovered_with current snapshot (with_rounds st t ▹ log "recovery" "SecretRecovered") request
