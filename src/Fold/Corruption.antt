-- ===== src/Fold/Corruption.antt =====
-- vault/fold/recovery.ts: a recovery share that the library set aside.
use reference_app.Fold.Context.{FoldContext, FoldState, log, notify_error, share_set_aside, ◌▹◌}
use reference_app.Fold.Recovery.{corrupted_of, helper_name, settle_if_every_answer_is_in}
use reference_app.Prelude.{
  Bool, List, Option, String, [], any, false, if◌then◌else◌, nat_eq, none, not, or_else, some,
  string_eq, true, ℕ, ◌&&◌, ◌++◌, ◌==◌, ◌∷◌,
}
use reference_app.Types.{
  CorruptShareReport, CorruptedShare, CorruptionReason, RecoveryProgress, Vault, inconsistent,
  invalid_proof, malformed,
}

abbrev pub same_reason : CorruptionReason → CorruptionReason → Bool
same_reason malformed malformed = true
same_reason invalid_proof invalid_proof = true
same_reason inconsistent inconsistent = true
same_reason _ _ = false

abbrev pub same_report : String → ℕ → CorruptionReason → CorruptShareReport → Bool
same_report channel_id version reason r =
    r.channel_id == channel_id && r.version == version && same_reason r.reason reason

abbrev pub reports_of : Vault → List CorruptShareReport
reports_of vault = or_else vault.corrupt_share_reports []

abbrev pub with_report : FoldContext → Vault → String → ℕ → CorruptionReason → Vault
with_report ctx current channel_id version reason =
    if any (same_report channel_id version reason) (reports_of current)
    then current
    else record current {
      corrupt_share_reports = some (
          reports_of current
          ++ record {
            channel_id = channel_id;
            peer_name = helper_name current channel_id;
            version = version;
            reason = reason;
            reported_at = ctx.now;
          }
            ∷ []);
    }

abbrev pub corrupted_before : String → RecoveryProgress → Bool
corrupted_before channel_id progress = any (λ c. c.channel_id == channel_id) (corrupted_of progress)

abbrev pub add_corrupted : CorruptedShare → RecoveryProgress → RecoveryProgress
add_corrupted share progress = record progress {
  corrupted = some (corrupted_of progress ++ share ∷ []);
}

abbrev pub share_corrupted_in :
    Vault → String → ℕ → CorruptionReason → FoldState → Option RecoveryProgress → Vault × FoldState
share_corrupted_in next channel_id version reason st none = (next, st)
share_corrupted_in next channel_id version reason st (some progress) =
    if not (same_reason reason inconsistent)
      && progress.version == version
      && not (corrupted_before channel_id progress)
    then settle_if_every_answer_is_in next
        (add_corrupted (record { channel_id = channel_id; reason = reason }) progress) st
    else (next, st)

unfoldable pub recovery_share_corrupted :
    FoldContext → Vault → String → ℕ → CorruptionReason → FoldState → Vault × FoldState
recovery_share_corrupted ctx current channel_id version reason st =
    let next = with_report ctx current channel_id version reason in
    share_corrupted_in next channel_id version reason
      (st
        ▹ log "recovery" "RecoveryShareCorrupted"
        ▹ notify_error (share_set_aside (helper_name current channel_id) version reason))
      next.recovery_progress
