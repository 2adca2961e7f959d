-- ===== src/Fold/Attempts.antt =====
-- What the recovery handlers keep of an attempt: its failure and the refusals.
use reference_app.Fold.Context.{FoldState}
use reference_app.Fold.Failures.{
  find_recovery_failure, remove_recovery_failure, same_attempt, upsert_recovery_failure,
}
use reference_app.Fold.Recovery.{recovery_share_refused, refusals_of, settle_if_every_answer_is_in}
use reference_app.Prelude.{
  Bool, List, Option-cases, String, [], any-append, arith, eq_iff, filter, find, if◌then◌else◌, inl,
  inr, nat_eq, none, not, refl, some, string_eq, ℕ, ◌&&◌, ◌++◌, ◌==◌, ◌∷◌, ◌≡◌,
}
use reference_app.Types.{RecoveryFailure, Vault}

find-append :
    (p : RecoveryFailure → Bool) (xs : List RecoveryFailure) (y : RecoveryFailure)
    → find p (xs ++ y ∷ [])
      ≡ elim (find p xs) [ none ↦ if p y then some y else none | some x ↦ some x ]
find-append p [] y = refl
find-append p (x ∷ xs) y = ground (arith, find-append p xs y)

find-without_attempt :
    (secret_id other_id : String) (version other_version : ℕ) (fs : List RecoveryFailure)
    → find
        (same_attempt other_id other_version)
        (filter (λ f. not (same_attempt secret_id version f)) fs)
      ≡ (if secret_id == other_id && version == other_version
          then none
          else find (same_attempt other_id other_version) fs)
find-without_attempt secret_id other_id version other_version [] = ground arith
find-without_attempt secret_id other_id version other_version (f ∷ fs) = ground (
  arith,
  find-without_attempt secret_id other_id version other_version fs,
  eq_iff f.secret_id other_id,
  eq_iff f.secret_id secret_id,
  eq_iff secret_id other_id,
)

module _ (failures : List RecoveryFailure) (secret_id : String) (version : ℕ) where
  -- Noting an attempt's failure replaces the one that it had: a lookup finds the new error for that
  -- secret and version, and for every other attempt what it found before.
  pub find-upsert_recovery_failure :
      (error other_id : String) (other_version : ℕ)
      → find_recovery_failure
          (some (upsert_recovery_failure failures secret_id version error))
          other_id
          other_version
        ≡ (if secret_id == other_id && version == other_version
            then some (record { secret_id = secret_id; version = version; error = error })
            else find_recovery_failure (some failures) other_id other_version)
  unfolding find_recovery_failure upsert_recovery_failure
  find-upsert_recovery_failure error other_id other_version =
      rw find-append
        (rw (find-without_attempt secret_id other_id version other_version failures) (ground arith))

  -- Removing an attempt's failure leaves none for it, and every other attempt's as it was.
  pub find-remove_recovery_failure :
      (other_id : String) (other_version : ℕ)
      → find_recovery_failure
          (some (remove_recovery_failure failures secret_id version))
          other_id
          other_version
        ≡ (if secret_id == other_id && version == other_version
            then none
            else find_recovery_failure (some failures) other_id other_version)
  unfolding find_recovery_failure remove_recovery_failure
  find-remove_recovery_failure other_id other_version =
      find-without_attempt secret_id other_id version other_version failures

-- A helper's refusal counts once: told again of the same refusal, the record stays as it is.
pub recovery_share_refused_idem :
    (v : Vault) (channel_id memo : String) (version status : ℕ) (st again : FoldState)
    → (recovery_share_refused
        (recovery_share_refused v channel_id version status memo st).0
        channel_id
        version
        status
        memo
        again).0
      ≡ (recovery_share_refused v channel_id version status memo st).0
unfolding recovery_share_refused settle_if_every_answer_is_in
recovery_share_refused_idem v channel_id memo version status st again =
    elim (Option-cases v.recovery_progress) [
      | inl idle ↦ rw idle refl
      | inr (p, found) ↦ rw found (
          ground (
            arith,
            any-append (λ r. r.channel_id == channel_id) (refusals_of p)
                (record { channel_id = channel_id; status = status; memo = memo } ∷ []),
            eq_iff channel_id channel_id,
          ))
    ]
