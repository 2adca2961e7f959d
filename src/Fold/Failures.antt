-- ===== src/Fold/Failures.antt =====
-- owner/recoveryFailures.ts: the failures of the attempts, one for each secret and version.
use reference_app.Prelude.{
  Bool, List, Option, String, [], filter, find, nat_eq, none, not, some, string_eq, ℕ, ◌&&◌, ◌++◌,
  ◌==◌, ◌∷◌,
}
use reference_app.Types.{RecoveryFailure}

abbrev pub same_attempt : String → ℕ → RecoveryFailure → Bool
same_attempt secret_id version f = f.secret_id == secret_id && f.version == version

unfoldable pub remove_recovery_failure : List RecoveryFailure → String → ℕ → List RecoveryFailure
remove_recovery_failure failures secret_id version =
    filter (λ f. not (same_attempt secret_id version f)) failures

unfoldable pub upsert_recovery_failure :
    List RecoveryFailure → String → ℕ → String → List RecoveryFailure
upsert_recovery_failure failures secret_id version error =
    filter (λ f. not (same_attempt secret_id version f)) failures
    ++ record { secret_id = secret_id; version = version; error = error } ∷ []

unfoldable pub find_recovery_failure :
    Option (List RecoveryFailure) → String → ℕ → Option RecoveryFailure
find_recovery_failure none secret_id version = none
find_recovery_failure (some failures) secret_id version =
    find (same_attempt secret_id version) failures
