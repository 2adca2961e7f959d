-- ===== src/Fold/TrackerMoves.antt =====
-- The round tracker before and after each handler that writes to it.
use reference_app.Fold.Context.{FoldContext, FoldState, log, row_on, ◌▹◌}
use reference_app.Fold.Recovery.{secret_recovered_event}
use reference_app.Fold.Sharing.{
  commit_once_helpers_answered, commit_staged, confirmed_by, rejected_by, share_confirmed,
  share_rejected, sharing_complete,
}
use reference_app.Fold.Verifying.{
  announce_verification_if_done, share_verified, share_verify_rejected,
}
use reference_app.Prelude.{
  Bool, Bool-cases, Option, String, arith, inl, inr, nat_eq, none, or_else, some, string_eq, ℕ,
  ◌==◌,
}
use reference_app.Rounds.{PendingBag, RoundTracker, complete_round}
use reference_app.Rounds.Challenges.{end_verification}
use reference_app.Rounds.Invariant.{IsWellFormed, perform-IsWellFormed}
use reference_app.Rounds.Ops.{answers, completes, confirms, drops, fails, perform, takes}
use reference_app.Types.{PairedParticipant, RecoveredSecretSnapshot, Vault}

module _ (v : Vault) (version : ℕ) (st : FoldState) where
  staged-IsWellFormed :
      (taken : Option PendingBag × RoundTracker)
      → IsWellFormed taken.1
      → IsWellFormed (commit_staged v version st taken).1.rounds
  staged-IsWellFormed (none, t) w = w
  staged-IsWellFormed (some staged, t) w = w

  commit_once-IsWellFormed :
      IsWellFormed st.rounds → IsWellFormed (commit_once_helpers_answered v version st).1.rounds
  unfolding commit_once_helpers_answered perform
  commit_once-IsWellFormed w = ground (
    arith,
    w,
    staged-IsWellFormed (complete_round st.rounds version)
        (perform-IsWellFormed (completes version) st.rounds w),
  )

module _ (ctx : FoldContext) (v : Vault) (st : FoldState) (w : IsWellFormed st.rounds) where
  confirmed_by-IsWellFormed :
      (channel_id : String) (version : ℕ) (row : Option PairedParticipant)
      → IsWellFormed
          (confirmed_by v channel_id version (st ▹ log "sharing" "ShareConfirmed") row).1.rounds
  unfolding perform
  confirmed_by-IsWellFormed channel_id version none = w
  confirmed_by-IsWellFormed channel_id version (some p) =
      commit_once-IsWellFormed _ version _
        (perform-IsWellFormed (confirms version p.id (some channel_id)) st.rounds w)

  pub share_confirmed-IsWellFormed :
      (channel_id : String) (given : Option ℕ)
      → IsWellFormed (share_confirmed v channel_id given st).1.rounds
  unfolding share_confirmed
  share_confirmed-IsWellFormed channel_id given =
      ground
        (arith, w, confirmed_by-IsWellFormed channel_id (or_else given 1) (row_on v channel_id))

  rejected_by-IsWellFormed :
      (version status : ℕ) (memo : String) (after : FoldState) (row : Option PairedParticipant)
      → IsWellFormed after.rounds
      → IsWellFormed (rejected_by v version status memo after row).1.rounds
  unfolding perform
  rejected_by-IsWellFormed version status memo after none a = a
  rejected_by-IsWellFormed version status memo after (some p) a =
      commit_once-IsWellFormed _ version _ (perform-IsWellFormed (fails version _) after.rounds a)

  pub share_rejected-IsWellFormed :
      (channel_id : String) (given given_status : Option ℕ) (given_memo : Option String)
      → IsWellFormed (share_rejected v channel_id given given_status given_memo st).1.rounds
  unfolding share_rejected perform
  share_rejected-IsWellFormed channel_id given given_status given_memo =
      elim (Bool-cases (channel_id == "")) [
        | inl blank ↦ rw blank w
        | inr there ↦ rw there (
            rejected_by-IsWellFormed _ _ _ _ (row_on v channel_id)
              (perform-IsWellFormed (drops channel_id (or_else given 1)) st.rounds w))
      ]

  pub sharing_complete-IsWellFormed :
      (given : Option ℕ) (given_met : Option Bool)
      → IsWellFormed (sharing_complete v given given_met st).1.rounds
  unfolding sharing_complete perform
  sharing_complete-IsWellFormed given given_met =
      perform-IsWellFormed (completes (or_else given 1)) st.rounds w

  answered-IsWellFormed :
      (channel_id : String) → IsWellFormed (end_verification st.rounds channel_id)
  unfolding perform
  answered-IsWellFormed channel_id = perform-IsWellFormed (answers channel_id) st.rounds w

  pub share_verified-IsWellFormed :
      (channel_id : String) (given : Option ℕ)
      → IsWellFormed (share_verified ctx v channel_id given st).1.rounds
  unfolding share_verified announce_verification_if_done
  share_verified-IsWellFormed channel_id given = ground (arith, w, answered-IsWellFormed channel_id)

  pub share_verify_rejected-IsWellFormed :
      (channel_id : String) (version status : ℕ) (memo : String)
      → IsWellFormed (share_verify_rejected ctx v channel_id version status memo st).1.rounds
  unfolding share_verify_rejected announce_verification_if_done
  share_verify_rejected-IsWellFormed channel_id version status memo =
      ground (arith, w, answered-IsWellFormed channel_id)

  pub secret_recovered-IsWellFormed :
      (snapshot : Option RecoveredSecretSnapshot)
      → IsWellFormed (secret_recovered_event v snapshot st).1.rounds
  unfolding secret_recovered_event perform
  secret_recovered-IsWellFormed snapshot = ground (arith, w, perform-IsWellFormed takes st.rounds w)
