-- ===== src/Rounds/Ops.antt =====
-- The methods of the tracker that change it, as values: what a vault does to it over time is a
-- list of these.
use reference_app.Prelude.{List, Option, String, [], none, some, ℕ, ◌∷◌}
use reference_app.Rounds.{
  ProtectRound, RecoveryRequest, RoundTracker, VerificationChallenge, abandon_all, abandon_round,
  begin_protect_round, begin_recovery, complete_round, drop_share, record_share_confirmed,
  record_share_failed, take_recovery,
}
use reference_app.Rounds.Challenges.{begin_verification, end_verification, resume_verifications}
use reference_app.Types.{PendingVerification, Refusal}

pub data RoundOp : Type 0 where
  opens : ProtectRound → RoundOp
  confirms : ℕ → String → Option String → RoundOp
  drops : String → ℕ → RoundOp
  fails : ℕ → Refusal → RoundOp
  completes abandons : ℕ → RoundOp
  abandons_all : RoundOp
  challenges : String → VerificationChallenge → RoundOp
  answers : String → RoundOp
  resumes : List PendingVerification → ℕ → RoundOp
  recovers : RecoveryRequest → RoundOp
  takes : RoundOp

unfoldable pub perform : RoundOp → RoundTracker → RoundTracker
perform (opens round) t = begin_protect_round t round
perform (confirms version id channel_id) t = record_share_confirmed t version id channel_id
perform (drops channel_id version) t = drop_share t channel_id version
perform (fails version failure) t = record_share_failed t version failure
perform (completes version) t = (complete_round t version).1
perform (abandons version) t = (abandon_round t version).1
perform abandons_all t = abandon_all t
perform (challenges channel_id challenge) t = begin_verification t channel_id challenge
perform (answers channel_id) t = end_verification t channel_id
perform (resumes saved now) t = resume_verifications t saved now
perform (recovers request) t = begin_recovery t request
perform takes t = (take_recovery t).1

unfoldable pub perform_all : List RoundOp → RoundTracker → RoundTracker
perform_all [] t = t
perform_all (op ∷ ops) t = perform_all ops (perform op t)

-- the version that an operation names, where it is about a round
abbrev pub about : RoundOp → Option ℕ
about (opens round) = some round.version
about (confirms version _ _) = some version
about (drops _ version) = some version
about (fails version _) = some version
about (completes version) = some version
about (abandons version) = some version
about abandons_all = none
about (challenges _ _) = none
about (answers _) = none
about (resumes _ _) = none
about (recovers _) = none
about takes = none
