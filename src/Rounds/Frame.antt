-- ===== src/Rounds/Frame.antt =====
-- What an operation on the tracker leaves of the rounds of other versions.
use reference_app.Prelude.{
  All, List, Option, [], ap, arith, if◌then◌else◌, lookup, lookup-delete, lookup-insert, nat_eq,
  none, refl, some, string_eq, ℕ, ◌==◌, ◌∙◌, ◌∷◌, ◌≡◌, ◌≢◌,
}
use reference_app.Rounds.{
  OpenRound, ProtectRound, RoundTracker, abandon_all, abandon_round, begin_protect_round,
  begin_recovery, complete_round, confirm_in, drop_in, drop_share, fail_in, modify, opened,
  record_share_confirmed, record_share_failed, take_recovery,
}
use reference_app.Rounds.Challenges.{begin_verification, end_verification, resume_verifications}
use reference_app.Rounds.Ops.{
  RoundOp, abandons, abandons_all, about, answers, challenges, completes, confirms, drops, fails,
  opens, perform, perform_all, recovers, resumes, takes,
}

lookup-modify :
    (t : RoundTracker) (version : ℕ) (change : OpenRound → OpenRound) (o : Option OpenRound) (w : ℕ)
    → version ≢ w
    → lookup (modify t version change o).rounds w ≡ lookup t.rounds w
lookup-modify t version change none w d = refl
lookup-modify t version change (some round) w d =
    ground (arith, lookup-insert t.rounds version (change round) w)

pub lookup-complete_round :
    (t : RoundTracker) (version w : ℕ)
    → lookup (complete_round t version).1.rounds w
      ≡ (if version == w then none else lookup t.rounds w)
unfolding complete_round
lookup-complete_round t version w = ground (arith, lookup-delete t.rounds version w)

pub lookup-abandon_round :
    (t : RoundTracker) (version w : ℕ)
    → lookup (abandon_round t version).1.rounds w
      ≡ (if version == w then none else lookup t.rounds w)
unfolding abandon_round
lookup-abandon_round t version w = ground (arith, lookup-delete t.rounds version w)

pub lookup-perform :
    (op : RoundOp) (t : RoundTracker) (w : ℕ)
    → about op ≢ some w
    → lookup (perform op t).rounds w ≡ lookup t.rounds w
unfolding perform begin_protect_round record_share_confirmed drop_share record_share_failed
    abandon_all begin_verification end_verification resume_verifications begin_recovery
    take_recovery
lookup-perform (opens round) t w d =
    ground (arith, lookup-insert t.rounds round.version (opened round) w)
lookup-perform (confirms v id c) t w d =
    lookup-modify t v (confirm_in v id c) (lookup t.rounds v) w (λ e. d (ap some e))
lookup-perform (drops c v) t w d =
    lookup-modify t v (drop_in c) (lookup t.rounds v) w (λ e. d (ap some e))
lookup-perform (fails v f) t w d =
    lookup-modify t v (fail_in v f) (lookup t.rounds v) w (λ e. d (ap some e))
lookup-perform (completes v) t w d = ground (arith, lookup-complete_round t v w)
lookup-perform (abandons v) t w d = ground (arith, lookup-abandon_round t v w)
lookup-perform abandons_all t w d = refl
lookup-perform (challenges _ _) t w d = refl
lookup-perform (answers _) t w d = refl
lookup-perform (resumes _ _) t w d = refl
lookup-perform (recovers _) t w d = refl
lookup-perform takes t w d = refl

-- no operation of the list names the version
abbrev pub Spares : ℕ → List RoundOp → Type 0
Spares w = All (λ op. about op ≢ some w)

pub lookup-perform_all :
    (ops : List RoundOp) (t : RoundTracker) (w : ℕ)
    → Spares w ops
    → lookup (perform_all ops t).rounds w ≡ lookup t.rounds w
unfolding perform_all
lookup-perform_all [] t w s = refl
lookup-perform_all (op ∷ ops) t w s =
    lookup-perform_all ops (perform op t) w s.1 ∙ lookup-perform op t w s.0

complete_round_open :
    (t : RoundTracker) (version : ℕ) (round : OpenRound)
    → lookup t.rounds version ≡ some round
    → (complete_round t version).0 ≡ some round.pending
unfolding complete_round
complete_round_open t version round h = ground arith

lookup-begin_protect_round :
    (t : RoundTracker) (round : ProtectRound)
    → lookup (begin_protect_round t round).rounds round.version ≡ some (opened round)
unfolding begin_protect_round
lookup-begin_protect_round t round =
    ground (arith, lookup-insert t.rounds round.version (opened round) round.version)

-- After a round is begun, and after any operations on rounds of other versions, on challenges and
-- on the recovery, completing it gives the bag that was staged for it.
pub complete_round-begin_protect_round :
    (t : RoundTracker) (round : ProtectRound) (ops : List RoundOp)
    → Spares round.version ops
    → (complete_round (perform_all ops (begin_protect_round t round)) round.version).0
      ≡ some (record {
        bag = round.bag;
        version = round.version;
        protocol_secret_id = round.protocol_secret_id;
      })
complete_round-begin_protect_round t round ops s =
    complete_round_open _ round.version (opened round) (
      lookup-perform_all ops (begin_protect_round t round) round.version s
      ∙ lookup-begin_protect_round t round)
