-- ===== src/Rounds/Tests.antt =====
-- Runs of the tracker, and examples of what is proved of it.
use reference_app.Bag.{update_bag_participant, update_bag_version}
use reference_app.Prelude.{
  [], arith, delete, false, insert, lookup, nat_eq, none, option_eq, pair_eq, refl, some, string_eq,
  true, ℕ, ◌∷◌, ◌≡◌, ◌≤◌,
}
use reference_app.Rounds.{
  OpenRound, RoundTracker, abandon_round, begin_protect_round, complete_round, empty,
  helpers_answered, pending_round, record_share_confirmed,
}
use reference_app.Rounds.Challenges.{
  begin_verification, is_awaiting_verification, resume_verifications, snapshot_verifications,
}
use reference_app.Rounds.Completion.{complete_round-abandon_round}
use reference_app.Rounds.Frame.{complete_round-begin_protect_round}
use reference_app.Rounds.Invariant.{IsWellFormed, empty-IsWellFormed, perform_all-IsWellFormed}
use reference_app.Rounds.Ops.{abandons, challenges, confirms, opens, perform, perform_all}
use reference_app.Rounds.Verification.{is_awaiting_verification-resume_verifications}
use reference_app.Samples.{one_challenge, round_five, staged_five, tracking}

abbrev answered_by_all : RoundTracker
answered_by_all =
    perform_all (confirms 5 "alice" (some "11") ∷ confirms 5 "bob" (some "12") ∷ []) tracking

both_answered : helpers_answered answered_by_all 5 ≡ true
unfolding helpers_answered perform_all perform record_share_confirmed lookup insert
    update_bag_participant update_bag_version
both_answered = refl

one_answered : helpers_answered (record_share_confirmed tracking 5 "alice" (some "11")) 5 ≡ false
unfolding helpers_answered record_share_confirmed lookup insert update_bag_participant
    update_bag_version
one_answered = refl

tracking-IsWellFormed : IsWellFormed tracking
unfolding perform_all perform begin_protect_round begin_verification insert delete
tracking-IsWellFormed =
    perform_all-IsWellFormed (opens round_five ∷ challenges "11" one_challenge ∷ []) empty
      empty-IsWellFormed

perform_all-IsWellFormed_example :
    IsWellFormed (perform_all (opens round_five ∷ abandons 5 ∷ opens round_five ∷ []) empty)
perform_all-IsWellFormed_example =
    perform_all-IsWellFormed (opens round_five ∷ abandons 5 ∷ opens round_five ∷ []) empty
      empty-IsWellFormed

five_is_open : pending_round tracking 5 ≡ some staged_five
unfolding pending_round lookup
five_is_open = refl

complete_round-abandon_round_example :
    ((abandon_round tracking 5).0 ≡ true)
    × (pending_round (abandon_round tracking 5).1 5 ≡ none)
    × ((complete_round (abandon_round tracking 5).1 5).0 ≡ some staged_five)
complete_round-abandon_round_example =
    complete_round-abandon_round tracking 5 staged_five five_is_open (omega arith)

complete_round-begin_protect_round_example :
    (complete_round
      (perform_all
        (confirms 4 "alice" (some "11") ∷ abandons 3 ∷ [])
        (begin_protect_round empty round_five))
      5).0
    ≡ some staged_five
complete_round-begin_protect_round_example =
    complete_round-begin_protect_round empty round_five
      (confirms 4 "alice" (some "11") ∷ abandons 3 ∷ [])
      (λ e. ground arith, (λ e. ground arith, tt))

is_awaiting_verification-resume_verifications_example :
    is_awaiting_verification
      (resume_verifications empty (snapshot_verifications tracking 50) 60)
      "11"
      (some 4)
      60
    ≡ is_awaiting_verification tracking "11" (some 4) 60
is_awaiting_verification-resume_verifications_example =
    is_awaiting_verification-resume_verifications tracking 50 60 "11" (some 4) (omega arith)
      tracking-IsWellFormed.challenges_distinct

newest_five : (w : ℕ) (r : OpenRound) → lookup tracking.rounds w ≡ some r → w ≤ 5
unfolding lookup
newest_five w r e = ground arith

none_open : (w : ℕ) (r : OpenRound) → lookup empty.rounds w ≡ some r → w ≤ 4
unfolding lookup
none_open w r e = cc
