-- ===== src/Fold/Tests.antt =====
-- Runs of the fold, and examples of what is proved of it.
use reference_app.Bag.{
  commit_into, commit_round_version, update_bag_participant, update_bag_version,
}
use reference_app.Bag.Commit.{BagIsOrdered}
use reference_app.Bag.Order.{IsOrdered}
use reference_app.Fold.{FoldEvent, fold_events, got_share_confirmed}
use reference_app.Fold.BagMoves.{bag_current}
use reference_app.Fold.Context.{FoldState}
use reference_app.Fold.PairingCompleted.{pairing_completed}
use reference_app.Fold.PeerRows.{PairingEvent}
use reference_app.Fold.Recovery.{insufficient}
use reference_app.Fold.Replicas.{OnNoTarget, pairing_completed-replica}
use reference_app.Fold.Sharing.{commit_once_helpers_answered, sharing_complete}
use reference_app.Fold.Tracking.{fold_events-IsWellFormed}
use reference_app.Fold.Verdicts.{
  commit_once_helpers_answered-cases, sharing_complete-commit_once_helpers_answered,
}
use reference_app.Fold.Versions.{empties_bag, fold_events-Advances}
use reference_app.Prelude.{
  All, List, String, [], any, arith, decimal_of, delete, digit, eq_iff, false, includes, insert,
  length, lookup, nat_eq, none, option_eq, pair_eq, refl, some, string_eq, true, ℕ, ◌∷◌, ◌≡◌, ◌≤◌,
  ◌⊎◌,
}
use reference_app.Roles.{is_replica_sender_kind, replica_source_kind}
use reference_app.Rounds.{
  OpenRound, PendingBag, begin_protect_round, complete_round, confirmed_count, empty,
  helpers_answered, pending_round, record_share_confirmed,
}
use reference_app.Rounds.Invariant.{IsWellFormed, empty-IsWellFormed, perform_all-IsWellFormed}
use reference_app.Rounds.Ops.{RoundOp, confirms, opens, perform, perform_all}
use reference_app.Samples.{
  bag_of, quiet, round_five, sample_vault, staged_five, state_of, three_versions, tracking,
  version_of,
}
use reference_app.Types.{BagVersion, RecoveryFailure, Vault}

abbrev answers_of_five : List FoldEvent
answers_of_five = got_share_confirmed "11" (some 5) ∷ got_share_confirmed "12" (some 5) ∷ []

abbrev current_of : Vault × FoldState → ℕ
current_of (v, st) = bag_current v.secret_bag

three_versions-IsOrdered : IsOrdered three_versions
three_versions-IsOrdered = ((omega arith, (omega arith, tt)), ((omega arith, tt), (tt, tt)))

fold_events-Advances_example :
    BagIsOrdered (fold_events quiet sample_vault answers_of_five (state_of tracking)).0.secret_bag
    × ((any empties_bag answers_of_five ≡ true)
        ⊎ (4
            ≤ bag_current
                (fold_events quiet sample_vault answers_of_five (state_of tracking)).0.secret_bag))
fold_events-Advances_example =
    fold_events-Advances quiet sample_vault answers_of_five (state_of tracking)
      three_versions-IsOrdered

abbrev answers_to_five : List RoundOp
answers_to_five =
    opens round_five ∷ confirms 5 "alice" (some "11") ∷ confirms 5 "bob" (some "12") ∷ []

abbrev answered_five : FoldState
answered_five = state_of (perform_all answers_to_five empty)

answered_five-IsWellFormed : IsWellFormed answered_five.rounds
answered_five-IsWellFormed = perform_all-IsWellFormed answers_to_five empty empty-IsWellFormed

abbrev confirmed_five : BagVersion
confirmed_five = record (version_of 5) { participant_ids = "alice" ∷ "bob" ∷ [] }

abbrev confirmed_bag : PendingBag
confirmed_bag = record staged_five {
  bag = record (bag_of 5 []) { current_version = confirmed_five };
}

five_is_pending : pending_round answered_five.rounds 5 ≡ some confirmed_bag
unfolding pending_round perform_all perform begin_protect_round record_share_confirmed lookup insert
    delete update_bag_participant update_bag_version
five_is_pending = refl

five_is_answered : helpers_answered answered_five.rounds 5 ≡ true
unfolding helpers_answered perform_all perform begin_protect_round record_share_confirmed lookup
    insert delete update_bag_participant update_bag_version
five_is_answered = refl

five_is_enough : confirmed_count answered_five.rounds 5 ≡ 2
unfolding confirmed_count perform_all perform begin_protect_round record_share_confirmed lookup
    insert delete update_bag_participant update_bag_version
five_is_enough = refl

commits_five : current_of (commit_once_helpers_answered sample_vault 5 answered_five) ≡ 5
unfolding commit_once_helpers_answered helpers_answered confirmed_count perform_all perform
    begin_protect_round record_share_confirmed lookup insert delete update_bag_participant
    update_bag_version complete_round commit_round_version commit_into
commits_five = refl

commit_once_helpers_answered-cases_example :
    (commit_once_helpers_answered sample_vault 5 answered_five ≡ (sample_vault, answered_five))
    ⊎ ((r : OpenRound) × (lookup answered_five.rounds.rounds 5 ≡ some r)
        × ((c : String) → (includes r.awaiting c ≡ false) ⊎ (includes r.confirmed c ≡ true))
        × (2 ≤ length r.pending.bag.current_version.participant_ids)
        × ((commit_once_helpers_answered sample_vault 5 answered_five).0 ≡ record sample_vault {
          secret_bag = some (commit_round_version (some three_versions) r.pending.bag);
        })
        × (lookup (commit_once_helpers_answered sample_vault 5 answered_five).1.rounds.rounds 5
            ≡ none))
commit_once_helpers_answered-cases_example =
    commit_once_helpers_answered-cases sample_vault 5 answered_five

sharing_complete-commit_once_helpers_answered_example :
    (sharing_complete
      (commit_once_helpers_answered sample_vault 5 answered_five).0
      (some 5)
      (some true)
      (commit_once_helpers_answered sample_vault 5 answered_five).1).0
    ≡ (commit_once_helpers_answered sample_vault 5 answered_five).0
sharing_complete-commit_once_helpers_answered_example =
    sharing_complete-commit_once_helpers_answered sample_vault 5 (some true) confirmed_bag
      answered_five answered_five-IsWellFormed five_is_pending (omega arith) five_is_answered
      (omega (arith, five_is_enough))

-- a replica handshake on the channel of a helper
abbrev mirrored : PairingEvent
mirrored = record {
  channel_id = "11";
  pairing_channel_id = "7";
  kind = some replica_source_kind;
  peer_name = some "Tablet";
}

pairing_completed-replica_example :
    All
      (OnNoTarget "11")
      (pairing_completed quiet sample_vault mirrored answered_five).0.participants
unfolding is_replica_sender_kind
pairing_completed-replica_example =
    pairing_completed-replica quiet sample_vault mirrored answered_five
      (λ e. ground (arith, eq_iff "11" "")) refl

abbrev one_failure : List RecoveryFailure
one_failure = record { secret_id = "s"; version = 2; error = "late" } ∷ []

abbrev recovering : Vault
recovering = record sample_vault {
  recovery_progress = some (record {
    secret_id = "s";
    version = 4;
    shares_received = 1;
    total_requested = 3;
    requested_channel_ids = some ("11" ∷ "12" ∷ []);
    refusals = none;
    corrupted = none;
    error = none;
  });
}

fold_events-IsWellFormed_example :
    IsWellFormed (fold_events quiet sample_vault answers_of_five answered_five).1.rounds
fold_events-IsWellFormed_example =
    fold_events-IsWellFormed quiet sample_vault answers_of_five answered_five
      answered_five-IsWellFormed

told_of_one :
    insufficient 1
    ≡ "Not enough shares to reconstruct the secret — 1 helper answered without a usable share. Pair with more helpers and try again."
unfolding insufficient decimal_of digit
told_of_one = refl
