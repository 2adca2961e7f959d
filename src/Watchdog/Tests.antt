-- ===== src/Watchdog/Tests.antt =====
-- Examples over the timer and the open rounds of apps/web/src/vault/runtime.ts.
use reference_app.Prelude.{
  [], delete, false, if◌then◌else◌, insert, lookup, nat_eq, none, option_eq, pair_eq, refl, some,
  sort, sort_insert, string_eq, trim, true, ◌∷◌, ◌≡◌,
}
use reference_app.Rounds.{
  RoundTracker, abandon_round, begin_protect_round, confirmed_count, empty, has_pending_round,
  opened, pending_rounds,
}
use reference_app.Rounds.Invariant.{IsWellFormed, empty-IsWellFormed, perform_all-IsWellFormed}
use reference_app.Rounds.Ops.{opens, perform, perform_all}
use reference_app.Samples.{round_five, sample_vault}
use reference_app.Watchdog.{
  Session, SessionContext, commit, fail_sharing_round, on_flow_timeout, settle_all_overdue,
  settle_overdue_round,
}
use reference_app.Watchdog.Overdue.{is_below, on_flow_timeout-rounds}

abbrev five_open : RoundTracker
five_open = record empty { rounds = (5, opened round_five) ∷ [] }

five_open-IsWellFormed : IsWellFormed five_open
unfolding perform_all perform begin_protect_round insert delete
five_open-IsWellFormed = perform_all-IsWellFormed (opens round_five ∷ []) empty empty-IsWellFormed

abbrev waiting_session : Session
waiting_session = record {
  vault = sample_vault;
  rounds = five_open;
  busy = true;
  armed_for = some 150000;
  discovery_targets = none;
}

abbrev at_noon : SessionContext
at_noon = record { now = 43200; protocol_timeout_secs = 30; no_answer_text = "No answer" }

on_flow_timeout-rounds_example :
    lookup (on_flow_timeout at_noon waiting_session).rounds.rounds 5
    ≡ (if is_below waiting_session 5 then none else some (opened round_five))
unfolding lookup
on_flow_timeout-rounds_example =
    on_flow_timeout-rounds at_noon waiting_session 5 (opened round_five) five_open-IsWellFormed refl

five_rolled_back : has_pending_round (on_flow_timeout at_noon waiting_session).rounds 5 ≡ false
unfolding on_flow_timeout pending_rounds settle_all_overdue settle_overdue_round fail_sharing_round
    confirmed_count abandon_round commit has_pending_round trim sort sort_insert lookup insert
    delete
five_rolled_back = refl
