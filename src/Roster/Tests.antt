-- ===== src/Roster/Tests.antt =====
-- Examples of what is proved of the roster.
use reference_app.Prelude.{All, List, [], false, none, refl, some, ◌∷◌, ◌≡◌, ◌≤◌}
use reference_app.Roster.{
  DispatchEvent, is_share_target, other_dispatch, protect_secret_failed, protect_secret_started,
  publish_targets, round_recipients, settle_unanswered_shares, targeted,
}
use reference_app.Roster.Entries.{RosterCandidate, RosterEntry, resolve_roster_entries}
use reference_app.Roster.Entries.Claims.{match_count, resolve_roster_entries-once}
use reference_app.Roster.Settled.{AllSettled, settle_unanswered_shares-AllSettled}
use reference_app.Roster.Targets.{HoldsShares, recipients_HoldsShares}
use reference_app.Samples.{alice, bob, roster}
use reference_app.Types.{PairedParticipant, pending}

abbrev reported : List DispatchEvent
reported = protect_secret_started "11" 5 ∷ protect_secret_failed "13" 5 ∷ other_dispatch ∷ []

sent_to_alice : round_recipients roster reported 5 ≡ alice ∷ []
unfolding round_recipients is_share_target targeted
sent_to_alice = refl

recipients_HoldsShares_example :
    All HoldsShares (publish_targets roster ("12" ∷ []))
    × All HoldsShares (round_recipients roster reported 5)
recipients_HoldsShares_example = recipients_HoldsShares roster ("12" ∷ []) reported 5

abbrev waiting_row : PairedParticipant
waiting_row = record alice {
  secret_shares = record { version = 5; status = pending; verified = false; failure = none } ∷ [];
}

settle_unanswered_shares-AllSettled_example :
    AllSettled 5 (waiting_row ∷ bob ∷ []) (settle_unanswered_shares (waiting_row ∷ bob ∷ []) 5)
settle_unanswered_shares-AllSettled_example =
    settle_unanswered_shares-AllSettled (waiting_row ∷ bob ∷ []) 5

abbrev bob_actor : RosterCandidate
bob_actor = record {
  object = 0;
  id = "bob";
  name = "Bob";
  uri = "https://b";
  more_uris = [];
  channel_id = none;
}

abbrev two_bobs : List RosterEntry
two_bobs =
    record { channel_id = "1"; uris = "https://b" ∷ []; name = some "Bob" }
    ∷ record { channel_id = "2"; uris = []; name = some "Bob" }
    ∷ []

resolve_roster_entries-once_example :
    match_count 0 (resolve_roster_entries two_bobs (bob_actor ∷ [])) ≤ 1
resolve_roster_entries-once_example = resolve_roster_entries-once two_bobs (bob_actor ∷ []) 0
