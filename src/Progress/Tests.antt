-- ===== src/Progress/Tests.antt =====
-- Examples of what is proved of the progress of a verification round.
use reference_app.Prelude.{
  [], false, lookup, nat_eq, none, option_eq, pair_eq, refl, string_eq, ◌∷◌, ◌≡◌,
}
use reference_app.Progress.{VerifyInput, verify_progress}

abbrev verifying : VerifyInput
verifying = record {
  participants =
      record { id = "alice"; name = "alice"; channel_id = "11" }
      ∷ record { id = "bob"; name = "bob"; channel_id = "12" }
      ∷ [];
  verified_participant_ids = "alice" ∷ [];
  rejections = none;
  failed_channel_ids = [];
  deadline_passed = false;
}

half_done : (verify_progress verifying).percent ≡ 50
unfolding verify_progress lookup
half_done = refl
