-- ===== src/Progress/Counts.antt =====
-- The counts of a verification round.
use reference_app.Prelude.{
  Bool, List, [], arith, false, length, length-map, map, true, ℕ, ◌+◌, ◌<◌, ◌↔◌, ◌∷◌, ◌≡◌,
}
use reference_app.Progress.{
  VerifyInput, VerifyRow, count, is_failed, is_refused, is_verified, verify_progress, verify_row,
  waiting,
}
use reference_app.Types.{HelperInfo}

abbrev is_waiting : VerifyRow → Bool
is_waiting r = elim r.state [ waiting ↦ true | _ ↦ false ]

abbrev pub waiting_count : List VerifyRow → ℕ
waiting_count = count is_waiting

counts_add_up :
    (rows : List VerifyRow)
    → count is_verified rows + count is_refused rows + count is_failed rows + waiting_count rows
      ≡ length rows
counts_add_up [] = omega arith
counts_add_up (r ∷ rows) = ground (arith, counts_add_up rows)

-- Every participant is counted once: as verified, as refused, as failed or as still waiting. The
-- round is done exactly when there is a participant and none is waiting.
pub verify_progress-counts :
    (input : VerifyInput)
    → ((verify_progress input).verified_count
          + (verify_progress input).rejected_count
          + (verify_progress input).failed_count
          + waiting_count (verify_progress input).rows
        ≡ length input.participants)
      × ((verify_progress input).all_done ≡ true
          ↔ (0 < length input.participants) × (waiting_count (verify_progress input).rows ≡ 0))
unfolding verify_progress
verify_progress-counts input =
    let rows = map (verify_row input) input.participants in
    ground (arith, counts_add_up rows, length-map (verify_row input) input.participants)

none_waiting :
    (input : VerifyInput)
    → input.deadline_passed ≡ true
    → (ps : List HelperInfo) → waiting_count (map (verify_row input) ps) ≡ 0
none_waiting input d [] = omega arith
none_waiting input d (p ∷ ps) = ground (arith, none_waiting input d ps)

-- Once the deadline has passed, a round with a participant is done.
pub verify_progress-deadline :
    (input : VerifyInput)
    → input.deadline_passed ≡ true
    → 0 < length input.participants
    → (verify_progress input).all_done ≡ true
unfolding verify_progress
verify_progress-deadline input d n = ground (
  arith,
  none_waiting input d input.participants,
  counts_add_up (map (verify_row input) input.participants),
  length-map (verify_row input) input.participants,
)
