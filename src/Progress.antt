-- ===== src/Progress.antt =====
-- What the owner is shown of a round of verification (`verifyProgress` of owner/verification.ts), and
-- how many participants are recommended (owner/recommendedParticipants.ts).
pub mod Counts
mod Tests
use reference_app.Prelude.{
  Bool, Dict, List, Option, String, [], false, filter, if◌then◌else◌, includes, insert, is_some,
  length, lookup, ltb, map, nat_beq, nat_eq, none, or_else, some, string_eq, suc, true, zero, ℕ,
  ◌&&◌, ◌*◌, ◌+◌, ◌/◌, ◌==◌, ◌∷◌,
}
use reference_app.Types.{HelperInfo, Refusal}

pub data VerifyRowState : Type 0 where
  verified refused undelivered timed_out waiting : VerifyRowState

-- the helper's memo, or where that is empty its status
pub data RefusalDetail : Type 0 where
  own_words : String → RefusalDetail
  status_code : ℕ → RefusalDetail

pub record VerifyRow : Type 0 where
  pub id : String
  pub name : String
  pub state : VerifyRowState
  pub detail : Option RefusalDetail

pub record VerifyProgress : Type 0 where
  pub rows : List VerifyRow
  pub verified_count : ℕ
  pub rejected_count : ℕ
  pub failed_count : ℕ
  pub all_done : Bool
  pub percent : ℕ

pub record VerifyInput : Type 0 where
  pub participants : List HelperInfo
  pub verified_participant_ids : List String
  pub rejections : Option (List Refusal)
  pub failed_channel_ids : List String
  pub deadline_passed : Bool

-- `new Map(rejections.map(r => [r.id, r]))`, on top of what `held` has
abbrev pub refusals_by_id : Dict String Refusal → List Refusal → Dict String Refusal
refusals_by_id held [] = held
refusals_by_id held (r ∷ rs) = refusals_by_id (insert held r.id r) rs

abbrev pub refusal_of : VerifyInput → String → Option Refusal
refusal_of input id = lookup (refusals_by_id [] (or_else input.rejections [])) id

abbrev pub state_of_row : VerifyInput → HelperInfo → VerifyRowState
state_of_row input p =
    if includes input.verified_participant_ids p.id
    then verified
    else if is_some (refusal_of input p.id)
    then refused
    else if includes input.failed_channel_ids p.channel_id
    then undelivered
    else if input.deadline_passed
    then timed_out
    else waiting

abbrev pub detail_for : VerifyRowState → Option Refusal → Option RefusalDetail
detail_for refused (some r) = some (if r.memo == "" then status_code r.status else own_words r.memo)
detail_for _ _ = none

abbrev pub verify_row : VerifyInput → HelperInfo → VerifyRow
verify_row input p =
    let state = state_of_row input p in
    record {
      id = p.id;
      name = p.name;
      state = state;
      detail = detail_for state (refusal_of input p.id);
    }

abbrev pub is_verified : VerifyRow → Bool
is_verified r = elim r.state [ verified ↦ true | _ ↦ false ]

abbrev pub is_refused : VerifyRow → Bool
is_refused r = elim r.state [ refused ↦ true | _ ↦ false ]

abbrev pub is_failed : VerifyRow → Bool
is_failed r = elim r.state [ undelivered ↦ true | timed_out ↦ true | _ ↦ false ]

abbrev pub count : (VerifyRow → Bool) → List VerifyRow → ℕ
count p rows = length (filter p rows)

-- `Math.min(100, Math.round(resolved / total * 100))`, and 0 where there is no row
abbrev pub percent_of : ℕ → ℕ → ℕ
percent_of resolved zero = 0
percent_of resolved (suc n) =
    let rounded = (200 * resolved + suc n) / (2 * suc n) in if ltb 100 rounded then 100 else rounded

unfoldable pub verify_progress : VerifyInput → VerifyProgress
verify_progress input =
    let rows = map (verify_row input) input.participants in
    let resolved = count is_verified rows + count is_refused rows + count is_failed rows in
    record {
      rows = rows;
      verified_count = count is_verified rows;
      rejected_count = count is_refused rows;
      failed_count = count is_failed rows;
      all_done = ltb 0 (length rows) && nat_beq resolved (length rows);
      percent = percent_of resolved (length rows);
    }

abbrev pub max : ℕ → ℕ → ℕ
max a b = if ltb a b then b else a

abbrev pub min : ℕ → ℕ → ℕ
min a b = if ltb a b then a else b

unfoldable pub effective_recommended : ℕ → ℕ → ℕ → ℕ
effective_recommended recommended minimum pool_size = max minimum (min recommended pool_size)
