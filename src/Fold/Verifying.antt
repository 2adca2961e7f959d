-- ===== src/Fold/Verifying.antt =====
-- vault/fold/sharing.ts: the answers to a verification challenge.
use reference_app.Bag.{bag_version_of, update_bag_verified, update_bag_version}
use reference_app.Fold.Context.{
  FoldContext, FoldState, change_row, log, notify_outcome, row_on, verification_complete,
  with_rounds, ◌▹◌,
}
use reference_app.Prelude.{
  Option, String, [], filter, if◌then◌else◌, length, map, nat_eq, none, not, or_else, some,
  string_eq, true, ℕ, ◌++◌, ◌==◌, ◌∷◌,
}
use reference_app.Rounds.Challenges.{end_verification, is_awaiting_verification, is_verifying}
use reference_app.Types.{BagVersion, PairedParticipant, Refusal, SecretBag, Vault}

abbrev pub verified_count : Option BagVersion → ℕ
verified_count none = 0
verified_count (some v) = length v.verified_participant_ids

abbrev pub rejection_count : Option BagVersion → ℕ
rejection_count none = 0
rejection_count (some v) = length (or_else v.verify_rejections [])

unfoldable pub announce_verification_if_done :
    FoldContext → Option SecretBag → ℕ → FoldState → FoldState
announce_verification_if_done ctx secret_bag version st =
    if is_verifying st.rounds version ctx.now
    then st
    else let held = bag_version_of secret_bag version in
      st
      ▹ notify_outcome (verification_complete version (verified_count held) (rejection_count held))

abbrev pub prove_share : ℕ → PairedParticipant → PairedParticipant
prove_share version h = record h {
  secret_shares =
      map (λ s. if s.version == version then record s { verified = true } else s) h.secret_shares;
}

abbrev pub verified_in : Option SecretBag → ℕ → String → Option SecretBag
verified_in none version id = none
verified_in (some bag) version id = some (update_bag_verified bag version id)

abbrev pub verified_by :
    FoldContext → Vault → ℕ → FoldState → Option PairedParticipant → Vault × FoldState
verified_by ctx current version st none = (current, st)
verified_by ctx current version st (some participant) =
    let secret_bag = verified_in current.secret_bag version participant.id in
    (
      record current {
        participants = change_row participant.id (prove_share version) current.participants;
        secret_bag = secret_bag;
      },
      announce_verification_if_done ctx secret_bag version st,
    )

unfoldable pub share_verified :
    FoldContext → Vault → String → Option ℕ → FoldState → Vault × FoldState
share_verified ctx current channel_id given st =
    if channel_id == ""
    then (current, st)
    else let version = or_else given 1 in
      let st = st ▹ log "verification" "ShareVerified" in
      if not (is_awaiting_verification st.rounds channel_id (some version) ctx.now)
      then (current, st)
      else verified_by ctx current version (with_rounds st (end_verification st.rounds channel_id))
          (row_on current channel_id)

abbrev pub add_rejection : Refusal → BagVersion → BagVersion
add_rejection refusal v = record v {
  verify_rejections =
      some
        (filter (λ r. not (r.id == refusal.id)) (or_else v.verify_rejections []) ++ refusal ∷ []);
}

abbrev pub rejected_in : Option SecretBag → ℕ → Refusal → Option SecretBag
rejected_in none version refusal = none
rejected_in (some bag) version refusal =
    some (update_bag_version bag version (add_rejection refusal))

abbrev pub unproved_by :
    FoldContext → Vault → ℕ → ℕ → String → FoldState → Option PairedParticipant → Vault × FoldState
unproved_by ctx current version status memo st none = (current, st)
unproved_by ctx current version status memo st (some participant) =
    let secret_bag =
      rejected_in current.secret_bag version
        (record { id = participant.id; status = status; memo = memo }) in
    (
      record current { secret_bag = secret_bag },
      announce_verification_if_done ctx secret_bag version st,
    )

unfoldable pub share_verify_rejected :
    FoldContext → Vault → String → ℕ → ℕ → String → FoldState → Vault × FoldState
share_verify_rejected ctx current channel_id version status memo st =
    let st = st ▹ log "verification" "ShareVerifyRejected" in
    if not (is_awaiting_verification st.rounds channel_id (some version) ctx.now)
    then (current, st)
    else unproved_by ctx current version status memo
        (with_rounds st (end_verification st.rounds channel_id)) (row_on current channel_id)
