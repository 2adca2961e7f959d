-- ===== src/Fold/Sharing.antt =====
-- vault/fold/sharing.ts: share distribution events, from the owner's side. The answers
-- to a challenge are in Fold/Verifying. The
-- fields of an event are the arguments; one that the library may leave out is an `Option`.
use reference_app.Bag.{commit_round_version, update_bag_version}
use reference_app.Fold.Context.{
  FoldContext, FoldState, change_row, log, notify_outcome, round_complete, round_resolved, row_on,
  with_rounds, ◌▹◌,
}
use reference_app.Prelude.{
  Bool, List, Option, String, [], any, false, filter, if◌then◌else◌, ltb, map, nat_eq, none, not,
  or_else, some, string_eq, ℕ, ◌&&◌, ◌++◌, ◌==◌, ◌||◌, ◌∷◌,
}
use reference_app.Roster.{awaits_version, settle_unanswered_shares, unanswered_memo}
use reference_app.Rounds.{
  PendingBag, RoundTracker, complete_round, confirmed_count, drop_share, helpers_answered,
  is_awaiting_share, record_share_confirmed, record_share_failed,
}
use reference_app.Types.{
  BagVersion, HeldShare, PairedParticipant, Refusal, SecretBag, SecretShareRef, Vault, confirmed,
  rejected,
}

abbrev same_share : String → ℕ → HeldShare → Bool
same_share channel_id version s = s.channel_id == channel_id && s.version == version

abbrev still_held : FoldContext → String → ℕ → HeldShare → Bool
still_held ctx channel_id version s =
    not (s.channel_id == channel_id)
    || s.version == version
    || ctx.is_share_held channel_id s.version

unfoldable pub share_stored :
    FoldContext → Vault → String → Option ℕ → FoldState → Vault × FoldState
share_stored ctx current channel_id given st =
    if channel_id == ""
    then (current, st)
    else let version = or_else given 1 in
      let existing = filter (still_held ctx channel_id version) current.held_shares in
      if any (same_share channel_id version) existing
      then (record current { held_shares = existing }, st)
      else (
        record current {
          held_shares =
              existing
              ++ record {
                channel_id = channel_id;
                secret_id = "";
                version = version;
                description = "";
              }
                ∷ [];
        },
        st,
      )

abbrev pub replace_share : SecretShareRef → PairedParticipant → PairedParticipant
replace_share share h = record h {
  secret_shares = filter (λ s. not (s.version == share.version)) h.secret_shares ++ share ∷ [];
}

abbrev pub commit_staged :
    Vault → ℕ → FoldState → Option PendingBag × RoundTracker → Vault × FoldState
commit_staged current version st (none, t) = (current, with_rounds st t)
commit_staged current version st (some staged, t) = (
  record current { secret_bag = some (commit_round_version current.secret_bag staged.bag) },
  with_rounds st t ▹ round_resolved ▹ log "sharing" "sharing_round_helpers_done",
)

unfoldable pub commit_once_helpers_answered : Vault → ℕ → FoldState → Vault × FoldState
commit_once_helpers_answered current version st =
    if not (helpers_answered st.rounds version)
    then (current, st)
    else if ltb (confirmed_count st.rounds version) current.min_participants
    then (current, st)
    else commit_staged current version st (complete_round st.rounds version)

abbrev confirmed_share : ℕ → SecretShareRef
confirmed_share version = record {
  version = version;
  status = confirmed;
  verified = false;
  failure = none;
}

abbrev pub confirmed_by :
    Vault → String → ℕ → FoldState → Option PairedParticipant → Vault × FoldState
confirmed_by current channel_id version st none = (current, st)
confirmed_by current channel_id version st (some participant) =
    commit_once_helpers_answered
      (record current {
        participants =
            change_row participant.id (replace_share (confirmed_share version))
              current.participants;
      })
      version
      (with_rounds st (record_share_confirmed st.rounds version participant.id (some channel_id)))

unfoldable pub share_confirmed : Vault → String → Option ℕ → FoldState → Vault × FoldState
share_confirmed current channel_id given st =
    if channel_id == ""
    then (current, st)
    else let version = or_else given 1 in
      let st = st ▹ log "sharing" "ShareConfirmed" in
      if not (is_awaiting_share st.rounds channel_id (some version))
      then (current, st)
      else confirmed_by current channel_id version st (row_on current channel_id)

abbrev rejected_share : ℕ → ℕ → String → SecretShareRef
rejected_share version status memo = record {
  version = version;
  status = rejected;
  verified = false;
  failure = some (record { status = status; memo = memo });
}

abbrev pub rejected_by :
    Vault → ℕ → ℕ → String → FoldState → Option PairedParticipant → Vault × FoldState
rejected_by current version status memo st none = (current, st)
rejected_by current version status memo st (some participant) =
    commit_once_helpers_answered
      (record current {
        participants =
            change_row participant.id (replace_share (rejected_share version status memo))
              current.participants;
      })
      version
      (with_rounds st (
        record_share_failed st.rounds version
          (record { id = participant.id; status = status; memo = memo })))

unfoldable pub share_rejected :
    Vault → String → Option ℕ → Option ℕ → Option String → FoldState → Vault × FoldState
share_rejected current channel_id given given_status given_memo st =
    if channel_id == ""
    then (current, st)
    else let version = or_else given 1 in
      let st = st ▹ log "sharing" "ShareRejected" in
      rejected_by current version (or_else given_status 0) (or_else given_memo "")
        (with_rounds st (drop_share st.rounds channel_id version)) (row_on current channel_id)

-- the rows that never answered, as the bag records them
abbrev pub unanswered_rows : ℕ → List PairedParticipant → List PairedParticipant
unanswered_rows version = filter (λ p. any (awaits_version version) p.secret_shares)

abbrev unanswered_refusals : List PairedParticipant → List Refusal → List Refusal
unanswered_refusals rows known =
    map (λ p. record { id = p.id; status = 0; memo = unanswered_memo })
      (filter (λ p. not (any (λ f. f.id == p.id) known)) rows)

abbrev close_unanswered : List PairedParticipant → BagVersion → BagVersion
close_unanswered rows v = record v {
  failed_participant_ids =
      v.failed_participant_ids ++ unanswered_refusals rows v.failed_participant_ids;
}

-- a publish that this device did not stage: the current version goes on under the new number
abbrev pub carry_forward : SecretBag → ℕ → SecretBag
carry_forward bag version = record bag {
  current_version = record bag.current_version {
    version = version;
    verified_participant_ids = [];
    verify_rejections = none;
    failed_participant_ids = [];
    restored_from_recovery = none;
  };
  previous_versions = bag.current_version ∷ bag.previous_versions;
}

abbrev pub auto_published : Vault → ℕ → Bool → Option SecretBag → Vault
auto_published current version threshold_met none = current
auto_published current version threshold_met (some bag) =
    if threshold_met && ltb bag.current_version.version version
    then record current { secret_bag = some (carry_forward bag version) }
    else current

abbrev pub round_closed : Vault → ℕ → Bool → Option PendingBag → Vault
round_closed current version threshold_met none =
    auto_published current version threshold_met current.secret_bag
round_closed current version threshold_met (some staged) =
    let unanswered = unanswered_rows version current.participants in
    let settled = record current {
      participants = settle_unanswered_shares current.participants version;
    } in
    if threshold_met
    then record settled {
      secret_bag = some (
          commit_round_version current.secret_bag
            (update_bag_version staged.bag version (close_unanswered unanswered)));
    }
    else settled

unfoldable pub sharing_complete : Vault → Option ℕ → Option Bool → FoldState → Vault × FoldState
sharing_complete current given given_met st =
    let version = or_else given 1 in
    let threshold_met = or_else given_met false in
    let (staged, t) = complete_round st.rounds version in
    (
      round_closed current version threshold_met staged,
      with_rounds
            (st
              ▹ log "sharing" "SharingComplete"
              ▹ notify_outcome (round_complete version threshold_met))
            t
          ▹ round_resolved,
    )
