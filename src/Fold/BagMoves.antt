-- ===== src/Fold/BagMoves.antt =====
-- The secret bag before and after each handler that writes to it.
use reference_app.Bag.{
  add_verified, commit_round_version, update_at, update_bag_verified, update_bag_version,
}
use reference_app.Bag.Commit.{
  BagIsOrdered, commit_round_version-IsOrdered, current-le-commit_round_version,
}
use reference_app.Bag.Lookup.{KeepsVersion}
use reference_app.Bag.Order.{Below, Below-weaken, Descends}
use reference_app.Fold.Context.{FoldContext, FoldState, log, row_on, with_rounds, ◌▹◌}
use reference_app.Fold.Pairing.{bag_without, drop_id, unpaired, without_channel}
use reference_app.Fold.Sharing.{
  auto_published, carry_forward, commit_once_helpers_answered, commit_staged, confirmed_by,
  rejected_by, round_closed, share_confirmed, share_rejected, sharing_complete,
}
use reference_app.Fold.Verifying.{
  add_rejection, rejected_in, share_verified, share_verify_rejected, unproved_by, verified_by,
  verified_in,
}
use reference_app.Prelude.{
  Bool, Bool-cases, List, Option, String, [], arith, false, inl, inr, map, nat_eq, none, or_else,
  refl, some, string_eq, true, ℕ, ◌<◌, ◌==◌, ◌∷◌, ◌≡◌, ◌≤◌,
}
use reference_app.Rounds.{PendingBag, RoundTracker, complete_round}
use reference_app.Rounds.Challenges.{end_verification}
use reference_app.Types.{BagVersion, PairedParticipant, Refusal, SecretBag, Vault}

abbrev pub bag_current : Option SecretBag → ℕ
bag_current none = 0
bag_current (some bag) = bag.current_version.version

pub record Advances (before after : Option SecretBag) : Type 0 where
  pub ordered : BagIsOrdered before → BagIsOrdered after
  pub current : bag_current before ≤ bag_current after

pub Advances-refl : (a : Option SecretBag) → Advances a a
Advances-refl a = record { ordered = λ o. o; current = omega arith }

Below-map :
    (n version : ℕ) (updater : BagVersion → BagVersion)
    → KeepsVersion updater
    → (vs : List BagVersion) → Below n vs
    → Below n (map (update_at version updater) vs)
Below-map n version updater keeps [] b = tt
Below-map n version updater keeps (v ∷ vs) b =
    ground (arith, keeps v, Below-map n version updater keeps vs b.1)

Descends-map :
    (version : ℕ) (updater : BagVersion → BagVersion)
    → KeepsVersion updater
    → (vs : List BagVersion) → Descends vs
    → Descends (map (update_at version updater) vs)
Descends-map version updater keeps [] d = tt
Descends-map version updater keeps (v ∷ vs) d = ground (
  arith,
  keeps v,
  Below-map v.version version updater keeps vs d.0,
  Descends-map version updater keeps vs d.1,
)

update_bag_version-Advances :
    (bag : SecretBag) (version : ℕ) (updater : BagVersion → BagVersion)
    → KeepsVersion updater
    → Advances (some bag) (some (update_bag_version bag version updater))
unfolding update_bag_version
update_bag_version-Advances bag version updater keeps = record {
  ordered = λ o. ground (
    arith,
    keeps bag.current_version,
    Below-map bag.current_version.version version updater keeps bag.previous_versions o.0,
    Descends-map version updater keeps bag.previous_versions o.1,
  );
  current = ground (arith, keeps bag.current_version);
}

commit-Advances :
    (held : Option SecretBag) (staged : SecretBag)
    → Advances held (some (commit_round_version held staged))
commit-Advances none staged = record {
  ordered = commit_round_version-IsOrdered none staged;
  current = omega arith;
}
commit-Advances (some bag) staged = record {
  ordered = commit_round_version-IsOrdered (some bag) staged;
  current = current-le-commit_round_version bag staged;
}

carry_forward-Advances :
    (bag : SecretBag) (version : ℕ)
    → bag.current_version.version < version
    → Advances (some bag) (some (carry_forward bag version))
carry_forward-Advances bag version h = record {
  ordered = λ o. ((h, Below-weaken bag.previous_versions (omega arith) o.0), o);
  current = omega arith;
}

-- what the handlers of a round do to the bag
module _ (v : Vault) where
  -- the bag after an event, against the bag before it
  abbrev pub Moves : Vault × FoldState → Type 0
  Moves after = Advances v.secret_bag after.0.secret_bag

  commit_staged-Moves :
      (version : ℕ) (st : FoldState) (taken : Option PendingBag × RoundTracker)
      → Moves (commit_staged v version st taken)
  commit_staged-Moves version st (none, t) = Advances-refl v.secret_bag
  commit_staged-Moves version st (some staged, t) = commit-Advances v.secret_bag staged.bag

  commit_once-Moves :
      (version : ℕ) (st : FoldState) → Moves (commit_once_helpers_answered v version st)
  unfolding commit_once_helpers_answered
  commit_once-Moves version st = ground (
    arith,
    Advances-refl v.secret_bag,
    commit_staged-Moves version st (complete_round st.rounds version),
  )

module _ (v : Vault) (st : FoldState) where
  confirmed_by-Moves :
      (channel_id : String) (version : ℕ) (after : FoldState) (row : Option PairedParticipant)
      → Moves v (confirmed_by v channel_id version after row)
  confirmed_by-Moves channel_id version after none = Advances-refl v.secret_bag
  confirmed_by-Moves channel_id version after (some participant) =
      commit_once-Moves (record v { participants = _ }) version _

  pub share_confirmed-Moves :
      (channel_id : String) (given : Option ℕ) → Moves v (share_confirmed v channel_id given st)
  unfolding share_confirmed
  share_confirmed-Moves channel_id given = ground (
    arith,
    Advances-refl v.secret_bag,
    confirmed_by-Moves channel_id (or_else given 1) (st ▹ log "sharing" "ShareConfirmed")
        (row_on v channel_id),
  )

  rejected_by-Moves :
      (version status : ℕ) (memo : String) (after : FoldState) (row : Option PairedParticipant)
      → Moves v (rejected_by v version status memo after row)
  rejected_by-Moves version status memo after none = Advances-refl v.secret_bag
  rejected_by-Moves version status memo after (some participant) =
      commit_once-Moves (record v { participants = _ }) version _

  pub share_rejected-Moves :
      (channel_id : String) (given given_status : Option ℕ) (given_memo : Option String)
      → Moves v (share_rejected v channel_id given given_status given_memo st)
  unfolding share_rejected
  share_rejected-Moves channel_id given given_status given_memo =
      elim (Bool-cases (channel_id == "")) [
        | inl blank ↦ rw blank (Advances-refl v.secret_bag)
        | inr there ↦ rw there (rejected_by-Moves _ _ _ _ (row_on v channel_id))
      ]

auto_published-Advances :
    (v : Vault) (version : ℕ) (met : Bool) (held : Option SecretBag)
    → v.secret_bag ≡ held
    → Advances held (auto_published v version met held).secret_bag
auto_published-Advances v version met none e = rw e (Advances-refl none)
auto_published-Advances v version met (some bag) e =
    ground (arith, Advances-refl (some bag), carry_forward-Advances bag version)

round_closed-Advances :
    (v : Vault) (version : ℕ) (met : Bool) (staged : Option PendingBag)
    → Advances v.secret_bag (round_closed v version met staged).secret_bag
round_closed-Advances v version met none = auto_published-Advances v version met v.secret_bag refl
round_closed-Advances v version true (some staged) = commit-Advances v.secret_bag _
round_closed-Advances v version false (some staged) = Advances-refl v.secret_bag

verified_in-Advances :
    (held : Option SecretBag) (version : ℕ) (id : String)
    → Advances held (verified_in held version id)
unfolding update_bag_verified
verified_in-Advances none version id = Advances-refl none
verified_in-Advances (some bag) version id =
    update_bag_version-Advances bag version (add_verified id) (λ w. ground arith)

rejected_in-Advances :
    (held : Option SecretBag) (version : ℕ) (refusal : Refusal)
    → Advances held (rejected_in held version refusal)
rejected_in-Advances none version refusal = Advances-refl none
rejected_in-Advances (some bag) version refusal =
    update_bag_version-Advances bag version (add_rejection refusal) (λ w. refl)

bag_without-Advances :
    (hit : Option PairedParticipant) (held : Option SecretBag)
    → Advances held (bag_without hit held)
bag_without-Advances none held = Advances-refl held
bag_without-Advances (some hit) none = Advances-refl none
bag_without-Advances (some hit) (some bag) =
    update_bag_version-Advances bag bag.current_version.version (drop_id hit.id) (λ w. refl)

module _ (ctx : FoldContext) (v : Vault) (st : FoldState) where
  pub sharing_complete-Moves :
      (given : Option ℕ) (given_met : Option Bool) → Moves v (sharing_complete v given given_met st)
  unfolding sharing_complete
  sharing_complete-Moves given given_met =
      round_closed-Advances v _ _ (complete_round st.rounds (or_else given 1)).0

  verified_by-Moves :
      (version : ℕ) (after : FoldState) (row : Option PairedParticipant)
      → Moves v (verified_by ctx v version after row)
  verified_by-Moves version after none = Advances-refl v.secret_bag
  verified_by-Moves version after (some p) = verified_in-Advances v.secret_bag version p.id

  pub share_verified-Moves :
      (channel_id : String) (given : Option ℕ) → Moves v (share_verified ctx v channel_id given st)
  unfolding share_verified
  share_verified-Moves channel_id given = ground (
    arith,
    Advances-refl v.secret_bag,
    verified_by-Moves (or_else given 1)
        (with_rounds (st ▹ log "verification" "ShareVerified")
          (end_verification st.rounds channel_id))
        (row_on v channel_id),
  )

  unproved_by-Moves :
      (version status : ℕ) (memo : String) (after : FoldState) (row : Option PairedParticipant)
      → Moves v (unproved_by ctx v version status memo after row)
  unproved_by-Moves version status memo after none = Advances-refl v.secret_bag
  unproved_by-Moves version status memo after (some p) = rejected_in-Advances v.secret_bag version _

  pub share_verify_rejected-Moves :
      (channel_id : String) (version status : ℕ) (memo : String)
      → Moves v (share_verify_rejected ctx v channel_id version status memo st)
  unfolding share_verify_rejected
  share_verify_rejected-Moves channel_id version status memo = ground (
    arith,
    Advances-refl v.secret_bag,
    unproved_by-Moves version status memo
        (with_rounds (st ▹ log "verification" "ShareVerifyRejected")
          (end_verification st.rounds channel_id))
        (row_on v channel_id),
  )

  pub unpaired-Moves : (channel_id : String) → Moves v (unpaired v channel_id st)
  unfolding unpaired without_channel
  unpaired-Moves channel_id =
      ground
        (arith, Advances-refl v.secret_bag, bag_without-Advances (row_on v channel_id) v.secret_bag)
