-- ===== src/Watchdog.antt =====
-- The timer over a running flow, the rounds that a reload picks up again, and `commit`, which keeps
-- the open rounds with the record (apps/web/src/vault/runtime.ts).
pub mod Overdue
mod Tests
use reference_app.CatchUp.{cleared}
use reference_app.Prelude.{
  Bool, List, Option, String, [], any, false, filter, if◌then◌else◌, includes, length, ltb, map,
  nat_beq, nat_eq, none, not, option_eq, or_else, pair_eq, some, string_eq, ℕ, ◌&&◌, ◌*◌, ◌==◌,
  ◌||◌, ◌∷◌,
}
use reference_app.Replicas.FirstSync.{busy}
use reference_app.Roster.{settle_unanswered_shares}
use reference_app.Rounds.{
  ProtectRound, RoundTracker, abandon_all, abandon_round, begin_protect_round, committed_version,
  confirmed_count, has_any_pending_round, pending_rounds, snapshot_protect_rounds,
}
use reference_app.Rounds.Challenges.{snapshot_verifications}
use reference_app.Types.{PairedParticipant, PendingProtectRound, Vault, pending}

pub record Session : Type 0 where
  pub vault : Vault
  pub rounds : RoundTracker
  pub busy : Bool
  pub armed_for : Option ℕ
  pub discovery_targets : Option (List String)

-- the numbers that the runtime reads: the clock, the timeout of the vault's settings in seconds
pub record SessionContext : Type 0 where
  pub now : ℕ
  pub protocol_timeout_secs : ℕ
  pub no_answer_text : String

abbrev pub protect_round_backstop_ms : ℕ
protect_round_backstop_ms = 150000

abbrev pub nonempty_or_none : {A : Type 0} → List A → Option (List A)
nonempty_or_none [] = none
nonempty_or_none (x ∷ xs) = some (x ∷ xs)

unfoldable pub commit : SessionContext → Session → Vault → Session
unfolding snapshot_protect_rounds snapshot_verifications
commit context s next = record s {
  vault = record next {
    pending_protect_rounds = nonempty_or_none (snapshot_protect_rounds s.rounds);
    pending_verifications = nonempty_or_none (snapshot_verifications s.rounds context.now);
  };
}

-- the getter `flowTimeoutMs`
unfoldable pub flow_timeout_ms : SessionContext → Session → ℕ
unfolding has_any_pending_round
flow_timeout_ms context s =
    let configured = context.protocol_timeout_secs * 1000 in
    if has_any_pending_round s.rounds && ltb configured protect_round_backstop_ms
    then protect_round_backstop_ms
    else configured

unfoldable pub arm_watchdog : SessionContext → Session → Session
unfolding flow_timeout_ms
arm_watchdog context s = record s { armed_for = some (flow_timeout_ms context s) }

-- `setBusy(false)`
abbrev pub set_idle : Session → Session
set_idle s = if s.busy then record s { busy = false; armed_for = none } else s

abbrev pub rolled_back : SessionContext → Session → ℕ → RoundTracker → Session
rolled_back context s version rounds =
    let without_round : Session = record s { rounds = rounds; armed_for = none } in
    set_idle (
      commit context without_round
        (record s.vault { participants = settle_unanswered_shares s.vault.participants version }))

unfoldable pub fail_sharing_round : SessionContext → Session → ℕ → Session
unfolding commit abandon_round settle_unanswered_shares
fail_sharing_round context s version =
    let result = abandon_round s.rounds version in
    if result.0 then rolled_back context s version result.1 else s

unfoldable pub settle_overdue_round : SessionContext → Session → ℕ → Session
unfolding fail_sharing_round confirmed_count
settle_overdue_round context s version =
    if ltb (confirmed_count s.rounds version) s.vault.min_participants
    then fail_sharing_round context s version
    else set_idle s

unfoldable pub settle_all_overdue : SessionContext → Session → List ℕ → Session
unfolding settle_overdue_round
settle_all_overdue context s [] = s
settle_all_overdue context s (version ∷ versions) =
    settle_all_overdue context (settle_overdue_round context s version) versions

abbrev is_filled_text : Option String → Bool
is_filled_text none = false
is_filled_text (some text) = not (text == "")

abbrev unanswered_row : List String → PairedParticipant → Bool
unanswered_row asked p =
    includes asked p.channel_id
    && not (or_else p.discovery_complete false || is_filled_text p.discovery_error)

abbrev mark_row : SessionContext → List String → PairedParticipant → PairedParticipant
mark_row context asked p =
    if unanswered_row asked p then record p { discovery_error = some context.no_answer_text } else p

unfoldable pub mark_discovery_unanswered : SessionContext → Session → Session
unfolding commit
mark_discovery_unanswered context s = elim s.discovery_targets [
  | none ↦ s
  | some asked ↦
      let cleared : Session = record s { discovery_targets = none } in
      if any (unanswered_row asked) s.vault.participants
      then commit context cleared
          (record s.vault { participants = map (mark_row context asked) s.vault.participants })
      else cleared
]

abbrev dropped_flow : SessionContext → Session → Session
dropped_flow context s =
    let marked = mark_discovery_unanswered context s in
    set_idle (record marked { rounds = abandon_all marked.rounds })

unfoldable pub on_flow_timeout : SessionContext → Session → Session
unfolding settle_all_overdue mark_discovery_unanswered abandon_all pending_rounds
on_flow_timeout context s =
    let expired_now : Session = record s { armed_for = none } in
    let versions = map (λ pending. pending.version) (pending_rounds s.rounds) in
    if ltb 0 (length versions)
    then settle_all_overdue context expired_now versions
    else if s.busy
    then dropped_flow context expired_now
    else expired_now

abbrev as_round : PendingProtectRound → ProtectRound
as_round r = record {
  bag = r.bag;
  version = r.version;
  protocol_secret_id = r.protocol_secret_id;
  channel_ids = r.channel_ids;
}

unfoldable pub begin_all : RoundTracker → List PendingProtectRound → RoundTracker
unfolding begin_protect_round
begin_all t [] = t
begin_all t (r ∷ rs) = begin_all (begin_protect_round t (as_round r)) rs

abbrev pub resumable : Vault → List PendingProtectRound → List PendingProtectRound
resumable vault persisted =
    filter (λ r. ltb (committed_version vault.secret_bag) r.version) persisted

abbrev pub resumed :
    SessionContext → Session → List PendingProtectRound → List PendingProtectRound → Session
resumed context s persisted [] = commit context s s.vault
resumed context s persisted (r ∷ rs) =
    let started : Session = record s { rounds = begin_all s.rounds (r ∷ rs) } in
    let kept =
      if nat_beq (length (r ∷ rs)) (length persisted)
      then started
      else commit context started s.vault in
    arm_watchdog context kept

unfoldable pub resume_protect_round : SessionContext → Session → Session
unfolding commit arm_watchdog begin_all has_any_pending_round
resume_protect_round context s =
    let persisted = or_else s.vault.pending_protect_rounds [] in
    if nat_beq (length persisted) 0 || has_any_pending_round s.rounds
    then s
    else resumed context s persisted (resumable s.vault persisted)
