-- ===== src/Rounds.antt =====
-- vault/rounds.ts: the tracker of the protect rounds, verification challenges and the recovery
-- request that a vault has dispatched and still waits on. Each method returns the new tracker.
-- The methods on challenges are in Rounds/Challenges.
-- The clock of the default argument `now = Date.now()` is passed by the caller.
pub mod Challenges
pub mod Ops
pub mod Frame
mod Abandoned
pub mod Invariant
pub mod Completion
pub mod Verification
pub mod Redelivery
pub mod Newest
mod Tests
use reference_app.Bag.{update_bag_participant, update_bag_version}
use reference_app.Prelude.{
  Bool, Dict, List, Option, String, [], all, any, delete, false, filter, has, if◌then◌else◌,
  includes, insert, keys, last?, leb, length, lookup, ltb, map, nat_eq, none, not, set_add,
  set_delete, set_of, some, sort, string_eq, suc, true, values, zero, ℕ, ◌++◌, ◌==◌, ◌∷◌,
}
use reference_app.Types.{
  BagVersion, PendingProtectRound, Refusal, SecretBag, UserSecret, confirmed, pending,
}

pub record VerificationChallenge : Type 0 where
  pub protocol_secret_id : String
  pub version : ℕ
  pub deadline : ℕ

pub record RecoveryRequest : Type 0 where
  pub secret_id : String
  pub version : ℕ
  pub label : String

-- `PendingBag` of vault/types.ts
pub record PendingBag : Type 0 where
  pub bag : SecretBag
  pub version : ℕ
  pub protocol_secret_id : String

pub record OpenRound : Type 0 where
  pub pending : PendingBag
  pub awaiting : List String
  pub confirmed : List String

abbrev pub abandoned_rounds_kept : ℕ
abandoned_rounds_kept = 8

pub record RoundTracker : Type 0 where
  pub rounds : Dict ℕ OpenRound
  pub abandoned : Dict ℕ PendingBag
  pub verifications : Dict String VerificationChallenge
  pub recovery : Option RecoveryRequest

abbrev pub empty : RoundTracker
empty = record { rounds = []; abandoned = []; verifications = []; recovery = none }

-- the argument of `beginProtectRound`
pub record ProtectRound : Type 0 where
  pub bag : SecretBag
  pub version : ℕ
  pub protocol_secret_id : String
  pub channel_ids : List String

abbrev pub is_filled : String → Bool
is_filled s = not (s == "")

abbrev pub opened : ProtectRound → OpenRound
opened round = record {
  pending = record {
    bag = round.bag;
    version = round.version;
    protocol_secret_id = round.protocol_secret_id;
  };
  awaiting = set_of [] (filter is_filled round.channel_ids);
  confirmed = [];
}

unfoldable pub begin_protect_round : RoundTracker → ProtectRound → RoundTracker
begin_protect_round t round = record t {
  abandoned = delete t.abandoned round.version;
  rounds = insert t.rounds round.version (opened round);
}

abbrev pub oldest_first : PendingBag → PendingBag → Bool
oldest_first a b = leb a.version b.version

-- the getter `pendingRounds`, oldest first
unfoldable pub pending_rounds : RoundTracker → List PendingBag
pending_rounds t = sort oldest_first (map (λ r. r.pending) (values t.rounds))

abbrev pub pending_of : Option OpenRound → Option PendingBag
pending_of none = none
pending_of (some round) = some round.pending

unfoldable pub pending_round : RoundTracker → ℕ → Option PendingBag
pending_round t version = pending_of (lookup t.rounds version)

abbrev pub committed_version : Option SecretBag → ℕ
committed_version none = 0
committed_version (some bag) = bag.current_version.version

abbrev pub committed_secrets : Option SecretBag → List UserSecret
committed_secrets none = []
committed_secrets (some bag) = bag.current_version.secrets

abbrev pub newest_secrets : Option PendingBag → Option SecretBag → List UserSecret
newest_secrets none committed = committed_secrets committed
newest_secrets (some newest) committed =
    if ltb (committed_version committed) newest.version
    then newest.bag.current_version.secrets
    else committed_secrets committed

unfoldable pub latest_secrets : RoundTracker → Option SecretBag → List UserSecret
unfolding pending_rounds
latest_secrets t committed = newest_secrets (last? (pending_rounds t)) committed

abbrev pub oldest_round_first : OpenRound → OpenRound → Bool
oldest_round_first a b = oldest_first a.pending b.pending

abbrev pub persisted_round : OpenRound → PendingProtectRound
persisted_round r = record {
  version = r.pending.version;
  protocol_secret_id = r.pending.protocol_secret_id;
  bag = r.pending.bag;
  channel_ids = r.awaiting;
}

unfoldable pub snapshot_protect_rounds : RoundTracker → List PendingProtectRound
snapshot_protect_rounds t = map persisted_round (sort oldest_round_first (values t.rounds))

unfoldable pub has_pending_round : RoundTracker → ℕ → Bool
has_pending_round t version = has t.rounds version

-- the getter `hasAnyPendingRound`
unfoldable pub has_any_pending_round : RoundTracker → Bool
has_any_pending_round t = ltb 0 (length t.rounds)

abbrev pub awaits : String → Option OpenRound → Bool
awaits channel_id none = false
awaits channel_id (some round) = includes round.awaiting channel_id

unfoldable pub is_awaiting_share : RoundTracker → String → Option ℕ → Bool
is_awaiting_share t channel_id (some version) = awaits channel_id (lookup t.rounds version)
is_awaiting_share t channel_id none = any (λ r. includes r.awaiting channel_id) (values t.rounds)

abbrev pub add_confirmed : Option String → List String → List String
add_confirmed none known = known
add_confirmed (some channel_id) known = if channel_id == "" then known else set_add known channel_id

abbrev pub with_bag : PendingBag → SecretBag → PendingBag
with_bag staged bag = record staged { bag = bag }

abbrev pub confirm_in : ℕ → String → Option String → OpenRound → OpenRound
confirm_in version participant_id channel_id round = record round {
  confirmed = add_confirmed channel_id round.confirmed;
  pending =
      with_bag round.pending (update_bag_participant round.pending.bag version participant_id);
}

-- a write to the round that stands at `version`, if one does; a round is an object of the map
abbrev pub modify : RoundTracker → ℕ → (OpenRound → OpenRound) → Option OpenRound → RoundTracker
modify t version change none = t
modify t version change (some round) = record t { rounds = insert t.rounds version (change round) }

unfoldable pub record_share_confirmed : RoundTracker → ℕ → String → Option String → RoundTracker
record_share_confirmed t version participant_id channel_id =
    modify t version (confirm_in version participant_id channel_id) (lookup t.rounds version)

abbrev pub count_confirmed : Option OpenRound → ℕ
count_confirmed none = 0
count_confirmed (some round) = length round.pending.bag.current_version.participant_ids

unfoldable pub confirmed_count : RoundTracker → ℕ → ℕ
confirmed_count t version = count_confirmed (lookup t.rounds version)

abbrev pub all_answered : Option OpenRound → Bool
all_answered none = false
all_answered (some round) = all (includes round.confirmed) round.awaiting

unfoldable pub helpers_answered : RoundTracker → ℕ → Bool
helpers_answered t version = all_answered (lookup t.rounds version)

abbrev pub drop_in : String → OpenRound → OpenRound
drop_in channel_id round = record round { awaiting = set_delete round.awaiting channel_id }

unfoldable pub drop_share : RoundTracker → String → ℕ → RoundTracker
drop_share t channel_id version = modify t version (drop_in channel_id) (lookup t.rounds version)

abbrev pub add_failure : Refusal → BagVersion → BagVersion
add_failure failure v = record v {
  failed_participant_ids = v.failed_participant_ids ++ failure ∷ [];
}

abbrev pub fail_in : ℕ → Refusal → OpenRound → OpenRound
fail_in version failure round = record round {
  pending =
      with_bag round.pending (update_bag_version round.pending.bag version (add_failure failure));
}

unfoldable pub record_share_failed : RoundTracker → ℕ → Refusal → RoundTracker
record_share_failed t version failure =
    modify t version (fail_in version failure) (lookup t.rounds version)

abbrev pub take_abandoned : RoundTracker → ℕ → Option PendingBag → Option PendingBag × RoundTracker
take_abandoned t version none = (none, t)
take_abandoned t version (some late) =
    (some late, record t { abandoned = delete t.abandoned version })

abbrev pub take_open : RoundTracker → ℕ → Option OpenRound → Option PendingBag × RoundTracker
take_open t version none = take_abandoned t version (lookup t.abandoned version)
take_open t version (some round) =
    (some round.pending, record t { rounds = delete t.rounds version })

unfoldable pub complete_round : RoundTracker → ℕ → Option PendingBag × RoundTracker
complete_round t version = take_open t version (lookup t.rounds version)

-- `Math.min` of a list that is not empty
abbrev pub least : ℕ → List ℕ → ℕ
least m [] = m
least m (n ∷ ns) = least (if ltb n m then n else m) ns

abbrev pub drop_oldest : Dict ℕ PendingBag → Dict ℕ PendingBag
drop_oldest [] = []
drop_oldest ((n, p) ∷ rest) = delete ((n, p) ∷ rest) (least n (keys rest))

-- `while (size > ABANDONED_ROUNDS_KEPT)`: each pass drops one entry at least, so as many passes as
-- there are entries are enough
unfoldable pub trim : ℕ → Dict ℕ PendingBag → Dict ℕ PendingBag
trim zero abandoned = abandoned
trim (suc fuel) abandoned =
    let rest = trim fuel (drop_oldest abandoned) in
    if ltb abandoned_rounds_kept (length abandoned) then rest else abandoned

abbrev pub keep_abandoned : Dict ℕ PendingBag → ℕ → PendingBag → Dict ℕ PendingBag
keep_abandoned abandoned version staged =
    let kept = insert abandoned version staged in trim (length kept) kept

abbrev pub give_up : RoundTracker → ℕ → Option OpenRound → Bool × RoundTracker
give_up t version none = (false, t)
give_up t version (some round) = (
  true,
  record t {
    rounds = delete t.rounds version;
    abandoned = keep_abandoned t.abandoned version round.pending;
  },
)

unfoldable pub abandon_round : RoundTracker → ℕ → Bool × RoundTracker
abandon_round t version = give_up t version (lookup t.rounds version)

unfoldable pub abandon_all : RoundTracker → RoundTracker
abandon_all t = record t { verifications = [] }

unfoldable pub begin_recovery : RoundTracker → RecoveryRequest → RoundTracker
begin_recovery t request = record t { recovery = some request }

unfoldable pub take_recovery : RoundTracker → Option RecoveryRequest × RoundTracker
take_recovery t = (t.recovery, record t { recovery = none })
