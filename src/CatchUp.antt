-- ===== src/CatchUp.antt =====
-- apps/web/src/vault/replicaSync.ts: `ReplicaCatchUp`, which asks the replica group for its copy until
-- the copy arrives. An attempt ends where it waits for `discover`, and `discovery_ended` is what
-- follows. What fires a timer is a step.
pub mod Timers
pub mod Pauses
mod Tests
use reference_app.Prelude.{
  Bool, Dict, List, Option, String, [], delete, false, has, if◌then◌else◌, insert, keys, lookup,
  ltb, nat_eq, none, option_eq, pair_eq, some, string_eq, suc, true, zero, ℕ, ◌+◌, ◌-◌, ◌∷◌,
}

pub data TimerKind : Type 0 where
  answer_timeout ask_again : TimerKind

-- a delay that is read off the end of the table is none
pub record Timer : Type 0 where
  pub kind : TimerKind
  pub delay : Option ℕ

pub record Attempt : Type 0 where
  pub attempt : ℕ
  pub timer : Option Timer

-- `starting` is set while the call of `discover` runs
pub record CatchUp : Type 0 where
  pub channels : Dict String Attempt
  pub starting : Bool

pub data Discovery : Type 0 where
  discovery_failed : Discovery
  discovery_events : Bool → Discovery

pub data GroupEvent : Type 0 where
  copy_arrived : String → GroupEvent
  discovery_complete : (fetched : Bool) → GroupEvent
  other_event : GroupEvent

abbrev pub attempt_timeout_ms : ℕ
attempt_timeout_ms = 30000

abbrev pub retry_delays_ms : List ℕ
retry_delays_ms = 5000 ∷ 10000 ∷ 20000 ∷ 40000 ∷ 60000 ∷ []

abbrev pub nth : List ℕ → ℕ → Option ℕ
nth [] i = none
nth (x ∷ xs) zero = some x
nth (x ∷ xs) (suc i) = nth xs i

abbrev pub min_of : ℕ → ℕ → ℕ
min_of a b = if ltb b a then b else a

-- `delays[Math.min(n, delays.length) - 1]`, where -1 is outside
unfoldable pub retry_delay : ℕ → Option ℕ
retry_delay zero = none
retry_delay (suc n) = nth retry_delays_ms (min_of (suc n) 5 - 1)

unfoldable pub syncing : CatchUp → List String
syncing c = keys c.channels

abbrev pub wait_timer : Timer
wait_timer = record { kind = answer_timeout; delay = some attempt_timeout_ms }

-- `arm`: the timer takes the place of the one before, where the channel is still asked for
unfoldable pub wait_for_answer : CatchUp → String → CatchUp
wait_for_answer c id = elim (lookup c.channels id) [
  | none ↦ c
  | some a ↦ record c { channels = insert c.channels id (record a { timer = some wait_timer }) }
]

unfoldable pub retry_later : CatchUp → String → CatchUp
unfolding retry_delay
retry_later c id = elim (lookup c.channels id) [
  | none ↦ c
  | some a ↦ record c {
    channels =
        insert c.channels id
          (record a { timer = some (record { kind = ask_again; delay = retry_delay a.attempt }) });
  }
]

unfoldable pub finish : CatchUp → String → CatchUp
finish c id = record c { channels = delete c.channels id }

-- `attempt`, up to the call of `discover`
unfoldable pub attempt_on : CatchUp → String → Bool → CatchUp
unfolding finish
attempt_on c id eligible = elim (lookup c.channels id) [
  | none ↦ c
  | some a ↦
      if eligible
      then record {
        channels = insert c.channels id (record a { attempt = a.attempt + 1 });
        starting = true;
      }
      else finish c id
]

unfoldable pub start_channel : CatchUp → String → Bool → CatchUp
unfolding attempt_on
start_channel c id eligible =
    if has c.channels id
    then c
    else attempt_on
        (record c { channels = insert c.channels id (record { attempt = 0; timer = none }) }) id
        eligible

-- `attempt`, from where `discover` returned
unfoldable pub discovery_ended : CatchUp → String → Discovery → CatchUp
unfolding retry_later wait_for_answer
discovery_ended c id discovery_failed = retry_later (record c { starting = false }) id
discovery_ended c id (discovery_events complete) =
    let ready = record c { starting = false } in
    if complete then retry_later ready id else wait_for_answer ready id

-- the callback of the timer, which is cleared first
abbrev pub call_back : CatchUp → String → TimerKind → Bool → CatchUp
call_back c id answer_timeout eligible = retry_later c id
call_back c id ask_again eligible = attempt_on c id eligible

abbrev pub cleared : CatchUp → String → Attempt → CatchUp
cleared c id a = record c { channels = insert c.channels id (record a { timer = none }) }

abbrev pub fired : CatchUp → String → Attempt → Option Timer → Bool → CatchUp
fired c id a none eligible = c
fired c id a (some t) eligible = call_back (cleared c id a) id t.kind eligible

unfoldable pub timer_fired : CatchUp → String → Bool → CatchUp
unfolding retry_later attempt_on
timer_fired c id eligible = elim (lookup c.channels id) [
  | none ↦ c
  | some a ↦ fired c id a a.timer eligible
]

abbrev pub wait_all : CatchUp → List String → CatchUp
wait_all c [] = c
wait_all c (id ∷ ids) = wait_all (wait_for_answer c id) ids

abbrev pub finish_all : CatchUp → List String → CatchUp
finish_all c [] = c
finish_all c (id ∷ ids) = finish_all (finish c id) ids

-- `observe`
unfoldable pub observe_event : CatchUp → GroupEvent → CatchUp
unfolding finish wait_for_answer syncing
observe_event c (copy_arrived id) = if has c.channels id then finish c id else c
observe_event c (discovery_complete fetched) =
    if c.starting then c else if fetched then wait_all c (syncing c) else finish_all c (syncing c)
observe_event c other_event = c

unfoldable pub stop_all : CatchUp → CatchUp
stop_all c = record c { channels = [] }

pub data CatchUpStep : Type 0 where
  start_step fire_step : String → Bool → CatchUpStep
  discovery_step : String → Discovery → CatchUpStep
  event_step : GroupEvent → CatchUpStep
  stop_step : CatchUpStep

unfoldable pub catch_up_step : CatchUp → CatchUpStep → CatchUp
unfolding start_channel timer_fired discovery_ended observe_event stop_all
catch_up_step c (start_step id eligible) = start_channel c id eligible
catch_up_step c (fire_step id eligible) = timer_fired c id eligible
catch_up_step c (discovery_step id result) = discovery_ended c id result
catch_up_step c (event_step e) = observe_event c e
catch_up_step c stop_step = stop_all c

unfoldable pub catch_up_steps : CatchUp → List CatchUpStep → CatchUp
unfolding catch_up_step
catch_up_steps c [] = c
catch_up_steps c (s ∷ steps) = catch_up_steps (catch_up_step c s) steps

abbrev pub idle_catch_up : CatchUp
idle_catch_up = record { channels = []; starting = false }
