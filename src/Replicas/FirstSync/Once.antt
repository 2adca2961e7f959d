-- ===== src/Replicas/FirstSync/Once.antt =====
-- Runs of the trigger.
use reference_app.Prelude.{
  Bool, List, Option-cases, String, [], any, any-append, arith, eq_iff, false, filter,
  if◌then◌else◌, includes, includes-set_of, inl, inr, is_some, map, nat_eq, not, option_eq, pair_eq,
  refl, string_eq, true, ◌&&◌, ◌++◌, ◌∙◌, ◌∷◌, ◌≡◌,
}
use reference_app.Replicas.FirstSync.{
  Trigger, TriggerEffect, TriggerStep, answer_manual, begin_first, due_ids, first_sync, manual,
  manual_end, mark_started_ids, observe, observe_views, round_outcome, run_round, settle,
  settle_round, sync_manually, sync_now, trigger_step,
}
use reference_app.Replicas.Views.{ReplicaSyncTarget, ReplicaView, replicas_awaiting_first_sync}

-- what a run of the trigger does, in order
unfoldable pub trigger_run : Trigger → List TriggerStep → List TriggerEffect
unfolding trigger_step
trigger_run t [] = []
trigger_run t (s ∷ steps) = (trigger_step t s).1 ++ trigger_run (trigger_step t s).0 steps

-- the effect marks this replica as started
abbrev pub marks : String → TriggerEffect → Bool
marks id (mark_started_ids ids) = includes ids id
marks id _ = false

abbrev starts : TriggerEffect → Bool
starts (run_round reason) = true
starts _ = false

abbrev ends : TriggerEffect → Bool
ends (round_outcome ending) = true
ends (answer_manual (manual_end ending)) = true
ends _ = false

-- at most one round runs: a start and an end take turns
unfoldable pub alternates : Bool → List TriggerEffect → Bool
alternates running [] = true
alternates running (e ∷ effects) =
    let started = alternates true effects in
    let ended = alternates false effects in
    let same = alternates running effects in
    if starts e then not running && started else if ends e then running && ended else same

undue :
    (dispatched : List String) (targets : List ReplicaSyncTarget) (id : String)
    → includes dispatched id ≡ true
    → includes
        (map
          (λ target. target.replica_id)
          (filter (λ target. not (includes dispatched target.replica_id)) targets))
        id
      ≡ false
undue dispatched [] id h = refl
undue dispatched (target ∷ targets) id h =
    ground (arith, h, undue dispatched targets id h, eq_iff target.replica_id id)

begun :
    (t : Trigger) (ids : List String) (can_protect : Bool) (id : String)
    → includes t.dispatched id ≡ true
    → includes ids id ≡ false
    → (any (marks id) (if is_some t.running then (t, []) else begin_first t ids can_protect).1
        ≡ false)
      × (includes
            (if is_some t.running then (t, []) else begin_first t ids can_protect).0.dispatched
            id
          ≡ true)
begun t [] can_protect id h new = ground (arith, h)
begun t (i ∷ ids) can_protect id h new =
    ground (arith, h, new, includes-set_of id t.dispatched (i ∷ ids))

begun_marks :
    (t : Trigger) (ids : List String) (can_protect : Bool) (id : String)
    → any (marks id) (if is_some t.running then (t, []) else begin_first t ids can_protect).1 ≡ true
    → includes
        (if is_some t.running then (t, []) else begin_first t ids can_protect).0.dispatched
        id
      ≡ true
begun_marks t [] can_protect id h = absurd (ground (arith, h))
begun_marks t (i ∷ ids) can_protect id h =
    ground (arith, h, includes-set_of id t.dispatched (i ∷ ids))

observe-marks :
    (t : Trigger) (views : List ReplicaView) (can_protect : Bool) (id : String)
    → includes t.dispatched id ≡ true
    → (any (marks id) (observe_views t views can_protect).1 ≡ false)
      × (includes (observe_views t views can_protect).0.dispatched id ≡ true)
unfolding observe_views due_ids
observe-marks t views can_protect id h =
    begun t (due_ids t views) can_protect id h
      (undue t.dispatched (replicas_awaiting_first_sync views) id h)

step-marks :
    (t : Trigger) (s : TriggerStep) (id : String)
    → includes t.dispatched id ≡ true
    → (any (marks id) (trigger_step t s).1 ≡ false)
      × (includes (trigger_step t s).0.dispatched id ≡ true)
unfolding trigger_step sync_manually settle_round
step-marks t (observe views can_protect) id h = observe-marks t views can_protect id h
step-marks t (sync_now can_protect) id h = ground (arith, h)
step-marks t (settle ending) id h = elim (Option-cases t.running) [
  | inl rest ↦ ground (arith, rest, h)
  | inr (first_sync, e) ↦ ground (arith, e, h)
  | inr (manual, e) ↦ ground (arith, e, h)
]

run-marks :
    (steps : List TriggerStep) (t : Trigger) (id : String)
    → includes t.dispatched id ≡ true
    → any (marks id) (trigger_run t steps) ≡ false
unfolding trigger_run
run-marks [] t id h = refl
run-marks (s ∷ steps) t id h =
    let (quiet_now, still) = step-marks t s id h in
    any-append (marks id) (trigger_step t s).1 (trigger_run (trigger_step t s).0 steps)
    ∙ ground (arith, quiet_now, run-marks steps (trigger_step t s).0 id still)

marked_is_dispatched :
    (t : Trigger) (s : TriggerStep) (id : String)
    → any (marks id) (trigger_step t s).1 ≡ true
    → includes (trigger_step t s).0.dispatched id ≡ true
unfolding trigger_step observe_views sync_manually settle_round
marked_is_dispatched t (observe views can_protect) id h =
    begun_marks t (due_ids t views) can_protect id h
marked_is_dispatched t (sync_now can_protect) id h = absurd (ground (arith, h))
marked_is_dispatched t (settle ending) id h = elim (Option-cases t.running) [
  | inl rest ↦ absurd (ground (arith, rest, h))
  | inr (first_sync, e) ↦ absurd (ground (arith, e, h))
  | inr (manual, e) ↦ absurd (ground (arith, e, h))
]

-- Once the trigger has marked a replica as started, it marks it never again, whatever steps follow.
pub trigger_run-marks_once :
    (t : Trigger) (s : TriggerStep) (steps : List TriggerStep) (id : String)
    → any (marks id) (trigger_step t s).1 ≡ true
    → any (marks id) (trigger_run (trigger_step t s).0 steps) ≡ false
unfolding trigger_step
trigger_run-marks_once t s steps id h =
    run-marks steps (trigger_step t s).0 id (marked_is_dispatched t s id h)

begun_alternates :
    (t : Trigger) (ids : List String) (can_protect : Bool) (rest : List TriggerEffect)
    → alternates
        (is_some (if is_some t.running then (t, []) else begin_first t ids can_protect).0.running)
        rest
      ≡ true
    → alternates
        (is_some t.running)
        ((if is_some t.running then (t, []) else begin_first t ids can_protect).1 ++ rest)
      ≡ true
unfolding alternates
begun_alternates t [] can_protect rest h = ground (arith, h)
begun_alternates t (i ∷ ids) can_protect rest h = ground (arith, h)

alternates_after :
    (t : Trigger) (s : TriggerStep) (rest : List TriggerEffect)
    → alternates (is_some (trigger_step t s).0.running) rest ≡ true
    → alternates (is_some t.running) ((trigger_step t s).1 ++ rest) ≡ true
unfolding alternates trigger_step observe_views sync_manually settle_round
alternates_after t (observe views can_protect) rest h =
    begun_alternates t (due_ids t views) can_protect rest h
alternates_after t (sync_now can_protect) rest h = ground (arith, h)
alternates_after t (settle ending) rest h = elim (Option-cases t.running) [
  | inl none_runs ↦ ground (arith, none_runs, h)
  | inr (first_sync, e) ↦ ground (arith, e, h)
  | inr (manual, e) ↦ ground (arith, e, h)
]

-- At most one round of the trigger runs at a time: along any steps from any state, a round starts only
-- when none runs, and ends only when one does.
pub trigger_run-alternates :
    (steps : List TriggerStep) (t : Trigger)
    → alternates (is_some t.running) (trigger_run t steps) ≡ true
unfolding trigger_run alternates
trigger_run-alternates [] t = refl
trigger_run-alternates (s ∷ steps) t =
    alternates_after t s (trigger_run (trigger_step t s).0 steps)
      (trigger_run-alternates steps (trigger_step t s).0)
