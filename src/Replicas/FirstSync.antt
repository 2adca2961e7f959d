-- ===== src/Replicas/FirstSync.antt =====
-- `createReplicaFirstSyncTrigger` of apps/web/src/replicaFlows.ts. The trigger runs at most one round
-- at a time; a call that starts one ends where it waits for the round, and `settle` is what follows.
pub mod Once
use reference_app.Prelude.{
  Bool, List, Option, String, [], false, filter, if◌then◌else◌, includes, is_some, map, nat_eq,
  none, not, option_eq, pair_eq, set_of, some, string_eq, true, ◌||◌, ◌∷◌,
}
use reference_app.Replicas.Views.{ReplicaView, replicas_awaiting_first_sync}

pub data SyncReason : Type 0 where
  first_sync manual : SyncReason

-- how `runProtectRound` ends: a result, or an exception
pub data RoundEnd : Type 0 where
  round_dispatched nothing_to_mirror : RoundEnd
  round_failed : String → RoundEnd

pub data ManualOutcome : Type 0 where
  manual_end : RoundEnd → ManualOutcome
  busy : ManualOutcome

-- `running`, with what waits for the round, and the set `dispatched`
pub record Trigger : Type 0 where
  pub running : Option SyncReason
  pub dispatched : List String

abbrev pub idle_trigger : Trigger
idle_trigger = record { running = none; dispatched = [] }

pub data TriggerEffect : Type 0 where
  mark_started_ids : List String → TriggerEffect
  run_round : SyncReason → TriggerEffect
  round_outcome : RoundEnd → TriggerEffect
  answer_manual : ManualOutcome → TriggerEffect

pub data TriggerStep : Type 0 where
  observe : List ReplicaView → Bool → TriggerStep
  sync_now : Bool → TriggerStep
  settle : RoundEnd → TriggerStep

unfoldable pub due_ids : Trigger → List ReplicaView → List String
unfolding replicas_awaiting_first_sync
due_ids t views =
    map (λ target. target.replica_id)
      (filter (λ target. not (includes t.dispatched target.replica_id))
        (replicas_awaiting_first_sync views))

abbrev pub begin_first : Trigger → List String → Bool → Trigger × List TriggerEffect
begin_first t [] can_protect = (t, [])
begin_first t (id ∷ ids) can_protect =
    if can_protect
    then (
      record { running = some first_sync; dispatched = set_of t.dispatched (id ∷ ids) },
      mark_started_ids (id ∷ ids) ∷ run_round first_sync ∷ [],
    )
    else (t, [])

unfoldable pub observe_views : Trigger → List ReplicaView → Bool → Trigger × List TriggerEffect
unfolding due_ids
observe_views t views can_protect =
    if is_some t.running then (t, []) else begin_first t (due_ids t views) can_protect

unfoldable pub sync_manually : Trigger → Bool → Trigger × List TriggerEffect
sync_manually t can_protect =
    if is_some t.running || not can_protect
    then (t, answer_manual busy ∷ [])
    else (record t { running = some manual }, run_round manual ∷ [])

unfoldable pub settle_round : Trigger → RoundEnd → Trigger × List TriggerEffect
settle_round t ending = elim t.running [
  | none ↦ (t, [])
  | some first_sync ↦ (record t { running = none }, round_outcome ending ∷ [])
  | some manual ↦ (record t { running = none }, answer_manual (manual_end ending) ∷ [])
]

unfoldable pub trigger_step : Trigger → TriggerStep → Trigger × List TriggerEffect
unfolding observe_views sync_manually settle_round
trigger_step t (observe views can_protect) = observe_views t views can_protect
trigger_step t (sync_now can_protect) = sync_manually t can_protect
trigger_step t (settle ending) = settle_round t ending

-- `automaticSyncNeedsAttention`
unfoldable pub automatic_sync_needs_attention : RoundEnd → Bool
automatic_sync_needs_attention round_dispatched = false
automatic_sync_needs_attention _ = true
