-- ===== src/Mailbox.antt =====
-- The inbound side of apps/web/src/vault/runtime.ts: the queue of requests for the owner, which may
-- pause the drain, and the drain of the mailbox, which stops at a request that is held. What the
-- protocol makes of a message, and what an event does to the record, are parameters (`World`); the
-- routing of a request is `Inbound`, and the fold of an event is `Fold`.
pub mod Attention
pub mod Delivery
mod Tests
use reference_app.Inbound.{held}
use reference_app.Inbound.Routing.{asks_owner}
use reference_app.Prelude.{
  Bool, List, Option, String, [], any, false, filter, if◌then◌else◌, length, ltb, nat_eq, none, not,
  option_eq, or_else, pair_eq, set_add, set_delete, some, string_eq, true, ℕ, ◌++◌, ◌==◌, ◌||◌, ◌∷◌,
}

pub data AttentionKind : Type 0 where
  pairing_request store_share_request verify_share_request : AttentionKind
  unpair_request replica_adoption : AttentionKind

pub record AttentionItem : Type 0 where
  pub id : String
  pub kind : AttentionKind
  pub blocks_drain : Bool
  pub raised_at : ℕ

-- a request that is not on the queue yet, with the id and the time that it will get
abbrev pub NewItem : Type 0
NewItem = AttentionItem

-- what the protocol made of a message: its events, and whether it failed as well
pub record Processed (Event : Type 0) : Type 0 where
  pub events : List Event
  pub failure : Bool

pub record Routed (V : Type 0) : Type 0 where
  pub record_now : V
  pub raised : List NewItem
  pub hold_back : Bool

-- What the batch calls: `route` is `routeActionRequired` and `report` is `reportProcessFailure`, which
-- report their own errors and throw none; `fold_one` is `applyEvent`, none where it throws; `process`
-- is the SDK's, and `runs` says whether its instance is there when the message's turn comes.
pub record World (V Message Event : Type 0) : Type 0 where
  pub runs : Message → Bool
  pub process : Message → Processed Event
  pub asks_owner : Event → Bool
  pub route : Event → V → Routed V
  pub fold_one : V → Event → Option V
  pub report : V → V

pub record Runtime (V Message : Type 0) : Type 0 where
  pub vault : V
  pub pending_inbound : List Message
  pub items : List AttentionItem
  pub auto_reject_timers : List String
  pub pause_reasons : List String
  pub blocked : Bool
  pub has_protocol : Bool

-- what is handed on from message to message: the record, and the queue
pub record Batch (V : Type 0) : Type 0 where
  pub folded : V
  pub queue : List AttentionItem
  pub timers : List String
  pub stopped : Bool

abbrev is_timed_kind : AttentionKind → Bool
is_timed_kind store_share_request = true
is_timed_kind verify_share_request = true
is_timed_kind unpair_request = true
is_timed_kind _ = false

module _ {V : Type 0} where
  -- `raiseAttention`, with the timer that `armAutoReject` sets
  unfoldable pub raise_attention : Batch V → NewItem → Batch V
  raise_attention b item = record b {
    queue = b.queue ++ item ∷ [];
    timers = if is_timed_kind item.kind then set_add b.timers item.id else b.timers;
  }

  unfoldable pub raise_all : Batch V → List NewItem → Batch V
  unfolding raise_attention
  raise_all b [] = b
  raise_all b (item ∷ items) = raise_all (raise_attention b item) items

module _ {V Message : Type 0} where
  unfoldable pub resolve_attention : Runtime V Message → String → Runtime V Message
  resolve_attention r id = record r {
    items = filter (λ item. not (item.id == id)) r.items;
    auto_reject_timers = set_delete r.auto_reject_timers id;
  }

  unfoldable pub drain_paused : Runtime V Message → Bool
  drain_paused r = any (λ item. item.blocks_drain) r.items || ltb 0 (length r.pause_reasons)

  unfoldable pub pause_drain : Runtime V Message → String → Runtime V Message
  pause_drain r reason = record r { pause_reasons = set_add r.pause_reasons reason }

  unfoldable pub resume_drain : Runtime V Message → String → Runtime V Message
  resume_drain r reason = record r { pause_reasons = set_delete r.pause_reasons reason }

module _ {V Message Event : Type 0} (world : World V Message Event) where
  abbrev pub routed : Batch V → Routed V → Batch V
  routed b r = record (raise_all (record b { folded = r.record_now }) r.raised) {
    stopped = r.hold_back;
  }

  -- an event that fails leaves the record as it was
  abbrev pub folded_one : Batch V → Event → Batch V
  folded_one b e = record b { folded = or_else (world.fold_one b.folded e) b.folded }

  -- The loop over the events of a message, which ends at a request that is held.
  unfoldable pub process_events : Batch V → List Event → Batch V
  unfolding raise_all
  process_events b [] = b
  process_events b (e ∷ events) =
      let asked = routed b (world.route e b.folded) in
      let after_route = process_events asked events in
      let after_fold = process_events (folded_one b e) events in
      if world.asks_owner e then if asked.stopped then asked else after_route else after_fold

  abbrev pub report_failure : Bool → Batch V → Batch V
  report_failure failure b = if failure then record b { folded = world.report b.folded } else b

  -- one message, with the report of its failure at the end
  unfoldable pub process_message : Batch V → Message → Batch V
  unfolding process_events
  process_message b m =
      let p = world.process m in
      report_failure p.failure (process_events (record b { stopped = false }) p.events)

  -- `processBatch`: the batch, the messages that were handled, and those that are held
  unfoldable pub process_batch : Batch V → List Message → Batch V × List Message × List Message
  unfolding process_message
  process_batch b [] = (b, [], [])
  process_batch b (m ∷ ms) =
      let next = process_message b m in
      let rest = process_batch next ms in
      if not (world.runs m)
      then (b, [], m ∷ ms)
      else if next.stopped
      then (next, m ∷ [], ms)
      else (rest.0, m ∷ rest.1, rest.2)

  abbrev pub batch_of : Runtime V Message → Batch V
  batch_of r = record {
    folded = r.vault;
    queue = r.items;
    timers = r.auto_reject_timers;
    stopped = false;
  }

  abbrev pub after_batch :
      Runtime V Message → Batch V × List Message × List Message → Runtime V Message
  after_batch r (b, handled, held) = record r {
    vault = b.folded;
    items = b.queue;
    auto_reject_timers = b.timers;
    pending_inbound = held;
  }

  -- `drainOnce` as one step, since `draining` keeps a second drain out of it, with what the poll
  -- answers, none where it fails. The second part of the result says
  -- whether the node was asked, and the third has the messages that were handled.
  unfoldable pub drain_once :
      Runtime V Message → Option (List Message) → Runtime V Message × Bool × List Message
  unfolding drain_paused process_batch
  drain_once r polled =
      if r.blocked || drain_paused r || not r.has_protocol then (r, false, []) else elim polled [
        | none ↦ (r, true, [])
        | some messages ↦
            let result = process_batch (batch_of r) (r.pending_inbound ++ messages) in
            (after_batch r result, true, result.1)
      ]
