-- ===== src/Mailbox/Delivery.antt =====
-- What becomes of the messages of the mailbox.
use reference_app.Mailbox.{
  Batch, Runtime, World, batch_of, drain_once, drain_paused, pause_drain, process_batch,
  process_message, resolve_attention, resume_drain,
}
use reference_app.Prelude.{
  Bool, Bool-cases, List, Option, String, [], ap, false, inl, inr, none, not, refl, some, sym, true,
  ◌++◌, ◌||◌, ◌∙◌, ◌∷◌, ◌≡◌,
}
use mathlib.Core.List.{append_assoc, append-nil}

-- what the owner and the loops do between two drains
pub data DrainStep (Message : Type 0) : Type 0 where
  drain_step : Option (List Message) → DrainStep Message
  resolve_step pause_step resume_step : String → DrainStep Message

module _ {Message : Type 0} where
  -- the messages that a step takes from the node
  abbrev pub taken_by : DrainStep Message → Bool → List Message
  taken_by (drain_step (some messages)) true = messages
  taken_by _ asked = []

module _ {V Message Event : Type 0} (world : World V Message Event) where
  -- a batch is handled up to a message, and held from there on
  process_batch-append :
      (b : Batch V) (ms : List Message)
      → (process_batch world b ms).1 ++ (process_batch world b ms).2 ≡ ms
  unfolding process_batch
  process_batch-append b [] = refl
  process_batch-append b (m ∷ ms) = elim (Bool-cases (world.runs m)) [
    | inr stopped_here ↦ rw stopped_here refl
    | inl running ↦ elim (Bool-cases (process_message world b m).stopped) [
      | inl held_here ↦ rw (running, held_here) refl
      | inr goes_on ↦
          rw (running, goes_on)
            (ap (λ xs. m ∷ xs) (process_batch-append (process_message world b m) ms))
    ]
  ]

  unfoldable pub drain_step_on :
      Runtime V Message → DrainStep Message → Runtime V Message × Bool × List Message
  unfolding drain_once resolve_attention pause_drain resume_drain
  drain_step_on r (drain_step polled) = drain_once world r polled
  drain_step_on r (resolve_step id) = (resolve_attention r id, false, [])
  drain_step_on r (pause_step reason) = (pause_drain r reason, false, [])
  drain_step_on r (resume_step reason) = (resume_drain r reason, false, [])

  unfoldable pub drain_steps : Runtime V Message → List (DrainStep Message) → Runtime V Message
  unfolding drain_step_on
  drain_steps r [] = r
  drain_steps r (s ∷ steps) = drain_steps (drain_step_on r s).0 steps

  -- the messages that a run hands to the protocol, in order
  unfoldable pub handled_by : Runtime V Message → List (DrainStep Message) → List Message
  unfolding drain_step_on
  handled_by r [] = []
  handled_by r (s ∷ steps) = (drain_step_on r s).2 ++ handled_by (drain_step_on r s).0 steps

  unfoldable pub polled_by : Runtime V Message → List (DrainStep Message) → List Message
  unfolding drain_step_on
  polled_by r [] = []
  polled_by r (s ∷ steps) =
      taken_by s (drain_step_on r s).1 ++ polled_by (drain_step_on r s).0 steps

  drain_step_on-order :
      (r : Runtime V Message) (s : DrainStep Message)
      → (drain_step_on r s).2 ++ (drain_step_on r s).0.pending_inbound
        ≡ r.pending_inbound ++ taken_by s (drain_step_on r s).1
  unfolding drain_step_on drain_once resolve_attention pause_drain resume_drain
  drain_step_on-order r (resolve_step id) = sym (append-nil r.pending_inbound)
  drain_step_on-order r (pause_step reason) = sym (append-nil r.pending_inbound)
  drain_step_on-order r (resume_step reason) = sym (append-nil r.pending_inbound)
  drain_step_on-order r (drain_step none) =
      elim (Bool-cases (r.blocked || drain_paused r || not r.has_protocol)) [
        | inl shut ↦ rw (drain_once, shut) (sym (append-nil r.pending_inbound))
        | inr clear ↦ rw (drain_once, clear) (sym (append-nil r.pending_inbound))
      ]
  drain_step_on-order r (drain_step (some messages)) =
      elim (Bool-cases (r.blocked || drain_paused r || not r.has_protocol)) [
        | inl shut ↦ rw (drain_once, shut) (sym (append-nil r.pending_inbound))
        | inr clear ↦
            rw (drain_once, clear)
              (process_batch-append (batch_of world r) (r.pending_inbound ++ messages))
      ]

  -- Along any steps, the messages that the protocol has handled and those that are held are those
  -- that were held before and those that the node has handed out, in their order: none is lost, none
  -- is handled twice, and none overtakes another, however requests hold the mailbox back.
  pub drain_steps-order :
      (steps : List (DrainStep Message)) (r : Runtime V Message)
      → handled_by r steps ++ (drain_steps r steps).pending_inbound
        ≡ r.pending_inbound ++ polled_by r steps
  unfolding drain_steps handled_by polled_by
  drain_steps-order [] r = sym (append-nil r.pending_inbound)
  drain_steps-order (s ∷ steps) r =
      let next = (drain_step_on r s).0 in
      let handled = (drain_step_on r s).2 in
      append_assoc handled (handled_by next steps) (drain_steps next steps).pending_inbound
      ∙ ap (λ xs. handled ++ xs) (drain_steps-order steps next)
      ∙ sym (append_assoc handled next.pending_inbound (polled_by next steps))
      ∙ ap (λ xs. xs ++ polled_by next steps) (drain_step_on-order r s)
      ∙ append_assoc r.pending_inbound (taken_by s (drain_step_on r s).1) (polled_by next steps)
