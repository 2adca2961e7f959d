-- ===== src/Mailbox/Tests.antt =====
-- a message is its number; 2 is a request that the owner must answer
use reference_app.Mailbox.{
  Runtime, World, drain_once, drain_paused, pairing_request, process_batch, process_events,
  process_message, raise_all, raise_attention, resolve_attention,
}
use reference_app.Mailbox.Attention.{drain_steps-blocked}
use reference_app.Mailbox.Delivery.{
  DrainStep, drain_step, drain_step_on, drain_steps, drain_steps-order, handled_by, pause_step,
  polled_by, resolve_step, resume_step,
}
use reference_app.Prelude.{
  List, [], false, nat_eq, option_eq, pair_eq, refl, some, string_eq, true, ℕ, ◌++◌, ◌==◌, ◌∷◌, ◌≡◌,
}

abbrev small_world : World (List ℕ) ℕ ℕ
small_world = record {
  runs = λ m. true;
  process = λ m. record { events = m ∷ []; failure = false };
  asks_owner = λ e. e == 2;
  route = λ e v. record {
    record_now = v;
    raised = record { id = "q"; kind = pairing_request; blocks_drain = true; raised_at = 0 } ∷ [];
    hold_back = true;
  };
  fold_one = λ v e. some (v ++ e ∷ []);
  report = λ v. v;
}

abbrev fresh_runtime : Runtime (List ℕ) ℕ
fresh_runtime = record {
  vault = [];
  pending_inbound = [];
  items = [];
  auto_reject_timers = [];
  pause_reasons = [];
  blocked = false;
  has_protocol = true;
}

abbrev drains : List (DrainStep ℕ)
drains =
    drain_step (some (1 ∷ 2 ∷ 3 ∷ []))
    ∷ drain_step (some (4 ∷ []))
    ∷ resolve_step "q"
    ∷ drain_step (some (5 ∷ []))
    ∷ []

drain_steps-order_example :
    handled_by small_world fresh_runtime drains
      ++ (drain_steps small_world fresh_runtime drains).pending_inbound
    ≡ [] ++ polled_by small_world fresh_runtime drains
drain_steps-order_example = drain_steps-order small_world drains fresh_runtime

drains_vault : (drain_steps small_world fresh_runtime drains).vault ≡ 1 ∷ 3 ∷ 5 ∷ []
unfolding drain_steps drain_step_on drain_once drain_paused process_batch process_message
    process_events raise_all raise_attention resolve_attention
drains_vault = refl

abbrev asked_runtime : Runtime (List ℕ) ℕ
asked_runtime = record fresh_runtime {
  items = record { id = "q"; kind = pairing_request; blocks_drain = true; raised_at = 0 } ∷ [];
}

drain_steps-blocked_example :
    (handled_by small_world asked_runtime
        (drain_step (some (4 ∷ [])) ∷ pause_step "busy" ∷ resume_step "busy" ∷ [])
      ≡ [])
    × (polled_by small_world asked_runtime
          (drain_step (some (4 ∷ [])) ∷ pause_step "busy" ∷ resume_step "busy" ∷ [])
        ≡ [])
drain_steps-blocked_example =
    drain_steps-blocked small_world
      (drain_step (some (4 ∷ [])) ∷ pause_step "busy" ∷ resume_step "busy" ∷ []) asked_runtime "q"
      refl refl
