-- ===== src/CatchUp/Timers.antt =====
-- The timers of the catch-up.
use reference_app.CatchUp.{
  Attempt, CatchUp, CatchUpStep, Timer, TimerKind, answer_timeout, ask_again, attempt_on, call_back,
  catch_up_step, catch_up_steps, cleared, copy_arrived, discovery_complete, discovery_ended,
  discovery_events, discovery_failed, discovery_step, event_step, finish, finish_all, fire_step,
  fired, idle_catch_up, min_of, observe_event, other_event, retry_delay, retry_later, start_channel,
  start_step, stop_all, stop_step, syncing, timer_fired, wait_all, wait_for_answer, wait_timer,
}
use reference_app.Prelude.{
  Bool, Bool-cases, Dict, List, Option, Option-cases, String, [], arith, delete, eq_iff, false, has,
  inl, inr, insert, insert-insert, lookup, lookup-delete, lookup-insert, nat_eq, none, option_eq,
  pair_eq, some, string_eq, suc, sym, true, zero, ℕ, ◌+◌, ◌==◌, ◌∙◌, ◌∷◌, ◌≡◌, ◌≤◌,
}

-- a delay that is there, and from 5 to 60 seconds
abbrev pub IsTimely : Option ℕ → Type 0
IsTimely none = ⊥
IsTimely (some delay) = (5000 ≤ delay) × (delay ≤ 60000)

abbrev pub TimerIsTimely : Option Timer → Type 0
TimerIsTimely none = Unit
TimerIsTimely (some t) = IsTimely t.delay

-- every channel was asked about once at least, and its timer has a delay
pub record IsTimed (c : CatchUp) : Type 0 where
  pub attempted : (id : String) (a : Attempt) → lookup c.channels id ≡ some a → 1 ≤ a.attempt
  pub timed : (id : String) (a : Attempt) → lookup c.channels id ≡ some a → TimerIsTimely a.timer

retry_delay-IsTimely : (n : ℕ) → 1 ≤ n → IsTimely (retry_delay n)
unfolding retry_delay
retry_delay-IsTimely zero h = absurd (omega (arith, h))
retry_delay-IsTimely (suc zero) h = ground arith
retry_delay-IsTimely (suc (suc zero)) h = ground arith
retry_delay-IsTimely (suc (suc (suc zero))) h = ground arith
retry_delay-IsTimely (suc (suc (suc (suc zero)))) h = ground arith
retry_delay-IsTimely (suc (suc (suc (suc (suc n))))) h =
    let five : min_of (suc (suc (suc (suc (suc n))))) 5 ≡ 5 = ground arith in rw five (ground arith)

IsTimed-insert :
    (c : CatchUp) (id : String) (a : Attempt) (starting : Bool)
    → IsTimed c
    → 1 ≤ a.attempt
    → TimerIsTimely a.timer
    → IsTimed (record { channels = insert c.channels id a; starting = starting })
IsTimed-insert c id a starting ok asked timely = record {
  attempted = λ j x h. ground (arith, h, asked, ok.attempted j x, lookup-insert c.channels id a j);
  timed = λ j x h. elim (Bool-cases (id == j)) [
    | inl same ↦
        let e : a ≡ x = ground (arith, h, same, lookup-insert c.channels id a j) in rw (← e) timely
    | inr other ↦ ok.timed j x (ground (arith, h, other, lookup-insert c.channels id a j))
  ];
}

IsTimed-delete : (c : CatchUp) (id : String) → IsTimed c → IsTimed (finish c id)
unfolding finish
IsTimed-delete c id ok = record {
  attempted = λ j x h. ground (arith, h, ok.attempted j x, lookup-delete c.channels id j);
  timed = λ j x h. ok.timed j x (ground (arith, h, lookup-delete c.channels id j));
}

IsTimed-starting : (c : CatchUp) (b : Bool) → IsTimed c → IsTimed (record c { starting = b })
IsTimed-starting c b ok = record { attempted = ok.attempted; timed = ok.timed }

IsTimed-retry_later : (c : CatchUp) (id : String) → IsTimed c → IsTimed (retry_later c id)
unfolding retry_later
IsTimed-retry_later c id ok = elim (Option-cases (lookup c.channels id)) [
  | inl gone ↦ rw (retry_later, gone) ok
  | inr (a, there) ↦
      rw (retry_later, there)
        (IsTimed-insert c id
          (record a { timer = some (record { kind = ask_again; delay = retry_delay a.attempt }) })
          c.starting ok (ok.attempted id a there)
          (retry_delay-IsTimely a.attempt (ok.attempted id a there)))
]

IsTimed-wait_for_answer : (c : CatchUp) (id : String) → IsTimed c → IsTimed (wait_for_answer c id)
unfolding wait_for_answer
IsTimed-wait_for_answer c id ok = elim (Option-cases (lookup c.channels id)) [
  | inl gone ↦ rw (wait_for_answer, gone) ok
  | inr (a, there) ↦
      rw (wait_for_answer, there)
        (IsTimed-insert c id (record a { timer = some wait_timer }) c.starting ok
          (ok.attempted id a there) (ground arith))
]

IsTimed-attempt_on :
    (c : CatchUp) (id : String) (eligible : Bool) → IsTimed c → IsTimed (attempt_on c id eligible)
unfolding attempt_on
IsTimed-attempt_on c id eligible ok = elim (Option-cases (lookup c.channels id)) [
  | inl gone ↦ rw (attempt_on, gone) ok
  | inr (a, there) ↦ elim (Bool-cases eligible) [
    | inl fit ↦
        rw (attempt_on, there, fit)
          (IsTimed-insert c id (record a { attempt = a.attempt + 1 }) true ok (omega arith)
            (ok.timed id a there))
    | inr unfit ↦ rw (attempt_on, there, unfit) (IsTimed-delete c id ok)
  ]
]

pub delete-insert :
    (m : Dict String Attempt) (id : String) (a : Attempt) (j : String)
    → lookup m id ≡ none
    → lookup (delete (insert m id a) id) j ≡ lookup m j
delete-insert m id a j gone =
    ground (arith, gone, lookup-delete (insert m id a) id j, lookup-insert m id a j, eq_iff id j)

IsTimed-start :
    (c : CatchUp) (id : String) (eligible : Bool)
    → IsTimed c
    → IsTimed (start_channel c id eligible)
unfolding start_channel attempt_on finish
IsTimed-start c id eligible ok =
    let fresh : Attempt = record { attempt = 0; timer = none } in
    let there : lookup (insert c.channels id fresh) id ≡ some fresh =
      ground (arith, lookup-insert c.channels id fresh id, eq_iff id id) in
    elim (Option-cases (lookup c.channels id)) [
      | inr (a, known) ↦ rw (start_channel, known) ok
      | inl gone ↦ elim (Bool-cases eligible) [
        | inl fit ↦
            rw
              (
                start_channel,
                gone,
                attempt_on,
                there,
                fit,
                insert-insert c.channels id fresh (record fresh { attempt = 1 }),
              )
              (IsTimed-insert c id (record fresh { attempt = 1 }) true ok (omega arith) tt)
        | inr unfit ↦
            rw (start_channel, gone, attempt_on, there, unfit)
              (record {
                attempted =
                    λ j x h. ok.attempted j x (sym (delete-insert c.channels id fresh j gone) ∙ h);
                timed = λ j x h. ok.timed j x (sym (delete-insert c.channels id fresh j gone) ∙ h);
              })
      ]
    ]

IsTimed-cleared :
    (c : CatchUp) (id : String) (a : Attempt)
    → IsTimed c
    → lookup c.channels id ≡ some a
    → IsTimed (cleared c id a)
IsTimed-cleared c id a ok there =
    IsTimed-insert c id (record a { timer = none }) c.starting ok (ok.attempted id a there) tt

IsTimed-call_back :
    (c : CatchUp) (id : String) (kind : TimerKind) (eligible : Bool)
    → IsTimed c
    → IsTimed (call_back c id kind eligible)
IsTimed-call_back c id answer_timeout eligible ok = IsTimed-retry_later c id ok
IsTimed-call_back c id ask_again eligible ok = IsTimed-attempt_on c id eligible ok

IsTimed-fired :
    (c : CatchUp) (id : String) (a : Attempt) (t : Option Timer) (eligible : Bool)
    → IsTimed c
    → lookup c.channels id ≡ some a
    → IsTimed (fired c id a t eligible)
IsTimed-fired c id a none eligible ok there = ok
IsTimed-fired c id a (some t) eligible ok there =
    IsTimed-call_back (cleared c id a) id t.kind eligible (IsTimed-cleared c id a ok there)

IsTimed-wait_all : (ids : List String) (c : CatchUp) → IsTimed c → IsTimed (wait_all c ids)
IsTimed-wait_all [] c ok = ok
IsTimed-wait_all (id ∷ ids) c ok =
    IsTimed-wait_all ids (wait_for_answer c id) (IsTimed-wait_for_answer c id ok)

IsTimed-finish_all : (ids : List String) (c : CatchUp) → IsTimed c → IsTimed (finish_all c ids)
IsTimed-finish_all [] c ok = ok
IsTimed-finish_all (id ∷ ids) c ok = IsTimed-finish_all ids (finish c id) (IsTimed-delete c id ok)

IsTimed-stopped : (c : CatchUp) → IsTimed (record c { channels = [] })
unfolding lookup
IsTimed-stopped c = record { attempted = λ id a h. absurd (cc); timed = λ id a h. absurd (cc) }

IsTimed-step : (c : CatchUp) (s : CatchUpStep) → IsTimed c → IsTimed (catch_up_step c s)
unfolding catch_up_step timer_fired discovery_ended observe_event stop_all
IsTimed-step c (start_step id eligible) ok = IsTimed-start c id eligible ok
IsTimed-step c (fire_step id eligible) ok = elim (Option-cases (lookup c.channels id)) [
  | inl gone ↦ rw (timer_fired, gone) ok
  | inr (a, there) ↦ rw (timer_fired, there) (IsTimed-fired c id a a.timer eligible ok there)
]
IsTimed-step c (discovery_step id discovery_failed) ok =
    IsTimed-retry_later (record c { starting = false }) id (IsTimed-starting c false ok)
IsTimed-step c (discovery_step id (discovery_events true)) ok =
    IsTimed-retry_later (record c { starting = false }) id (IsTimed-starting c false ok)
IsTimed-step c (discovery_step id (discovery_events false)) ok =
    IsTimed-wait_for_answer (record c { starting = false }) id (IsTimed-starting c false ok)
IsTimed-step c (event_step (copy_arrived id)) ok = elim (Bool-cases (has c.channels id)) [
  | inl there ↦ rw (observe_event, there) (IsTimed-delete c id ok)
  | inr gone ↦ rw (observe_event, gone) ok
]
IsTimed-step c (event_step (discovery_complete true)) ok = elim (Bool-cases c.starting) [
  | inl asks ↦ rw (observe_event, asks) (IsTimed-starting c true ok)
  | inr quiet_now ↦
      rw (observe_event, quiet_now)
        (IsTimed-wait_all (syncing c) (record c { starting = false }) (IsTimed-starting c false ok))
]
IsTimed-step c (event_step (discovery_complete false)) ok = elim (Bool-cases c.starting) [
  | inl asks ↦ rw (observe_event, asks) (IsTimed-starting c true ok)
  | inr quiet_now ↦
      rw (observe_event, quiet_now)
        (IsTimed-finish_all (syncing c) (record c { starting = false })
          (IsTimed-starting c false ok))
]
IsTimed-step c (event_step other_event) ok = ok
IsTimed-step c stop_step ok = IsTimed-stopped c

-- After any steps of a catch-up in which every channel was asked about and every timer has a delay of
-- 5 to 60 seconds, as it has none at the start, that is so again: no delay is read off the end of the
-- table.
pub catch_up_steps-IsTimed :
    (steps : List CatchUpStep) (c : CatchUp) → IsTimed c → IsTimed (catch_up_steps c steps)
unfolding catch_up_steps
catch_up_steps-IsTimed [] c ok = ok
catch_up_steps-IsTimed (s ∷ steps) c ok =
    catch_up_steps-IsTimed steps (catch_up_step c s) (IsTimed-step c s ok)

pub idle_catch_up-IsTimed : IsTimed idle_catch_up
unfolding lookup
idle_catch_up-IsTimed = record { attempted = λ id a h. absurd (cc); timed = λ id a h. absurd (cc) }
