-- ===== src/CatchUp/Pauses.antt =====
-- The pauses of the catch-up of apps/web/src/vault/replicaSync.ts: when a channel is asked about.
use reference_app.CatchUp.{
  Attempt, CatchUp, CatchUpStep, Discovery, GroupEvent, Timer, TimerKind, answer_timeout, ask_again,
  attempt_on, call_back, catch_up_step, catch_up_steps, cleared, copy_arrived, discovery_complete,
  discovery_ended, discovery_events, discovery_failed, discovery_step, event_step, finish,
  finish_all, fire_step, fired, idle_catch_up, observe_event, other_event, retry_later,
  start_channel, start_step, stop_all, stop_step, syncing, timer_fired, wait_all, wait_for_answer,
}
use reference_app.CatchUp.Timers.{
  IsTimed, IsTimely, TimerIsTimely, catch_up_steps-IsTimed, delete-insert, idle_catch_up-IsTimed,
}
use reference_app.Prelude.{
  Bool, Bool-cases, List, Option, Option-cases, String, [], ap, arith, eq_iff, false, has, inl, inr,
  insert, insert-insert, lookup, lookup-delete, lookup-insert, nat_eq, none, option_eq, pair_eq,
  refl, some, string_eq, sym, true, ℕ, ◌+◌, ◌==◌, ◌∙◌, ◌∷◌, ◌≡◌, ◌⊎◌,
}

-- A channel that is asked about after a step was asked about as often before it; or the step starts
-- it, which was not asked about; or the step is the end of its timer, which had counted down a pause to
-- ask again, of 5 to 60 seconds.
abbrev pub Asks : CatchUp → CatchUpStep → String → ℕ → Type 0
Asks c s id attempts =
    ((before : Attempt) × (lookup c.channels id ≡ some before) × (before.attempt ≡ attempts))
    ⊎ ((s ≡ start_step id true) × (lookup c.channels id ≡ none) × (attempts ≡ 1))
    ⊎ ((before : Attempt) × (timer : Timer) × (lookup c.channels id ≡ some before)
        × (before.timer ≡ some timer)
        × (timer.kind ≡ ask_again)
        × IsTimely timer.delay
        × (s ≡ fire_step id true)
        × (attempts ≡ before.attempt + 1))

-- what a change leaves of the attempts
abbrev Same : CatchUp → CatchUp → Type 0
Same c next =
    (id : String) (a : Attempt)
    → lookup next.channels id ≡ some a
    → (before : Attempt) × (lookup c.channels id ≡ some before) × (before.attempt ≡ a.attempt)

Same-trans : (c d e : CatchUp) → Same c d → Same d e → Same c e
Same-trans c d e f g id a h =
    let (b, there, same) = g id a h in
    let (b0, there0, same0) = f id b there in (b0, there0, same0 ∙ same)

Same-finish : (c : CatchUp) (id : String) → Same c (finish c id)
unfolding finish
Same-finish c id j a h = (a, ground (arith, h, lookup-delete c.channels id j), refl)

-- a channel gets another timer
Same-insert :
    (c : CatchUp) (id : String) (a b : Attempt)
    → lookup c.channels id ≡ some a
    → a.attempt ≡ b.attempt
    → Same c (record c { channels = insert c.channels id b })
Same-insert c id a b there same j x h = elim (Bool-cases (id == j)) [
  | inl here ↦
      let e : b ≡ x = ground (arith, h, here, lookup-insert c.channels id b j) in
      let at : id ≡ j = ground (arith, here, eq_iff id j) in (a, rw (← at) there, rw (← e) same)
  | inr other ↦ (x, ground (arith, h, other, lookup-insert c.channels id b j), refl)
]

Same-retry_later : (c : CatchUp) (id : String) → Same c (retry_later c id)
unfolding retry_later
Same-retry_later c id = elim (Option-cases (lookup c.channels id)) [
  | inl gone ↦ rw (retry_later, gone) (λ j a h. (a, h, refl))
  | inr (a, there) ↦ rw (retry_later, there) (Same-insert c id a _ there refl)
]

Same-wait_for_answer : (c : CatchUp) (id : String) → Same c (wait_for_answer c id)
unfolding wait_for_answer
Same-wait_for_answer c id = elim (Option-cases (lookup c.channels id)) [
  | inl gone ↦ rw (wait_for_answer, gone) (λ j a h. (a, h, refl))
  | inr (a, there) ↦ rw (wait_for_answer, there) (Same-insert c id a _ there refl)
]

Same-wait_all : (ids : List String) (c : CatchUp) → Same c (wait_all c ids)
Same-wait_all [] c = λ id a h. (a, h, refl)
Same-wait_all (i ∷ ids) c =
    Same-trans c (wait_for_answer c i) (wait_all c (i ∷ ids)) (Same-wait_for_answer c i)
      (Same-wait_all ids (wait_for_answer c i))

Same-finish_all : (ids : List String) (c : CatchUp) → Same c (finish_all c ids)
Same-finish_all [] c = λ id a h. (a, h, refl)
Same-finish_all (i ∷ ids) c =
    Same-trans c (finish c i) (finish_all c (i ∷ ids)) (Same-finish c i)
      (Same-finish_all ids (finish c i))

Same-discovery_ended : (c : CatchUp) (id : String) (d : Discovery) → Same c (discovery_ended c id d)
unfolding discovery_ended
Same-discovery_ended c id discovery_failed = Same-retry_later (record c { starting = false }) id
Same-discovery_ended c id (discovery_events true) =
    Same-retry_later (record c { starting = false }) id
Same-discovery_ended c id (discovery_events false) =
    Same-wait_for_answer (record c { starting = false }) id

Same-observe : (c : CatchUp) (e : GroupEvent) → Same c (observe_event c e)
unfolding observe_event
Same-observe c (copy_arrived id) = elim (Bool-cases (has c.channels id)) [
  | inl there ↦ rw (observe_event, there) (Same-finish c id)
  | inr gone ↦ rw (observe_event, gone) (λ j a h. (a, h, refl))
]
Same-observe c (discovery_complete fetched) = elim (Bool-cases c.starting) [
  | inl asks ↦ rw (observe_event, asks) (λ j a h. (a, h, refl))
  | inr quiet_now ↦ elim (Bool-cases fetched) [
    | inl found ↦ rw (observe_event, quiet_now, found) (Same-wait_all (syncing c) _)
    | inr nothing ↦ rw (observe_event, quiet_now, nothing) (Same-finish_all (syncing c) _)
  ]
]
Same-observe c other_event = λ id a h. (a, h, refl)

module _ (c : CatchUp) (i : String) where
  Asks-started :
      (id : String) (a : Attempt)
      → lookup c.channels i ≡ none
      → lookup (insert c.channels i (record { attempt = 1; timer = none })) id ≡ some a
      → Asks c (start_step i true) id a.attempt
  Asks-started id a gone h =
      let first : Attempt = record { attempt = 1; timer = none } in
      elim (Bool-cases (i == id)) [
        | inl here ↦
            let at : i ≡ id = ground (arith, here, eq_iff i id) in
            let e : first ≡ a = ground (arith, h, here, lookup-insert c.channels i first id) in
            inr (inl (ap (λ x. start_step x true) at, rw (← at) gone, rw (← e) refl))
        | inr other ↦ inl (a, ground (arith, h, other, lookup-insert c.channels i first id), refl)
      ]

  Asks-start :
      (eligible : Bool) (id : String) (a : Attempt)
      → lookup (start_channel c i eligible).channels id ≡ some a
      → Asks c (start_step i eligible) id a.attempt
  unfolding start_channel attempt_on finish
  Asks-start eligible id a =
      let fresh : Attempt = record { attempt = 0; timer = none } in
      let there : lookup (insert c.channels i fresh) i ≡ some fresh =
        ground (arith, lookup-insert c.channels i fresh i, eq_iff i i) in
      elim (Option-cases (lookup c.channels i)) [
        | inr (b, known) ↦ rw (start_channel, known) (λ h. inl (a, h, refl))
        | inl gone ↦ elim (Bool-cases eligible) [
          | inl fit ↦
              rw
                (
                  start_channel,
                  gone,
                  attempt_on,
                  there,
                  fit,
                  insert-insert c.channels i fresh (record fresh { attempt = 1 }),
                )
                (Asks-started id a gone)
          | inr unfit ↦
              rw (start_channel, gone, attempt_on, there, unfit)
                (λ h. inl (a, sym (delete-insert c.channels i fresh id gone) ∙ h, refl))
        ]
      ]

  Asks-again :
      (b : Attempt) (delay : Option ℕ) (id : String) (a : Attempt)
      → lookup c.channels i ≡ some b
      → b.timer ≡ some (record { kind = ask_again; delay = delay })
      → IsTimely delay
      → lookup (insert c.channels i (record { attempt = b.attempt + 1; timer = none })) id ≡ some a
      → Asks c (fire_step i true) id a.attempt
  Asks-again b delay id a there set timely h =
      let again : Attempt = record { attempt = b.attempt + 1; timer = none } in
      elim (Bool-cases (i == id)) [
        | inl here ↦
            let at : i ≡ id = ground (arith, here, eq_iff i id) in
            let e : again ≡ a = ground (arith, h, here, lookup-insert c.channels i again id) in
            inr (
              inr (
                b,
                _,
                rw (← at) there,
                set,
                refl,
                timely,
                ap (λ x. fire_step x true) at,
                rw (← e) refl,
              ))
        | inr other ↦ inl (a, ground (arith, h, other, lookup-insert c.channels i again id), refl)
      ]

  Asks-called :
      (b : Attempt) (kind : TimerKind) (delay : Option ℕ) (eligible : Bool) (id : String)
      (a : Attempt)
      → lookup c.channels i ≡ some b
      → b.timer ≡ some (record { kind = kind; delay = delay })
      → IsTimely delay
      → lookup (call_back (cleared c i b) i kind eligible).channels id ≡ some a
      → Asks c (fire_step i eligible) id a.attempt
  unfolding attempt_on
  Asks-called b answer_timeout delay eligible id a there set timely =
      let quiet = cleared c i b in
      λ h. inl (
        Same-trans c quiet (retry_later quiet i)
          (Same-insert c i b (record b { timer = none }) there refl) (Same-retry_later quiet i) id a
          h)
  Asks-called b ask_again delay eligible id a there set timely =
      let quiet = cleared c i b in
      let found : lookup quiet.channels i ≡ some (record b { timer = none }) =
        ground (arith, lookup-insert c.channels i (record b { timer = none }) i, eq_iff i i) in
      elim (Bool-cases eligible) [
        | inl fit ↦
            rw
              (
                attempt_on,
                found,
                fit,
                insert-insert c.channels i (record b { timer = none })
                    (record { attempt = b.attempt + 1; timer = none }),
              )
              (Asks-again b delay id a there set timely)
        | inr unfit ↦
            rw (attempt_on, found, unfit)
              (λ h. inl (
                Same-trans c quiet (finish quiet i)
                  (Same-insert c i b (record b { timer = none }) there refl) (Same-finish quiet i)
                  id a h))
      ]

  Asks-ended :
      (b : Attempt) (timer : Option Timer) (eligible : Bool) (id : String) (a : Attempt)
      → lookup c.channels i ≡ some b
      → b.timer ≡ timer
      → TimerIsTimely timer
      → lookup (fired c i b timer eligible).channels id ≡ some a
      → Asks c (fire_step i eligible) id a.attempt
  Asks-ended b none eligible id a there set timely h = inl (a, h, refl)
  Asks-ended b (some t) eligible id a there set timely h =
      Asks-called b t.kind t.delay eligible id a there set timely h

  Asks-fired :
      (eligible : Bool) (id : String) (a : Attempt)
      → IsTimed c
      → lookup (timer_fired c i eligible).channels id ≡ some a
      → Asks c (fire_step i eligible) id a.attempt
  unfolding timer_fired
  Asks-fired eligible id a ok = elim (Option-cases (lookup c.channels i)) [
    | inl gone ↦ rw (timer_fired, gone) (λ h. inl (a, h, refl))
    | inr (b, there) ↦
        rw (timer_fired, there) (Asks-ended b b.timer eligible id a there refl (ok.timed i b there))
  ]

step-Asks :
    (c : CatchUp) (s : CatchUpStep) (id : String) (a : Attempt)
    → IsTimed c
    → lookup (catch_up_step c s).channels id ≡ some a
    → Asks c s id a.attempt
unfolding catch_up_step stop_all lookup
step-Asks c (start_step i eligible) id a ok h = Asks-start c i eligible id a h
step-Asks c (fire_step i eligible) id a ok h = Asks-fired c i eligible id a ok h
step-Asks c (discovery_step i d) id a ok h = inl (Same-discovery_ended c i d id a h)
step-Asks c (event_step e) id a ok h = inl (Same-observe c e id a h)
step-Asks c stop_step id a ok h = absurd (cc)

-- After any steps from the start, the next step asks about a channel only as `Asks` has it: where it
-- starts a channel that is not being asked about, or where the channel's timer ends, which had been set
-- to ask again with a delay of 5 to 60 seconds. No other step asks, and none asks twice.
pub catch_up_steps-Asks :
    (steps : List CatchUpStep) (s : CatchUpStep) (id : String) (a : Attempt)
    → lookup (catch_up_step (catch_up_steps idle_catch_up steps) s).channels id ≡ some a
    → Asks (catch_up_steps idle_catch_up steps) s id a.attempt
catch_up_steps-Asks steps s id a =
    step-Asks (catch_up_steps idle_catch_up steps) s id a
      (catch_up_steps-IsTimed steps idle_catch_up idle_catch_up-IsTimed)
