-- ===== src/CatchUp/Tests.antt =====
-- Examples over the catch-up of apps/web/src/vault/replicaSync.ts.
use reference_app.CatchUp.{
  CatchUpStep, attempt_on, catch_up_step, catch_up_steps, discovery_ended, discovery_events,
  discovery_failed, discovery_step, fire_step, idle_catch_up, retry_later, start_channel,
  start_step, timer_fired, wait_for_answer, wait_timer,
}
use reference_app.CatchUp.Pauses.{Asks, catch_up_steps-Asks}
use reference_app.Prelude.{
  List, [], false, insert, lookup, nat_eq, none, option_eq, pair_eq, refl, some, string_eq, true,
  ◌∷◌, ◌≡◌,
}

abbrev one_attempt : List CatchUpStep
one_attempt = start_step "77" true ∷ discovery_step "77" discovery_failed ∷ []

asked_twice :
    lookup
      (catch_up_step (catch_up_steps idle_catch_up one_attempt) (fire_step "77" true)).channels
      "77"
    ≡ some (record { attempt = 2; timer = none })
unfolding catch_up_steps catch_up_step start_channel attempt_on discovery_ended retry_later
    timer_fired lookup insert
asked_twice = refl

abbrev two_attempts : List CatchUpStep
two_attempts =
    start_step "77" true
    ∷ discovery_step "77" discovery_failed
    ∷ fire_step "77" true
    ∷ discovery_step "77" (discovery_events false)
    ∷ []

catch_up_steps-Asks_example :
    Asks (catch_up_steps idle_catch_up one_attempt) (fire_step "77" true) "77" 2
catch_up_steps-Asks_example =
    catch_up_steps-Asks one_attempt (fire_step "77" true) "77"
      (record { attempt = 2; timer = none }) asked_twice

two_attempts_wait :
    lookup (catch_up_steps idle_catch_up two_attempts).channels "77"
    ≡ some (record { attempt = 2; timer = some wait_timer })
unfolding catch_up_steps catch_up_step start_channel attempt_on discovery_ended retry_later
    timer_fired wait_for_answer lookup insert
two_attempts_wait = refl
