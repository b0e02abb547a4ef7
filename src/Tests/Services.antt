-- ===== src/Tests/Services.antt =====
-- The service supervisor at concrete inputs.
use agent_d.Base.{◌≡◌, refl, List, [], ◌∷◌, none, some, arith}
use agent_d.Base.Text.{Str, text, str_eq}
use agent_d.Base.Keys.{str_key}
use agent_d.Base.Maps.{get, insert}
use agent_d.Services.{
  ServiceDef, ServiceRegistry, ServiceEntry, Outcome, returned, failed, running, register,
  definition_of, set_state, set_error, report, has_failed, should_restart, doubled, supervise,
  start_service, names, list, status, statuses, unregister,
}
use agent_d.Services.Backoff.{delay, sleeps_after, supervise-sleeps}

watched : Unit {0}
unfolding get insert str_eq register definition_of set_state set_error report has_failed
    should_restart doubled supervise start_service delay sleeps_after names list status statuses
    unregister
watched = tt

abbrev loop : Str
loop = text "loop"

abbrev definition : ServiceDef
definition = record {
  name = loop;
  tool = none;
  source = none;
  restart = some (text "always");
  backoff_ms = some 100;
  backoff_max_ms = some 300;
}

abbrev entry : ServiceEntry
entry = record { definition = definition; state = running; last_error = none }

abbrev registry : ServiceRegistry
registry = (loop, entry) ∷ []

abbrev bad : Outcome
bad = failed (text "no route")

abbrev outcomes : List Outcome
outcomes = bad ∷ bad ∷ bad ∷ returned ∷ bad ∷ []

sleeps_tests :
    (supervise loop (some (text "always")) 100 300 outcomes 100 registry).sleeps
    ≡ 100 ∷ 200 ∷ 300 ∷ 50 ∷ 100 ∷ []
unfolding watched
sleeps_tests = refl

supervise-sleeps_example :
    (supervise loop (some (text "always")) 100 300 outcomes (delay 100 300 0) registry).sleeps
    ≡ sleeps_after 100 300 (some (text "always")) 0 outcomes
supervise-sleeps_example =
    supervise-sleeps 100 300 loop (some (text "always")) outcomes 0 registry (omega arith)
