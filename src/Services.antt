-- ===== src/Services.antt =====
-- crates/services/src/lib.rs: the registry of services, and the supervisor of
-- crates/executor/src/lib.rs (`start_service`), which calls a service's body again and again. The
-- outcomes of the calls are a list; where it ends, the body is still running.
pub mod Backoff
pub mod States
use agent_d.Base.{
  ℕ, ◌*◌, ◌≡◌, Bool, true, false, List, [], ◌∷◌, Option, none, some, map, min, length, is_empty,
  if◌then◌else◌, unwrap_or,
}
use mathlib.Core.Option
use agent_d.Base.Text.{Str, text, str_eq}
use agent_d.Base.Keys.{str_key}
use agent_d.Base.Maps.{Map, get, insert, remove, values}

pub record ServiceDef : Type 0 where
  pub name : Str
  pub tool : Option Str
  pub source : Option Str
  pub restart : Option Str
  pub backoff_ms : Option ℕ
  pub backoff_max_ms : Option ℕ

pub data ServiceState : Type 0 where
  pending running stopped crashed : ServiceState

pub record ServiceStatus : Type 0 where
  pub name : Str
  pub state : ServiceState
  pub last_error : Option Str

pub record ServiceEntry : Type 0 where
  pub definition : ServiceDef
  pub state : ServiceState
  pub last_error : Option Str

abbrev pub ServiceRegistry : Type 0
ServiceRegistry = Map Str ServiceEntry

unfoldable pub register : ServiceDef → ServiceRegistry → ServiceRegistry
register d s = insert d.name (record { definition = d; state = pending; last_error = none }) s

unfoldable pub definition_of : Str → ServiceRegistry → Option ServiceDef
definition_of name s = Option.map (λ (e : ServiceEntry). e.definition) (get name s)

unfoldable pub unregister : Str → ServiceRegistry → Option ServiceDef × ServiceRegistry
unregister name s = (definition_of name s, remove name s)

unfoldable pub names : ServiceRegistry → List Str
names s = map (λ e. e.0) s

unfoldable pub list : ServiceRegistry → List ServiceDef
list s = map (λ (e : ServiceEntry). e.definition) (values s)

abbrev pub status_of : ServiceEntry → ServiceStatus
status_of e = record { name = e.definition.name; state = e.state; last_error = e.last_error }

unfoldable pub status : Str → ServiceRegistry → Option ServiceStatus
status name s = Option.map status_of (get name s)

unfoldable pub statuses : ServiceRegistry → List ServiceStatus
statuses s = map status_of (values s)

unfoldable pub set_state : Str → ServiceState → ServiceRegistry → ServiceRegistry
set_state name state s = elim (get name s) [
  | some e ↦ insert name (record e { state = state }) s
  | none ↦ s
]

unfoldable pub set_error : Str → Str → ServiceRegistry → ServiceRegistry
set_error name error s = elim (get name s) [
  | some e ↦ insert name (record e { last_error = some error; state = crashed }) s
  | none ↦ s
]

-- How a call of the body ends.
pub data Outcome : Type 0 where
  returned : Outcome
  failed : Str → Outcome

-- What the supervisor has done: how long it slept each time, whether it has ended, and the registry.
pub record Watch : Type 0 where
  pub sleeps : List ℕ
  pub ended : Bool
  pub registry : ServiceRegistry

unfoldable pub has_failed : Outcome → Bool
has_failed returned = false
has_failed (failed e) = true

unfoldable pub report : Str → Outcome → ServiceRegistry → ServiceRegistry
report name returned s = set_state name stopped s
report name (failed e) s = set_error name e s

unfoldable pub should_restart : Option Str → Outcome → Bool
should_restart none o = false
should_restart (some r) o =
    if str_eq r (text "always")
    then true
    else if str_eq r (text "on_failure")
    then has_failed o
    else false

-- The backoff after a failure: doubled in 64 bits without wrapping, and capped.
unfoldable pub doubled : ℕ → ℕ → ℕ
doubled cap current = min (min (current * 2) 18446744073709551615) cap

abbrev pub slept : ℕ → Watch → Watch
slept n w = record w { sleeps = n ∷ w.sleeps }

module _ (name : Str) (restart : Option Str) (backoff cap : ℕ) where
  unfoldable pub supervise : List Outcome → ℕ → ServiceRegistry → Watch
  supervise [] current s = record { sleeps = []; ended = false; registry = s }
  supervise (o ∷ os) current s =
      let reported = report name o s in
      let wait = if has_failed o then current else 50 in
      let next = if has_failed o then doubled cap current else backoff in
      let rest = supervise os next (set_state name running reported) in
      if should_restart restart o
      then slept wait rest
      else record { sleeps = []; ended = true; registry = reported }

unfoldable pub start_service : Str → List Outcome → ServiceRegistry → Option Watch
start_service name outcomes s =
    Option.map
      (λ (d : ServiceDef).
        let backoff = unwrap_or 1000 d.backoff_ms in
        supervise name d.restart backoff (unwrap_or 60000 d.backoff_max_ms) outcomes backoff
          (set_state name running s))
      (definition_of name s)
