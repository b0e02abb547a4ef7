-- ===== src/Services/States.antt =====
-- What the supervisor leaves in the registry.
use agent_d.Base.{ℕ, ◌≡◌, ◌⊎◌, true, false, List, ◌∷◌, ◌++◌, Option, some, All}
use agent_d.Base.Text.{Str, text, str_eq}
use agent_d.Base.Keys.{str_key}
use agent_d.Base.Maps.{get}
use agent_d.Services.{
  ServiceRegistry, ServiceEntry, ServiceState, running, stopped, crashed, Outcome, returned, failed,
  Watch,
}

-- A service's entry with the given state, beside entries that are those of another registry.
pub record Stands (name : Str) (state : ServiceState) (s t : ServiceRegistry) : Type 0 where
  pub entry : ServiceEntry
  pub found : get name t ≡ some entry
  pub in_state : entry.state ≡ state
  pub others : (j : Str) → str_eq name j ≡ false → get j t ≡ get j s

-- How a call that ends leaves its service.
abbrev pub left_by : Outcome → ServiceState
left_by returned = stopped
left_by (failed e) = crashed

abbrev pub HasFailed : Outcome → Type 0
HasFailed o = (m : Str) × (o ≡ failed m)

-- The policies under which a service is started again after a call.
abbrev pub Restarts : Option Str → Outcome → Type 0
Restarts restart o =
    (restart ≡ some (text "always")) ⊎ ((restart ≡ some (text "on_failure")) × HasFailed o)

module _ (name : Str) (restart : Option Str) (backoff cap : ℕ) where
  -- What a watch of the given calls leaves of a registry: the last call that was made is the first
  -- after which the policy does not start the service again.
  abbrev pub Left : List Outcome → ServiceRegistry → Watch → Type 0
  Left os s w =
      ((w.ended ≡ false) × Stands name running s w.registry × All (Restarts restart) os)
      ⊎ ((w.ended ≡ true)
          × ((before : List Outcome) × (o : Outcome) × (after : List Outcome) × (os
                ≡ before ++ o ∷ after)
              × All (Restarts restart) before
              × (¬ Restarts restart o)
              × Stands name (left_by o) s w.registry))
