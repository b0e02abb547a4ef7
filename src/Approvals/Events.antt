-- ===== src/Approvals/Events.antt =====
-- The broker's calls as events, in any order.
use agent_d.Base.{ℕ, ◌≡◌, refl, Bool, List, [], ◌∷◌, none, some}
use agent_d.Base.Keys.{nat_key}
use agent_d.Base.Maps.{get, remove}
use agent_d.Executor.Dispatch.{Verdict}
use agent_d.Approvals.{State, new, send, subscribe, unsubscribe, hang_up, resolve, begin, wake}

-- A call or an event of the broker, in the order in which they take the lock.
pub data Event (R : Type 0) : Type 0 where
  subscribed : Event R
  unsubscribed hung_up : ℕ → Event R
  began : ℕ → ℕ → R → Event R
  resolved : ℕ → Verdict → Event R
  woke : ℕ → ℕ → Bool → Event R

module _ {R : Type 0} where
  unfoldable pub step : Event R → State R → State R
  step subscribed s = (subscribe s).1
  step (unsubscribed a) s = unsubscribe a s
  step (hung_up a) s = hang_up a s
  step (began id c r) s = (begin id c r s).1
  step (resolved id v) s = resolve id v s
  step (woke id c late) s = elim (wake id c late s) [ some (v, t) ↦ t | none ↦ s ]

  -- The state after the events of a log, the latest of which stands first.
  unfoldable pub after : List (Event R) → State R
  after [] = new
  after (e ∷ l) = step e (after l)

  pub resolve-none :
      (id : ℕ) (v : Verdict) (s : State R) → get id s.pending ≡ none → resolve id v s ≡ s
  unfolding resolve
  resolve-none id v s e = rw (e, resolve) refl

  pub resolve-some :
      (id c : ℕ) (v : Verdict) (s : State R)
      → get id s.pending ≡ some c
      → resolve id v s ≡ record s { pending = remove id s.pending; channels = send c v s.channels }
  unfolding resolve
  resolve-some id c v s e = rw (e, resolve) refl
