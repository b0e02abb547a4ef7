-- ===== src/Services/Backoff.antt =====
-- How long the supervisor sleeps between the calls of a service's body.
use agent_d.Base.{
  ℕ, zero, suc, ◌*◌, ◌^◌, ◌≤◌, ◌≡◌, refl, ap, inl, inr, List, [], ◌∷◌, Option, min, arith,
  if◌then◌else◌, Bool-cases,
}
use agent_d.Base.Text.{Str}
use agent_d.Services.{ServiceRegistry, Outcome, has_failed, should_restart, doubled, supervise}

module _ (backoff cap : ℕ) where
  -- The sleep after so many failures in a row.
  unfoldable pub delay : ℕ → ℕ
  delay zero = backoff
  delay (suc k) = min (backoff * 2 ^ suc k) cap

  twice : (k : ℕ) → backoff * 2 ^ suc (suc k) ≡ (backoff * 2 ^ suc k) * 2
  twice k = grind arith

  doubled-delay : (k : ℕ) → cap ≤ 18446744073709551615 → doubled cap (delay k) ≡ delay (suc k)
  unfolding doubled delay
  doubled-delay zero h = omega arith
  doubled-delay (suc k) h = omega (arith, twice k)

  -- The sleeps of a supervisor that has seen so many failures in a row.
  unfoldable pub sleeps_after : Option Str → ℕ → List Outcome → List ℕ
  sleeps_after restart k [] = []
  sleeps_after restart k (o ∷ os) =
      let more = sleeps_after restart (if has_failed o then suc k else zero) os in
      if should_restart restart o then (if has_failed o then delay k else 50) ∷ more else []

  -- With a cap of 64 bits, and however often the service fails and returns, the supervisor sleeps for
  -- the given time after a first failure, for that time doubled once for each failure in a row since,
  -- at most the cap, after a later one, and briefly after a return, until the policy ends it.
  pub supervise-sleeps :
      (name : Str) (restart : Option Str) (os : List Outcome) (k : ℕ) (s : ServiceRegistry)
      → cap ≤ 18446744073709551615
      → (supervise name restart backoff cap os (delay k) s).sleeps ≡ sleeps_after restart k os
  unfolding supervise sleeps_after delay has_failed should_restart
  supervise-sleeps name restart [] k s h = refl
  supervise-sleeps name restart (o ∷ os) k s h = elim (Bool-cases (should_restart restart o)) [
    | inr e ↦ rw e refl
    | inl e ↦ elim (Bool-cases (has_failed o)) [
      | inl f ↦
          rw (e, f, doubled-delay k h)
            (ap (λ l. delay k ∷ l) (supervise-sleeps name restart os (suc k) _ h))
      | inr f ↦ rw (e, f) (ap (λ l. 50 ∷ l) (supervise-sleeps name restart os zero _ h))
    ]
  ]
