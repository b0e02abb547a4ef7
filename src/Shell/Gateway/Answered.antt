-- ===== src/Shell/Gateway/Answered.antt =====
-- crates/shell/src/gateway.rs: what was answered to a sandboxed program is admitted.
use agent_d.Base.{ℕ, ◌≤◌, ◌≡◌, subst, false, List, [], ◌∷◌, length}
use agent_d.Base.Text.{Str}
use agent_d.Permissions.Host.{Platform}
use agent_d.Permissions.Slug.{Permission}
use agent_d.Shell.Dns.{IpAddr}
use agent_d.Shell.PermitSet.{ip_key, PermitSet}
use agent_d.Shell.PermitSet.Sizes.{IsBounded}
use agent_d.Shell.Gateway.Log.{Event, queried, revoked, swept, run, run-IsBounded}
use agent_d.Shell.Gateway.Granted.{run-cfg}

module _ (x : IpAddr) (now : ℕ) where
  -- Nothing here takes the address away until then: it is not revoked, and no sweep comes later.
  abbrev pub Undisturbed : List Event → Type 0
  Undisturbed [] = Unit
  Undisturbed (queried resolve ttl t packet ∷ log) = Undisturbed log
  Undisturbed (revoked ip ∷ log) = (ip_key.beq ip x ≡ false) × Undisturbed log
  Undisturbed (swept t ∷ log) = (t ≤ now) × Undisturbed log

module _ (p : Platform) (lossy : List ℕ → Str) (grants : List Permission) where
  -- The set never holds more addresses than it may.
  pub run-max_size :
      (literals : List IpAddr) (log : List Event)
      → length (run p lossy grants literals log).entries ≤ 4096
  unfolding IsBounded
  run-max_size literals log =
      subst (λ c. length (run p lossy grants literals log).entries ≤ c.max_size)
        (run-cfg p lossy grants literals log) (run-IsBounded p lossy grants literals log).0
