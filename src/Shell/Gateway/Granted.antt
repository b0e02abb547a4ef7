-- ===== src/Shell/Gateway/Granted.antt =====
-- crates/shell/src/gateway.rs: an address that is admitted was granted.
use agent_d.Base.{
  ℕ, ◌+◌, ◌<◌, ◌≡◌, ◌⊎◌, refl, ap, ◌∙◌, true, false, List, [], ◌∷◌, none, In, inl, inr, ◌++◌,
}
use agent_d.Base.Text.{Str, text, to_ascii_lowercase}
use agent_d.Base.Maps
use agent_d.Permissions.Host.{Platform}
use agent_d.Permissions.Slug.{Permission, parts, of_slug, covers}
use agent_d.Shell.Dns.{IpAddr, Question, question, parse_query}
use agent_d.Shell.PermitSet.{
  PermitSet, default_config, allow_literal, allow_resolved, clamped, sweep,
}
use agent_d.Shell.PermitSet.Entries.{insert-cfg}
use agent_d.Shell.PermitSet.Removals.{revoke-cases}
use agent_d.Shell.Gateway.{allow_each, answers, name_allowed, seed_each, seeded_set, host_bound}
use agent_d.Shell.Gateway.Log.{Event, queried, revoked, swept, step, run, handle_dns-cases}

allow_each-cfg :
    (ips : List IpAddr) (ttl t : ℕ) (s : PermitSet) → (allow_each ips ttl t s).cfg ≡ s.cfg
unfolding allow_each allow_resolved
allow_each-cfg [] ttl t s = refl
allow_each-cfg (ip ∷ ips) ttl t s = allow_each-cfg ips ttl t _ ∙ insert-cfg ip _ s

seed_each-cfg : (ips : List IpAddr) (s : PermitSet) → (seed_each ips s).cfg ≡ s.cfg
unfolding seed_each allow_literal
seed_each-cfg [] s = refl
seed_each-cfg (ip ∷ ips) s = seed_each-cfg ips _ ∙ insert-cfg ip none s

module _ (p : Platform) (lossy : List ℕ → Str) (grants : List Permission) where
  step-cfg : (e : Event) (s : PermitSet) → (step p lossy grants e s).cfg ≡ s.cfg
  unfolding step sweep
  step-cfg (queried resolve ttl t packet) s =
      elim (handle_dns-cases p lossy grants resolve ttl t packet s) [
        | inl e ↦ ap (λ z. z.cfg) e
        | inr (q, k, n, e) ↦ ap (λ z. z.cfg) e ∙ allow_each-cfg (answers resolve q) ttl t s
      ]
  step-cfg (revoked ip) s = elim (revoke-cases ip s) [
    | inl e ↦ ap (λ z. z.cfg) e
    | inr (inl e) ↦ ap (λ z. z.cfg) e
    | inr (inr e) ↦ ap (λ z. z.cfg) e
  ]
  step-cfg (swept now) s = refl

  pub run-cfg :
      (literals : List IpAddr) (log : List Event)
      → (run p lossy grants literals log).cfg ≡ default_config
  unfolding run seeded_set
  run-cfg literals [] = seed_each-cfg literals _
  run-cfg literals (e ∷ log) = step-cfg e _ ∙ run-cfg literals log

  -- This query was for an allowed name that the resolver had this address for, which is not the host's, the
  -- link's or nowhere's, and its time has not run out.
  abbrev pub Resolved : IpAddr → ℕ → Event → Type 0
  Resolved x now (queried resolve ttl t packet) =
      (q : Question) × (parse_query lossy packet ≡ question q)
      × (name_allowed p grants q.name ≡ true)
      × In x (resolve q.name)
      × (host_bound x ≡ false)
      × (now < t + clamped ttl default_config)
  Resolved x now (revoked ip) = ⊥
  Resolved x now (swept t) = ⊥

  abbrev pub ResolvedIn : IpAddr → ℕ → List Event → Type 0
  ResolvedIn x now [] = ⊥
  ResolvedIn x now (e ∷ log) = Resolved x now e ⊎ ResolvedIn x now log

-- A grant of the list covers a name.
abbrev pub CoveredBy : Platform → List Permission → Str → Type 0
CoveredBy p l name =
    (g : Permission) × In g l
    × ((parts g).0 ≡ text "net")
    × (covers p g (of_slug p (text "net:" ++ to_ascii_lowercase name)) ≡ true)

-- This query was for a covered name that the resolver had this address for, which is not the host's, the link's
-- or nowhere's, and its time has not run out.
abbrev pub LookedUp : Platform → (List ℕ → Str) → List Permission → IpAddr → ℕ → List Event → Type 0
LookedUp p lossy l x now [] = ⊥
LookedUp p lossy l x now (queried resolve ttl t packet ∷ log) =
    ((q : Question) × (parse_query lossy packet ≡ question q)
      × CoveredBy p l q.name
      × In x (resolve q.name)
      × (host_bound x ≡ false)
      × (now < t + clamped ttl default_config))
    ⊎ LookedUp p lossy l x now log
LookedUp p lossy l x now (_ ∷ log) = LookedUp p lossy l x now log
