-- ===== src/Shell/Gateway/Log.antt =====
-- crates/shell/src/gateway.rs: the life of the set of one sandboxed program as the sequence of what happens to
-- it, the latest first.
use agent_d.Base.{
  ℕ, ◌≡◌, ◌⊎◌, refl, sym, true, List, [], ◌∷◌, none, is_empty, Bool-cases, inl, inr, subst,
}
use agent_d.Base.Text.{Str}
use agent_d.Permissions.Host.{Platform}
use agent_d.Permissions.Slug.{Permission}
use agent_d.Shell.Dns.{
  IpAddr, Question, Parsed, question, malformed, panicked, out_of_fuel, parse_query,
}
use agent_d.Shell.PermitSet.{
  PermitSet, default_config, allow_literal, allow_resolved, revoke, sweep,
}
use agent_d.Shell.PermitSet.Sizes.{
  IsBounded, new_set-IsBounded, insert-IsBounded, revoke-IsBounded, sweep-IsBounded,
}
use agent_d.Shell.Gateway.{
  allow_each, answers, answer_question, handle_dns, name_allowed, seed_each, seeded_set,
}

-- A query comes while the resolver has these answers, with a time to live and at a time; an address is revoked;
-- the set is swept.
pub data Event : Type 0 where
  queried : (Str → List IpAddr) → ℕ → ℕ → List ℕ → Event
  revoked : IpAddr → Event
  swept : ℕ → Event

pub allow_each-IsBounded :
    (ips : List IpAddr) (ttl now : ℕ) (s : PermitSet)
    → IsBounded s
    → IsBounded (allow_each ips ttl now s)
unfolding allow_each allow_resolved
allow_each-IsBounded [] ttl now s b = b
allow_each-IsBounded (ip ∷ ips) ttl now s b =
    allow_each-IsBounded ips ttl now _ (insert-IsBounded ip _ s b)

seed_each-IsBounded :
    (ips : List IpAddr) (s : PermitSet) → IsBounded s → IsBounded (seed_each ips s)
unfolding seed_each allow_literal
seed_each-IsBounded [] s b = b
seed_each-IsBounded (ip ∷ ips) s b = seed_each-IsBounded ips _ (insert-IsBounded ip none s b)

module _ (p : Platform) (lossy : List ℕ → Str) (grants : List Permission) where
  unfoldable pub step : Event → PermitSet → PermitSet
  step (queried resolve ttl now packet) s = (handle_dns p lossy grants resolve ttl now packet s).1
  step (revoked ip) s = (revoke ip s).1
  step (swept now) s = (sweep now s).1

  unfoldable pub run : List IpAddr → List Event → PermitSet
  run literals [] = seeded_set literals
  run literals (e ∷ log) = step e (run literals log)

  module _ (resolve : Str → List IpAddr) (ttl now : ℕ) (packet : List ℕ) (s : PermitSet) where
    -- The question is allowed, and its answers are in the set.
    abbrev pub Committed : Type 0
    Committed =
        (q : Question) × (parse_query lossy packet ≡ question q)
        × (name_allowed p grants q.name ≡ true)
        × ((handle_dns p lossy grants resolve ttl now packet s).1
            ≡ allow_each (answers resolve q) ttl now s)

    committed :
        (q : Question)
        → parse_query lossy packet ≡ question q
        → ((handle_dns p lossy grants resolve ttl now packet s).1 ≡ s) ⊎ Committed
    unfolding handle_dns answer_question
    committed q e = elim (Bool-cases (name_allowed p grants q.name)) [
      | inr n ↦ inl (rw (e, n, handle_dns, answer_question) refl)
      | inl n ↦ elim (Bool-cases (is_empty (answers resolve q))) [
        | inl m ↦ inl (rw (e, n, m, handle_dns, answer_question) refl)
        | inr m ↦ inr (q, e, n, rw (e, n, m, handle_dns, answer_question) refl)
      ]
    ]

    -- A query leaves the set as it was, or with the answers to an allowed question.
    pub handle_dns-cases : ((handle_dns p lossy grants resolve ttl now packet s).1 ≡ s) ⊎ Committed
    unfolding handle_dns
    handle_dns-cases = by_parsed (parse_query lossy packet) refl
      where
        by_parsed :
            (r : Parsed)
            → parse_query lossy packet ≡ r
            → ((handle_dns p lossy grants resolve ttl now packet s).1 ≡ s) ⊎ Committed
        by_parsed (question q) e = committed q e
        by_parsed malformed e = inl (rw (e, handle_dns) refl)
        by_parsed panicked e = inl (rw (e, handle_dns) refl)
        by_parsed out_of_fuel e = inl (rw (e, handle_dns) refl)

  step-IsBounded : (e : Event) (s : PermitSet) → IsBounded s → IsBounded (step e s)
  unfolding step
  step-IsBounded (queried resolve ttl now packet) s b =
      elim (handle_dns-cases resolve ttl now packet s) [
        | inl e ↦ subst (λ t. IsBounded t) (sym e) b
        | inr (q, k, n, e) ↦
            subst (λ t. IsBounded t) (sym e) (allow_each-IsBounded (answers resolve q) ttl now s b)
      ]
  step-IsBounded (revoked ip) s b = revoke-IsBounded ip s b
  step-IsBounded (swept now) s b = sweep-IsBounded now s b

  pub run-IsBounded : (literals : List IpAddr) (log : List Event) → IsBounded (run literals log)
  unfolding run seeded_set
  run-IsBounded literals [] = seed_each-IsBounded literals _ (new_set-IsBounded default_config)
  run-IsBounded literals (e ∷ log) = step-IsBounded e _ (run-IsBounded literals log)
