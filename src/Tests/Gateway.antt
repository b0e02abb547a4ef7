-- ===== src/Tests/Gateway.antt =====
-- The network gateway of a sandboxed program at concrete inputs.
use agent_d.Base.{
  ℕ, ◌≡◌, ◌≤◌, refl, List, [], ◌∷◌, Option, none, some, length, true, false, if◌then◌else◌,
}
use agent_d.Base.Text.{Str, text, str_eq}
use agent_d.Base.Maps
use agent_d.Permissions.Slug.{Permission}
use agent_d.Shell.Dns.{
  IpAddr, v4, v6, Question, join, byte_at, slice, read_labels, read_type, read_name, read_header,
  parse_query,
}
use agent_d.Shell.PermitSet.{
  PermitSet, later, refreshed_by, insert, allow_literal, clamped, allow_resolved, released, revoke,
  is_live, is_expired, remove_each, sweep, admits, contains,
}
use agent_d.Shell.Gateway.{
  split_grants, host_bound_v4, four, to_ipv4_mapped, is_link_local_v6, is_multicast_v6, host_bound,
  name_allowed, allow_each, answers, answer_question, handle_dns, admit, seed_each, seeded_set,
}
use agent_d.Shell.Gateway.Log.{Event, queried, revoked, swept, step, run}
use agent_d.Shell.Gateway.Answered.{run-max_size}
use agent_d.Tests.Permissions.{linux, slug, opened}

-- All that a run opens.
unfoldable gateway : Unit {0}
unfolding opened parse_query read_header read_name read_labels read_type byte_at slice join later
    refreshed_by insert allow_literal clamped allow_resolved released revoke is_live is_expired
    remove_each sweep admits contains Maps.get Maps.insert Maps.modify Maps.remove split_grants
    host_bound_v4 four to_ipv4_mapped is_link_local_v6 is_multicast_v6 host_bound name_allowed
    allow_each answers answer_question handle_dns admit seed_each seeded_set step run
gateway = tt

abbrev ascii : List ℕ → Str
ascii l = l

abbrev nine : Str → Option IpAddr
nine s = if str_eq s (text "9.9.9.9") then some (v4 9 9 9 9) else none

abbrev policy : List Permission
policy = slug "net:ab.*" ∷ slug "fs.read:/x" ∷ slug "net:9.9.9.9" ∷ []

-- A query for ab.c.
abbrev packet : List ℕ
packet =
    0 ∷ 7 ∷ 1 ∷ 0 ∷ 0 ∷ 1 ∷ 0 ∷ 0 ∷ 0 ∷ 0 ∷ 0 ∷ 0 ∷ 2 ∷ b'A' ∷ b'b' ∷ 1 ∷ b'c' ∷ 0 ∷ 0 ∷ 1 ∷ 0 ∷ 1
    ∷ []

abbrev q : Question
q = record {
  id = 7;
  name = text "ab.c";
  qtype = 1;
  qbytes = 2 ∷ b'A' ∷ b'b' ∷ 1 ∷ b'c' ∷ 0 ∷ 0 ∷ 1 ∷ 0 ∷ 1 ∷ [];
}

abbrev resolver : Str → List IpAddr
resolver name = v4 10 0 0 1 ∷ v4 127 0 0 1 ∷ []

split_run : split_grants nine policy ≡ (slug "net:ab.*" ∷ [], v4 9 9 9 9 ∷ [])
unfolding gateway
split_run = refl

host_bound_run :
    (host_bound (v4 169 254 169 254) ≡ true)
    × (host_bound (v6 (0 ∷ 0 ∷ 0 ∷ 0 ∷ 0 ∷ 0 ∷ 0 ∷ 0 ∷ 0 ∷ 0 ∷ 255 ∷ 255 ∷ 127 ∷ 0 ∷ 0 ∷ 1 ∷ []))
        ≡ true)
    × (host_bound (v4 93 184 216 34) ≡ false)
unfolding gateway
host_bound_run = (refl, refl, refl)

abbrev set_after : List Event → PermitSet
set_after log = run linux ascii (split_grants nine policy).0 (split_grants nine policy).1 log

abbrev look_up : Event
look_up = queried resolver 1000000000 5 packet

-- A short time to live is raised to a minute.
set_run :
    (admit (v4 10 0 0 1) 60000000004 (set_after (look_up ∷ [])) ≡ true)
    × (admit (v4 10 0 0 1) 60000000005 (set_after (look_up ∷ [])) ≡ false)
    × (admit (v4 127 0 0 1) 6 (set_after (look_up ∷ [])) ≡ false)
    × (admit (v4 9 9 9 9) 99000000000000 (set_after (look_up ∷ [])) ≡ true)
    × (length (set_after (swept 60000000005 ∷ look_up ∷ [])).entries ≡ 1)
unfolding gateway
set_run = (refl, refl, refl, refl, refl)

-- An address with two references outlives a revocation, and a swept one is gone.
revoke_run :
    (admit (v4 10 0 0 1) 7 (set_after (revoked (v4 10 0 0 1) ∷ look_up ∷ look_up ∷ [])) ≡ true)
    × (admit (v4 10 0 0 1) 7 (set_after (revoked (v4 10 0 0 1) ∷ look_up ∷ [])) ≡ false)
unfolding gateway
revoke_run = (refl, refl)

run-max_size_example :
    length (run linux ascii policy (v4 9 9 9 9 ∷ []) (look_up ∷ [])).entries ≤ 4096
run-max_size_example = run-max_size linux ascii policy (v4 9 9 9 9 ∷ []) (look_up ∷ [])

is_allowed : name_allowed linux policy q.name ≡ true
unfolding gateway
is_allowed = refl
