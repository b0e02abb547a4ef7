-- ===== src/Shell/Gateway.antt =====
-- crates/shell/src/dns_pin.rs and crates/shell/src/gateway.rs: which names a sandboxed program may look up, and
-- which addresses it may then reach. The reading of addresses, the resolver's answer to a name and the time
-- of a call are arguments.
pub mod Split
pub mod Log
pub mod Granted
pub mod Answered
use agent_d.Base.{
  ℕ, ◌+◌, ◌/◌, ◌%◌, ◌≡◌, Bool, true, false, not, ◌&&◌, ◌||◌, List, [], ◌∷◌, ◌++◌, Option, none,
  some, length, take, drop, filter, any, if◌then◌else◌, leb, ◌==◌, is_empty,
}
use agent_d.Base.Text.{Str, text, str_eq, to_ascii_lowercase}
use agent_d.Permissions.Host.{Platform}
use agent_d.Permissions.Slug.{Permission, parts, of_slug, covers}
use agent_d.Shell.Dns.{
  IpAddr, v4, v6, Question, Parsed, question, malformed, panicked, out_of_fuel, parse_query,
  build_response, build_nxdomain,
}
use agent_d.Shell.PermitSet.{
  PermitSet, new_set, default_config, allow_literal, allow_resolved, contains,
}

-- The grants of names and those of addresses.
unfoldable pub split_grants :
    (Str → Option IpAddr) → List Permission → List Permission × List IpAddr
split_grants parse_ip [] = ([], [])
split_grants parse_ip (p ∷ l) =
    let rest = split_grants parse_ip l in
    if not (str_eq (parts p).0 (text "net")) then rest else elim (parts p).1 [
      | none ↦ (p ∷ rest.0, rest.1)
      | some s ↦ elim (parse_ip s) [ some ip ↦ (rest.0, ip ∷ rest.1) | none ↦ (p ∷ rest.0, rest.1) ]
    ]

unfoldable pub host_bound_v4 : ℕ → ℕ → ℕ → ℕ → Bool
host_bound_v4 a b c d =
    a == 127
    || ((a == 169 && b == 254)
        || ((a == 0 && (b == 0 && (c == 0 && d == 0)))
            || ((leb 224 a && leb a 239) || (a == 255 && (b == 255 && (c == 255 && d == 255))))))

abbrev mapped_prefix : List ℕ
mapped_prefix = 0 ∷ 0 ∷ 0 ∷ 0 ∷ 0 ∷ 0 ∷ 0 ∷ 0 ∷ 0 ∷ 0 ∷ 255 ∷ 255 ∷ []

unfoldable pub four : List ℕ → Option (ℕ × ℕ × ℕ × ℕ)
four (a ∷ b ∷ c ∷ d ∷ []) = some (a, b, c, d)
four _ = none

-- `Ipv6Addr::to_ipv4_mapped`.
unfoldable pub to_ipv4_mapped : List ℕ → Option (ℕ × ℕ × ℕ × ℕ)
to_ipv4_mapped l = if str_eq (take 12 l) mapped_prefix then four (drop 12 l) else none

unfoldable pub is_link_local_v6 : List ℕ → Bool
is_link_local_v6 (a ∷ b ∷ l) = a == 254 && b / 64 == 2
is_link_local_v6 _ = false

unfoldable pub is_multicast_v6 : List ℕ → Bool
is_multicast_v6 (a ∷ l) = a == 255
is_multicast_v6 [] = false

abbrev unspecified_v6 : List ℕ
unspecified_v6 = 0 ∷ 0 ∷ 0 ∷ 0 ∷ 0 ∷ 0 ∷ 0 ∷ 0 ∷ 0 ∷ 0 ∷ 0 ∷ 0 ∷ 0 ∷ 0 ∷ 0 ∷ 0 ∷ []

abbrev loopback_v6 : List ℕ
loopback_v6 = 0 ∷ 0 ∷ 0 ∷ 0 ∷ 0 ∷ 0 ∷ 0 ∷ 0 ∷ 0 ∷ 0 ∷ 0 ∷ 0 ∷ 0 ∷ 0 ∷ 0 ∷ 1 ∷ []

unfoldable pub host_bound : IpAddr → Bool
host_bound (v4 a b c d) = host_bound_v4 a b c d
host_bound (v6 l) = elim (to_ipv4_mapped l) [
  | some (a, b, c, d) ↦ host_bound_v4 a b c d
  | none ↦
      str_eq l loopback_v6 || (str_eq l unspecified_v6 || (is_multicast_v6 l || is_link_local_v6 l))
]

unfoldable pub name_allowed : Platform → List Permission → Str → Bool
name_allowed p host_grants name =
    let want = of_slug p (text "net:" ++ to_ascii_lowercase name) in
    any (λ g. covers p g want) host_grants

unfoldable pub allow_each : List IpAddr → ℕ → ℕ → PermitSet → PermitSet
allow_each [] ttl now s = s
allow_each (ip ∷ ips) ttl now s = allow_each ips ttl now (allow_resolved ip ttl now s).1

-- The addresses a question is answered with.
unfoldable pub answers : (Str → List IpAddr) → Question → List IpAddr
answers resolve q = filter (λ ip. not (host_bound ip)) (resolve q.name)

module _ (p : Platform) (lossy : List ℕ → Str) (grants : List Permission)
    (resolve : Str → List IpAddr) where
  unfoldable pub answer_question : ℕ → ℕ → Question → PermitSet → Option (List ℕ) × PermitSet
  answer_question ttl now q s =
      if not (name_allowed p grants q.name) then (some (build_nxdomain q), s) else (
        some (build_response q (answers resolve q) (ttl / 1000000000 % 4294967296)),
        if not (is_empty (answers resolve q)) then allow_each (answers resolve q) ttl now s else s,
      )

  -- A query that cannot be read is dropped.
  unfoldable pub handle_dns : ℕ → ℕ → List ℕ → PermitSet → Option (List ℕ) × PermitSet
  handle_dns ttl now query s = elim (parse_query lossy query) [
    | question q ↦ answer_question ttl now q s
    | malformed ↦ (none, s)
    | panicked ↦ (none, s)
    | out_of_fuel ↦ (none, s)
  ]

unfoldable pub admit : IpAddr → ℕ → PermitSet → Bool
admit dst now s = contains dst now s

unfoldable pub seed_each : List IpAddr → PermitSet → PermitSet
seed_each [] s = s
seed_each (ip ∷ ips) s = seed_each ips (allow_literal ip s).1

-- The set that a sandboxed program starts with.
unfoldable pub seeded_set : List IpAddr → PermitSet
seeded_set literals = seed_each literals (new_set default_config)
