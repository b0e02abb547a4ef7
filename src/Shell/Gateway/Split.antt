-- ===== src/Shell/Gateway/Split.antt =====
-- crates/shell/src/dns_pin.rs: the grants that `split_grants` tells apart.
use agent_d.Base.{
  ◌≡◌, refl, true, List, [], ◌∷◌, Option, some, Bool-cases, Option-cases, In, inl, inr,
}
use agent_d.Base.Text.{Str, text, str_eq, str_eq_iff}
use agent_d.Permissions.Slug.{Permission, parts}
use agent_d.Shell.Dns.{IpAddr}
use agent_d.Shell.Gateway.{split_grants}

-- A grant of the list names this address.
abbrev pub Names : (Str → Option IpAddr) → List Permission → IpAddr → Type 0
Names parse_ip l ip =
    (g : Permission) × In g l
    × ((parts g).0 ≡ text "net")
    × ((s : Str) × ((parts g).1 ≡ some s) × (parse_ip s ≡ some ip))

Names-more :
    (parse_ip : Str → Option IpAddr) (p : Permission) (l : List Permission) (ip : IpAddr)
    → Names parse_ip l ip
    → Names parse_ip (p ∷ l) ip
Names-more parse_ip p l ip (g, i, d, r) = (g, inr i, d, r)

-- An address that is put into the set at the start is named by a grant.
pub split_grants-Names :
    (parse_ip : Str → Option IpAddr) (l : List Permission) (ip : IpAddr)
    → In ip (split_grants parse_ip l).1
    → Names parse_ip l ip
unfolding split_grants
split_grants-Names parse_ip [] ip i = elim i [ ]
split_grants-Names parse_ip (p ∷ l) ip i = elim (Bool-cases (str_eq (parts p).0 (text "net"))) [
  | inr n ↦ Names-more parse_ip p l ip (split_grants-Names parse_ip l ip (rw n at i))
  | inl n ↦ elim (Option-cases (parts p).1) [
    | inl o ↦ Names-more parse_ip p l ip (split_grants-Names parse_ip l ip (rw (n, o) at i))
    | inr (s, o) ↦ elim (Option-cases (parse_ip s)) [
      | inl r ↦ Names-more parse_ip p l ip (split_grants-Names parse_ip l ip (rw (n, o, r) at i))
      | inr (a, r) ↦ named n s o a r (split_grants-Names parse_ip l ip) (rw (n, o, r) at i)
    ]
  ]
]
  where
    named :
        str_eq (parts p).0 (text "net") ≡ true
        → (s : Str) → (parts p).1 ≡ some s
        → (a : IpAddr) → parse_ip s ≡ some a
        → (In ip (split_grants parse_ip l).1 → Names parse_ip l ip)
        → In ip (a ∷ (split_grants parse_ip l).1)
        → Names parse_ip (p ∷ l) ip
    named n s o a r f (inl e) =
        (p, inl refl, (str_eq_iff (parts p).0 (text "net")).0 n, (s, o, rw e r))
    named n s o a r f (inr j) = Names-more parse_ip p l ip (f j)

-- A grant of names is one of the grants, in the domain of the network.
pub split_grants-host :
    (parse_ip : Str → Option IpAddr) (l : List Permission) (g : Permission)
    → In g (split_grants parse_ip l).0
    → In g l × ((parts g).0 ≡ text "net")
unfolding split_grants
split_grants-host parse_ip [] g i = elim i [ ]
split_grants-host parse_ip (p ∷ l) g i = elim (Bool-cases (str_eq (parts p).0 (text "net"))) [
  | inr n ↦ later (split_grants-host parse_ip l g (rw n at i))
  | inl n ↦ elim (Option-cases (parts p).1) [
    | inl o ↦ kept n (split_grants-host parse_ip l g) (rw (n, o) at i)
    | inr (s, o) ↦ elim (Option-cases (parse_ip s)) [
      | inl r ↦ kept n (split_grants-host parse_ip l g) (rw (n, o, r) at i)
      | inr (a, r) ↦ later (split_grants-host parse_ip l g (rw (n, o, r) at i))
    ]
  ]
]
  where
    later : In g l × ((parts g).0 ≡ text "net") → In g (p ∷ l) × ((parts g).0 ≡ text "net")
    later (j, d) = (inr j, d)

    kept :
        str_eq (parts p).0 (text "net") ≡ true
        → (In g (split_grants parse_ip l).0 → In g l × ((parts g).0 ≡ text "net"))
        → In g (p ∷ (split_grants parse_ip l).0)
        → In g (p ∷ l) × ((parts g).0 ≡ text "net")
    kept n f (inl e) = (inl e, rw e ((str_eq_iff (parts p).0 (text "net")).0 n))
    kept n f (inr j) = later (f j)
