-- ===== src/Shell/PermitSet/Removals.antt =====
-- crates/shell/src/netfilter/permitset.rs: what `revoke` and `sweep` leave contained.
use agent_d.Base.{
  ℕ, ◌≡◌, ◌≤◌, refl, sym, ap, ◌∙◌, Bool, true, false, List, [], ◌∷◌, Option, none, some, map,
  filter, arith, Bool-cases, Option-cases, In, inl, inr, ◌⊎◌, ◌==◌, ◌-◌, if◌then◌else◌,
}
use agent_d.Base.Maps.{Map, Ascends}
use agent_d.Base.Maps.Sizes.{get-In}
use agent_d.Base.Maps
use agent_d.Shell.Dns.{IpAddr}
use agent_d.Shell.PermitSet.{
  ip_key, code_iff, Entry, PermitSet, is_live, is_expired, admits, contains, revoke, released,
  remove_each, sweep,
}

-- The set after a revocation, by what the set had for the address.
pub revoke-cases :
    (ip : IpAddr) (s : PermitSet)
    → ((revoke ip s).1 ≡ s)
      ⊎ (((revoke ip s).1 ≡ record s { entries = Maps.remove ip s.entries })
          ⊎ ((revoke ip s).1 ≡ record s { entries = Maps.modify ip released s.entries }))
unfolding revoke
revoke-cases ip s = elim (Option-cases (Maps.get ip s.entries)) [
  | inl g ↦ inl (rw (g, revoke) refl)
  | inr (e, g) ↦ elim (Bool-cases (e.refcount - 1 == 0)) [
    | inl z ↦ inr (inl (rw (g, z, revoke) refl))
    | inr z ↦ inr (inr (rw (g, z, revoke) refl))
  ]
]

admits-removed :
    (b : Bool) (now : ℕ) (o : Option Entry)
    → admits now (if b then none else o) ≡ true
    → (b ≡ false) × (admits now o ≡ true)
unfolding admits
admits-removed true now o h = cc h
admits-removed false now o h = (refl, h)

contains-remove :
    (x ip : IpAddr) (now : ℕ) (m : Map IpAddr Entry)
    → admits now (Maps.get x (Maps.remove ip m)) ≡ true
    → admits now (Maps.get x m) ≡ true
contains-remove x ip now m h =
    (admits-removed (ip_key.beq ip x) now (Maps.get x m)
      (ap (admits now) (sym (Maps.get-remove ip x m)) ∙ h)).1

contains-released :
    (x ip : IpAddr) (now : ℕ) (m : Map IpAddr Entry)
    → admits now (Maps.get x (Maps.modify ip released m)) ≡ admits now (Maps.get x m)
unfolding admits released
contains-released x ip now m = elim (Bool-cases (ip_key.beq ip x)) [
  | inr n ↦ ap (admits now) (Maps.get-modify_other ip x released m n)
  | inl e ↦ rw (← (code_iff ip x).0 e) (own (Option-cases (Maps.get ip m)))
]
  where
    own :
        (Maps.get ip m ≡ none) ⊎ ((e : Entry) × (Maps.get ip m ≡ some e))
        → admits now (Maps.get ip (Maps.modify ip released m)) ≡ admits now (Maps.get ip m)
    own (inl g) = ap (λ t. admits now (Maps.get ip t)) (Maps.modify_missing ip released m g)
    own (inr (e, g)) =
        ap (admits now) (Maps.get-modify_own ip released e m g) ∙ ap (admits now) (sym g)

-- A revocation makes nothing contained.
pub contains-revoke :
    (x ip : IpAddr) (now : ℕ) (s : PermitSet)
    → contains x now (revoke ip s).1 ≡ true
    → contains x now s ≡ true
unfolding contains
contains-revoke x ip now s h = elim (revoke-cases ip s) [
  | inl e ↦ ap (contains x now) (sym e) ∙ h
  | inr (inl e) ↦ contains-remove x ip now s.entries (ap (contains x now) (sym e) ∙ h)
  | inr (inr e) ↦ sym (contains-released x ip now s.entries) ∙ ap (contains x now) (sym e) ∙ h
]

-- A revocation of another address takes nothing away.
pub contains-revoke_other :
    (x ip : IpAddr) (now : ℕ) (s : PermitSet)
    → ip_key.beq ip x ≡ false
    → contains x now (revoke ip s).1 ≡ contains x now s
unfolding contains
contains-revoke_other x ip now s n = elim (revoke-cases ip s) [
  | inl e ↦ ap (contains x now) e
  | inr (inl e) ↦
      ap (contains x now) e ∙ ap (admits now) (Maps.get-remove ip x s.entries ∙ rw n refl)
  | inr (inr e) ↦ ap (contains x now) e ∙ contains-released x ip now s.entries
]

contains-remove_each :
    (x : IpAddr) (now : ℕ) (ips : List IpAddr) (m : Map IpAddr Entry)
    → admits now (Maps.get x (remove_each ips m)) ≡ true
    → admits now (Maps.get x m) ≡ true
unfolding remove_each
contains-remove_each x now [] m h = h
contains-remove_each x now (ip ∷ ips) m h =
    contains-remove x ip now m (contains-remove_each x now ips (Maps.remove ip m) h)

-- A sweep makes nothing contained.
pub contains-sweep :
    (x : IpAddr) (t now : ℕ) (s : PermitSet)
    → contains x now (sweep t s).1 ≡ true
    → contains x now s ≡ true
unfolding contains sweep
contains-sweep x t now s h = contains-remove_each x now _ s.entries h

-- What is not among the addresses removed stays as it was.
get-remove_each :
    (x : IpAddr) (ips : List IpAddr) (m : Map IpAddr Entry)
    → (In x ips → ⊥)
    → Maps.get x (remove_each ips m) ≡ Maps.get x m
unfolding remove_each
get-remove_each x [] m n = refl
get-remove_each x (ip ∷ ips) m n =
    get-remove_each x ips (Maps.remove ip m) (λ i. n (inr i))
    ∙ Maps.get-remove ip x m
    ∙ elim (Bool-cases (ip_key.beq ip x)) [
      | inl e ↦ elim (n (inl (sym ((code_iff ip x).0 e)))) [ ]
      | inr e ↦ rw e refl
    ]

expired_of_In :
    (x : IpAddr) (t : ℕ) (m : Map IpAddr Entry)
    → In x (map (λ e. e.0) (filter (λ e. is_expired t e.1) m))
    → (e : Entry) × In (x, e) m × (is_expired t e ≡ true)
expired_of_In x t [] i = elim i [ ]
expired_of_In x t ((y, e) ∷ m) i = elim (Bool-cases (is_expired t e)) [
  | inr h ↦ let (f, j, k) = expired_of_In x t m (rw h at i) in (f, inr j, k)
  | inl h ↦ first_or h (expired_of_In x t m) (rw h at i)
]
  where
    first_or :
        is_expired t e ≡ true
        → (In x (map (λ e. e.0) (filter (λ e. is_expired t e.1) m))
            → (f : Entry) × In (x, f) m × (is_expired t f ≡ true))
        → (x ≡ y) ⊎ In x (map (λ e. e.0) (filter (λ e. is_expired t e.1) m))
        → (f : Entry) × In (x, f) ((y, e) ∷ m) × (is_expired t f ≡ true)
    first_or h g (inl p) = (e, inl (ap (λ z. (z, e)) p), h)
    first_or h g (inr j) = let (f, k, l) = g j in (f, inr k, l)

-- What is expired stays so.
expired_later :
    (t now : ℕ) (e : Entry) → t ≤ now → is_expired t e ≡ true → admits now (some e) ≡ false
unfolding is_expired admits is_live
expired_later t now e l h = by_deadline e.deadline h
  where
    by_deadline :
        (d : Option ℕ) → (if is_live t d then false else true) ≡ true → is_live now d ≡ false
    by_deadline none h = cc h
    by_deadline (some d) h = ground arith

-- A sweep takes nothing away that is contained at its time or later.
pub contains-sweep_kept :
    (x : IpAddr) (t now : ℕ) (s : PermitSet)
    → Ascends s.entries
    → t ≤ now
    → contains x now s ≡ true
    → contains x now (sweep t s).1 ≡ true
unfolding contains sweep
contains-sweep_kept x t now s asc l h = ap (admits now) (get-remove_each x _ s.entries fresh) ∙ h
  where
    fresh : In x (map (λ e. e.0) (filter (λ e. is_expired t e.1) s.entries)) → ⊥
    fresh i =
        let (e, j, k) = expired_of_In x t s.entries i in
        cc
          (sym (expired_later t now e l k) ∙ ap (admits now) (sym (get-In x e s.entries asc j)) ∙ h)
