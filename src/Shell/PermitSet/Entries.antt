-- ===== src/Shell/PermitSet/Entries.antt =====
-- crates/shell/src/netfilter/permitset.rs: what each operation does to whether an address is contained.
use agent_d.Base.{
  ℕ, ◌≡◌, ◌⊎◌, inl, inr, refl, sym, ap, ◌∙◌, Bool, true, false, Option, none, some, leb, length,
  arith, Bool-cases, Option-cases, or_iff, ◌||◌,
}
use agent_d.Base.Keys.{beq_refl}
use agent_d.Base.Maps.{Map, Above, Ascends}
use agent_d.Base.Maps
use agent_d.Shell.Dns.{IpAddr}
use agent_d.Shell.PermitSet.{
  ip_key, code_iff, Entry, PermitSet, later, is_live, admits, contains, insert, refreshed_by,
}

abbrev same : IpAddr → IpAddr → Bool
same x y = ip_key.beq x y

is_live-later :
    (now : ℕ) (a b : Option ℕ) → is_live now (later a b) ≡ (is_live now a || is_live now b)
unfolding is_live later
is_live-later now none b = refl
is_live-later now (some a) none = ground arith
is_live-later now (some a) (some b) = ground arith

-- The set after an insertion, by what the set had for the address.
pub insert-cases :
    (ip : IpAddr) (d : Option ℕ) (s : PermitSet)
    → ((e : Entry) × (Maps.get ip s.entries ≡ some e)
        × ((insert ip d s).1.entries ≡ Maps.modify ip (refreshed_by d) s.entries))
      ⊎ ((Maps.get ip s.entries ≡ none)
          × (((leb s.cfg.max_size (length s.entries) ≡ true) × ((insert ip d s).1 ≡ s))
              ⊎ ((leb s.cfg.max_size (length s.entries) ≡ false)
                  × ((insert ip d s).1.entries
                      ≡ Maps.insert ip (record { refcount = 1; deadline = d }) s.entries))))
unfolding insert
insert-cases ip d s = elim (Option-cases (Maps.get ip s.entries)) [
  | inr (e, g) ↦ inl (e, g, rw (g, insert) refl)
  | inl g ↦ elim (Bool-cases (leb s.cfg.max_size (length s.entries))) [
    | inl f ↦ inr (g, inl (f, rw (g, f, insert) refl))
    | inr f ↦ inr (g, inr (f, rw (g, f, insert) refl))
  ]
]

pub insert-cfg : (ip : IpAddr) (d : Option ℕ) (s : PermitSet) → (insert ip d s).1.cfg ≡ s.cfg
unfolding insert
insert-cfg ip d s = elim (Option-cases (Maps.get ip s.entries)) [
  | inr (e, g) ↦ rw (g, insert) refl
  | inl g ↦ elim (Bool-cases (leb s.cfg.max_size (length s.entries))) [
    | inl f ↦ rw (g, f, insert) refl
    | inr f ↦ rw (g, f, insert) refl
  ]
]

contains_by :
    (x : IpAddr) (now : ℕ) (s : PermitSet) (o : Option Entry)
    → Maps.get x s.entries ≡ o
    → contains x now s ≡ admits now o
unfolding contains
contains_by x now s o e = ap (admits now) e

admits-refreshed :
    (now : ℕ) (d : Option ℕ) (e : Entry)
    → admits now (some (refreshed_by d e)) ≡ (admits now (some e) || is_live now d)
unfolding admits refreshed_by
admits-refreshed now d e = is_live-later now e.deadline d

admits-fresh :
    (now : ℕ) (d : Option ℕ)
    → admits now (some (record { refcount = 1; deadline = d })) ≡ (admits now none || is_live now d)
unfolding admits
admits-fresh now d = refl

-- An insertion changes nothing for another address.
contains-insert_other :
    (x ip : IpAddr) (d : Option ℕ) (now : ℕ) (s : PermitSet)
    → same ip x ≡ false
    → contains x now (insert ip d s).1 ≡ contains x now s
unfolding contains
contains-insert_other x ip d now s n = elim (insert-cases ip d s) [
  | inl (e, g, k) ↦
      ap (admits now) (ap (Maps.get x) k ∙ Maps.get-modify_other ip x (refreshed_by d) s.entries n)
  | inr (g, inl (f, k)) ↦ ap (λ t. admits now (Maps.get x t.entries)) k
  | inr (g, inr (f, k)) ↦
      ap (admits now) (ap (Maps.get x) k ∙ Maps.get-insert ip x _ s.entries ∙ rw n refl)
]

-- Where the set has the address or has room, an insertion adds what its deadline allows.
contains-insert_own :
    (ip : IpAddr) (d : Option ℕ) (now : ℕ) (s : PermitSet)
    → (contains ip now (insert ip d s).1 ≡ (contains ip now s || is_live now d))
      ⊎ ((leb s.cfg.max_size (length s.entries) ≡ true)
          × ((insert ip d s).1 ≡ s)
          × (Maps.get ip s.entries ≡ none))
unfolding contains
contains-insert_own ip d now s = elim (insert-cases ip d s) [
  | inl (e, g, k) ↦ inl (
      ap (admits now) (ap (Maps.get ip) k ∙ Maps.get-modify_own ip (refreshed_by d) e s.entries g)
      ∙ admits-refreshed now d e
      ∙ ap (λ o. admits now o || is_live now d) (sym g))
  | inr (g, inl (f, k)) ↦ inr (f, k, g)
  | inr (g, inr (f, k)) ↦ inl (
      ap (admits now)
        (ap (Maps.get ip) k ∙ Maps.get-insert ip ip _ s.entries ∙ rw (beq_refl ip) refl)
      ∙ admits-fresh now d
      ∙ ap (λ o. admits now o || is_live now d) (sym g))
]

-- What an insertion makes contained is the address itself, within its deadline.
pub contains-insert_cases :
    (x ip : IpAddr) (d : Option ℕ) (now : ℕ) (s : PermitSet)
    → contains x now (insert ip d s).1 ≡ true
    → (contains x now s ≡ true) ⊎ ((ip ≡ x) × (is_live now d ≡ true))
contains-insert_cases x ip d now s h = elim (Bool-cases (same ip x)) [
  | inr n ↦ inl (sym (contains-insert_other x ip d now s n) ∙ h)
  | inl e ↦
      let p : ip ≡ x = (code_iff ip x).0 e in
      let h' : contains ip now (insert ip d s).1 ≡ true =
        ap (λ t. contains t now (insert ip d s).1) p ∙ h in
      elim (contains-insert_own ip d now s) [
        | inr (f, k, g) ↦ inl (ap (λ t. contains x now t) (sym k) ∙ h)
        | inl k ↦ elim ((or_iff (contains ip now s) (is_live now d)).0 (sym k ∙ h')) [
          | inl c ↦ inl (ap (λ t. contains t now s) (sym p) ∙ c)
          | inr l ↦ inr (p, l)
        ]
      ]
]

-- An insertion takes nothing away.
pub contains-insert_kept :
    (x ip : IpAddr) (d : Option ℕ) (now : ℕ) (s : PermitSet)
    → contains x now s ≡ true
    → contains x now (insert ip d s).1 ≡ true
contains-insert_kept x ip d now s h = elim (Bool-cases (same ip x)) [
  | inr n ↦ contains-insert_other x ip d now s n ∙ h
  | inl e ↦
      let p : ip ≡ x = (code_iff ip x).0 e in
      elim (contains-insert_own ip d now s) [
        | inr (f, k, g) ↦ ap (λ t. contains x now t) k ∙ h
        | inl k ↦
            ap (λ t. contains t now (insert ip d s).1) (sym p)
            ∙ k
            ∙ (or_iff _ _).1 (inl (ap (λ t. contains t now s) p ∙ h))
      ]
]

-- Where there is room, an inserted address is contained within its deadline.
pub contains-insert :
    (ip : IpAddr) (d : Option ℕ) (now : ℕ) (s : PermitSet)
    → leb s.cfg.max_size (length s.entries) ≡ false
    → is_live now d ≡ true
    → contains ip now (insert ip d s).1 ≡ true
contains-insert ip d now s f l = elim (contains-insert_own ip d now s) [
  | inl k ↦ k ∙ (or_iff _ _).1 (inr l)
  | inr (g, k, n) ↦ cc (sym f ∙ g)
]
