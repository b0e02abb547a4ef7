-- ===== src/Shell/PermitSet/Sizes.antt =====
-- crates/shell/src/netfilter/permitset.rs: how many addresses a set holds, and that it holds each once.
use agent_d.Base.{
  ℕ, suc, ◌≡◌, ◌≤◌, sym, subst, false, List, [], ◌∷◌, Option, length, arith, inl, inr, leb,
}
use agent_d.Base.Maps.{Map, Ascends, insert-Ascends, remove-Ascends}
use agent_d.Base.Maps.Sizes.{length-insert, length-remove, length-modify, modify-Ascends}
use agent_d.Base.Maps
use agent_d.Shell.Dns.{IpAddr}
use agent_d.Shell.PermitSet.{
  ip_key, SetConfig, Entry, PermitSet, new_set, insert, revoke, refreshed_by, released, remove_each,
  sweep,
}
use agent_d.Shell.PermitSet.Entries.{insert-cases, insert-cfg}
use agent_d.Shell.PermitSet.Removals.{revoke-cases}

-- At most as many addresses as the set may hold, in order.
unfoldable pub IsBounded : PermitSet → Type 0
IsBounded s = (length s.entries ≤ s.cfg.max_size) × Ascends s.entries

pub new_set-IsBounded : (cfg : SetConfig) → IsBounded (new_set cfg)
unfolding IsBounded
new_set-IsBounded cfg = (omega arith, tt)

-- With the same bounds, and with these entries.
by_entries :
    (s t : PermitSet) (m : Map IpAddr Entry)
    → t.cfg ≡ s.cfg
    → t.entries ≡ m
    → length m ≤ s.cfg.max_size
    → Ascends m
    → IsBounded t
unfolding IsBounded
by_entries s t m c e l a = (
  subst (λ n. length t.entries ≤ n.max_size) (sym c)
      (subst (λ n. length n ≤ s.cfg.max_size) (sym e) l),
  subst (λ n. Ascends n) (sym e) a,
)

pub insert-IsBounded :
    (ip : IpAddr) (d : Option ℕ) (s : PermitSet) → IsBounded s → IsBounded (insert ip d s).1
unfolding IsBounded
insert-IsBounded ip d s (l, a) = elim (insert-cases ip d s) [
  | inl (e, g, k) ↦
      by_entries s (insert ip d s).1 _ (insert-cfg ip d s) k
        (omega (arith, l, length-modify ip (refreshed_by d) s.entries))
        (modify-Ascends ip (refreshed_by d) s.entries a)
  | inr (g, inl (f, k)) ↦ subst (λ t. IsBounded t) (sym k) (l, a)
  | inr (g, inr (f, k)) ↦
      by_entries s (insert ip d s).1 _ (insert-cfg ip d s) k
        (room (length s.entries) s.cfg.max_size _ f (length-insert ip _ s.entries))
        (insert-Ascends ip _ s.entries a)
]
  where
    room : (n m k : ℕ) → leb m n ≡ false → k ≤ suc n → k ≤ m
    room n m k f h = ground arith

pub revoke-IsBounded : (ip : IpAddr) (s : PermitSet) → IsBounded s → IsBounded (revoke ip s).1
unfolding IsBounded
revoke-IsBounded ip s (l, a) = elim (revoke-cases ip s) [
  | inl e ↦ subst (λ t. IsBounded t) (sym e) (l, a)
  | inr (inl e) ↦
      subst (λ t. IsBounded t) (sym e)
        (omega (arith, l, length-remove ip s.entries), remove-Ascends ip s.entries a)
  | inr (inr e) ↦
      subst (λ t. IsBounded t) (sym e)
        (
          omega (arith, l, length-modify ip released s.entries),
          modify-Ascends ip released s.entries a,
        )
]

remove_each-length :
    (ips : List IpAddr) (m : Map IpAddr Entry) → length (remove_each ips m) ≤ length m
unfolding remove_each
remove_each-length [] m = omega arith
remove_each-length (ip ∷ ips) m =
    omega (arith, remove_each-length ips (Maps.remove ip m), length-remove ip m)

remove_each-Ascends :
    (ips : List IpAddr) (m : Map IpAddr Entry) → Ascends m → Ascends (remove_each ips m)
unfolding remove_each
remove_each-Ascends [] m a = a
remove_each-Ascends (ip ∷ ips) m a =
    remove_each-Ascends ips (Maps.remove ip m) (remove-Ascends ip m a)

pub sweep-IsBounded : (t : ℕ) (s : PermitSet) → IsBounded s → IsBounded (sweep t s).1
unfolding IsBounded sweep
sweep-IsBounded t s (l, a) =
    (omega (arith, l, remove_each-length _ s.entries), remove_each-Ascends _ s.entries a)
