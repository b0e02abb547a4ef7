-- ===== src/Shell/PermitSet.antt =====
-- crates/shell/src/netfilter/permitset.rs: the addresses that a sandboxed program may reach. Time is a
-- number of nanoseconds, and a `HashMap` a map in the order of the addresses.
pub mod Entries
pub mod Removals
pub mod Sizes
use agent_d.Base.{
  ℕ, ◌+◌, ◌-◌, ◌≡◌, ◌↔◌, ap, Bool, true, false, List, [], ◌∷◌, Option, none, some, map, min, max,
  length, filter, if◌then◌else◌, ltb, leb, ◌==◌,
}
use agent_d.Base.Text.{Str, str_eq, str_eq_iff}
use agent_d.Base.Keys.{Key, str_lt, str_lt_irrefl, str_lt_trans, str_lt_total}
use agent_d.Base.Maps.{Map}
use agent_d.Base.Maps
use agent_d.Shell.Dns.{IpAddr, v4, v6}

-- The order of addresses: those of version 4 first, then by their octets.
abbrev pub code : IpAddr → List ℕ
code (v4 a b c d) = 4 ∷ a ∷ b ∷ c ∷ d ∷ []
code (v6 l) = 6 ∷ l

code-injective : (x y : IpAddr) → code x ≡ code y → x ≡ y
code-injective (v4 a b c d) (v4 e f g h) p = cc p
code-injective (v6 l) (v6 m) p = cc p
code-injective (v4 a b c d) (v6 m) p = cc p
code-injective (v6 l) (v4 e f g h) p = cc p

pub code_iff : (x y : IpAddr) → (str_eq (code x) (code y) ≡ true) ↔ (x ≡ y)
code_iff x y = (
  λ e. code-injective x y ((str_eq_iff (code x) (code y)).0 e),
  λ e. (str_eq_iff (code x) (code y)).1 (ap code e),
)

instance abbrev pub ip_key : Key IpAddr
ip_key = record {
  beq = λ x y. str_eq (code x) (code y);
  beq_iff = code_iff;
  lt = λ x y. str_lt (code x) (code y);
  lt_irrefl = λ x. str_lt_irrefl (code x);
  lt_trans = λ x y z. str_lt_trans (code x) (code y) (code z);
  lt_total = λ x y. str_lt_total (code x) (code y);
}

pub record SetConfig : Type 0 where
  pub min_ttl : ℕ
  pub max_ttl : ℕ
  pub max_size : ℕ

abbrev pub default_config : SetConfig
default_config = record { min_ttl = 60000000000; max_ttl = 3600000000000; max_size = 4096 }

pub record Entry : Type 0 where
  pub refcount : ℕ
  pub deadline : Option ℕ

pub data Added : Type 0 where
  inserted refreshed full : Added

pub record PermitSet : Type 0 where
  pub cfg : SetConfig
  pub entries : Map IpAddr Entry

abbrev pub new_set : SetConfig → PermitSet
new_set cfg = record { cfg = cfg; entries = [] }

-- The later of two deadlines; an entry without one never expires.
unfoldable pub later : Option ℕ → Option ℕ → Option ℕ
later none d = none
later (some a) none = none
later (some a) (some b) = some (max a b)

unfoldable pub refreshed_by : Option ℕ → Entry → Entry
refreshed_by deadline e = record {
  refcount = min (e.refcount + 1) 4294967295;
  deadline = later e.deadline deadline;
}

unfoldable pub insert : IpAddr → Option ℕ → PermitSet → Added × PermitSet
insert ip deadline s = elim (Maps.get ip s.entries) [
  | some e ↦ (refreshed, record s { entries = Maps.modify ip (refreshed_by deadline) s.entries })
  | none ↦ if leb s.cfg.max_size (length s.entries) then (full, s) else (
    inserted,
    record s { entries = Maps.insert ip (record { refcount = 1; deadline = deadline }) s.entries },
  )
]

unfoldable pub allow_literal : IpAddr → PermitSet → Added × PermitSet
allow_literal ip s = insert ip none s

-- `Duration::clamp`.
unfoldable pub clamped : ℕ → SetConfig → ℕ
clamped ttl cfg = if ltb ttl cfg.min_ttl then cfg.min_ttl else min ttl cfg.max_ttl

unfoldable pub allow_resolved : IpAddr → ℕ → ℕ → PermitSet → Added × PermitSet
allow_resolved ip ttl now s = insert ip (some (now + clamped ttl s.cfg)) s

unfoldable pub released : Entry → Entry
released e = record e { refcount = e.refcount - 1 }

unfoldable pub revoke : IpAddr → PermitSet → Bool × PermitSet
revoke ip s = elim (Maps.get ip s.entries) [
  | none ↦ (false, s)
  | some e ↦
      if e.refcount - 1 == 0
      then (true, record s { entries = Maps.remove ip s.entries })
      else (false, record s { entries = Maps.modify ip released s.entries })
]

unfoldable pub is_live : ℕ → Option ℕ → Bool
is_live now none = true
is_live now (some d) = ltb now d

unfoldable pub is_expired : ℕ → Entry → Bool
is_expired now e = if is_live now e.deadline then false else true

unfoldable pub remove_each : List IpAddr → Map IpAddr Entry → Map IpAddr Entry
remove_each [] m = m
remove_each (ip ∷ ips) m = remove_each ips (Maps.remove ip m)

unfoldable pub sweep : ℕ → PermitSet → List IpAddr × PermitSet
sweep now s =
    let expired = map (λ e. e.0) (filter (λ e. is_expired now e.1) s.entries) in
    (expired, record s { entries = remove_each expired s.entries })

unfoldable pub admits : ℕ → Option Entry → Bool
admits now none = false
admits now (some e) = is_live now e.deadline

unfoldable pub contains : IpAddr → ℕ → PermitSet → Bool
contains ip now s = admits now (Maps.get ip s.entries)
