-- ===== src/Sessions.antt =====
-- crates/sessions/src/lib.rs: durable chat sessions, who may see them, and the in-process store.
pub mod Scoping
pub mod Store
pub mod Redb
use agent_d.Base.{
  ℕ, ◌+◌, ◌^◌, ◌%◌, ◌≡◌, String, Bool, true, false, not, ◌&&◌, ◌||◌, Option, none, some, ◌++◌, min,
  if◌then◌else◌,
}
use agent_d.Base.Text.{Str, text, str_eq}
use agent_d.Permissions.Grants.{ApprovalSetting}

-- Equality of optional texts.
unfoldable pub same_text : Option Str → Option Str → Bool
same_text none none = true
same_text (some a) (some b) = str_eq a b
same_text _ _ = false

abbrev pub u64_max : ℕ
u64_max = 18446744073709551615

-- A count kept in 64 bits.
abbrev pub u64 : ℕ → ℕ
u64 n = n % 18446744073709551616

-- crates/ai/src/types.rs: provider-reported tokens.
pub record Usage : Type 0 where
  pub input_tokens : ℕ
  pub output_tokens : ℕ
  pub cache_read_input_tokens : ℕ
  pub cache_creation_input_tokens : ℕ

unfoldable pub saturating_add : ℕ → ℕ → ℕ
saturating_add a b = min (a + b) u64_max

unfoldable pub add_usage : Usage → Usage → Usage
add_usage a b = record {
  input_tokens = saturating_add a.input_tokens b.input_tokens;
  output_tokens = saturating_add a.output_tokens b.output_tokens;
  cache_read_input_tokens = saturating_add a.cache_read_input_tokens b.cache_read_input_tokens;
  cache_creation_input_tokens =
      saturating_add a.cache_creation_input_tokens b.cache_creation_input_tokens;
}

abbrev pub no_usage : Usage
no_usage = record {
  input_tokens = 0;
  output_tokens = 0;
  cache_read_input_tokens = 0;
  cache_creation_input_tokens = 0;
}

pub record SessionMeta : Type 0 where
  pub id : Str
  pub owner : Str
  pub runner : Option Str
  pub user : Option Str
  pub label : Option Str
  pub approval : Option ApprovalSetting
  pub cwd : Option Str
  pub created_at : ℕ
  pub updated_at : ℕ
  pub turn_count : ℕ
  pub next_seq : ℕ
  pub compactions : ℕ
  pub usage : Usage

pub record NewSession : Type 0 where
  pub owner : Str
  pub user : Option Str
  pub label : Option Str
  pub runner : Option Str
  pub approval : Option ApprovalSetting
  pub cwd : Option Str

-- Who a caller is.
pub record Scope : Type 0 where
  pub owner : Str
  pub user : Option Str

abbrev pub admin_owner : Str
admin_owner = text "admin:ws"

unfoldable pub owner_of : Option Str → Option Str → Str
owner_of (some i) _ = text "interface:" ++ i
owner_of none (some s) = text "service:" ++ s
owner_of none none = text "local"

unfoldable pub from_caller : Option Str → Option Str → Option Str → Scope
from_caller interface service user = record { owner = owner_of interface service; user = user }

unfoldable pub admin : Option Str → Scope
admin user = record { owner = admin_owner; user = user }

abbrev pub is_none : Option Str → Bool
is_none none = true
is_none (some s) = false

unfoldable pub permits : Scope → SessionMeta → Bool
permits scope m =
    let user_ok = is_none m.user || same_text m.user scope.user in
    if str_eq scope.owner admin_owner
    then is_none scope.user || user_ok
    else str_eq m.owner scope.owner && user_ok

unfoldable pub in_scope : Scope → NewSession
in_scope scope = record {
  owner = scope.owner;
  user = scope.user;
  label = none;
  runner = none;
  approval = none;
  cwd = none;
}

-- A new session's metadata, with the id and the time that it is given.
unfoldable pub fresh_meta : Str → ℕ → NewSession → SessionMeta
fresh_meta id now new = record {
  id = id;
  owner = new.owner;
  runner = new.runner;
  user = new.user;
  label = new.label;
  approval = new.approval;
  cwd = new.cwd;
  created_at = now;
  updated_at = now;
  turn_count = 0;
  next_seq = 0;
  compactions = 0;
  usage = no_usage;
}
