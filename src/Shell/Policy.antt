-- ===== src/Shell/Policy.antt =====
-- crates/shell/src/policy.rs: the policy of a sandbox, and the folder a pattern is confined to. A path is
-- its text, the empty one for the empty path.
pub mod Ancestor
use agent_d.Base.{
  ℕ, ◌≡◌, Bool, true, false, ◌||◌, List, [], ◌∷◌, Option, none, some, is_empty, unwrap_or, ◌==◌,
  if◌then◌else◌,
}
use agent_d.Base.Text.{Str, text, starts_with, split_once}
use agent_d.Permissions.Slug.{Permission}

pub record SandboxPolicy : Type 0 where
  pub read_paths : List Str
  pub write_paths : List Str
  pub allow_net : Bool
  pub net_hosts : List Permission
  pub unrestricted : Bool
  pub denied_reads : List Str
  pub denied_writes : List Str

unfoldable pub is_separator : ℕ → Bool
is_separator c = c == b'/' || c == b'\\'

-- What stands before the last character of a kind, if there is one.
unfoldable pub before_last : (ℕ → Bool) → Str → Option Str
before_last p [] = none
before_last p (x ∷ s) = elim (before_last p s) [
  | some t ↦ some (x ∷ t)
  | none ↦ if p x then some [] else none
]

unfoldable pub concrete_ancestor : Str → Str
concrete_ancestor spec = elim (split_once b'*' spec) [
  | none ↦ spec
  | some (head, rest) ↦
      let trimmed = unwrap_or [] (before_last is_separator head) in
      if is_empty trimmed then (if starts_with (text "/") spec then text "/" else []) else trimmed
]
