-- ===== src/Permissions/Grants/Check.antt =====
-- crates/permissions/src/grants.rs: `check_grants`, which refuses a file with a rule that could never
-- match. An error is its case with what it names, without its English text.
pub mod Tables
pub mod Patterns
pub mod Paths
pub mod Accepted
use agent_d.Base.{
  ◌≡◌, Bool, true, false, not, ◌&&◌, ◌||◌, List, [], ◌∷◌, ◌++◌, Option, none, some, map,
  if◌then◌else◌, ◌==◌, or_else, is_empty,
}
use mathlib.Core.Option
use agent_d.Base.Text.{Str, text, str_eq, starts_with, ends_with, contains, contains_char, trim_end}
use agent_d.Base.Maps.{Map}
use agent_d.Permissions.Slug.{Permission, PermissionSet, parts}
use agent_d.Permissions.Grants.{
  ToolGrants, RunnerGrants, InterfaceGrants, ServiceGrants, GrantsFile, expand_home,
}

-- Why a pattern can never match.
pub data Unsupported : Type 0 where
  star_in_domain star_inside address_prefix : Unsupported

-- A table of the file that lists permissions.
pub data Section : Type 0 where
  of_tool of_runner of_interface of_service : Str → Section
  of_denial : Section

pub data GrantsError : Type 0 where
  never_matches : Section → Permission → Unsupported → GrantsError
  denies_cwd : Permission → GrantsError
  trusts_relative : Str → GrantsError
  trusts_root : Str → GrantsError
  denies_relative : Permission → GrantsError

-- The first error of a list.
unfoldable pub first {ℓ} : {A : Type ℓ} {B : Type 0} → (A → Option B) → List A → Option B
first f [] = none
first f (x ∷ l) = or_else (f x) (first f l)

unfoldable pub unsupported_pattern : Permission → Option Unsupported
unsupported_pattern q =
    if contains_char b'*' (parts q).0 then some star_in_domain else elim (parts q).1 [
      | none ↦ none
      | some spec ↦
          let body = trim_end (λ c. c == b'*') spec in
          if contains_char b'*' body
          then some star_inside
          else if str_eq (parts q).0 (text "net")
              && (ends_with (text "*") spec && contains_char b':' body)
          then some address_prefix
          else none
    ]

-- Every table with what it lists.
unfoldable pub sections : GrantsFile → List (Section × PermissionSet)
sections g =
    map (λ (e : Str × ToolGrants). (of_tool e.0, e.1.granted)) g.tool
    ++ (map (λ (e : Str × RunnerGrants). (of_runner e.0, e.1.granted)) g.runner
        ++ (map (λ (e : Str × InterfaceGrants). (of_interface e.0, e.1.granted)) g.interface
            ++ (map (λ (e : Str × ServiceGrants). (of_service e.0, e.1.granted)) g.service
                ++ ((of_denial, g.denial.permissions) ∷ []))))

unfoldable pub check_section : Section × PermissionSet → Option GrantsError
check_section (name, set) =
    first (λ q. Option.map (never_matches name q) (unsupported_pattern q)) set

unfoldable pub check_cwd : Permission → Option GrantsError
check_cwd q = if contains (text "{cwd}") q.slug then some (denies_cwd q) else none

-- `Path::is_absolute` of the platform comes first.
unfoldable pub is_absolute_path : (Str → Bool) → Str → Bool
is_absolute_path absolute path =
    not (starts_with (text "~") path)
    && (absolute path || (starts_with (text "/") path || starts_with (text "\\") path))

-- A trusted folder that is the root of the disk; whether `Path::parent` gives a folder comes first.
unfoldable pub is_root : (Str → Bool) → Str → Bool
is_root has_parent expanded =
    let trimmed = trim_end (λ c. c == b'*' || (c == b'/' || c == b'\\')) expanded in
    is_empty trimmed || (not (has_parent expanded) || ends_with (text ":") trimmed)

unfoldable pub is_file_domain : Str → Bool
is_file_domain domain = str_eq domain (text "fs.read") || str_eq domain (text "fs.write")

unfoldable pub check_denied_path : (Str → Bool) → Permission → Option GrantsError
check_denied_path absolute q = elim (parts q).1 [
  | none ↦ none
  | some path ↦
      if is_file_domain (parts q).0 && not (is_absolute_path absolute path)
      then some (denies_relative q)
      else none
]

-- The two tests of the platform's paths, the home folder, and the joining of a path to it.
module _ (absolute has_parent : Str → Bool) (home : Option Str) (join : Str → Str → Str) where
  unfoldable pub check_folder : Str → Option GrantsError
  check_folder entry =
      let expanded = expand_home home join entry in
      if not (is_absolute_path absolute expanded)
      then some (trusts_relative entry)
      else if is_root has_parent expanded
      then some (trusts_root entry)
      else none

  -- The error that `check_grants` returns, if there is one.
  unfoldable pub check_grants : GrantsFile → Option GrantsError
  check_grants g = or_else (first check_section (sections g)) (
      or_else (first check_cwd g.denial.permissions) (
        or_else (first check_folder g.folders.trusted)
          (first (check_denied_path absolute) g.denial.permissions)))
