-- ===== src/Tests/Grants.antt =====
-- The check of a grants file and the warning on interpreters at concrete inputs.
use agent_d.Base.{◌≡◌, refl, ◌↔◌, Bool, false, not, List, [], ◌∷◌, ◌++◌, Option, none, some, In}
use agent_d.Base.Text.{Str, text, str_eq, starts_with, contains}
use agent_d.Permissions.Pattern.{match_spec}
use agent_d.Permissions.Slug.{Permission, PermissionSet, parts}
use agent_d.Permissions.Grants.{GrantsFile, expand_home}
use agent_d.Permissions.Grants.Check.{
  of_tool, star_inside, never_matches, trusts_root, GrantsError, first, unsupported_pattern,
  sections, check_section, check_cwd, is_absolute_path, is_root, is_file_domain, check_denied_path,
  check_folder, check_grants,
}
use agent_d.Permissions.Grants.Check.Accepted.{NamesCwd, check_grants-none}
use agent_d.Permissions.Grants.Check.Tables.{Listed}
use agent_d.Permissions.Grants.Check.Patterns.{IsSupported}
use agent_d.Permissions.Grants.Check.Paths.{IsAbsolute, IsRoot, IsFileDomain}
use agent_d.Executor.Interpreters.{
  interpreter_warning, is_interpreter, is_version, base_of, warning,
}
use agent_d.Tests.Permissions.{opened, slug}

checked : Unit {0}
unfolding opened contains expand_home first unsupported_pattern sections check_section check_cwd
    is_absolute_path is_root is_file_domain check_denied_path check_folder check_grants
    interpreter_warning is_interpreter is_version base_of
checked = tt

abbrev file : PermissionSet → List Str → GrantsFile
file granted trusted = record {
  tool = (text "git", record { granted = granted }) ∷ [];
  runner = [];
  interface = [];
  service = [];
  packages = [];
  denial = record { actions = []; permissions = [] };
  approval = record { classifier = none; skip = [] };
  folders = record { trusted = trusted };
}

-- Paths of a system whose roots are `/`.
abbrev absolute : Str → Bool
absolute s = starts_with (text "/") s

abbrev has_parent : Str → Bool
has_parent s = not (str_eq s (text "/"))

abbrev join : Str → Str → Str
join a b = a ++ (text "/" ++ b)

abbrev checked_file : PermissionSet → List Str → Option GrantsError
checked_file granted trusted = check_grants absolute has_parent none join (file granted trusted)

check_tests :
    (checked_file (slug "net:api.*" ∷ []) (text "/home/me/**" ∷ []) ≡ none)
    × (checked_file (slug "net:*.com" ∷ []) []
        ≡ some (never_matches (of_tool (text "git")) (slug "net:*.com") star_inside))
    × (checked_file [] (text "/**" ∷ []) ≡ some (trusts_root (text "/**")))
unfolding checked
check_tests = (refl, refl, refl)

check_grants-none_example :
    let g = file (slug "net:api.*" ∷ []) (text "/home/me/**" ∷ []) in
    (check_grants absolute has_parent none join g ≡ none) ↔ (
      ((q : Permission) → Listed g q → IsSupported q)
      × ((q : Permission) → In q g.denial.permissions → ¬ NamesCwd q)
      × ((entry : Str)
          → In entry g.folders.trusted
          → IsAbsolute absolute (expand_home none join entry)
            × (¬ IsRoot has_parent (expand_home none join entry)))
      × ((q : Permission) (path : Str)
          → In q g.denial.permissions
          → (parts q).1 ≡ some path
          → IsFileDomain (parts q).0
          → IsAbsolute absolute path))
check_grants-none_example =
    check_grants-none absolute has_parent none join
      (file (slug "net:api.*" ∷ []) (text "/home/me/**" ∷ []))

warning_tests :
    (interpreter_warning (λ s. some s) (λ s. s) (text "shell.exec:python3.12")
      ≡ some (warning (text "python3.12")))
    × (interpreter_warning (λ s. some s) (λ s. s) (text "shell.exec:bash.exe")
        ≡ some (warning (text "bash.exe")))
    × (interpreter_warning (λ s. some s) (λ s. s) (text "shell.exec:ls") ≡ none)
unfolding checked
warning_tests = (refl, refl, refl)

-- Two stars behind a name pass the check, but match no host.
double_star_tests :
    (checked_file (slug "net:api.**" ∷ []) [] ≡ none)
    × (match_spec (text "api.**") (text "api.com") ≡ false)
unfolding checked
double_star_tests = (refl, refl)
