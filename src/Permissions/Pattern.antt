-- ===== src/Permissions/Pattern.antt =====
-- crates/permissions/src/model.rs: when the specifier of a held permission matches that of a
-- required one.
pub mod Fuel
pub mod Covers
use agent_d.Base.{
  ℕ, zero, suc, String, Bool, true, false, not, ◌&&◌, ◌||◌, List, [], ◌∷◌, Option, none, some, leb,
  ◌==◌, if◌then◌else◌, any, is_some_and, unwrap_or,
}
use agent_d.Base.Text.{
  Str, text, str_eq, starts_with, strip_prefix, strip_suffix, contains_char, replace_char, split,
}

-- A file path with no `.` or `..` component, either separator.
unfoldable pub normal_path : Str → Bool
normal_path path = not (
    any (λ component. str_eq component (text ".") || str_eq component (text ".."))
      (split (λ c. c == b'/' || c == b'\\') path))

unfoldable pub is_alphabetic : ℕ → Bool
is_alphabetic c = (leb b'a' c && leb c b'z') || (leb b'A' c && leb c b'Z')

unfoldable pub drive_letter : Str → Bool
drive_letter (c ∷ d ∷ rest) = is_alphabetic c && d == b':'
drive_letter _ = false

-- A drive letter or a UNC share.
unfoldable pub windows_path : Str → Bool
windows_path spec = drive_letter spec || starts_with (text "\\\\") spec

-- Both separators written `/`.
unfoldable pub slashes : Str → Str
slashes s = replace_char b'\\' b'/' s

-- The glob forms, tried in turn: `prefix/**`, `prefix/*` and `prefix*`.
unfoldable pub match_glob : Str → Str → Bool
match_glob holder required = elim (strip_suffix (text "/**") holder) [
  | some prefix ↦
      str_eq required prefix
      || is_some_and (λ tail. starts_with (text "/") tail) (strip_prefix prefix required)
  | none ↦ elim (strip_suffix (text "/*") holder) [
    | some prefix ↦
        is_some_and
          (λ tail.
            is_some_and (λ name. not (contains_char b'/' name)) (strip_prefix (text "/") tail))
          (strip_prefix prefix required)
    | none ↦ elim (strip_suffix (text "*") holder) [
      | some prefix ↦ starts_with prefix required
      | none ↦ false
    ]
  ]
]

-- Whether the two are compared again with `/` for both separators.
unfoldable pub folds : Str → Str → Bool
folds holder required =
    (contains_char b'\\' holder || contains_char b'\\' required)
    && (windows_path holder || windows_path required)

-- `none` is a call deeper than the rounds that are left.
unfoldable pub match_spec_fuel : ℕ → Str → Str → Option Bool
match_spec_fuel zero holder required = none
match_spec_fuel (suc n) holder required =
    let again = match_spec_fuel n (slashes holder) (slashes required) in
    if str_eq holder (text "*") || str_eq holder (text "**")
    then some true
    else if str_eq holder required
    then some true
    else if folds holder required
    then again
    else some (match_glob holder required)

-- The call within is on texts with no backslash left, so two rounds are all there are.
unfoldable pub match_spec : Str → Str → Bool
match_spec holder required = unwrap_or false (match_spec_fuel 2 holder required)
