-- ===== src/Tests/Permissions.antt =====
-- Permission slugs, hosts and the engine at concrete inputs.
use agent_d.Base.{◌≡◌, refl, inl, inr, String, true, false, [], ◌∷◌, none, some, if◌then◌else◌}
use mathlib.Core.Path.{subst}
use mathlib.Core.Option.{some-injective}
use agent_d.Base.Text.{
  text, str_eq, starts_with, strip_prefix, strip_suffix, ends_with, split_once, contains_char,
  trim_start, trim_end, replace_char, split_from, split, to_ascii_lowercase, is_ascii,
}
use agent_d.Base.Keys.{str_lt}
use agent_d.Base.Sets.{member, add, add_all}
use agent_d.Base.Maps.{get}
use agent_d.Permissions.Pattern.{
  normal_path, is_alphabetic, drive_letter, windows_path, slashes, match_glob, folds,
  match_spec_fuel, match_spec,
}
use agent_d.Permissions.Pattern.Fuel.{match_spec_fuel_enough}
use agent_d.Permissions.Pattern.Covers.{Covers}
use agent_d.Permissions.Host.{Platform, bare_host, undotted, canonical_name, canonical_host}
use agent_d.Permissions.Slug.{
  Permission, Denial, parts, is_fs, of_slug, covers_spec, covers_with_case, covers, contains,
  covers_all, from_slugs, denies_action, denies_below, denies_permission,
}
use agent_d.Permissions.Slug.Laws.{IsStored, IsReachable, covers_itself, denies_folder}

-- All that a run opens.
unfoldable pub opened : Unit {0}
unfolding str_eq starts_with strip_prefix strip_suffix ends_with split_once contains_char trim_start
    trim_end replace_char split_from split to_ascii_lowercase is_ascii str_lt member add add_all get
    normal_path is_alphabetic drive_letter windows_path slashes match_glob folds match_spec_fuel
    match_spec bare_host undotted canonical_name canonical_host parts is_fs of_slug covers_spec
    covers_with_case covers contains covers_all from_slugs denies_action denies_below
    denies_permission
opened = tt

-- A platform with one address in two spellings.
abbrev pub linux : Platform
linux = record {
  parse_ip = λ s.
      if str_eq s (text "::ffff:1.2.3.4")
      then some (text "1.2.3.4")
      else if str_eq s (text "1.2.3.4")
      then some (text "1.2.3.4")
      else none;
  domain_to_ascii = λ s. none;
  to_lowercase = to_ascii_lowercase;
  ignore_case = false;
}

abbrev pub slug : String → Permission
slug s = record { slug = text s }

match_tests :
    (match_spec (text "*") (text "x") ≡ true)
    × (match_spec (text "/tmp/**") (text "/tmp") ≡ true)
    × (match_spec (text "/tmp/**") (text "/tmp/a/b") ≡ true)
    × (match_spec (text "/tmp/**") (text "/tmpfile") ≡ false)
    × (match_spec (text "/tmp/*") (text "/tmp/a") ≡ true)
    × (match_spec (text "/tmp/*") (text "/tmp/a/b") ≡ false)
    × (match_spec (text "api.*") (text "api.github.com") ≡ true)
    × (match_spec (text "C:\\dir\\**") (text "C:/dir/x") ≡ true)
    × (match_spec (text "/proj/**") (text "/proj\\evil") ≡ false)
unfolding opened
match_tests = (refl, refl, refl, refl, refl, refl, refl, refl, refl)

cover_tests :
    (covers linux (slug "fs.read:/tmp/**") (slug "fs.read:/tmp/../etc") ≡ false)
    × (covers linux (slug "fs.read:/tmp/**") (slug "fs.write:/tmp/x") ≡ false)
    × (covers linux (slug "calendar.read") (slug "calendar.read") ≡ true)
    × ((of_slug linux (text "net:Example.COM.")).slug ≡ text "net:example.com")
    × ((of_slug linux (text "net:[::ffff:1.2.3.4]")).slug ≡ text "net:1.2.3.4")
unfolding opened
cover_tests = (refl, refl, refl, refl, refl)

match_spec_fuel_enough_example :
    match_spec_fuel 7 (text "C:\\**") (text "C:/x")
    ≡ some (match_spec (text "C:\\**") (text "C:/x"))
match_spec_fuel_enough_example = match_spec_fuel_enough 5 (text "C:\\**") (text "C:/x")

tmp-IsStored : IsStored linux (slug "fs.read:/tmp/x")
unfolding opened
tmp-IsStored = refl

tmp-IsReachable : IsReachable (slug "fs.read:/tmp/x")
unfolding opened
tmp-IsReachable f s e = subst (λ t. normal_path t ≡ true) (some-injective _ _ e) refl

covers_itself_example :
    covers linux (of_slug linux (text "fs.read:/tmp/x")) (slug "fs.read:/tmp/x") ≡ true
covers_itself_example = covers_itself linux (slug "fs.read:/tmp/x") tmp-IsStored tmp-IsReachable

abbrev ssh_denial : Denial
ssh_denial = record { actions = []; permissions = slug "fs.read:/home/me/.ssh//" ∷ [] }

denies_folder_example :
    denies_permission linux ssh_denial (slug "fs.read:/home/me/.ssh/id_rsa") ≡ true
unfolding opened
denies_folder_example =
    denies_folder linux (slug "fs.read:/home/me/.ssh//") (slug "fs.read:/home/me/.ssh/id_rsa")
      (text "fs.read") (text "/home/me/.ssh//") (text "/id_rsa") refl refl refl refl refl
      (inr (text "id_rsa", refl)) refl ssh_denial (inl refl)
