-- ===== src/Permissions/Slug.antt =====
-- crates/permissions/src/model.rs: permissions, sets of them, and the operator's denials.
pub mod Laws
use agent_d.Base.{
  ◌≡◌, ◌↔◌, ap, Bool, true, false, not, ◌||◌, List, [], ◌++◌, Option, none, some, map, ◌==◌,
  if◌then◌else◌, any, all,
}
use agent_d.Base.Text.{Str, text, str_eq, str_eq_iff, starts_with, ends_with, split_once, trim_end}
use agent_d.Base.Keys.{Key, str_key, str_lt, str_lt_irrefl, str_lt_trans, str_lt_total}
use agent_d.Base.Sets.{Set, member, add_all}
use agent_d.Permissions.Pattern.{normal_path, match_spec}
use agent_d.Permissions.Host.{Platform, canonical_host}

pub record Permission : Type 0 where
  pub slug : Str

pub slug-injective_iff : (p q : Permission) → (str_eq p.slug q.slug ≡ true) ↔ (p ≡ q)
slug-injective_iff p q = (
  λ e. ap (λ s. record { slug = s }) ((str_eq_iff p.slug q.slug).0 e),
  λ e. (str_eq_iff p.slug q.slug).1 (ap (λ r. r.slug) e),
)

instance abbrev pub permission_key : Key Permission
permission_key = record {
  beq = λ p q. str_eq p.slug q.slug;
  beq_iff = slug-injective_iff;
  lt = λ p q. str_lt p.slug q.slug;
  lt_irrefl = λ p. str_lt_irrefl p.slug;
  lt_trans = λ p q r. str_lt_trans p.slug q.slug r.slug;
  lt_total = λ p q. str_lt_total p.slug q.slug;
}

-- `(domain, specifier)`, split at the first colon.
unfoldable pub parts : Permission → Str × Option Str
parts p = elim (split_once b':' p.slug) [ some (d, s) ↦ (d, some s) | none ↦ (p.slug, none) ]

abbrev pub PermissionSet : Type 0
PermissionSet = Set Permission

unfoldable pub is_fs : Str → Bool
is_fs domain = starts_with (text "fs.") domain

module _ (p : Platform) where
  unfoldable pub of_slug : Str → Permission
  of_slug s = elim (split_once b':' s) [
    | some (d, host) ↦
        if str_eq d (text "net")
        then record { slug = text "net:" ++ canonical_host p host }
        else record { slug = s }
    | none ↦ record { slug = s }
  ]

  -- The specifiers of two permissions of one domain.
  unfoldable pub covers_spec : Bool → Str → Option Str → Option Str → Bool
  covers_spec ignore hd none none = true
  covers_spec ignore hd none (some r) = false
  covers_spec ignore hd (some h) none = false
  covers_spec ignore hd (some h) (some r) =
      if is_fs hd
      then (if not (normal_path r)
          then false
          else if ignore
          then match_spec (p.to_lowercase h) (p.to_lowercase r)
          else match_spec h r)
      else match_spec h r

  unfoldable pub covers_with_case : Bool → Permission → Permission → Bool
  covers_with_case ignore holder required =
      let (hd, hs) = parts holder in
      let (rd, rs) = parts required in
      if not (str_eq hd rd) then false else covers_spec ignore hd hs rs

  unfoldable pub covers : Permission → Permission → Bool
  covers holder required = covers_with_case p.ignore_case holder required

  -- `PermissionSet::contains` and `covers_all`.
  unfoldable pub contains : PermissionSet → Permission → Bool
  contains held required = any (λ h. covers h required) held

  unfoldable pub covers_all : PermissionSet → PermissionSet → Bool
  covers_all held required = all (λ r. contains held r) required

  -- `PermissionSet::from_iter`.
  unfoldable pub from_slugs : List Str → PermissionSet
  from_slugs slugs = add_all (map of_slug slugs) []

-- `[denial]` of the grants file.
pub record Denial : Type 0 where
  pub actions : Set Str
  pub permissions : PermissionSet

unfoldable pub denies_action : Denial → Str → Bool
denies_action d name = member name d.actions

module _ (p : Platform) where
  -- The folder rule: a denied file path also denies all that is below it.
  unfoldable pub denies_below : Permission → Permission → Bool
  denies_below h required = elim (parts h).1 [
    | none ↦ false
    | some spec ↦
        if not (is_fs (parts h).0) || ends_with (text "*") spec
        then false
        else covers p
            (of_slug p (
              (parts h).0
              ++ (text ":" ++ (trim_end (λ c. c == b'/' || c == b'\\') spec ++ text "/**"))))
            required
  ]

  unfoldable pub denies_permission : Denial → Permission → Bool
  denies_permission d required =
      any (λ h. if covers p h required then true else denies_below h required) d.permissions
