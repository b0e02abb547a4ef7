-- ===== src/Permissions/Host.antt =====
-- crates/permissions/src/model.rs: the one form in which the host of a `net:` slug is stored.
pub mod Canonical
use agent_d.Base.{
  String, Bool, true, false, not, ◌&&◌, Option, none, some, ◌∷◌, ◌++◌, if◌then◌else◌, unwrap_or,
}
use agent_d.Base.Text.{
  Str, text, strip_prefix, strip_suffix, contains_char, to_ascii_lowercase, is_ascii,
}

-- What the matcher takes from outside: `IpAddr::parse` followed by `to_canonical` and `to_string`,
-- `url::Host::parse` where it gives a domain, `str::to_lowercase`, and the build's
-- `FILE_PATHS_IGNORE_CASE`.
pub record Platform : Type 0 where
  pub parse_ip : Str → Option Str
  pub domain_to_ascii : Str → Option Str
  pub to_lowercase : Str → Str
  pub ignore_case : Bool

-- The host without the brackets of an IPv6 address in a URL.
unfoldable pub bare_host : Str → Str
bare_host host =
    unwrap_or host (elim (strip_prefix (text "[") host) [
      | none ↦ none
      | some rest ↦ strip_suffix (text "]") rest
    ])

unfoldable pub undotted : Str → Str
undotted host = unwrap_or host (strip_suffix (text ".") host)

module _ (p : Platform) where
  -- A name that is no address: its ASCII form, or only lowercased.
  unfoldable pub canonical_name : Str → Str
  canonical_name host =
      elim (if not (is_ascii host) && not (contains_char b'*' host)
        then p.domain_to_ascii host
        else none) [ some ascii ↦ ascii | none ↦ to_ascii_lowercase host ]

  unfoldable pub canonical_host : Str → Str
  canonical_host host = elim (p.parse_ip (bare_host host)) [
    | some ip ↦ ip
    | none ↦ canonical_name (undotted host)
  ]
