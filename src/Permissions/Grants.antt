-- ===== src/Permissions/Grants.antt =====
-- crates/permissions/src/grants.rs: the grants file as a value, its lookups, and the check that
-- refuses a rule which could never match. Reading the file from the disk and its TOML syntax are
-- left out: the model begins at the parsed `GrantsFile`.
pub mod Check
use agent_d.Base.{
  Bool, not, ◌&&◌, ◌||◌, List, [], ◌++◌, Option, none, some, ◌==◌, if◌then◌else◌, any,
}
use agent_d.Base.Text.{Str, text, str_eq, ends_with, strip_prefix, trim_end}
use agent_d.Base.Sets.{Set, member}
use agent_d.Base.Maps.{Map, get}
use agent_d.Base.Keys.{str_key}
use agent_d.Permissions.Host.{Platform}
use agent_d.Permissions.Slug.{PermissionSet, Denial, of_slug, covers}

-- Who answers a run's questions, from strict to loose.
pub data ApprovalSetting : Type 0 where
  nobody human classifier : ApprovalSetting

pub record ToolGrants : Type 0 where
  pub granted : PermissionSet

pub record RunnerGrants : Type 0 where
  pub allowed_actions : Set Str
  pub granted : PermissionSet
  pub approval : Option ApprovalSetting

pub record InterfaceGrants : Type 0 where
  pub allowed_actions : Set Str
  pub granted : PermissionSet

pub record ServiceGrants : Type 0 where
  pub granted : PermissionSet
  pub allowed_actions : Set Str

-- `[approval]` of the grants file.
pub record Approval : Type 0 where
  pub classifier : Option Str
  pub skip : Set Str

pub record Folders : Type 0 where
  pub trusted : List Str

pub record GrantsFile : Type 0 where
  pub tool : Map Str ToolGrants
  pub runner : Map Str RunnerGrants
  pub interface : Map Str InterfaceGrants
  pub service : Map Str ServiceGrants
  pub packages : Map Str Bool
  pub denial : Denial
  pub approval : Approval
  pub folders : Folders

unfoldable pub skips : Approval → Str → Bool
skips a name = member name a.skip

-- The lookups of `Grants`.
unfoldable pub tool_grants : GrantsFile → Str → Option ToolGrants
tool_grants g name = get name g.tool

unfoldable pub runner_grants : GrantsFile → Str → Option RunnerGrants
runner_grants g name = get name g.runner

unfoldable pub interface_grants : GrantsFile → Str → Option InterfaceGrants
interface_grants g name = get name g.interface

unfoldable pub service_grants : GrantsFile → Str → Option ServiceGrants
service_grants g name = get name g.service

-- `~` and `~/rest` under the home folder; `join` is that of `Path`.
unfoldable pub expand_home : Option Str → (Str → Str → Str) → Str → Str
expand_home home join entry =
    elim (if str_eq entry (text "~") then some [] else strip_prefix (text "~/") entry) [
      | none ↦ entry
      | some rest ↦ elim home [ none ↦ entry | some folder ↦ join folder rest ]
    ]

module _ (p : Platform) (home : Option Str) (join : Str → Str → Str) where
  unfoldable pub trusts_entry : Str → Str → Bool
  trusts_entry folder written =
      let wanted = of_slug p (text "fs.read:" ++ folder) in
      let entry = expand_home home join written in
      let inside = trim_end (λ c. c == b'/' || c == b'\\') entry ++ text "/**" in
      covers p (of_slug p (text "fs.read:" ++ entry)) wanted
      || (not (ends_with (text "*") entry)
          && covers p (of_slug p (text "fs.read:" ++ inside)) wanted)

  -- Whether a folder is one that the user trusts.
  unfoldable pub trusts_folder : GrantsFile → Str → Bool
  trusts_folder g folder = any (trusts_entry folder) g.folders.trusted
