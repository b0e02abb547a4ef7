-- ===== src/Permissions/Engine.antt =====
-- crates/permissions/src/engine.rs: the decision on one action, layer by layer.
-- Each numbered step of `check_approved` is a function that stops with a decision or passes; the
-- sentence that a decision carries is kept as its parts.
pub mod Layers
pub mod Allow
pub mod Questions
use agent_d.Base.{
  ◌≡◌, String, Bool, true, false, not, ◌&&◌, ◌||◌, List, [], ◌∷◌, ◌++◌, Option, none, some, map,
  if◌then◌else◌, is_empty, is_some_and, unwrap_or, or_else, filter, find,
}
use mathlib.Core.Option
use agent_d.Base.Text.{Str, text}
use agent_d.Base.Sets.{Set, member, add_all}
use agent_d.Base.Keys.{str_key}
use agent_d.Permissions.Host.{Platform}
use agent_d.Permissions.Slug.{
  Permission, permission_key, PermissionSet, of_slug, contains, covers_all, denies_action,
  denies_permission,
}
use agent_d.Permissions.Grants.{
  ApprovalSetting, GrantsFile, ToolGrants, RunnerGrants, skips, tool_grants, runner_grants,
  interface_grants, service_grants,
}

pub record ToolMeta : Type 0 where
  pub name : Str
  pub requires : PermissionSet

pub record ActionMeta : Type 0 where
  pub name : Str
  pub tool : Option Str
  pub requires : PermissionSet
  pub confirm : Bool

-- The fields of `Caller` that decide.
pub record Caller : Type 0 where
  pub runner : Option Str
  pub interface : Option Str
  pub service : Option Str
  pub approval : Option ApprovalSetting

pub data DenyLayer : Type 0 where
  denial tool runner interface service : DenyLayer

pub data Reason : Type 0 where
  action_denied : Str → Reason
  permission_denied : Permission → Reason
  service_not_allowed : Str → Str → Reason
  service_unlisted : Str → Reason
  interface_not_allowed : Str → Str → Reason
  runner_not_allowed : Str → Str → Reason
  runner_needs : Str → Permission → Reason
  not_granted : Option Str → List Permission → Reason
  needs_answer : Str → Reason

pub data Decision : Type 0 where
  allow : Decision
  needs_confirmation : Reason → Decision
  deny : DenyLayer → Reason → Decision

-- What has been approved so far.
pub record Approved : Type 0 where
  pub permissions : PermissionSet
  pub runner_action : Bool
  pub confirm : Bool

abbrev pub nothing_approved : Approved
nothing_approved = record { permissions = []; runner_action = false; confirm = false }

-- The union of the action's and its tool's declared permissions.
unfoldable pub required_by : Option ToolMeta → ActionMeta → PermissionSet
required_by none action = action.requires
required_by (some t) action = add_all t.requires action.requires

-- The name under which the grants of the tool are kept.
unfoldable pub grant_name : Option ToolMeta → ActionMeta → Option Str
grant_name meta action = or_else (Option.map (λ t. t.name) meta) action.tool

unfoldable pub granted_to : GrantsFile → Option Str → PermissionSet
granted_to g none = []
granted_to g (some n) = unwrap_or [] (Option.map (λ t. t.granted) (tool_grants g n))

module _ (p : Platform) (g : GrantsFile) where
  unfoldable pub check_runner_provider : Str → Str → Decision
  check_runner_provider name provider =
      let permission = of_slug p (text "ai:" ++ provider) in
      if denies_permission p g.denial permission
      then deny DenyLayer.denial (permission_denied permission)
      else if not (is_some_and (λ r. contains p r.granted permission) (runner_grants g name))
      then deny DenyLayer.runner (runner_needs name permission)
      else allow

  unfoldable pub denied_action : ActionMeta → Option Decision
  denied_action action =
      if denies_action g.denial action.name
      then some (deny DenyLayer.denial (action_denied action.name))
      else none

  unfoldable pub denied_permission : PermissionSet → Option Decision
  denied_permission required =
      Option.map (λ r. deny DenyLayer.denial (permission_denied r))
        (find (denies_permission p g.denial) required)

  unfoldable pub service_layer : Caller → ActionMeta → Option Decision
  service_layer caller action = elim caller.service [
    | none ↦ none
    | some id ↦ elim (service_grants g id) [
      | some s ↦
          if is_empty s.allowed_actions || member action.name s.allowed_actions
          then none
          else some (deny DenyLayer.service (service_not_allowed id action.name))
      | none ↦ some (deny DenyLayer.service (service_unlisted id))
    ]
  ]

  unfoldable pub interface_layer : Caller → ActionMeta → Option Decision
  interface_layer caller action = elim caller.interface [
    | none ↦ none
    | some id ↦ elim (interface_grants g id) [
      | none ↦ none
      | some i ↦
          if not (is_empty i.allowed_actions) && not (member action.name i.allowed_actions)
          then some (deny DenyLayer.interface (interface_not_allowed id action.name))
          else none
    ]
  ]

  unfoldable pub runner_layer : Caller → ActionMeta → Approved → Option Decision
  runner_layer caller action approved = elim caller.runner [
    | none ↦ none
    | some id ↦
        if not approved.runner_action
          && not (is_some_and (λ r. member action.name r.allowed_actions) (runner_grants g id))
        then some (deny DenyLayer.runner (runner_not_allowed id action.name))
        else none
  ]

  -- The tool's grants and what was approved on top of them.
  unfoldable pub granted_with : Option Str → Approved → PermissionSet
  granted_with name approved = add_all approved.permissions (granted_to g name)

  unfoldable pub tool_layer :
      Option ToolMeta → ActionMeta → PermissionSet → Approved → Option Decision
  tool_layer meta action required approved =
      let granted = granted_with (grant_name meta action) approved in
      if is_empty required
      then none
      else if covers_all p granted required
      then none
      else some (
          deny DenyLayer.tool (
            not_granted (grant_name meta action)
              (filter (λ r. not (contains p granted r)) required)))

  unfoldable pub confirm_layer : ActionMeta → Approved → Option Decision
  confirm_layer action approved =
      if action.confirm && (not approved.confirm && not (skips g.approval action.name))
      then some (needs_confirmation (needs_answer action.name))
      else none

  unfoldable pub check_approved : Caller → Option ToolMeta → ActionMeta → Approved → Decision
  check_approved caller meta action approved =
      let required = required_by meta action in
      unwrap_or allow (
        or_else (denied_action action) (
          or_else (denied_permission required) (
            or_else (service_layer caller action) (
              or_else (interface_layer caller action) (
                or_else (runner_layer caller action approved) (
                  or_else (tool_layer meta action required approved)
                    (confirm_layer action approved)))))))

  unfoldable pub check : Caller → Option ToolMeta → ActionMeta → Decision
  check caller meta action = check_approved caller meta action nothing_approved

-- Whether a connected approver may override the decision.
unfoldable pub is_escalatable : Decision → Bool
is_escalatable (needs_confirmation r) = true
is_escalatable (deny DenyLayer.tool r) = true
is_escalatable (deny DenyLayer.runner r) = true
is_escalatable _ = false
