-- ===== src/Executor/Dispatch.antt =====
-- crates/executor/src/lib.rs: the loop of `run_with_changes` that checks an action and asks one
-- question at a time, and `escalate`, which turns an answer into what the loop goes on with.
-- An answer comes from outside with its consequences: the verdict, whether saving is wired, whether
-- an "allow forever" was saved, and the grants that the engine holds from then on.
pub mod Settled
pub mod Questions
pub mod Stuck
use agent_d.Base.{
  ℕ, zero, suc, ◌+◌, ◌≡◌, Bool, true, false, not, ◌&&◌, ◌||◌, List, [], Option, none, some, map,
  leb, if◌then◌else◌, filter,
}
use agent_d.Base.Text.{Str}
use agent_d.Base.Sets.{add_all}
use agent_d.Permissions.Host.{Platform}
use agent_d.Permissions.Slug.{Permission, permission_key, PermissionSet, contains, from_slugs}
use agent_d.Permissions.Grants.{ApprovalSetting, GrantsFile}
use agent_d.Permissions.Engine.{
  ToolMeta, ActionMeta, Caller, Approved, nothing_approved, Decision, DenyLayer, allow,
  needs_confirmation, deny, granted_to, check_approved, is_escalatable,
}

-- crates/types/src/approval.rs.
pub data Verdict : Type 0 where
  allow_once allow_forever denied : Verdict

pub record Answer : Type 0 where
  pub verdict : Verdict
  pub wired : Bool
  pub saved : Bool
  pub next : GrantsFile

pub data Escalation : Type 0 where
  proceed : PermissionSet → Escalation
  reject : Escalation

-- How the dispatch ends before the action is called.
pub data Outcome : Type 0 where
  runs : Approved → GrantsFile → Outcome
  refused : Decision → Outcome
  refused_by_nobody : Decision → Outcome
  rejected : Decision → Outcome
  fourth_question : Outcome
  out_of_fuel : Outcome

unfoldable pub is_allow : Decision → Bool
is_allow allow = true
is_allow _ = false

unfoldable pub is_runner_question : Decision → Bool
is_runner_question (deny DenyLayer.runner r) = true
is_runner_question _ = false

unfoldable pub is_confirm_question : Decision → Bool
is_confirm_question (needs_confirmation r) = true
is_confirm_question _ = false

-- A grant question: a denial of another layer than the runner's.
unfoldable pub is_grant_question : Decision → Bool
is_grant_question (deny DenyLayer.runner r) = false
is_grant_question (deny _ r) = true
is_grant_question _ = false

unfoldable pub is_nobody : Option ApprovalSetting → Bool
is_nobody (some ApprovalSetting.nobody) = true
is_nobody _ = false

unfoldable pub is_classifier : Option ApprovalSetting → Bool
is_classifier (some ApprovalSetting.classifier) = true
is_classifier _ = false

-- The tool's `requires` folded into the action's.
unfoldable pub folded : Option ToolMeta → ActionMeta → ActionMeta
folded none action = action
folded (some t) action = record action { requires = add_all t.requires action.requires }

-- The metadata of the tool that the action names.
unfoldable pub found_tool : (Str → Option ToolMeta) → Option Str → Option ToolMeta
found_tool tool_info none = none
found_tool tool_info (some t) = tool_info t

module _ (p : Platform) where
  -- The permissions that a grant question is about.
  unfoldable pub missing : GrantsFile → Decision → ActionMeta → List Permission
  missing g decision action =
      if is_grant_question decision
      then filter (λ r. not (contains p (granted_to g action.tool) r)) action.requires
      else []

  unfoldable pub extra : GrantsFile → Decision → ActionMeta → PermissionSet
  extra g decision action = from_slugs p (map (λ r. r.slug) (missing g decision action))

  unfoldable pub escalate : GrantsFile → Decision → ActionMeta → Answer → Escalation
  escalate g decision action answer = elim answer.verdict [
    | denied ↦ reject
    | allow_once ↦ proceed (extra g decision action)
    | allow_forever ↦
        if not answer.wired
        then proceed (extra g decision action)
        else if answer.saved
        then proceed (extra g decision action)
        else reject
  ]

  -- What an approving answer adds.
  unfoldable pub approve : Decision → PermissionSet → Approved → Approved
  approve decision new approved = record approved {
    permissions = add_all new approved.permissions;
    runner_action = approved.runner_action || is_runner_question decision;
    confirm = approved.confirm || is_confirm_question decision;
  }

  module _ (broker : Bool) (answers : ℕ → Answer) (caller : Caller) (meta : Option ToolMeta)
      (action : ActionMeta) where
    unfoldable pub ask_loop : ℕ → GrantsFile → Approved → ℕ → Outcome
    ask_loop zero g approved asked = out_of_fuel
    ask_loop (suc fuel) g approved asked =
        let decision = check_approved p g caller meta action approved in
        let again : Outcome = elim (escalate g decision action (answers asked)) [
          | proceed new ↦
              ask_loop fuel (answers asked).next (approve decision new approved) (asked + 1)
          | reject ↦ rejected decision
        ] in
        if is_allow decision
        then runs approved g
        else if is_escalatable decision && is_nobody caller.approval
        then refused_by_nobody decision
        else if not (is_escalatable decision) || (not broker && not (is_classifier caller.approval))
        then refused decision
        else if leb 3 asked
        then fourth_question
        else again

  -- The dispatch of one action: four rounds, since the fourth asks nothing.
  unfoldable pub dispatch :
      Bool → (ℕ → Answer) → (Str → Option ToolMeta) → Caller → ActionMeta → GrantsFile → Outcome
  dispatch broker answers tool_info caller action g =
      let meta = found_tool tool_info action.tool in
      ask_loop broker answers caller meta (folded meta action) 4 g nothing_approved 0
