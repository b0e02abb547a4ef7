-- ===== src/Permissions/Engine/Questions.antt =====
-- Which question the engine asks next, and how many are left.
use agent_d.Base.{
  ℕ, ◌+◌, ◌≤◌, ◌≡◌, refl, ◌⊎◌, inl, inr, Bool, true, false, Option, none, some, arith, In,
}
use agent_d.Base.Text.{Str}
use agent_d.Base.Sets.{member, In-add_all_new, In-add_all_old, In-add_all_cases}
use agent_d.Base.Keys.{str_key}
use agent_d.Permissions.Host.{Platform}
use agent_d.Permissions.Slug.{Permission, permission_key, PermissionSet}
use agent_d.Permissions.Grants.{GrantsFile, RunnerGrants, skips, runner_grants}
use agent_d.Permissions.Engine.{
  ToolMeta, ActionMeta, Caller, Approved, Decision, DenyLayer, Reason, needs_confirmation, deny,
  required_by, granted_to, granted_with, denied_action, denied_permission, service_layer,
  interface_layer, runner_layer, tool_layer, confirm_layer, is_escalatable, check_approved,
}
use agent_d.Permissions.Engine.Layers
use agent_d.Permissions.Engine.Allow.{Grows, escalatable-pass}

-- The form of the three layers that may ask.
abbrev RunnerForm : Option Decision → Type 0
RunnerForm o = (o ≡ none) ⊎ ((r : Reason) × (o ≡ some (deny DenyLayer.runner r)))

abbrev pub ToolForm : Option Decision → Type 0
ToolForm o = (o ≡ none) ⊎ ((r : Reason) × (o ≡ some (deny DenyLayer.tool r)))

abbrev ConfirmForm : Option Decision → Type 0
ConfirmForm o = (o ≡ none) ⊎ ((r : Reason) × (o ≡ some (needs_confirmation r)))

abbrev by_runner : Option Decision → Bool
by_runner none = true
by_runner (some (deny DenyLayer.runner r)) = true
by_runner (some _) = false

abbrev by_tool : Option Decision → Bool
by_tool none = true
by_tool (some (deny DenyLayer.tool r)) = true
by_tool (some _) = false

abbrev by_confirm : Option Decision → Bool
by_confirm none = true
by_confirm (some (needs_confirmation r)) = true
by_confirm (some _) = false

runner_form : (o : Option Decision) → by_runner o ≡ true → RunnerForm o
runner_form none e = inl refl
runner_form (some (deny DenyLayer.runner r)) e = inr (r, refl)
runner_form (some _) e = cc

tool_form : (o : Option Decision) → by_tool o ≡ true → ToolForm o
tool_form none e = inl refl
tool_form (some (deny DenyLayer.tool r)) e = inr (r, refl)
tool_form (some _) e = cc

confirm_form : (o : Option Decision) → by_confirm o ≡ true → ConfirmForm o
confirm_form none e = inl refl
confirm_form (some (needs_confirmation r)) e = inr (r, refl)
confirm_form (some _) e = cc

-- 1 for a layer that has not passed.
abbrev pub open_layer : Option Decision → ℕ
open_layer none = 0
open_layer (some d) = 1

pub open_layer-le : (o : Option Decision) → open_layer o ≤ 1
open_layer-le none = omega arith
open_layer-le (some d) = omega arith

pub open_layer_mono :
    (o o' : Option Decision) → (o ≡ none → o' ≡ none) → open_layer o' ≤ open_layer o
open_layer_mono none o' f = rw (f refl) (omega arith)
open_layer_mono (some d) none f = omega arith
open_layer_mono (some d) (some d') f = omega arith

module _ (p : Platform) (g : GrantsFile) (caller : Caller) (meta : Option ToolMeta)
    (action : ActionMeta) (a : Approved) where
  abbrev pub runner_open : ℕ
  runner_open = open_layer (runner_layer p g caller action a)

  abbrev pub tool_open : ℕ
  tool_open = open_layer (tool_layer p g meta action (required_by meta action) a)

  abbrev pub confirm_open : ℕ
  confirm_open = open_layer (confirm_layer p g action a)

  -- How many questions are left.
  abbrev pub unsettled : ℕ
  unsettled = runner_open + tool_open + confirm_open

  runner_layer_form : RunnerForm (runner_layer p g caller action a)
  unfolding runner_layer
  runner_layer_form = runner_form _ (ground arith)

  pub tool_layer_form : ToolForm (tool_layer p g meta action (required_by meta action) a)
  unfolding tool_layer
  tool_layer_form = tool_form _ (ground arith)

  confirm_layer_form : ConfirmForm (confirm_layer p g action a)
  unfolding confirm_layer
  confirm_layer_form = confirm_form _ (ground arith)

  -- The next question is the first of the three layers that has not passed.
  abbrev pub Question : Decision → Type 0
  Question d =
      ((r : Reason) × (d ≡ deny DenyLayer.runner r) × (runner_open ≡ 1))
      ⊎ (((r : Reason) × (d ≡ deny DenyLayer.tool r) × (tool_open ≡ 1))
          ⊎ ((r : Reason) × (d ≡ needs_confirmation r) × (confirm_open ≡ 1)))

  decide_rest :
      denied_action p g action ≡ none
      → denied_permission p g (required_by meta action) ≡ none
      → service_layer p g caller action ≡ none
      → interface_layer p g caller action ≡ none
      → is_escalatable (check_approved p g caller meta action a) ≡ true
      → Question (check_approved p g caller meta action a)
  unfolding check_approved is_escalatable
  decide_rest x y z w e = elim runner_layer_form [
    | inr (r, f) ↦ inl (r, rw (x, y, z, w, f), rw f)
    | inl f ↦ elim tool_layer_form [
      | inr (r, h) ↦ inr (inl (r, rw (x, y, z, w, f, h), rw h))
      | inl h ↦ elim confirm_layer_form [
        | inr (r, k) ↦ inr (inr (r, rw (x, y, z, w, f, h, k), rw k))
        | inl k ↦ cc (rw (x, y, z, w, f, h, k) at e)
      ]
    ]
  ]

  pub Question-cases :
      is_escalatable (check_approved p g caller meta action a) ≡ true
      → Question (check_approved p g caller meta action a)
  Question-cases e =
      let (x, y, z, w) = escalatable-pass p g caller meta action a e in decide_rest x y z w e

-- The grants have grown: nothing that was granted, allowed or skipped is gone.
pub record Extends (g g' : GrantsFile) : Type 0 where
  pub runner_kept :
      (id : Str) (r : RunnerGrants) (name : Str)
      → runner_grants g id ≡ some r
      → member name r.allowed_actions ≡ true
      → (r' : RunnerGrants) × (runner_grants g' id ≡ some r')
        × (member name r'.allowed_actions ≡ true)
  pub granted_kept :
      (name : Option Str) (q : Permission) → In q (granted_to g name) → In q (granted_to g' name)
  pub skip_kept : (name : Str) → skips g.approval name ≡ true → skips g'.approval name ≡ true

module _ (p : Platform) (g g' : GrantsFile) (caller : Caller) (meta : Option ToolMeta)
    (action : ActionMeta) (a b : Approved) (x : Extends g g') (w : Grows a b) where
  RunnerOk-mono : Layers.RunnerOk g caller action a → Layers.RunnerOk g' caller action b
  RunnerOk-mono (inl e) = inl e
  RunnerOk-mono (inr (inl e)) = inr (inl (w.runner_kept e))
  RunnerOk-mono (inr (inr (id, r, e, f, m))) =
      let (r', f', m') = x.runner_kept id r action.name f m in inr (inr (id, r', e, f', m'))

  ConfirmOk-mono : Layers.ConfirmOk g action a → Layers.ConfirmOk g' action b
  ConfirmOk-mono (inl e) = inl e
  ConfirmOk-mono (inr (inl e)) = inr (inl (w.confirm_kept e))
  ConfirmOk-mono (inr (inr e)) = inr (inr (x.skip_kept action.name e))

  granted_with_grows :
      (name : Option Str) (q : Permission)
      → In q (granted_with p g name a)
      → In q (granted_with p g' name b)
  unfolding granted_with
  granted_with_grows name q m = elim (In-add_all_cases a.permissions q (granted_to g name) m) [
    | inl k ↦ In-add_all_new b.permissions q _ (w.permissions_kept q k)
    | inr k ↦ In-add_all_old b.permissions q _ (x.granted_kept name q k)
  ]

  CoversAll-mono :
      (name : Option Str) (required : PermissionSet)
      → Layers.CoversAll p (granted_with p g name a) required
      → Layers.CoversAll p (granted_with p g' name b) required
  CoversAll-mono name required c r m = let (h, k, e) = c r m in (h, granted_with_grows name h k, e)

  -- A layer that has passed stays passed.
  pub runner_open_mono :
      runner_open p g' caller meta action b ≤ runner_open p g caller meta action a
  runner_open_mono = open_layer_mono _ _ λ e.
      (Layers.runner_layer_pass p g' caller action b).1
        (RunnerOk-mono ((Layers.runner_layer_pass p g caller action a).0 e))

  pub tool_open_mono : tool_open p g' caller meta action b ≤ tool_open p g caller meta action a
  tool_open_mono = open_layer_mono _ _ λ e.
      (Layers.tool_layer_pass p g' meta action _ b).1
        (CoversAll-mono _ _ ((Layers.tool_layer_pass p g meta action _ a).0 e))

  pub confirm_open_mono :
      confirm_open p g' caller meta action b ≤ confirm_open p g caller meta action a
  confirm_open_mono = open_layer_mono _ _ λ e.
      (Layers.confirm_layer_pass p g' action b).1
        (ConfirmOk-mono ((Layers.confirm_layer_pass p g action a).0 e))
