-- ===== src/Permissions/Engine/Allow.antt =====
-- What the decision of `check_approved` says about its layers.
use agent_d.Base.{◌≡◌, ◌↔◌, ◌⊎◌, inl, inr, true, false, Option, none, some, arith, Bool-cases, In}
use agent_d.Base.Text.{Str}
use agent_d.Base.Sets.{In-add_all_new, In-add_all_old, In-add_all_cases}
use agent_d.Permissions.Host.{Platform}
use agent_d.Permissions.Slug.{Permission, permission_key, denies_action, denies_permission}
use agent_d.Permissions.Grants.{GrantsFile}
use agent_d.Permissions.Engine.{
  ToolMeta, ActionMeta, Caller, Approved, Decision, DenyLayer, Reason, action_denied,
  permission_denied, allow, deny, required_by, grant_name, granted_to, granted_with, denied_action,
  denied_permission, service_layer, interface_layer, runner_layer, tool_layer, confirm_layer,
  is_escalatable, check_approved,
}
use agent_d.Permissions.Engine.Layers

-- All that must hold for an action to run.
pub record Allowed (p : Platform) (g : GrantsFile) (caller : Caller) (meta : Option ToolMeta)
    (action : ActionMeta) (approved : Approved) : Type 0 where
  pub action_open : denies_action g.denial action.name ≡ false
  pub permissions_open :
      (r : Permission) → In r (required_by meta action) → denies_permission p g.denial r ≡ false
  pub service_ok : Layers.ServiceOk g caller action
  pub interface_ok : Layers.InterfaceOk g caller action
  pub runner_ok : Layers.RunnerOk g caller action approved
  pub granted :
      Layers.CoversAll p
        (granted_with p g (grant_name meta action) approved)
        (required_by meta action)
  pub confirmed : Layers.ConfirmOk g action approved

module _ (p : Platform) (g : GrantsFile) (caller : Caller) (meta : Option ToolMeta)
    (action : ActionMeta) (approved : Approved) where
  -- The layers, none of which has stopped.
  AllPass : Type 0
  AllPass =
      (denied_action p g action ≡ none)
      × (denied_permission p g (required_by meta action) ≡ none)
      × (service_layer p g caller action ≡ none)
      × (interface_layer p g caller action ≡ none)
      × (runner_layer p g caller action approved ≡ none)
      × (tool_layer p g meta action (required_by meta action) approved ≡ none)
      × (confirm_layer p g action approved ≡ none)

  allow-AllPass : check_approved p g caller meta action approved ≡ allow → AllPass
  unfolding check_approved AllPass
  allow-AllPass e = ground (
    arith,
    Layers.denied_action_hard p g action,
    Layers.denied_permission_hard p g (required_by meta action),
    Layers.service_layer_hard p g caller action,
    Layers.interface_layer_hard p g caller action,
    Layers.runner_layer-stops p g caller action approved,
    Layers.tool_layer-stops p g meta action (required_by meta action) approved,
    Layers.confirm_layer-stops p g action approved,
  )

  AllPass-allow : AllPass → check_approved p g caller meta action approved ≡ allow
  unfolding check_approved AllPass
  AllPass-allow (a, b, c, d, e, f, h) = rw (a, b, c, d, e, f, h)

  -- The engine allows an action exactly when every layer holds: nothing denies it or a permission
  -- that it or its tool requires, the allowlists have it, what was granted or approved covers every
  -- required permission, and the confirm gate is answered.
  pub check_approved-Allowed :
      (check_approved p g caller meta action approved ≡ allow)
      ↔ Allowed p g caller meta action approved
  unfolding AllPass
  check_approved-Allowed = (
    λ e.
        let (a, b, c, d, f, h, k) = allow-AllPass e in
        record {
          action_open = (Layers.denied_action_pass p g action).0 a;
          permissions_open = (Layers.denied_permission_pass p g _).0 b;
          service_ok = (Layers.service_layer_pass p g caller action).0 c;
          interface_ok = (Layers.interface_layer_pass p g caller action).0 d;
          runner_ok = (Layers.runner_layer_pass p g caller action approved).0 f;
          granted = (Layers.tool_layer_pass p g meta action _ approved).0 h;
          confirmed = (Layers.confirm_layer_pass p g action approved).0 k;
        },
    λ ok. AllPass-allow (
      (Layers.denied_action_pass p g action).1 ok.action_open,
      (Layers.denied_permission_pass p g _).1 ok.permissions_open,
      (Layers.service_layer_pass p g caller action).1 ok.service_ok,
      (Layers.interface_layer_pass p g caller action).1 ok.interface_ok,
      (Layers.runner_layer_pass p g caller action approved).1 ok.runner_ok,
      (Layers.tool_layer_pass p g meta action _ approved).1 ok.granted,
      (Layers.confirm_layer_pass p g action approved).1 ok.confirmed,
    ),
  )

  check_denied_permission :
      (d : Decision)
      → denied_permission p g (required_by meta action) ≡ some d
      → denies_action g.denial action.name ≡ false
      → check_approved p g caller meta action approved ≡ d
  unfolding check_approved
  check_denied_permission d e f = rw ((Layers.denied_action_pass p g action).1 f, e)

  -- A denied action, or an action that requires a denied permission, is refused at the denial layer
  -- whatever has been approved.
  pub check_approved_denied :
      (denies_action g.denial action.name ≡ true)
        ⊎ ((r : Permission) × In r (required_by meta action)
            × (denies_permission p g.denial r ≡ true))
      → (why : Reason) × (check_approved p g caller meta action approved
          ≡ deny DenyLayer.denial why)
  unfolding check_approved denied_action
  check_approved_denied h = elim (Bool-cases (denies_action g.denial action.name)) [
    | inl e ↦ (action_denied action.name, rw e)
    | inr e ↦ elim h [
      | inl f ↦ cc
      | inr (r, m, k) ↦
          let (d, found) = Layers.denied_permission_found p g (required_by meta action) r m k in
          (permission_denied d, check_denied_permission _ found e)
    ]
  ]

  pub escalatable-pass :
      is_escalatable (check_approved p g caller meta action approved) ≡ true
      → (denied_action p g action ≡ none)
        × (denied_permission p g (required_by meta action) ≡ none)
        × (service_layer p g caller action ≡ none)
        × (interface_layer p g caller action ≡ none)
  unfolding check_approved is_escalatable
  escalatable-pass e = ground (
    arith,
    Layers.denied_action_hard p g action,
    Layers.denied_permission_hard p g (required_by meta action),
    Layers.service_layer_hard p g caller action,
    Layers.interface_layer_hard p g caller action,
  )

  -- A question is asked only about an action that no denial forbids and that the service and
  -- interface allowlists have.
  escalatable_open :
      is_escalatable (check_approved p g caller meta action approved) ≡ true
      → (denies_action g.denial action.name ≡ false)
        × ((r : Permission)
            → In r (required_by meta action)
            → denies_permission p g.denial r ≡ false)
        × Layers.ServiceOk g caller action
        × Layers.InterfaceOk g caller action
  escalatable_open e =
      let (a, b, c, d) = escalatable-pass e in
      (
        (Layers.denied_action_pass p g action).0 a,
        (Layers.denied_permission_pass p g _).0 b,
        (Layers.service_layer_pass p g caller action).0 c,
        (Layers.interface_layer_pass p g caller action).0 d,
      )

-- More has been approved.
pub record Grows (a b : Approved) : Type 0 where
  pub runner_kept : a.runner_action ≡ true → b.runner_action ≡ true
  pub confirm_kept : a.confirm ≡ true → b.confirm ≡ true
  pub permissions_kept : (q : Permission) → In q a.permissions → In q b.permissions

module _ (p : Platform) (g : GrantsFile) (caller : Caller) (meta : Option ToolMeta)
    (action : ActionMeta) (a b : Approved) where
  granted_with_mono :
      (name : Option Str) (q : Permission)
      → Grows a b
      → In q (granted_with p g name a)
      → In q (granted_with p g name b)
  unfolding granted_with
  granted_with_mono name q w m = elim (In-add_all_cases a.permissions q (granted_to g name) m) [
    | inl k ↦ In-add_all_new b.permissions q _ (w.permissions_kept q k)
    | inr k ↦ In-add_all_old b.permissions q _ k
  ]

  -- Approving more never takes an allowed action away.
  pub check_approved_mono :
      Grows a b
      → check_approved p g caller meta action a ≡ allow
      → check_approved p g caller meta action b ≡ allow
  check_approved_mono w e =
      let ok = (check_approved-Allowed p g caller meta action a).0 e in
      (check_approved-Allowed p g caller meta action b).1 (record {
        action_open = ok.action_open;
        permissions_open = ok.permissions_open;
        service_ok = ok.service_ok;
        interface_ok = ok.interface_ok;
        runner_ok = runner_mono w ok.runner_ok;
        granted = λ r m.
            let (h, k, c) = ok.granted r m in
            (h, granted_with_mono (grant_name meta action) h w k, c);
        confirmed = confirm_mono w ok.confirmed;
      })
    where
      runner_mono :
          Grows a b → Layers.RunnerOk g caller action a → Layers.RunnerOk g caller action b
      runner_mono w (inl e) = inl e
      runner_mono w (inr (inl e)) = inr (inl (w.runner_kept e))
      runner_mono w (inr (inr ok)) = inr (inr ok)

      confirm_mono : Grows a b → Layers.ConfirmOk g action a → Layers.ConfirmOk g action b
      confirm_mono w (inl e) = inl e
      confirm_mono w (inr (inl e)) = inr (inl (w.confirm_kept e))
      confirm_mono w (inr (inr e)) = inr (inr e)
