-- ===== src/Permissions/Engine/Layers.antt =====
-- When each layer of the engine passes.
use agent_d.Base.{
  ◌≡◌, refl, ◌↔◌, ◌⊎◌, inl, inr, Bool, true, false, [], ◌∷◌, Option, none, some, arith, Bool-cases,
  Option-cases, is_empty, In, find-cases, any_of_In, In-of_any, of_all-In, all_of_In,
}
use agent_d.Base.Text.{Str}
use agent_d.Base.Sets.{member}
use agent_d.Base.Keys.{str_key}
use agent_d.Permissions.Host.{Platform}
use agent_d.Permissions.Slug.{
  Permission, PermissionSet, contains, covers, covers_all, denies_action, denies_permission,
}
use agent_d.Permissions.Grants.{
  GrantsFile, ServiceGrants, InterfaceGrants, RunnerGrants, skips, runner_grants, interface_grants,
  service_grants,
}
use agent_d.Permissions.Engine.{
  ToolMeta, ActionMeta, Caller, Approved, Decision, DenyLayer, allow, needs_confirmation, deny,
  permission_denied, grant_name, granted_with, denied_action, denied_permission, service_layer,
  interface_layer, runner_layer, tool_layer, confirm_layer,
}

-- A layer passes, or stops with a decision that does not allow.
abbrev pub stops : Option Decision → Bool
stops none = true
stops (some allow) = false
stops (some (needs_confirmation r)) = true
stops (some (deny l r)) = true

-- A layer passes, or stops with a decision that no approver may override.
abbrev pub stops_hard : Option Decision → Bool
stops_hard none = true
stops_hard (some allow) = false
stops_hard (some (needs_confirmation r)) = false
stops_hard (some (deny DenyLayer.denial r)) = true
stops_hard (some (deny DenyLayer.tool r)) = false
stops_hard (some (deny DenyLayer.runner r)) = false
stops_hard (some (deny DenyLayer.interface r)) = true
stops_hard (some (deny DenyLayer.service r)) = true

-- A held set covers a required one: each required permission is covered by one that is held.
abbrev pub CoversAll : Platform → PermissionSet → PermissionSet → Type 0
CoversAll p held required =
    (r : Permission) → In r required → (h : Permission) × In h held × (covers p h r ≡ true)

-- The service allowlist: no service, or one that is listed with no list of actions or this one.
abbrev pub ServiceOk : GrantsFile → Caller → ActionMeta → Type 0
ServiceOk g caller action =
    (caller.service ≡ none)
    ⊎ ((id : Str) × (s : ServiceGrants) × (caller.service ≡ some id)
        × (service_grants g id ≡ some s)
        × ((is_empty s.allowed_actions ≡ true) ⊎ (member action.name s.allowed_actions ≡ true)))

-- The interface allowlist: an interface that is not listed has no constraint.
abbrev pub InterfaceOk : GrantsFile → Caller → ActionMeta → Type 0
InterfaceOk g caller action =
    (caller.interface ≡ none)
    ⊎ ((id : Str) × (caller.interface ≡ some id)
        × ((interface_grants g id ≡ none)
            ⊎ ((i : InterfaceGrants) × (interface_grants g id ≡ some i)
                × ((is_empty i.allowed_actions ≡ true)
                    ⊎ (member action.name i.allowed_actions ≡ true)))))

-- The runner allowlist: no runner, an approval, or a listed action.
abbrev pub RunnerOk : GrantsFile → Caller → ActionMeta → Approved → Type 0
RunnerOk g caller action approved =
    (caller.runner ≡ none)
    ⊎ ((approved.runner_action ≡ true)
        ⊎ ((id : Str) × (r : RunnerGrants) × (caller.runner ≡ some id)
            × (runner_grants g id ≡ some r)
            × (member action.name r.allowed_actions ≡ true)))

-- The confirm gate: not asked for, answered, or skipped.
abbrev pub ConfirmOk : GrantsFile → ActionMeta → Approved → Type 0
ConfirmOk g action approved =
    (action.confirm ≡ false) ⊎ ((approved.confirm ≡ true) ⊎ (skips g.approval action.name ≡ true))

module _ (p : Platform) (g : GrantsFile) where
  pub denied_action_pass :
      (action : ActionMeta)
      → (denied_action p g action ≡ none) ↔ (denies_action g.denial action.name ≡ false)
  unfolding denied_action
  denied_action_pass action = ground arith

  pub denied_action_hard : (action : ActionMeta) → stops_hard (denied_action p g action) ≡ true
  unfolding denied_action
  denied_action_hard action = ground arith

  pub denied_permission_pass :
      (required : PermissionSet)
      → (denied_permission p g required ≡ none)
        ↔ ((r : Permission) → In r required → denies_permission p g.denial r ≡ false)
  unfolding denied_permission
  denied_permission_pass required = elim (find-cases (denies_permission p g.denial) required) [
    | inl (n, k) ↦ (
      λ _ r m. elim (Bool-cases (denies_permission p g.denial r)) [
        | inl e ↦ cc (k, any_of_In (denies_permission p g.denial) required r m e)
        | inr e ↦ e
      ],
      λ _. rw n,
    )
    | inr (r, f, m, k, _) ↦ (λ e. cc (rw f at e), λ all. cc (k, all r m))
  ]

  pub denied_permission_hard :
      (required : PermissionSet) → stops_hard (denied_permission p g required) ≡ true
  unfolding denied_permission
  denied_permission_hard required = elim (find-cases (denies_permission p g.denial) required) [
    | inl (n, k) ↦ rw n
    | inr (r, f, m, k, _) ↦ rw f
  ]

  pub denied_permission_found :
      (required : PermissionSet) (r : Permission)
      → In r required
      → denies_permission p g.denial r ≡ true
      → (q : Permission) × (denied_permission p g required
          ≡ some (deny DenyLayer.denial (permission_denied q)))
  unfolding denied_permission
  denied_permission_found required r m e =
      elim (find-cases (denies_permission p g.denial) required) [
        | inl (n, k) ↦ cc (k, any_of_In (denies_permission p g.denial) required r m e)
        | inr (q, f, _, _, _) ↦ (q, rw f)
      ]

  pub service_layer_pass :
      (caller : Caller) (action : ActionMeta)
      → (service_layer p g caller action ≡ none) ↔ ServiceOk g caller action
  unfolding service_layer
  service_layer_pass caller action = elim (Option-cases caller.service) [
    | inl e ↦ (λ _. inl e, λ _. rw e)
    | inr (id, e) ↦ elim (Option-cases (service_grants g id)) [
      | inl f ↦ (λ h. cc (rw (e, f, service_layer) at h), λ ok. ground arith)
      | inr (s, f) ↦ (λ h. inr (id, s, e, f, ground arith), λ ok. ground arith)
    ]
  ]

  pub service_layer_hard :
      (caller : Caller) (action : ActionMeta) → stops_hard (service_layer p g caller action) ≡ true
  unfolding service_layer
  service_layer_hard caller action = ground arith

  pub interface_layer_pass :
      (caller : Caller) (action : ActionMeta)
      → (interface_layer p g caller action ≡ none) ↔ InterfaceOk g caller action
  unfolding interface_layer
  interface_layer_pass caller action = ground arith

  pub interface_layer_hard :
      (caller : Caller) (action : ActionMeta)
      → stops_hard (interface_layer p g caller action) ≡ true
  unfolding interface_layer
  interface_layer_hard caller action = ground arith

  pub runner_layer_pass :
      (caller : Caller) (action : ActionMeta) (approved : Approved)
      → (runner_layer p g caller action approved ≡ none) ↔ RunnerOk g caller action approved
  unfolding runner_layer
  runner_layer_pass caller action approved = ground arith

  pub confirm_layer_pass :
      (action : ActionMeta) (approved : Approved)
      → (confirm_layer p g action approved ≡ none) ↔ ConfirmOk g action approved
  unfolding confirm_layer
  confirm_layer_pass action approved = ground arith

  pub runner_layer-stops :
      (caller : Caller) (action : ActionMeta) (approved : Approved)
      → stops (runner_layer p g caller action approved) ≡ true
  unfolding runner_layer
  runner_layer-stops caller action approved = ground arith

  pub confirm_layer-stops :
      (action : ActionMeta) (approved : Approved) → stops (confirm_layer p g action approved) ≡ true
  unfolding confirm_layer
  confirm_layer-stops action approved = ground arith

  pub tool_layer-stops :
      (meta : Option ToolMeta) (action : ActionMeta) (required : PermissionSet)
      (approved : Approved)
      → stops (tool_layer p g meta action required approved) ≡ true
  unfolding tool_layer
  tool_layer-stops meta action required approved = ground arith

  covers_all_iff :
      (held required : PermissionSet)
      → (covers_all p held required ≡ true) ↔ CoversAll p held required
  unfolding covers_all contains
  covers_all_iff held required = (
    λ e r m. In-of_any (λ h. covers p h r) held (of_all-In (contains p held) required r e m),
    λ c.
        all_of_In (contains p held) required
          λ r m. let (h, k, e) = c r m in any_of_In (λ h. covers p h r) held h k e,
  )

  pub tool_layer_pass :
      (meta : Option ToolMeta) (action : ActionMeta) (required : PermissionSet)
      (approved : Approved)
      → (tool_layer p g meta action required approved ≡ none)
        ↔ CoversAll p (granted_with p g (grant_name meta action) approved) required
  unfolding tool_layer
  tool_layer_pass meta action [] approved = (λ _ r m. elim m [ ], λ _. refl)
  tool_layer_pass meta action (r ∷ rs) approved =
      let (f, h) = covers_all_iff (granted_with p g (grant_name meta action) approved) (r ∷ rs) in
      (λ e. f (ground arith), λ c. rw (h c))
