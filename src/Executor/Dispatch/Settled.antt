-- ===== src/Executor/Dispatch/Settled.antt =====
-- What an approving answer settles: the question that was asked is never open again.
use agent_d.Base.{
  ℕ, ◌<◌, ◌≡◌, refl, ap, ◌⊎◌, inl, inr, true, false, not, [], Option, arith, Bool-cases, In,
  In-of_any, In-filter, In-map, not_iff,
}
use agent_d.Base.Sets.{In-add_all_new, In-add_all_old}
use agent_d.Permissions.Host.{Platform}
use agent_d.Permissions.Slug.{
  Permission, permission_key, PermissionSet, contains, covers, of_slug, from_slugs,
}
use agent_d.Permissions.Grants.{GrantsFile}
use agent_d.Permissions.Engine.{
  ToolMeta, ActionMeta, Caller, Approved, Decision, required_by, grant_name, granted_to,
  granted_with, check_approved, is_escalatable,
}
use agent_d.Permissions.Engine.Layers
use agent_d.Permissions.Engine.Allow.{Grows}
use agent_d.Permissions.Engine.Questions.{
  Extends, Question, open_layer, unsettled, runner_open, tool_open, confirm_open, Question-cases,
  runner_open_mono, tool_open_mono, confirm_open_mono,
}
use agent_d.Executor.Dispatch.{
  Answer, proceed, reject, is_runner_question, is_confirm_question, is_grant_question, missing,
  extra, escalate, approve,
}

module _ (p : Platform) (g : GrantsFile) (action : ActionMeta) where
  pub escalate-cases :
      (d : Decision) (answer : Answer)
      → (escalate p g d action answer ≡ reject)
        ⊎ (escalate p g d action answer ≡ proceed (extra p g d action))
  unfolding escalate
  escalate-cases d answer = ground arith

  pub approve-Grows :
      (d : Decision) (new : PermissionSet) (a : Approved) → Grows a (approve p d new a)
  unfolding approve
  approve-Grows d new a = record {
    runner_kept = λ e. ground arith;
    confirm_kept = λ e. ground arith;
    permissions_kept = λ q m. In-add_all_old new q a.permissions m;
  }

-- A permission is covered by itself, read again from its slug.
abbrev pub CoversItself : Platform → Permission → Type 0
CoversItself p r = covers p (of_slug p r.slug) r ≡ true

module _ (p : Platform) (g g' : GrantsFile) (caller : Caller) (meta : Option ToolMeta)
    (action : ActionMeta) (a : Approved)
    (closed : (r : Permission) → In r (required_by meta action) → In r action.requires)
    (named : grant_name meta action ≡ action.tool)
    (itself : (r : Permission) → In r action.requires → CoversItself p r) (x : Extends g g') where
  after : Decision → Approved
  after d = approve p d (extra p g d action) a

  missing_is_extra :
      (d : Decision) (r : Permission)
      → is_grant_question d ≡ true
      → In r action.requires
      → contains p (granted_to g action.tool) r ≡ false
      → In (of_slug p r.slug) (extra p g d action)
  unfolding extra missing from_slugs
  missing_is_extra d r q m e = rw q (
      In-add_all_new _ _ [] (
        In-map (of_slug p) _ _ (
          In-map (λ (s : Permission). s.slug) r _
            (In-filter (λ s. not (contains p (granted_to g action.tool) s)) r action.requires m
              ((not_iff _).1 e)))))

  -- After a grant question everything that is required is covered.
  granted_after :
      (d : Decision)
      → is_grant_question d ≡ true
      → Layers.CoversAll p
          (granted_with p g' (grant_name meta action) (after d))
          (required_by meta action)
  unfolding granted_with after approve contains
  granted_after d q r m = elim (Bool-cases (contains p (granted_to g action.tool) r)) [
    | inl e ↦
        let (h, k, c) = In-of_any (λ h. covers p h r) (granted_to g action.tool) e in
        (h, In-add_all_old _ h _ (x.granted_kept _ h (rw named k)), c)
    | inr e ↦ (
      of_slug p r.slug,
      In-add_all_new _ _ _ (In-add_all_new _ _ _ (missing_is_extra d r q (closed r m) e)),
      itself r (closed r m),
    )
  ]

  grows : (d : Decision) → Grows a (after d)
  unfolding after
  grows d = approve-Grows p g action d (extra p g d action) a

  runner_settled :
      (d : Decision)
      → is_runner_question d ≡ true
      → runner_open p g' caller meta action (after d) ≡ 0
  unfolding after approve
  runner_settled d e =
      ap open_layer (
        (Layers.runner_layer_pass p g' caller action (after d)).1 (inr (inl (rw e (ground arith)))))

  confirm_settled :
      (d : Decision)
      → is_confirm_question d ≡ true
      → confirm_open p g' caller meta action (after d) ≡ 0
  unfolding after approve
  confirm_settled d e =
      ap open_layer
        ((Layers.confirm_layer_pass p g' action (after d)).1 (inr (inl (rw e (ground arith)))))

  tool_settled :
      (d : Decision) → is_grant_question d ≡ true → tool_open p g' caller meta action (after d) ≡ 0
  tool_settled d e = ap open_layer (
      (Layers.tool_layer_pass p g' meta action (required_by meta action) (after d)).1
        (granted_after d e))

  -- What is left after an approving answer to the question `d`.
  left : Decision → ℕ
  left d = unsettled p g' caller meta action (after d)

  settles-Question :
      (d : Decision)
      → Question p g caller meta action a d
      → left d < unsettled p g caller meta action a
  unfolding left is_runner_question is_confirm_question is_grant_question
  settles-Question d q =
      let r = runner_open_mono p g g' caller meta action a (after d) x (grows d) in
      let t = tool_open_mono p g g' caller meta action a (after d) x (grows d) in
      let c = confirm_open_mono p g g' caller meta action a (after d) x (grows d) in
      elim q [
        | inl (why, e, o) ↦ omega (arith, runner_settled d (rw e refl))
        | inr (inl (why, e, o)) ↦ omega (arith, tool_settled d (rw e refl))
        | inr (inr (why, e, o)) ↦ omega (arith, confirm_settled d (rw e refl))
      ]

  -- Each approving answer settles its question for good.
  pub settles :
      is_escalatable (check_approved p g caller meta action a) ≡ true
      → unsettled p g' caller meta action (
          approve p
            (check_approved p g caller meta action a)
            (extra p g (check_approved p g caller meta action a) action)
            a)
        < unsettled p g caller meta action a
  unfolding left after
  settles e =
      settles-Question (check_approved p g caller meta action a)
        (Question-cases p g caller meta action a e)
