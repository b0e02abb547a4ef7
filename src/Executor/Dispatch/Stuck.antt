-- ===== src/Executor/Dispatch/Stuck.antt =====
-- A file permission whose path climbs (`..`) is covered by nothing, so a question about it comes
-- back after every approval of it, and what runs has passed the engine's last check.
use agent_d.Base.{
  ℕ, zero, suc, ◌+◌, ◌≡◌, refl, ◌∙◌, ◌⊎◌, inl, inr, Bool, true, false, not, ◌&&◌, ◌||◌,
  if◌then◌else◌, Option, none, some, arith, Bool-cases, In, leb,
}
use agent_d.Base.Text.{Str, str_eq, eq_of_str_eq}
use agent_d.Permissions.Host.{Platform}
use agent_d.Permissions.Pattern.{normal_path}
use agent_d.Permissions.Slug.{
  Permission, parts, is_fs, covers, covers_with_case, covers_spec, denies_action, denies_permission,
}
use agent_d.Permissions.Grants.{GrantsFile}
use agent_d.Permissions.Engine.{
  ToolMeta, ActionMeta, Caller, Approved, Decision, DenyLayer, Reason, allow, deny, required_by,
  tool_layer, check_approved, is_escalatable,
}
use agent_d.Permissions.Engine.Layers
use agent_d.Permissions.Engine.Allow.{Allowed, check_approved-Allowed}
use agent_d.Permissions.Engine.Questions.{tool_layer_form}
use agent_d.Executor.Dispatch.{
  Answer, allow_once, allow_forever, proceed, Outcome, runs, refused, refused_by_nobody,
  fourth_question, is_allow, is_nobody, is_classifier, extra, escalate, approve, ask_loop,
}
use agent_d.Executor.Dispatch.Settled.{escalate-cases}

covers_spec-normal :
    (p : Platform) (ignore : Bool) (hd : Str) (hs : Option Str) (s : Str)
    → is_fs hd ≡ true
    → covers_spec p ignore hd hs (some s) ≡ true
    → normal_path s ≡ true
unfolding covers_spec
covers_spec-normal p ignore hd none s f e = ground arith
covers_spec-normal p ignore hd (some h) s f e = ground arith

-- A file permission is covered only if its path has no `.` and no `..` component: a grant on a
-- folder never reaches out of it.
covers_normal :
    (p : Platform) (ignore : Bool) (holder required : Permission) (s : Str)
    → is_fs (parts required).0 ≡ true
    → (parts required).1 ≡ some s
    → covers_with_case p ignore holder required ≡ true
    → normal_path s ≡ true
unfolding covers_with_case
covers_normal p ignore holder required s f e c =
    elim (Bool-cases (str_eq (parts holder).0 (parts required).0)) [
      | inr d ↦ cc (rw d at c)
      | inl d ↦
          covers_spec-normal p ignore (parts holder).0 (parts holder).1 s
            (rw (eq_of_str_eq _ _ d) f) (rw (d, e) at c)
    ]

uncovered_of_climbing :
    (p : Platform) (h r : Permission) (s : Str)
    → is_fs (parts r).0 ≡ true
    → (parts r).1 ≡ some s
    → normal_path s ≡ false
    → covers p h r ≡ false
unfolding covers
uncovered_of_climbing p h r s f e n = elim (Bool-cases (covers_with_case p p.ignore_case h r)) [
  | inl c ↦ cc (n, covers_normal p p.ignore_case h r s f e c)
  | inr c ↦ c
]

-- An answer that approves: once, or for ever, where that can be saved or nothing saves it.
abbrev pub Approves : Answer → Type 0
Approves a =
    (a.verdict ≡ allow_once)
    ⊎ ((a.verdict ≡ allow_forever) × ((a.wired ≡ false) ⊎ (a.saved ≡ true)))

module _ (p : Platform) (caller : Caller) (meta : Option ToolMeta) (action : ActionMeta) where
  -- Grants under which everything before the grants of the tool passes.
  pub record IsOpen (g : GrantsFile) : Type 0 where
    pub action_open : denies_action g.denial action.name ≡ false
    pub permissions_open :
        (q : Permission) → In q (required_by meta action) → denies_permission p g.denial q ≡ false
    pub service_ok : Layers.ServiceOk g caller action
    pub interface_ok : Layers.InterfaceOk g caller action

module _ (p : Platform) (g : GrantsFile) (answers : ℕ → Answer) (caller : Caller)
    (meta : Option ToolMeta) (action : ActionMeta) (r : Permission) where
  -- Everything before the grants of the tool passes, and goes on to pass; the caller has no runner
  -- and may be asked; and each answer approves.
  pub record IsAsked : Type 0 where
    pub open_first : IsOpen p caller meta action g
    pub open_later : (n : ℕ) → IsOpen p caller meta action (answers n).next
    pub no_runner : caller.runner ≡ none
    pub not_nobody : is_nobody caller.approval ≡ false
    pub approves : (n : ℕ) → Approves (answers n)

  module _ (asked_for : IsAsked) (m : In r (required_by meta action)) (s : Str)
      (fs : is_fs (parts r).0 ≡ true) (path : (parts r).1 ≡ some s)
      (climbs : normal_path s ≡ false) where
    tool_layer_denies :
        (h : GrantsFile) (a : Approved)
        → (why : Reason) × (tool_layer p h meta action (required_by meta action) a
            ≡ some (deny DenyLayer.tool why))
    tool_layer_denies h a = elim (tool_layer_form p h caller meta action a) [
      | inr f ↦ f
      | inl f ↦
          let (k, i, c) = (Layers.tool_layer_pass p h meta action _ a).0 f r m in
          cc (c, uncovered_of_climbing p k r s fs path climbs)
    ]

    check_denies :
        (h : GrantsFile) (a : Approved)
        → IsOpen p caller meta action h
        → (why : Reason) × (check_approved p h caller meta action a ≡ deny DenyLayer.tool why)
    unfolding check_approved
    check_denies h a o =
        let (why, e) = tool_layer_denies h a in
        (
          why,
          rw (
            (Layers.denied_action_pass p h action).1 o.action_open,
            (Layers.denied_permission_pass p h (required_by meta action)).1 o.permissions_open,
            (Layers.service_layer_pass p h caller action).1 o.service_ok,
            (Layers.interface_layer_pass p h caller action).1 o.interface_ok,
            (Layers.runner_layer_pass p h caller action a).1 (inl asked_for.no_runner),
            e,
          ),
        )

    escalate_proceeds :
        (h : GrantsFile) (d : Decision) (n : ℕ)
        → escalate p h d action (answers n) ≡ proceed (extra p h d action)
    unfolding escalate
    escalate_proceeds h d n = elim (asked_for.approves n) [
      | inl e ↦ rw e refl
      | inr (e, inl w) ↦ rw (e, w) refl
      | inr (e, inr v) ↦ elim (Bool-cases (answers n).wired) [
        | inl w ↦ rw (e, w, v) refl
        | inr w ↦ rw (e, w) refl
      ]
    ]

    -- A round that asks and goes on.
    step :
        (k : ℕ) (h : GrantsFile) (a : Approved) (asked : ℕ) (d : Decision)
        → check_approved p h caller meta action a ≡ d
        → is_escalatable d ≡ true
        → is_allow d ≡ false
        → leb 3 asked ≡ false
        → ask_loop p true answers caller meta action (suc k) h a asked
          ≡ ask_loop p true answers caller meta action k
              (answers asked).next
              (approve p d (extra p h d action) a)
              (asked + 1)
    unfolding ask_loop
    step k h a asked d e esc no_allow few =
        rw (e, no_allow, esc, asked_for.not_nobody, few, escalate_proceeds h d asked) (rw e)

    stop :
        (h : GrantsFile) (a : Approved) (asked : ℕ) (d : Decision)
        → check_approved p h caller meta action a ≡ d
        → is_escalatable d ≡ true
        → is_allow d ≡ false
        → leb 3 asked ≡ true
        → ask_loop p true answers caller meta action 1 h a asked ≡ fourth_question
    unfolding ask_loop
    stop h a asked d e esc no_allow three = rw (e, no_allow, esc, asked_for.not_nobody, three)

    loop_asks :
        (k : ℕ) (h : GrantsFile) (a : Approved) (asked : ℕ)
        → IsOpen p caller meta action h
        → asked + k ≡ 3
        → ask_loop p true answers caller meta action (suc k) h a asked ≡ fourth_question
    unfolding is_allow is_escalatable
    loop_asks zero h a asked o l =
        let (why, e) = check_denies h a o in stop h a asked _ e refl refl (ground arith)
    loop_asks (suc k) h a asked o l =
        let (why, e) = check_denies h a o in
        step (suc k) h a asked _ e refl refl (ground arith)
        ∙ loop_asks k (answers asked).next _ (asked + 1) (asked_for.open_later asked) (omega arith)

    -- Where an action requires a file permission whose path has a `.` or `..` component, the
    -- caller has no runner and may be asked, everything before the tool's grants passes under the
    -- grants and under those after each answer, and each answer approves, once, or for ever unless
    -- saving that fails, three questions are asked and the dispatch then ends in the error of a
    -- fourth.
    pub ask_loop_fourth :
        (a : Approved) → ask_loop p true answers caller meta action 4 g a 0 ≡ fourth_question
    ask_loop_fourth a = loop_asks 3 g a 0 asked_for.open_first (omega arith)

module _ (p : Platform) (broker : Bool) (answers : ℕ → Answer) (caller : Caller)
    (meta : Option ToolMeta) (action : ActionMeta) where
  runs-allow :
      (g g' : GrantsFile) (a b : Approved) (d : Decision) (asked : ℕ) (again : Outcome)
      → (again ≡ runs b g' → check_approved p g' caller meta action b ≡ allow)
      → check_approved p g caller meta action a ≡ d
      → (if is_allow d
          then runs a g
          else if is_escalatable d && is_nobody caller.approval
          then refused_by_nobody d
          else if not (is_escalatable d) || (not broker && not (is_classifier caller.approval))
          then refused d
          else if leb 3 asked
          then fourth_question
          else again)
        ≡ runs b g'
      → check_approved p g' caller meta action b ≡ allow
  unfolding is_allow
  runs-allow g g' a b allow asked again f e h = ground arith
  runs-allow g g' a b d asked again f e h = f (ground arith)

  loop-allow :
      (fuel : ℕ) (g g' : GrantsFile) (a b : Approved) (asked : ℕ)
      → ask_loop p broker answers caller meta action fuel g a asked ≡ runs b g'
      → check_approved p g' caller meta action b ≡ allow
  unfolding ask_loop
  loop-allow zero g g' a b asked e = cc
  loop-allow (suc fuel) g g' a b asked e =
      elim (escalate-cases p g action (check_approved p g caller meta action a) (answers asked)) [
        | inl f ↦ runs-allow g g' a b _ asked _ (λ k. cc) refl (rw (f, ask_loop) at e)
        | inr f ↦
            runs-allow g g' a b _ asked _ (loop-allow fuel (answers asked).next g' _ b (asked + 1))
              refl (rw (f, ask_loop) at e)
      ]

  -- What runs has passed the engine: under the grants loaded in the last round, and with all that
  -- was approved by then, every layer holds.
  pub ask_loop_runs :
      (fuel : ℕ) (g g' : GrantsFile) (a b : Approved) (asked : ℕ)
      → ask_loop p broker answers caller meta action fuel g a asked ≡ runs b g'
      → Allowed p g' caller meta action b
  ask_loop_runs fuel g g' a b asked e =
      (check_approved-Allowed p g' caller meta action b).0 (loop-allow fuel g g' a b asked e)
