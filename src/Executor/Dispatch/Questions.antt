-- ===== src/Executor/Dispatch/Questions.antt =====
-- The loop of `run_with_changes` asks at most three questions, and ends.
use agent_d.Base.{
  ℕ, zero, suc, ◌+◌, ◌≤◌, ◌<◌, ◌≡◌, refl, sym, inl, inr, Bool, true, false, not, ◌&&◌, ◌||◌, Option,
  none, some, arith, leb, Bool-cases, Option-cases, if◌then◌else◌, In,
}
use agent_d.Base.Text.{Str}
use agent_d.Base.Sets.{add_all, In-add_all_new, In-add_all_cases}
use agent_d.Permissions.Host.{Platform}
use agent_d.Permissions.Slug.{Permission, permission_key}
use agent_d.Permissions.Grants.{GrantsFile}
use agent_d.Permissions.Engine.{
  ToolMeta, ActionMeta, Caller, Approved, nothing_approved, Decision, required_by, grant_name,
  runner_layer, tool_layer, confirm_layer, check_approved, is_escalatable,
}
use agent_d.Permissions.Engine.Questions.{Extends, open_layer-le, unsettled, Question-cases}
use agent_d.Executor.Dispatch.{
  Answer, Outcome, runs, refused, refused_by_nobody, rejected, fourth_question, out_of_fuel,
  is_allow, is_nobody, is_classifier, found_tool, folded, ask_loop, dispatch,
}
use agent_d.Executor.Dispatch.Settled.{escalate-cases, CoversItself, settles}

-- Nothing is left to ask where the next decision may be overridden and three have been answered.
asks_some :
    (p : Platform) (g : GrantsFile) (caller : Caller) (meta : Option ToolMeta) (action : ActionMeta)
    (a : Approved)
    → is_escalatable (check_approved p g caller meta action a) ≡ true
    → 1 ≤ unsettled p g caller meta action a
asks_some p g caller meta action a e = elim (Question-cases p g caller meta action a e) [
  | inl (why, _, o) ↦ omega arith
  | inr (inl (why, _, o)) ↦ omega arith
  | inr (inr (why, _, o)) ↦ omega arith
]

pub unsettled-le :
    (p : Platform) (g : GrantsFile) (caller : Caller) (meta : Option ToolMeta) (action : ActionMeta)
    (a : Approved)
    → unsettled p g caller meta action a ≤ 3
unsettled-le p g caller meta action a = omega (
  arith,
  open_layer-le (runner_layer p g caller action a),
  open_layer-le (tool_layer p g meta action (required_by meta action) a),
  open_layer-le (confirm_layer p g action a),
)

-- The dispatch came to an end that the code means: it runs, or it is refused or rejected.
abbrev pub is_meant : Outcome → Bool
is_meant (runs a g) = true
is_meant (refused d) = true
is_meant (refused_by_nobody d) = true
is_meant (rejected d) = true
is_meant fourth_question = false
is_meant out_of_fuel = false

module _ (p : Platform) (broker : Bool) (answers : ℕ → Answer) (caller : Caller)
    (meta : Option ToolMeta) (action : ActionMeta)
    (closed : (r : Permission) → In r (required_by meta action) → In r action.requires)
    (named : grant_name meta action ≡ action.tool)
    (itself : (r : Permission) → In r action.requires → CoversItself p r)
    (chain : (n : ℕ) → Extends (answers n).next (answers (n + 1)).next) where
  -- One round, whatever comes after it.
  round :
      (g : GrantsFile) (a : Approved) (asked : ℕ) (d : Decision) (again : Outcome)
      → (is_escalatable d ≡ true → asked < 3)
      → (is_escalatable d ≡ true → is_meant again ≡ true)
      → is_meant (
          if is_allow d
          then runs a g
          else if is_escalatable d && is_nobody caller.approval
          then refused_by_nobody d
          else if not (is_escalatable d) || (not broker && not (is_classifier caller.approval))
          then refused d
          else if leb 3 asked
          then fourth_question
          else again)
        ≡ true
  round g a asked d again few rest = elim (Bool-cases (is_escalatable d)) [
    | inl e ↦ let l : asked < 3 = few e in let m = rest e in ground arith
    | inr e ↦ ground arith
  ]

  pub ask_loop-meant :
      (fuel : ℕ) (g : GrantsFile) (a : Approved) (asked : ℕ)
      → Extends g (answers asked).next
      → unsettled p g caller meta action a + asked ≤ 3
      → 4 ≤ fuel + asked
      → is_meant (ask_loop p broker answers caller meta action fuel g a asked) ≡ true
  unfolding ask_loop
  ask_loop-meant zero g a asked here h k = absurd (omega arith)
  ask_loop-meant (suc fuel) g a asked here h k =
      elim (escalate-cases p g action (check_approved p g caller meta action a) (answers asked)) [
        | inl e ↦ rw (e, ask_loop) (round g a asked _ _ few (λ _. refl))
        | inr e ↦
            rw (e, ask_loop)
              (round g a asked _ _ few λ q.
                ask_loop-meant fuel (answers asked).next _ (asked + 1) (chain asked)
                  (omega (
                    arith,
                    settles p g (answers asked).next caller meta action a closed named itself here
                        q,
                  ))
                  (omega arith))
      ]
    where
      few : is_escalatable (check_approved p g caller meta action a) ≡ true → asked < 3
      few q = omega (arith, asks_some p g caller meta action a q)

-- The registry returns a tool under the name that it was asked for.
abbrev pub IsNamed : (Str → Option ToolMeta) → Type 0
IsNamed tool_info = (t : Str) (m : ToolMeta) → tool_info t ≡ some m → m.name ≡ t

required_folded :
    (meta : Option ToolMeta) (action : ActionMeta) (r : Permission)
    → In r (required_by meta (folded meta action))
    → In r (folded meta action).requires
unfolding required_by folded
required_folded none action r m = m
required_folded (some t) action r m =
    elim (In-add_all_cases t.requires r (add_all t.requires action.requires) m) [
      | inl k ↦ In-add_all_new t.requires r action.requires k
      | inr k ↦ k
    ]

grant_name-folded :
    (tool_info : Str → Option ToolMeta) (action : ActionMeta) (name : Option Str)
    → IsNamed tool_info
    → action.tool ≡ name
    → grant_name (found_tool tool_info name) (folded (found_tool tool_info name) action)
      ≡ (folded (found_tool tool_info name) action).tool
unfolding grant_name folded found_tool
grant_name-folded tool_info action none ok e = refl
grant_name-folded tool_info action (some t) ok e = elim (Option-cases (tool_info t)) [
  | inl f ↦ rw (f, folded, grant_name)
  | inr (m, f) ↦ rw (f, folded, grant_name) (rw (ok t m f) (sym e))
]

-- If the registry returns each tool under its name, each permission that the action or its tool
-- requires is covered by itself, and every answer leaves at least the grants there were, then the
-- dispatch ends within four rounds by running or by a refusal: it never asks a fourth question.
pub dispatch_asks_three :
    (p : Platform) (broker : Bool) (answers : ℕ → Answer) (tool_info : Str → Option ToolMeta)
    (caller : Caller) (action : ActionMeta) (g : GrantsFile)
    → IsNamed tool_info
    → ((r : Permission)
        → In r (folded (found_tool tool_info action.tool) action).requires
        → CoversItself p r)
    → Extends g (answers 0).next
    → ((n : ℕ) → Extends (answers n).next (answers (n + 1)).next)
    → is_meant (dispatch p broker answers tool_info caller action g) ≡ true
unfolding dispatch
dispatch_asks_three p broker answers tool_info caller action g ok itself first chain =
    ask_loop-meant p broker answers caller (found_tool tool_info action.tool) _
      (required_folded (found_tool tool_info action.tool) action)
      (grant_name-folded tool_info action action.tool ok refl) itself chain 4 g nothing_approved 0
      first
      (omega (arith, unsettled-le p g caller (found_tool tool_info action.tool) _ nothing_approved))
      (omega arith)
