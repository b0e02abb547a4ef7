-- ===== src/Tests/Dispatch.antt =====
-- The engine and the question loop at concrete inputs.
use agent_d.Base.{
  ℕ, ◌≡◌, refl, ◌↔◌, inl, inr, String, Bool, true, false, List, [], ◌∷◌, Option, none, some, In,
}
use agent_d.Base.Text.{Str, text}
use agent_d.Permissions.Slug.{Permission}
use agent_d.Permissions.Grants.{
  GrantsFile, skips, tool_grants, runner_grants, interface_grants, service_grants,
}
use agent_d.Permissions.Engine.{
  ToolMeta, ActionMeta, Caller, DenyLayer, Reason, Approved, nothing_approved, allow, deny,
  required_by, grant_name, granted_to, granted_with, check_runner_provider, denied_action,
  denied_permission, service_layer, interface_layer, runner_layer, tool_layer, confirm_layer,
  check_approved, check, is_escalatable,
}
use agent_d.Permissions.Engine.Allow.{
  Allowed, check_approved-Allowed, check_approved_denied, check_approved_mono,
}
use agent_d.Permissions.Engine.Questions.{Extends}
use agent_d.Executor.Dispatch.{
  Answer, allow_once, fourth_question, is_allow, is_runner_question, is_confirm_question,
  is_grant_question, is_nobody, is_classifier, folded, found_tool, missing, extra, escalate,
  approve, ask_loop, dispatch,
}
use agent_d.Executor.Dispatch.Settled.{CoversItself}
use agent_d.Executor.Dispatch.Questions.{IsNamed, is_meant, dispatch_asks_three}
use agent_d.Executor.Dispatch.Stuck.{IsOpen, IsAsked, ask_loop_fourth, ask_loop_runs}
use agent_d.Tests.Permissions.{opened, linux, slug}

running : Unit {0}
unfolding opened skips tool_grants runner_grants interface_grants service_grants required_by
    grant_name granted_to granted_with check_runner_provider denied_action denied_permission
    service_layer interface_layer runner_layer tool_layer confirm_layer check_approved check
    is_escalatable is_allow is_runner_question is_confirm_question is_grant_question is_nobody
    is_classifier folded found_tool missing extra escalate approve ask_loop dispatch
running = tt

-- A grants file that denies one action, and lets `bot` call another.
abbrev grants : GrantsFile
grants = record {
  tool = (text "git", record { granted = slug "git.read" ∷ [] }) ∷ [];
  runner =
      (text "bot", record { allowed_actions = text "git.diff" ∷ []; granted = []; approval = none })
      ∷ [];
  interface = [];
  service = [];
  packages = [];
  denial = record { actions = text "git.push" ∷ []; permissions = [] };
  approval = record { classifier = none; skip = [] };
  folders = record { trusted = [] };
}

abbrev bot : Caller
bot = record { runner = some (text "bot"); interface = none; service = none; approval = none }

abbrev local_caller : Caller
local_caller = record { runner = none; interface = none; service = none; approval = none }

abbrev action : String → List Permission → Bool → ActionMeta
action name requires confirm = record {
  name = text name;
  tool = some (text "git");
  requires = requires;
  confirm = confirm;
}

abbrev no_tools : Str → Option ToolMeta
no_tools t = none

abbrev once : ℕ → Answer
once n = record { verdict = allow_once; wired = false; saved = false; next = grants }

engine_tests :
    (check linux grants bot none (action "git.diff" (slug "git.read" ∷ []) false) ≡ allow)
    × (is_escalatable (check linux grants bot none (action "git.log" [] false)) ≡ true)
    × (is_escalatable (check linux grants bot none (action "git.push" [] false)) ≡ false)
    × (is_meant (
          dispatch linux true once no_tools bot
            (action "git.log" (slug "git.write" ∷ []) true)
            grants)
        ≡ true)
    × (is_allow (check linux grants bot none (action "git.log" (slug "git.write" ∷ []) true))
        ≡ false)
unfolding running
engine_tests = (refl, refl, refl, refl, refl)

-- An action that needs all three questions.
abbrev committing : ActionMeta
committing = action "git.commit" (slug "git.write" ∷ []) true

check_approved-Allowed_example :
    (check_approved linux grants bot none committing nothing_approved ≡ allow)
    ↔ Allowed linux grants bot none committing nothing_approved
check_approved-Allowed_example =
    check_approved-Allowed linux grants bot none committing nothing_approved

check_approved_denied_example :
    (why : Reason) × (check_approved linux grants bot none
        (action "git.push" [] false)
        nothing_approved
      ≡ deny DenyLayer.denial why)
unfolding running
check_approved_denied_example =
    check_approved_denied linux grants bot none (action "git.push" [] false) nothing_approved
      (inl refl)

abbrev all_approved : Approved
all_approved = record { permissions = slug "git.write" ∷ []; runner_action = true; confirm = true }

check_approved_mono_example :
    check_approved linux grants bot none
      (action "git.diff" (slug "git.read" ∷ []) false)
      all_approved
    ≡ allow
unfolding running
check_approved_mono_example =
    check_approved_mono linux grants bot none (action "git.diff" (slug "git.read" ∷ []) false)
      nothing_approved all_approved
      (record {
        runner_kept = λ e. refl;
        confirm_kept = λ e. refl;
        permissions_kept = λ q m. elim m [ ];
      })
      refl

grants_steady : Extends grants grants
grants_steady = record {
  runner_kept = λ id r name e m. (r, e, m);
  granted_kept = λ name q m. m;
  skip_kept = λ name e. e;
}

none-IsNamed : IsNamed no_tools
none-IsNamed t m e = cc

write_itself :
    (r : Permission)
    → In r (folded (found_tool no_tools committing.tool) committing).requires
    → CoversItself linux r
unfolding running
write_itself r (inl e) = rw e refl
write_itself r (inr m) = elim m [ ]

dispatch_asks_three_example :
    is_meant (dispatch linux true once no_tools bot committing grants) ≡ true
dispatch_asks_three_example =
    dispatch_asks_three linux true once no_tools bot committing grants none-IsNamed write_itself
      grants_steady (λ n. grants_steady)

abbrev climbing : ActionMeta
climbing = action "git.root" (slug "fs.read:/a/../b" ∷ []) false

climbing-IsOpen : IsOpen linux local_caller none climbing grants
unfolding running
climbing-IsOpen = record {
  action_open = refl;
  permissions_open = λ q m. refl;
  service_ok = inl refl;
  interface_ok = inl refl;
}

climbing_asked : IsAsked linux grants once local_caller none climbing (slug "fs.read:/a/../b")
unfolding running
climbing_asked = record {
  open_first = climbing-IsOpen;
  open_later = λ n. climbing-IsOpen;
  no_runner = refl;
  not_nobody = refl;
  approves = λ n. inl refl;
}

ask_loop_fourth_example :
    ask_loop linux true once local_caller none climbing 4 grants nothing_approved 0
    ≡ fourth_question
unfolding running
ask_loop_fourth_example =
    ask_loop_fourth linux grants once local_caller none climbing (slug "fs.read:/a/../b")
      climbing_asked (inl refl) (text "/a/../b") refl refl refl nothing_approved

ask_loop_runs_example :
    Allowed linux grants bot none (action "git.diff" (slug "git.read" ∷ []) false) nothing_approved
unfolding running
ask_loop_runs_example =
    ask_loop_runs linux true once bot none (action "git.diff" (slug "git.read" ∷ []) false) 4 grants
      grants nothing_approved nothing_approved 0 refl
