-- ===== src/Tests/Runners.antt =====
-- The settings, inputs and prompts of runners at concrete inputs.
use agent_d.Base.{◌≡◌, refl, List, [], ◌∷◌, none, some, inl, inr, true, false, Bool}
use agent_d.Base.Text.{Str, text, str_eq, trim_start, trim_end}
use agent_d.Base.Keys.{str_lt}
use agent_d.Base.Sets.{member, add, remove}
use agent_d.Base.Maps.{Map, get}
use agent_d.Permissions.Grants.{nobody, human, classifier}
use agent_d.Executor.Compaction.{
  Role, Message, user_message, compaction_cut, find_cut, cut_at, summary, shortened_history,
}
use agent_d.Sessions.{saturating_add}
use agent_d.Ui.Keys.{is_whitespace}
use agent_d.Runners.Approval.{
  resolve_approval, with_session, with_requested, with_parent, stricter, approval_forbidden, Based,
  IsStrictest, IsUnder, last_given, resolve_approval-IsStrictest, invalid_input,
}
use agent_d.Runners.Options.{
  RunOptions, Progress, passed, fresh, byte_len, trim, is_blank, is_outside, check_call,
  check_calls, check_result, check_other, check_message, check_messages, check_end, options_len,
  validate,
}
use agent_d.Runners.Options.Continued.{check_messages-shortened_history}
use agent_d.Runners.Prompt.{
  SkillDef, RunnerDef, push_new, push_each, push_part, join_parts, of_skills, with_own, compose,
}
use agent_d.Runners.Actions.{IsComposed, compose-IsComposed}

-- All that a run opens.
unfoldable runners : Unit {0}
unfolding str_eq str_lt trim_start trim_end member add remove get compaction_cut find_cut summary
    shortened_history is_whitespace resolve_approval with_session with_requested with_parent
    stricter byte_len saturating_add trim is_blank is_outside check_call check_calls check_result
    check_other check_message check_messages check_end options_len validate push_new push_each
    push_part join_parts of_skills with_own compose
runners = tt

resolve_run :
    (resolve_approval none (some nobody) (some human) false none
      ≡ inl (approval_forbidden human nobody))
    × (resolve_approval none (some classifier) none false none ≡ inr human)
    × (resolve_approval none (some classifier) none true (some nobody) ≡ inr nobody)
unfolding runners
resolve_run = (refl, refl, refl)

resolve_approval-IsStrictest_example :
    ((b : _) × Based human (some classifier) b
      × IsStrictest human
          (some classifier)
          (some nobody)
          none
          b
          (resolve_approval none (some classifier) (some nobody) false none))
    × ((s : _) × (resolve_approval none (some classifier) (some nobody) true none ≡ inr s)
        × IsUnder (last_given human (some classifier) (some nobody)) none s)
resolve_approval-IsStrictest_example =
    resolve_approval-IsStrictest none (some classifier) (some nobody) none

abbrev any_object : Str → Bool
any_object s = true

abbrev calls : Message Str
calls = record {
  role = Role.assistant;
  content = [];
  tool_calls = record { id = text "a"; name = text "f"; arguments = text "{}" } ∷ [];
  tool_call_id = none;
  changes = [];
  more = 0;
}

abbrev result : Message Str
result = record {
  role = Role.tool;
  content = [];
  tool_calls = [];
  tool_call_id = some (text "a");
  changes = [];
  more = 0;
}

abbrev history : List (Message Str)
history = user_message [] ∷ calls ∷ result ∷ user_message [] ∷ []

abbrev options : List (Message Str) → RunOptions Str
options l = record {
  prompt = none;
  messages = some l;
  session_id = none;
  system = none;
  model = none;
  max_tokens = none;
  timeout_ms = some 1;
  approval = none;
  is_admin = false;
}

validate_run :
    (validate any_object (options history) ≡ none)
    × (validate any_object (options (calls ∷ []))
        ≡ some (invalid_input (text "history contains unanswered tool calls")))
    × (validate any_object (options (calls ∷ result ∷ result ∷ []))
        ≡ some
            (invalid_input (text "tool results must answer an outstanding tool call exactly once")))
unfolding runners
validate_run = (refl, refl, refl)

cut_run : compaction_cut history 1 ≡ cut_at 3
unfolding runners
cut_run = refl

abbrev after : Progress
after = record { bytes = 5; pending = []; seen = text "a" ∷ [] }

read_through : check_messages any_object history (fresh 0) ≡ passed after
unfolding runners
read_through = refl

check_messages-shortened_history_example :
    (v : Progress) × (check_messages any_object
        (shortened_history 3 (summary (text "s")) history)
        (fresh 0)
      ≡ passed v)
    × (v.pending ≡ [])
check_messages-shortened_history_example =
    check_messages-shortened_history any_object history 1 3 (text "s") 0 after cut_run read_through
      refl

abbrev skills : Map Str SkillDef
skills =
    (
      text "k",
      record {
        name = text "k";
        description = none;
        system = text " be brief ";
        actions = text "x" ∷ text "y" ∷ [];
        source = none;
      },
    )
    ∷ []

abbrev reviewer : RunnerDef
reviewer = record {
  name = text "r";
  system = some (text "review");
  model = none;
  skills = text "k" ∷ [];
  allowed_actions = text "y" ∷ text "z" ∷ [];
  cwd = none;
  compact = none;
}

compose_run :
    compose reviewer skills
    ≡ inr (record {
      name = text "r";
      system = text "be brief\n\nreview";
      model = none;
      skills = text "k" ∷ [];
      allowed_actions = text "x" ∷ text "y" ∷ text "z" ∷ [];
    })
unfolding runners
compose_run = refl

compose-IsComposed_example : IsComposed skills reviewer (compose reviewer skills)
compose-IsComposed_example = compose-IsComposed skills reviewer
