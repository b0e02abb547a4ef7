-- ===== src/Runners/Prompt.antt =====
-- crates/runners/src/lib.rs: `compose`, the prompt and the actions of a runner. The registry of skills is a map.
use agent_d.Base.{
  ℕ, ◌⊎◌, inl, inr, Bool, List, [], ◌∷◌, ◌++◌, Option, none, some, if◌then◌else◌, is_empty, any,
}
use agent_d.Base.Text.{Str, text, str_eq}
use agent_d.Base.Keys.{str_key}
use agent_d.Base.Maps.{Map, get}
use agent_d.Runners.Approval.{RunnerError, unknown_skill}
use agent_d.Runners.Options.{trim}

pub record CompactPolicy : Type 0 where
  pub enabled : Bool
  pub after_turns : ℕ
  pub keep_recent : ℕ
  pub prompt : Str

pub record SkillDef : Type 0 where
  pub name : Str
  pub description : Option Str
  pub system : Str
  pub actions : List Str
  pub source : Option Str

pub record RunnerDef : Type 0 where
  pub name : Str
  pub system : Option Str
  pub model : Option Str
  pub skills : List Str
  pub allowed_actions : List Str
  pub cwd : Option Str
  pub compact : Option CompactPolicy

pub record RunnerComposition : Type 0 where
  pub name : Str
  pub system : Str
  pub model : Option Str
  pub skills : List Str
  pub allowed_actions : List Str

-- `if !actions.contains(a) { actions.push(a) }`.
unfoldable pub push_new : Str → List Str → List Str
push_new a actions = if any (str_eq a) actions then actions else actions ++ a ∷ []

unfoldable pub push_each : List Str → List Str → List Str
push_each [] actions = actions
push_each (a ∷ l) actions = push_each l (push_new a actions)

unfoldable pub push_part : Str → List Str → List Str
push_part s system_parts = if is_empty (trim s) then system_parts else system_parts ++ trim s ∷ []

-- `system_parts.join("\n\n")`.
unfoldable pub join_parts : List Str → Str
join_parts [] = []
join_parts (s ∷ []) = s
join_parts (s ∷ t ∷ l) = s ++ (text "\n\n" ++ join_parts (t ∷ l))

-- The parts and the actions of the skills, or the first name of a skill that there is not.
unfoldable pub of_skills :
    Map Str SkillDef → List Str → List Str → List Str → Str ⊎ (List Str × List Str)
of_skills registry [] system_parts actions = inr (system_parts, actions)
of_skills registry (n ∷ names) system_parts actions = elim (get n registry) [
  | none ↦ inl n
  | some skill ↦
      of_skills registry names (push_part skill.system system_parts)
        (push_each skill.actions actions)
]

unfoldable pub with_own : Option Str → List Str → List Str
with_own none system_parts = system_parts
with_own (some extra) system_parts = push_part extra system_parts

unfoldable pub compose : RunnerDef → Map Str SkillDef → RunnerError ⊎ RunnerComposition
compose d registry = elim (of_skills registry d.skills [] []) [
  | inl skill ↦ inl (unknown_skill d.name skill)
  | inr (system_parts, actions) ↦ inr (record {
    name = d.name;
    system = join_parts (with_own d.system system_parts);
    model = d.model;
    skills = d.skills;
    allowed_actions = push_each d.allowed_actions actions;
  })
]
