-- ===== src/Executor/Compaction.antt =====
-- crates/executor/src/lib.rs: the compaction of a session before a run. The summary is the provider's answer;
-- an index out of range is `out_of_range`, where the code uses brackets.
pub mod Boundary
pub mod Stored
use agent_d.Base.{
  first, ℕ, zero, suc, ◌-◌, ◌≡◌, Bool, true, false, not, ◌&&◌, List, [], ◌∷◌, ◌++◌, Option, none,
  some, map, ltb, ◌==◌, if◌then◌else◌, length, drop, take, is_empty, is_some,
}
use agent_d.Base.Text.{Str, text}

-- crates/ai/src/types.rs. What a tool is called with is JSON, kept as the text it is shown as.
pub data Role : Type 0 where
  system : Role
  user : Role
  assistant : Role
  tool : Role

pub record ToolCall : Type 0 where
  pub id : Str
  pub name : Str
  pub arguments : Str

pub record Message (F : Type 0) : Type 0 where
  pub role : Role
  pub content : Str
  pub tool_calls : List ToolCall
  pub tool_call_id : Option Str
  pub changes : List F
  pub more : ℕ

pub data Cut : Type 0 where
  cut_at : ℕ → Cut
  no_cut : Cut
  out_of_range : Cut

abbrev pub is_user : Role → Bool
is_user user = true
is_user _ = false

abbrev pub as_user : Role → Role
as_user tool = user
as_user r = r

unfoldable pub join_calls : List ToolCall → Str
join_calls [] = []
join_calls (c ∷ []) = c.name ++ (text "(" ++ (c.arguments ++ text ")"))
join_calls (c ∷ e ∷ l) = c.name ++ (text "(" ++ (c.arguments ++ (text "), " ++ join_calls (e ∷ l))))

module _ {F : Type 0} where
  abbrev pub user_message : Str → Message F
  user_message s = record {
    role = user;
    content = s;
    tool_calls = [];
    tool_call_id = none;
    changes = [];
    more = 0;
  }

  -- A message that the user wrote.
  abbrev pub is_boundary : Message F → Bool
  is_boundary m = is_user m.role && not (is_some m.tool_call_id)

  -- `(1..=target).rev().find(..)`.
  unfoldable pub find_cut : ℕ → List (Message F) → Cut
  find_cut zero history = no_cut
  find_cut (suc n) history = elim (first (drop (suc n) history)) [
    | none ↦ out_of_range
    | some m ↦ if is_boundary m then cut_at (suc n) else find_cut n history
  ]

  unfoldable pub compaction_cut : List (Message F) → ℕ → Cut
  compaction_cut history keep_recent =
      let target = length history - keep_recent in
      if ltb (length history) keep_recent
      then no_cut
      else if target == 0
      then no_cut
      else find_cut target history

  -- A message as it stands in the text that is summarized.
  unfoldable pub plain : Message F → Message F
  plain m = record {
    role = as_user m.role;
    content =
        if is_empty m.tool_calls
        then m.content
        else m.content ++ (text "\n[called tools: " ++ (join_calls m.tool_calls ++ text "]"));
    tool_calls = [];
    tool_call_id = none;
    changes = [];
    more = 0;
  }

  unfoldable pub transcript : ℕ → Str → List (Message F) → List (Message F)
  transcript drop_count request history =
      map plain (take drop_count history) ++ user_message request ∷ []

  unfoldable pub summary : Str → Message F
  summary s = user_message (text "[Conversation summary]\n" ++ s)

  -- The history of the run after a compaction.
  unfoldable pub shortened_history : ℕ → Message F → List (Message F) → List (Message F)
  shortened_history drop_count s history = s ∷ drop drop_count history
