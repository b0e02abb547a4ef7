-- ===== src/Runners/Options.antt =====
-- crates/runners/src/lib.rs: `RunOptions` and what `validate` takes. Whether the arguments of a tool call, which are
-- kept as the text they are shown as, are an object is an argument.
pub mod Continued
use agent_d.Base.{
  ℕ, ◌+◌, ◌≡◌, ◌⊎◌, inl, inr, Bool, true, false, not, ◌&&◌, ◌||◌, List, [], ◌∷◌, Option, none, some,
  leb, ltb, ◌==◌, min, unwrap_or, if◌then◌else◌, is_some, is_some_and, is_empty, length, map,
}
use agent_d.Base.Text.{Str, text, trim_start, trim_end}
use agent_d.Base.Sets.{Set, member, add, remove}
use agent_d.Base.Keys.{str_key}
use agent_d.Sessions.{saturating_add}
use agent_d.Ui.Keys.{is_whitespace}
use agent_d.Permissions.Grants.{ApprovalSetting}
use agent_d.Executor.Compaction.{Role, assistant, tool, ToolCall, Message}
use agent_d.Runners.Approval.{RunnerError, invalid_input}

-- `str::len`: the bytes of a text.
abbrev char_len : ℕ → ℕ
char_len c = if ltb c 128 then 1 else if ltb c 2048 then 2 else if ltb c 65536 then 3 else 4

unfoldable pub byte_len : Str → ℕ
byte_len [] = 0
byte_len (c ∷ s) = char_len c + byte_len s

-- `s.trim()`.
unfoldable pub trim : Str → Str
trim s = trim_end is_whitespace (trim_start is_whitespace s)

abbrev pub len_or_zero : Option Str → ℕ
len_or_zero none = 0
len_or_zero (some s) = byte_len s

abbrev pub is_tool : Role → Bool
is_tool tool = true
is_tool _ = false

abbrev pub is_assistant : Role → Bool
is_assistant assistant = true
is_assistant _ = false

pub record RunOptions (F : Type 0) : Type 0 where
  pub prompt : Option Str
  pub messages : Option (List (Message F))
  pub session_id : Option Str
  pub system : Option Str
  pub model : Option Str
  pub max_tokens : Option ℕ
  pub timeout_ms : Option ℕ
  pub approval : Option ApprovalSetting
  pub is_admin : Bool

abbrev max_timeout_ms : ℕ
max_timeout_ms = 600000

abbrev max_input_bytes : ℕ
max_input_bytes = 1048576

-- There is no prompt, or nothing in it but white space.
unfoldable pub is_blank : Option Str → Bool
is_blank none = true
is_blank (some s) = is_empty (trim s)

unfoldable pub is_outside : ℕ → Option ℕ → Bool
is_outside largest none = false
is_outside largest (some v) = v == 0 || ltb largest v

-- The bytes so far, the calls that wait for a result, and the ids of all calls.
pub record Progress : Type 0 where
  pub bytes : ℕ
  pub pending : Set Str
  pub seen : Set Str

pub data Checked : Type 0 where
  refused : RunnerError → Checked
  passed : Progress → Checked

abbrev pub then_check : Checked → (Progress → Checked) → Checked
then_check (refused e) f = refused e
then_check (passed s) f = f s

-- Before the first message.
abbrev pub fresh : ℕ → Progress
fresh n = record { bytes = n; pending = []; seen = [] }

-- What is said once all messages are read.
unfoldable pub check_end : Checked → Option RunnerError
check_end (refused e) = some e
check_end (passed s) =
    if not (is_empty s.pending)
    then some (invalid_input (text "history contains unanswered tool calls"))
    else if ltb max_input_bytes s.bytes
    then some (invalid_input (text "runner input exceeds 1 MiB"))
    else none

unfoldable pub options_len : {F : Type 0} → RunOptions F → ℕ
options_len o = len_or_zero o.prompt + len_or_zero o.system + len_or_zero o.model

abbrev pub with_call : ToolCall → Progress → Progress
with_call c s = record {
  bytes =
      saturating_add (saturating_add (saturating_add s.bytes (byte_len c.id)) (byte_len c.name))
        (byte_len c.arguments);
  pending = add c.id s.pending;
  seen = add c.id s.seen;
}

abbrev pub without_call : Option Str → Progress → Progress
without_call id s = record s { pending = remove (unwrap_or [] id) s.pending }

module _ {F : Type 0} where
  -- A result of a tool.
  unfoldable pub check_result : Message F → Progress → Checked
  check_result m s =
      if not (is_empty m.tool_calls) || not (is_some_and (λ id. member id s.pending) m.tool_call_id)
      then refused
          (invalid_input (text "tool results must answer an outstanding tool call exactly once"))
      else passed (without_call m.tool_call_id s)

  abbrev pub with_content : Message F → Progress → Progress
  with_content m s = record s { bytes = saturating_add s.bytes (byte_len m.content) }

  abbrev pub with_id_len : Message F → Progress → Progress
  with_id_len m s = record s { bytes = saturating_add s.bytes (len_or_zero m.tool_call_id) }

  abbrev pub with_call_id : Message F → Progress → Checked
  with_call_id m s = passed (with_id_len m s)

module _ (is_object : Str → Bool) where
  unfoldable pub check_call : ToolCall → Progress → Checked
  check_call c s =
      if is_empty c.id || (is_empty c.name || (not (is_object c.arguments) || member c.id s.seen))
      then refused (invalid_input (text "history contains an invalid or duplicate tool call"))
      else passed (with_call c s)

  unfoldable pub check_calls : List ToolCall → Progress → Checked
  check_calls [] s = passed s
  check_calls (c ∷ l) s = then_check (check_call c s) (λ t. check_calls l t)

  module _ {F : Type 0} where
    unfoldable pub check_other : Message F → Progress → Checked
    check_other m s =
        if not (is_empty s.pending) || is_some m.tool_call_id
        then refused (
            invalid_input
              (text "history contains unanswered tool calls or an unexpected tool_call_id"))
        else if not (is_empty m.tool_calls) && not (is_assistant m.role)
        then refused (invalid_input (text "only assistant messages may contain tool calls"))
        else check_calls m.tool_calls s

    unfoldable pub check_message : Message F → Progress → Checked
    check_message m s =
        then_check
          (if is_tool m.role
            then check_result m (with_content m s)
            else check_other m (with_content m s))
          (with_call_id m)

    unfoldable pub check_messages : List (Message F) → Progress → Checked
    check_messages [] s = passed s
    check_messages (m ∷ l) s = then_check (check_message m s) (λ t. check_messages l t)

    unfoldable pub validate : RunOptions F → Option RunnerError
    validate o =
        let messages = unwrap_or [] o.messages in
        if is_outside max_timeout_ms o.timeout_ms
        then some (invalid_input (text "timeout_ms must be between 1 and 600000"))
        else if is_outside 32768 o.max_tokens
        then some (invalid_input (text "max_tokens must be between 1 and 32768"))
        else if is_some o.session_id && is_some o.messages
        then some (invalid_input (text "pass either `session_id` or `messages`, not both"))
        else if is_some o.session_id && is_blank o.prompt
        then some (invalid_input (text "a session run needs a `prompt`"))
        else if ltb 256 (length messages)
        then some (invalid_input (text "at most 256 history messages are allowed"))
        else if is_empty messages && is_blank o.prompt
        then some (invalid_input (text "provide a prompt or message history"))
        else check_end (check_messages messages (fresh (options_len o)))
