-- ===== src/Executor/Interpreters.antt =====
-- crates/executor/src/runs.rs: `interpreter_warning`. `Path::file_name` and the full lowercase of the
-- standard library are arguments.
use agent_d.Base.{
  Bool, ◌&&◌, ◌||◌, ℕ, List, [], ◌∷◌, ◌++◌, Option, none, some, any, all, ◌==◌, ltb, unwrap_or,
  is_some_and, if◌then◌else◌,
}
use agent_d.Base.Text.{Str, text, str_eq, strip_prefix, strip_suffix}

abbrev pub interpreters : List Str
interpreters =
    text "sh"
    ∷ text "bash"
    ∷ text "zsh"
    ∷ text "fish"
    ∷ text "dash"
    ∷ text "ksh"
    ∷ text "env"
    ∷ text "sudo"
    ∷ text "xargs"
    ∷ text "python"
    ∷ text "python3"
    ∷ text "node"
    ∷ text "deno"
    ∷ text "bun"
    ∷ text "ruby"
    ∷ text "perl"
    ∷ text "php"
    ∷ text "lua"
    ∷ text "pwsh"
    ∷ text "powershell"
    ∷ text "cmd"
    ∷ text "npx"
    ∷ text "uv"
    ∷ text "uvx"
    ∷ []

-- A digit or a dot.
unfoldable pub is_version : ℕ → Bool
is_version c = (ltb 47 c && ltb c 58) || c == b'.'

unfoldable pub is_interpreter : Str → Bool
is_interpreter name =
    any (str_eq name) interpreters
    || is_some_and (λ v. all is_version v) (strip_prefix (text "python") name)

abbrev pub warning : Str → Str
warning program =
    text "`"
    ++ (program ++ text "` runs whatever it is given, so allowing it forever allows any command")

module _ (file_name : Str → Option Str) (to_lowercase : Str → Str) where
  -- The name that is looked up: in lower case, without `.exe`.
  unfoldable pub base_of : Str → Str
  base_of name = let base = to_lowercase name in unwrap_or base (strip_suffix (text ".exe") base)

  unfoldable pub interpreter_warning : Str → Option Str
  interpreter_warning permission = elim (strip_prefix (text "shell.exec:") permission) [
    | none ↦ none
    | some program ↦ elim (file_name program) [
      | none ↦ none
      | some name ↦ if is_interpreter (base_of name) then some (warning program) else none
    ]
  ]
