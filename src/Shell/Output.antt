-- ===== src/Shell/Output.antt =====
-- crates/shell/src/output.rs: the capture of a program's output. Reads are a list: a chunk, of which an
-- empty one is the end, or an error. Reading bytes as UTF-8 is an argument.
pub mod Bounds
use agent_d.Base.{
  ℕ, ◌-◌, ◌≡◌, Bool, true, false, not, ◌&&◌, ◌||◌, List, [], ◌∷◌, ◌++◌, Option, none, some, length,
  take, min, ltb, is_empty, if◌then◌else◌,
}
use agent_d.Base.Text.{Str, text, ends_with}

abbrev pub max_output_bytes : ℕ
max_output_bytes = 16777216

pub record Capped : Type 0 where
  pub bytes : List ℕ
  pub truncated : Bool

abbrev pub nothing : Capped
nothing = record { bytes = []; truncated = false }

-- `push` with the cap as its first argument.
unfoldable pub push_within : ℕ → List ℕ → Capped → Capped
push_within most chunk c =
    let room = most - length c.bytes in
    record {
      bytes = c.bytes ++ take (min (length chunk) room) chunk;
      truncated = c.truncated || ltb room (length chunk);
    }

unfoldable pub push : List ℕ → Capped → Capped
push chunk c = push_within max_output_bytes chunk c

pub data Read : Type 0 where
  chunk : List ℕ → Read
  failed : Read

-- The reads, into what came before; the list ends where the stream does.
unfoldable pub read_sync : List Read → Capped → Capped
read_sync [] c = c
read_sync (failed ∷ l) c = c
read_sync (chunk b ∷ l) c = let rest = read_sync l (push b c) in if is_empty b then c else rest

unfoldable pub read_async : List Read → Capped → Option Capped
read_async [] c = some c
read_async (failed ∷ l) c = none
read_async (chunk b ∷ l) c =
    let rest = read_async l (push b c) in if is_empty b then some c else rest

abbrev pub note : Str
note = text "[agentd: output truncated after 16 MiB]\n"

unfoldable pub into_text : (List ℕ → Str) → Capped → Str
into_text lossy c =
    let t = lossy c.bytes in
    if not c.truncated
    then t
    else if not (is_empty t) && not (ends_with (text "\n") t)
    then t ++ (text "\n" ++ note)
    else t ++ note
