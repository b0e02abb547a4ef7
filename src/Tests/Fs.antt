-- ===== src/Tests/Fs.antt =====
-- Patches at concrete inputs.
use agent_d.Base.{ℕ, ◌≡◌, refl, List, [], ◌∷◌, none, some}
use agent_d.Base.Text.{Str, text, str_eq, split_once, strip_suffix}
use agent_d.Fs.Patch.{
  crlf, Hunk, FilePatch, reads, appears_twice, fails, ok, err, path, ended, split_fuel, split_lines,
  usual_ending, old_texts, matches, matches_at, places_from, found, mismatch_from, mismatch, place,
  first_ending, ending_before, region_ending, replacement, expected, apply_hunk, apply_hunks,
  close_all, join_lines, apply_patch,
}
use agent_d.Fs.Patch.Lines.{apply_patch-no_hunks}
use agent_d.Fs.Patch.Patched.{IsPatched, apply_patch-IsPatched}

-- All that a run opens.
unfoldable patches : Unit {0}
unfolding str_eq split_once strip_suffix path ended split_fuel split_lines usual_ending old_texts
    matches matches_at places_from found mismatch_from mismatch place first_ending ending_before
    region_ending replacement expected apply_hunk apply_hunks close_all join_lines apply_patch
patches = tt

split_run :
    split_lines (text "a\r\nb")
    ≡ record { content = text "a"; ending = some crlf }
      ∷ record { content = text "b"; ending = none }
      ∷ []
unfolding patches
split_run = refl

abbrev hunk : ℕ → List Str → Hunk
hunk start l = record {
  old_start = start;
  old_lines = 1;
  new_start = start;
  new_lines = 1;
  lines = l;
}

abbrev of_hunks : List Hunk → FilePatch
of_hunks l = record { old_path = some (text "f"); new_path = some (text "f"); hunks = l }

-- The file has shifted, and the added line takes the ending of the one that it replaces.
shifted_run :
    apply_patch (text "x\nb\r\nc") (of_hunks (hunk 1 (text "-b" ∷ text "+d" ∷ []) ∷ []))
    ≡ ok (text "x\nd\r\nc")
unfolding patches
shifted_run = refl

twice_run :
    apply_patch (text "x\nb\nb\n") (of_hunks (hunk 1 (text "-b" ∷ []) ∷ []))
    ≡ err (fails (text "f") 1 appears_twice)
unfolding patches
twice_run = refl

missing_run :
    apply_patch (text "x\n") (of_hunks (hunk 1 (text "-b" ∷ []) ∷ []))
    ≡ err (fails (text "f") 1 (reads 1 (text "x") (text "b")))
unfolding patches
missing_run = refl

apply_patch-no_hunks_example : apply_patch (text "a\r\nb") (of_hunks []) ≡ ok (text "a\r\nb")
apply_patch-no_hunks_example = apply_patch-no_hunks (text "a\r\nb") (of_hunks []) refl

apply_patch-IsPatched_example :
    IsPatched
      (text "x\nb\r\nc")
      (of_hunks (hunk 1 (text "-b" ∷ text "+d" ∷ []) ∷ []))
      (apply_patch (text "x\nb\r\nc") (of_hunks (hunk 1 (text "-b" ∷ text "+d" ∷ []) ∷ [])))
apply_patch-IsPatched_example =
    apply_patch-IsPatched (text "x\nb\r\nc") (of_hunks (hunk 1 (text "-b" ∷ text "+d" ∷ []) ∷ []))
