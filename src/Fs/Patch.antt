-- ===== src/Fs/Patch.antt =====
-- crates/fs/src/patch.rs: applying one file's patch to its text. What is wrong with a hunk is data here, which the
-- code writes out as text. A start in a hunk's header fits in 63 bits, so that the code's signed shift is
-- the difference of two sums, and an expected place below 0 is place 0.
pub mod Lines
pub mod Places
pub mod Replaced
pub mod Standing
pub mod Patched
use agent_d.Base.{
  ℕ, zero, suc, ◌+◌, ◌-◌, ◌≡◌, Bool, true, false, not, ◌&&◌, ◌||◌, List, [], ◌∷◌, ◌++◌, Option,
  none, some, map, filter, first, take, drop, length, leb, ltb, ◌==◌, if◌then◌else◌, unwrap_or,
  or_else, is_some_and, is_empty, ◌⊎◌, inl, inr,
}
use agent_d.Base.Text.{Str, text, str_eq, split_once, strip_suffix}

pub data Ending : Type 0 where
  lf crlf : Ending

pub record Line : Type 0 where
  pub content : Str
  pub ending : Option Ending

pub record Hunk : Type 0 where
  pub old_start : ℕ
  pub old_lines : ℕ
  pub new_start : ℕ
  pub new_lines : ℕ
  pub lines : List Str

pub record FilePatch : Type 0 where
  pub old_path : Option Str
  pub new_path : Option Str
  pub hunks : List Hunk

-- Why a hunk does not apply.
pub data Reason : Type 0 where
  inserts_after : ℕ → ℕ → Reason
  appears_twice : Reason
  reads : ℕ → Str → Str → Reason
  ends_before : ℕ → Str → Reason
  differs : Reason

-- A hunk does not apply, or a line that was matched is missing.
pub data PatchError : Type 0 where
  fails : Str → ℕ → Reason → PatchError
  panicked : PatchError

pub data Applied (A : Type 0) : Type 0 where
  ok : A → Applied A
  err : PatchError → Applied A

unfoldable pub path : FilePatch → Str
path p = unwrap_or [] (or_else p.new_path p.old_path)

-- A text without its last carriage return, and the ending it had.
unfoldable pub ended : Str → Line
ended before = elim (strip_suffix (text "\r") before) [
  | some t ↦ record { content = t; ending = some crlf }
  | none ↦ record { content = before; ending = some lf }
]

unfoldable pub split_fuel : ℕ → Str → List Line
split_fuel zero rest = []
split_fuel (suc fuel) rest = if is_empty rest then [] else elim (split_once b'\n' rest) [
  | some (before, after) ↦ ended before ∷ split_fuel fuel after
  | none ↦ record { content = rest; ending = none } ∷ []
]

-- Each line takes a character.
unfoldable pub split_lines : Str → List Line
split_lines s = split_fuel (length s) s

abbrev pub ends_with_crlf : Line → Bool
ends_with_crlf l = elim l.ending [ some crlf ↦ true | _ ↦ false ]

abbrev pub ends_with_lf : Line → Bool
ends_with_lf l = elim l.ending [ some lf ↦ true | _ ↦ false ]

unfoldable pub usual_ending : List Line → Ending
usual_ending l =
    if ltb (length (filter ends_with_lf l)) (length (filter ends_with_crlf l)) then crlf else lf

-- `line.starts_with(c)`.
abbrev pub starts_by : ℕ → Str → Bool
starts_by c [] = false
starts_by c (x ∷ s) = x == c

-- The lines of a hunk that its file has, without their signs.
unfoldable pub old_texts : List Str → List Str
old_texts l = map (drop 1) (filter (λ s. starts_by b' ' s || starts_by b'-' s) l)

-- The old texts, line by line, where there are lines for all of them.
unfoldable pub matches : List Str → List Line → Bool
matches [] have = true
matches (w ∷ want) [] = false
matches (w ∷ want) (h ∷ have) = str_eq w h.content && matches want have

unfoldable pub matches_at : List Line → List Str → ℕ → Bool
matches_at lines old at = leb (at + length old) (length lines) && matches old (drop at lines)

-- The places from one on, as many as given, where the old texts are.
unfoldable pub places_from : List Line → List Str → ℕ → ℕ → List ℕ
places_from lines old at zero = []
places_from lines old at (suc n) =
    let rest = places_from lines old (suc at) n in
    if matches_at lines old at then at ∷ rest else rest

unfoldable pub found : List Line → List Str → List ℕ
found lines old = take 2 (places_from lines old 0 (suc (length lines - length old)))

unfoldable pub mismatch_from : List Str → List Line → ℕ → Reason
mismatch_from [] have at = differs
mismatch_from (w ∷ want) [] at = ends_before (suc at) w
mismatch_from (w ∷ want) (h ∷ have) at =
    if str_eq h.content w then mismatch_from want have (suc at) else reads (suc at) h.content w

unfoldable pub mismatch : List Line → List Str → ℕ → Reason
mismatch lines old at = mismatch_from old (drop at lines) at

-- The place that a hunk's lines are at.
unfoldable pub place : List Line → List Str → ℕ → Reason ⊎ ℕ
place lines old expected =
    if is_empty old && ltb (length lines) expected
    then inl (inserts_after expected (length lines))
    else if matches_at lines old expected
    then inr expected
    else if is_empty old
    then inl (mismatch lines old expected)
    else elim (found lines old) [
      | [] ↦ inl (mismatch lines old expected)
      | at ∷ [] ↦ inr at
      | at ∷ other ∷ l ↦ inl appears_twice
    ]

abbrev pub no_newline : Str
no_newline = text "\\ No newline at end of file"

abbrev marked : List Str → Bool
marked l = is_some_and (str_eq no_newline) (first l)

unfoldable pub first_ending : List Line → Option Ending
first_ending [] = none
first_ending (l ∷ ls) = or_else l.ending (first_ending ls)

-- The ending of the line before a place.
unfoldable pub ending_before : List Line → ℕ → Option Ending
ending_before lines zero = none
ending_before lines (suc at) = elim (first (drop at lines)) [ some l ↦ l.ending | none ↦ none ]

unfoldable pub region_ending : List Line → ℕ → ℕ → Ending → Ending
region_ending lines at removed usual =
    unwrap_or usual (or_else (first_ending (take removed (drop at lines))) (ending_before lines at))

abbrev pub cons_line : Line → Option (List Line) → Option (List Line)
cons_line l none = none
cons_line l (some ls) = some (l ∷ ls)

-- The lines that take the place of the original ones.
unfoldable pub replacement : Ending → List Str → List Line → Option (List Line)
replacement region [] original = some []
replacement region ([] ∷ rest) original = replacement region rest original
replacement region ((c ∷ t) ∷ rest) original =
    if c == b' '
    then elim original [
      | [] ↦ none
      | kept ∷ others ↦
          cons_line
            (record { content = kept.content; ending = if marked rest then none else kept.ending })
            (replacement region rest others)
    ]
    else if c == b'-'
    then replacement region rest (drop 1 original)
    else if c == b'+'
    then cons_line (record { content = t; ending = if marked rest then none else some region })
        (replacement region rest original)
    else replacement region rest original

-- The lines after the hunks so far, and how many lines these have added and removed.
pub record Progress : Type 0 where
  pub lines : List Line
  pub added : ℕ
  pub removed : ℕ

unfoldable pub expected : Hunk → Progress → ℕ
expected h s =
    if h.old_lines == 0
    then (h.old_start + s.added) - s.removed
    else (h.old_start + s.added) - (s.removed + 1)

abbrev pub spliced : List Line → ℕ → ℕ → List Line → List Line
spliced lines at removed new = take at lines ++ (new ++ drop (at + removed) lines)

module _ (usual : Ending) where
  unfoldable pub apply_hunk : Str → ℕ → Hunk → Progress → Applied Progress
  apply_hunk name number h s =
      let old = old_texts h.lines in
      elim (place s.lines old (expected h s)) [
        | inl reason ↦ err (fails name number reason)
        | inr at ↦
            elim (replacement (region_ending s.lines at (length old) usual) h.lines
              (take (length old) (drop at s.lines))) [
                | none ↦ err panicked
                | some new ↦ ok (record {
                  lines = spliced s.lines at (length old) new;
                  added = s.added + length new;
                  removed = s.removed + length old;
                })
              ]
      ]

  unfoldable pub apply_hunks : Str → ℕ → List Hunk → Progress → Applied Progress
  apply_hunks name number [] s = ok s
  apply_hunks name number (h ∷ hunks) s = elim (apply_hunk name number h s) [
    | err e ↦ err e
    | ok t ↦ apply_hunks name (suc number) hunks t
  ]

  -- All lines but the last have an ending.
  unfoldable pub close_all : List Line → List Line
  close_all [] = []
  close_all (l ∷ []) = l ∷ []
  close_all (l ∷ m ∷ ls) =
      record l { ending = some (unwrap_or usual l.ending) } ∷ close_all (m ∷ ls)

abbrev pub ending_text : Option Ending → Str
ending_text none = []
ending_text (some lf) = text "\n"
ending_text (some crlf) = text "\r\n"

unfoldable pub join_lines : List Line → Str
join_lines [] = []
join_lines (l ∷ ls) = l.content ++ (ending_text l.ending ++ join_lines ls)

unfoldable pub apply_patch : Str → FilePatch → Applied Str
apply_patch s p =
    let lines = split_lines s in
    let usual = usual_ending lines in
    elim (apply_hunks usual (path p) 1 p.hunks (record { lines = lines; added = 0; removed = 0 })) [
      | err e ↦ err e
      | ok t ↦ ok (join_lines (close_all usual t.lines))
    ]
