-- ===== src/Fs/Patch/Lines.antt =====
-- The lines of a text.
use agent_d.Base.{
  ℕ, zero, suc, ◌≤◌, ◌≡◌, refl, sym, ap, ◌∙◌, List, [], ◌∷◌, ◌++◌, none, some, length,
  length-append, Option-cases, inl, inr, arith, unwrap_or,
}
use mathlib.Core.List.{append_assoc, append-nil}
use agent_d.Base.Text.{
  Str, text, split_once, strip_suffix, append_of_split_once, append_of_strip_suffix,
}
use agent_d.Fs.Patch.{
  Ending, lf, crlf, Line, FilePatch, Applied, ok, err, ended, split_fuel, split_lines, ending_text,
  join_lines, close_all, usual_ending, apply_hunks, apply_patch, path,
}

-- A line that a line feed ends is written as it was.
ended_text :
    (before : Str)
    → (ended before).content ++ ending_text (ended before).ending ≡ before ++ b'\n' ∷ []
unfolding ended
ended_text before = elim (Option-cases (strip_suffix (text "\r") before)) [
  | inl e ↦ rw (e, ended) refl
  | inr (t, e) ↦
      rw (e, ended)
        (sym (append_assoc t (text "\r") (b'\n' ∷ []))
          ∙ ap (λ z. z ++ b'\n' ∷ []) (sym (append_of_strip_suffix (text "\r") before t e)))
]

ended_some : (before : Str) → (e : Ending) × ((ended before).ending ≡ some e)
unfolding ended
ended_some before = elim (Option-cases (strip_suffix (text "\r") before)) [
  | inl e ↦ (lf, rw (e, ended) refl)
  | inr (t, e) ↦ (crlf, rw (e, ended) refl)
]

join_first :
    (before after : Str) (ls : List Line)
    → join_lines ls ≡ after
    → join_lines (ended before ∷ ls) ≡ before ++ b'\n' ∷ after
unfolding join_lines
join_first before after ls e =
    ap (λ z. (ended before).content ++ (ending_text (ended before).ending ++ z)) e
    ∙ sym (append_assoc (ended before).content (ending_text (ended before).ending) after)
    ∙ ap (λ z. z ++ after) (ended_text before)
    ∙ append_assoc before (b'\n' ∷ []) after

split_line :
    (n : ℕ) (s before after : Str)
    → split_once b'\n' s ≡ some (before, after)
    → split_fuel (suc n) s ≡ ended before ∷ split_fuel n after
unfolding split_fuel split_once
split_line n [] before after e = cc e
split_line n (c ∷ s) before after e = rw (e, split_fuel) refl

split_last :
    (n c : ℕ) (s : Str)
    → split_once b'\n' (c ∷ s) ≡ none
    → split_fuel (suc n) (c ∷ s) ≡ record { content = c ∷ s; ending = none } ∷ []
unfolding split_fuel
split_last n c s e = rw (e, split_fuel) refl

split_empty : (n : ℕ) → split_fuel n [] ≡ []
unfolding split_fuel
split_empty zero = refl
split_empty (suc n) = refl

join_last : (c : ℕ) (s : Str) → join_lines (record { content = c ∷ s; ending = none } ∷ []) ≡ c ∷ s
unfolding join_lines
join_last c s = ap (λ z. c ∷ z) (append-nil s)

join_none : join_lines [] ≡ []
unfolding join_lines
join_none = refl

join_lines-split_fuel : (n : ℕ) (s : Str) → length s ≤ n → join_lines (split_fuel n s) ≡ s
join_lines-split_fuel n [] l = ap join_lines (split_empty n) ∙ join_none
join_lines-split_fuel zero (c ∷ s) l = absurd (omega (arith, l))
join_lines-split_fuel (suc n) (c ∷ s) l = elim (Option-cases (split_once b'\n' (c ∷ s))) [
  | inl e ↦ ap join_lines (split_last n c s e) ∙ join_last c s
  | inr ((before, after), e) ↦
      let w = (append_of_split_once b'\n' (c ∷ s) before after e).1 in
      let h : length after ≤ n =
        omega (arith, l, ap length w, length-append before (b'\n' ∷ after)) in
      ap join_lines (split_line n (c ∷ s) before after e)
      ∙ join_first before after (split_fuel n after) (join_lines-split_fuel n after h)
      ∙ sym w
]

close_before :
    (usual : Ending) (before : Str) (ls : List Line)
    → close_all usual ls ≡ ls
    → close_all usual (ended before ∷ ls) ≡ ended before ∷ ls
unfolding close_all
close_before usual before [] k = refl
close_before usual before (m ∷ ls) k =
    let (x, y) = ended_some before in
    let q : ◌≡◌ {A = Line}
        (record {
          content = (ended before).content;
          ending = some (unwrap_or usual (ended before).ending);
        })
        (ended before) =
      ap {B = Line} (λ z. record { content = (ended before).content; ending = z })
        (ap (λ z. some (unwrap_or usual z)) y ∙ sym y) in
    cc (q, k)

close_none : (usual : Ending) → close_all usual [] ≡ []
unfolding close_all
close_none usual = refl

close_one : (usual : Ending) (l : Line) → close_all usual (l ∷ []) ≡ l ∷ []
unfolding close_all
close_one usual l = refl

split_zero : (usual : Ending) (s : Str) → close_all usual (split_fuel zero s) ≡ split_fuel zero s
unfolding close_all split_fuel
split_zero usual s = refl

-- Every line of a text but the last has an ending of its own.
close_all-split_fuel :
    (usual : Ending) (n : ℕ) (s : Str) → close_all usual (split_fuel n s) ≡ split_fuel n s
close_all-split_fuel usual n [] =
    ap (close_all usual) (split_empty n) ∙ close_none usual ∙ sym (split_empty n)
close_all-split_fuel usual zero (c ∷ s) = split_zero usual (c ∷ s)
close_all-split_fuel usual (suc n) (c ∷ s) = elim (Option-cases (split_once b'\n' (c ∷ s))) [
  | inl e ↦ ap (close_all usual) (split_last n c s e) ∙ close_one usual _ ∙ sym (split_last n c s e)
  | inr ((before, after), e) ↦
      let w = split_line n (c ∷ s) before after e in
      ap (close_all usual) w
      ∙ close_before usual before (split_fuel n after) (close_all-split_fuel usual n after)
      ∙ sym w
]

-- The lines of a text make up the text again.
pub join_lines-split_lines : (s : Str) → join_lines (split_lines s) ≡ s
unfolding split_lines
join_lines-split_lines s = join_lines-split_fuel (length s) s (omega arith)

pub close_all-split_lines :
    (usual : Ending) (s : Str) → close_all usual (split_lines s) ≡ split_lines s
unfolding split_lines
close_all-split_lines usual s = close_all-split_fuel usual (length s) s

-- A patch without hunks leaves every text as it is, each line with its ending, also where the last line has none.
pub apply_patch-no_hunks : (s : Str) (p : FilePatch) → p.hunks ≡ [] → apply_patch s p ≡ ok s
unfolding apply_patch apply_hunks
apply_patch-no_hunks s p e =
    let usual = usual_ending (split_lines s) in
    ap
      (λ h.
        elim (apply_hunks usual (path p) 1 h
            (record { lines = split_lines s; added = 0; removed = 0 }))
          as (λ z. Applied Str) [
            | err x ↦ err x
            | ok t ↦ ok (join_lines (close_all usual t.lines))
          ])
      e
    ∙ ap ok (ap join_lines (close_all-split_lines usual s) ∙ join_lines-split_lines s)
