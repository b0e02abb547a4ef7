-- ===== src/Fs/Patch/Patched.antt =====
-- A patch that applies rewrites each of its places from the old side to the new one.
use agent_d.Base.{
  ℕ, suc, ◌+◌, ◌≡◌, ◌≤◌, subst, ◌⊎◌, inl, inr, refl, sym, ap, ◌∙◌, List, [], ◌∷◌, ◌++◌, take, drop,
  length, and_iff, leb, true, arith,
}
use agent_d.Base.Text.{Str}
use agent_d.Fs.Patch.{
  Ending, Line, Hunk, FilePatch, fails, panicked, Applied, ok, err, Reason, Progress, path,
  split_lines, usual_ending, old_texts, matches, matches_at, place, expected, region_ending,
  apply_hunk, apply_hunks, apply_patch, join_lines, close_all,
}
use agent_d.Fs.Patch.Places.{IsPlace, place-IsPlace}
use agent_d.Fs.Patch.Standing.{
  length-take, length-texts, split_at, IsFound, Unplaced, IsFound-of, Unplaced-of,
}
use agent_d.Fs.Patch.Replaced.{new_texts, texts, matches-texts, replaced}

-- The lines of one place that read as the old texts have been taken for lines that read as the new ones, and all
-- others are as they were; the place is the one that is expected, or the only one.
abbrev pub Rewrites : ℕ → List Str → List Str → List Line → List Line → Type 0
Rewrites wanted old new l m =
    (before : List Line) × (middle : List Line) × (other : List Line) × (behind : List Line) × (l
      ≡ before ++ (middle ++ behind))
    × (texts middle ≡ old)
    × (m ≡ before ++ (other ++ behind))
    × (texts other ≡ new)
    × IsFound l old wanted (length before)

-- Hunk after hunk, each expected where its header says, after the lines that were added and removed before it.
abbrev pub RewritesEach : ℕ → ℕ → List Hunk → List Line → List Line → Type 0
RewritesEach added removed [] l m = l ≡ m
RewritesEach added removed (h ∷ hunks) l m =
    (n : List Line) × Rewrites (expected h (record { lines = l; added = added; removed = removed }))
      (old_texts h.lines) (new_texts h.lines) l n
    × RewritesEach (added + length (new_texts h.lines)) (removed + length (old_texts h.lines)) hunks
        n m

-- How many lines hunks add, and how many they remove.
abbrev pub added_by : List Hunk → ℕ
added_by [] = 0
added_by (h ∷ hunks) = length (new_texts h.lines) + added_by hunks

abbrev pub removed_by : List Hunk → ℕ
removed_by [] = 0
removed_by (h ∷ hunks) = length (old_texts h.lines) + removed_by hunks

-- Where a hunk is expected after others.
abbrev pub expected_after : ℕ → ℕ → List Hunk → Hunk → List Line → ℕ
expected_after added removed done h m =
    expected h
      (record { lines = m; added = added + added_by done; removed = removed + removed_by done })

module _ (usual : Ending) (name : Str) where
  -- What is made of one hunk.
  abbrev IsStep : ℕ → Hunk → Progress → Applied Progress → Type 0
  IsStep number h s (ok t) =
      Rewrites (expected h s) (old_texts h.lines) (new_texts h.lines) s.lines t.lines
      × (t.added ≡ s.added + length (new_texts h.lines))
      × (t.removed ≡ s.removed + length (old_texts h.lines))
  IsStep number h s (err (fails n k r)) =
      (n ≡ name) × (k ≡ number) × Unplaced s.lines (old_texts h.lines) (expected h s) r
  IsStep number h s (err panicked) = ⊥

  by_place :
      (number : ℕ) (h : Hunk) (s : Progress) (o : Reason ⊎ ℕ)
      → place s.lines (old_texts h.lines) (expected h s) ≡ o
      → IsPlace s.lines (old_texts h.lines) (expected h s) o
      → IsStep number h s (apply_hunk usual name number h s)
  unfolding apply_hunk matches_at
  by_place number h s (inl r) e p =
      rw (e, apply_hunk) (refl, refl, Unplaced-of s.lines (old_texts h.lines) (expected h s) r p)
  by_place number h s (inr at) e (p, c) =
      let old = old_texts h.lines in
      let (f, m) =
        (and_iff (leb (at + length old) (length s.lines)) (matches old (drop at s.lines))).0 p in
      let t = matches-texts old (drop at s.lines) m in
      let (new, r, w) =
        replaced (region_ending s.lines at (length old) usual) h.lines
          (take (length old) (drop at s.lines)) t in
      let q : length (take at s.lines) ≡ at = length-take at s.lines (within f) in
      rw (e, r, apply_hunk)
        (
          (
            take at s.lines,
            take (length old) (drop at s.lines),
            new,
            drop (at + length old) s.lines,
            split_at at (length old) s.lines,
            t,
            refl,
            w,
            subst (λ z. IsFound s.lines old (expected h s) z) (sym q)
                (IsFound-of s.lines old (expected h s) at c),
          ),
          ap (λ z. s.added + z) (sym (length-texts new) ∙ ap (λ z. length z) w),
          refl,
        )
    where
      within : leb (at + length (old_texts h.lines)) (length s.lines) ≡ true → at ≤ length s.lines
      within f = ground arith

  -- What is made of the hunks from one on.
  abbrev IsPatchedFrom : ℕ → List Hunk → Progress → Applied Progress → Type 0
  IsPatchedFrom number hunks s (ok t) = RewritesEach s.added s.removed hunks s.lines t.lines
  IsPatchedFrom number hunks s (err (fails n k r)) =
      (n ≡ name)
      × ((done : List Hunk) × (h : Hunk) × (rest : List Hunk) × (m : List Line) × (hunks
            ≡ done ++ h ∷ rest)
          × (k ≡ number + length done)
          × RewritesEach s.added s.removed done s.lines m
          × Unplaced m (old_texts h.lines) (expected_after s.added s.removed done h m) r)
  IsPatchedFrom number hunks s (err panicked) = ⊥

  -- One hunk before others.
  before_others :
      (number : ℕ) (h : Hunk) (hunks : List Hunk) (s t : Progress) (o : Applied Progress)
      → IsStep number h s (ok t)
      → IsPatchedFrom (suc number) hunks t o
      → IsPatchedFrom number (h ∷ hunks) s o
  before_others number h hunks s t (ok u) (w, a, r) p = (
    t.lines,
    w,
    subst (λ z. RewritesEach z (s.removed + length (old_texts h.lines)) hunks t.lines u.lines) a
        (subst (λ z. RewritesEach t.added z hunks t.lines u.lines) r p),
  )
  before_others number h hunks s t (err panicked) w p = p
  before_others number h hunks s t (err (fails n k e)) (w, a, r)
        (q, (done, g, rest, x, b, c, d, f)) =
      (
        q,
        (
          h ∷ done,
          g,
          rest,
          x,
          ap (λ z. h ∷ z) b,
          omega (arith, c),
          (
            t.lines,
            w,
            subst (λ z. RewritesEach z (s.removed + length (old_texts h.lines)) done t.lines x) a
                (subst (λ z. RewritesEach t.added z done t.lines x) r d),
          ),
          subst (λ z. Unplaced x (old_texts g.lines) z e) (same_place done g x) f,
        ),
      )
    where
      same_place :
          (done : List Hunk) (g : Hunk) (x : List Line)
          → expected_after t.added t.removed done g x
            ≡ expected_after s.added s.removed (h ∷ done) g x
      same_place done g x =
          let p : t.added + added_by done ≡ s.added + (length (new_texts h.lines) + added_by done) =
            omega (arith, a) in
          let q : t.removed + removed_by done
              ≡ s.removed + (length (old_texts h.lines) + removed_by done) =
            omega (arith, r) in
          ap
            (λ y.
              expected g (record { lines = x; added = y; removed = t.removed + removed_by done }))
            p
          ∙ ap
              (λ y. expected g (record {
                lines = x;
                added = s.added + (length (new_texts h.lines) + added_by done);
                removed = y;
              }))
              q

  apply_hunks-IsPatchedFrom :
      (number : ℕ) (hunks : List Hunk) (s : Progress)
      → IsPatchedFrom number hunks s (apply_hunks usual name number hunks s)
  unfolding apply_hunks
  apply_hunks-IsPatchedFrom number [] s = refl
  apply_hunks-IsPatchedFrom number (h ∷ hunks) s =
      after_first (apply_hunk usual name number h s)
        (by_place number h s (place s.lines (old_texts h.lines) (expected h s)) refl
          (place-IsPlace s.lines (old_texts h.lines) (expected h s)))
        (apply_hunks-IsPatchedFrom (suc number) hunks)
    where
      here : expected h s ≡ expected_after s.added s.removed [] h s.lines
      here =
          let p : s.added ≡ s.added + 0 = omega arith in
          let q : s.removed ≡ s.removed + 0 = omega arith in
          ap (λ y. expected h (record { lines = s.lines; added = y; removed = s.removed })) p
          ∙ ap (λ y. expected h (record { lines = s.lines; added = s.added + 0; removed = y })) q

      after_first :
          (o : Applied Progress)
          → IsStep number h s o
          → ((t : Progress)
              → IsPatchedFrom (suc number) hunks t (apply_hunks usual name (suc number) hunks t))
          → IsPatchedFrom number (h ∷ hunks) s (elim o as (λ z. Applied Progress) [
            | ok t ↦ apply_hunks usual name (suc number) hunks t
            | err e ↦ err e
          ])
      after_first (ok t) p f = before_others number h hunks s t _ p (f t)
      after_first (err panicked) p f = p
      after_first (err (fails n k r)) (a, b, c) f = (
        a,
        (
          [],
          h,
          hunks,
          s.lines,
          refl,
          omega (arith, b),
          refl,
          subst (λ z. Unplaced s.lines (old_texts h.lines) z r) here c,
        ),
      )

-- What is made of a text.
abbrev pub IsPatched : Str → FilePatch → Applied Str → Type 0
IsPatched s p (ok t) =
    (l : List Line) × RewritesEach 0 0 p.hunks (split_lines s) l
    × (t ≡ join_lines (close_all (usual_ending (split_lines s)) l))
IsPatched s p (err (fails n k r)) =
    (n ≡ path p)
    × ((done : List Hunk) × (h : Hunk) × (rest : List Hunk) × (m : List Line) × (p.hunks
          ≡ done ++ h ∷ rest)
        × (k ≡ suc (length done))
        × RewritesEach 0 0 done (split_lines s) m
        × Unplaced m (old_texts h.lines) (expected_after 0 0 done h m) r)
IsPatched s p (err panicked) = ⊥

-- A patch that applies has, hunk after hunk, found lines that read as the hunk's old side and put
-- lines that read as its new side in their place, where the header says after what was added and
-- removed before, or at the only place there is, and left all other lines as they were; one that
-- does not names its path, the number of the first hunk that has no place, and why: it only inserts,
-- and is expected behind the last line; or its old side is nowhere; or it is not where the header
-- says and in two places.
pub apply_patch-IsPatched : (s : Str) (p : FilePatch) → IsPatched s p (apply_patch s p)
unfolding apply_patch
apply_patch-IsPatched s p = of_hunks _ (
    apply_hunks-IsPatchedFrom usual (path p) 1 p.hunks
      (record { lines = split_lines s; added = 0; removed = 0 }))
  where
    usual : Ending
    usual = usual_ending (split_lines s)

    of_hunks :
        (o : Applied Progress)
        → IsPatchedFrom usual
            (path p)
            1
            p.hunks
            (record { lines = split_lines s; added = 0; removed = 0 })
            o
        → IsPatched s p (elim o as (λ z. Applied Str) [
          | ok t ↦ ok (join_lines (close_all usual t.lines))
          | err e ↦ err e
        ])
    of_hunks (ok t) w = (t.lines, w, refl)
    of_hunks (err panicked) w = w
    of_hunks (err (fails n k r)) (q, (done, h, rest, m, a, b, c, d)) =
        (q, (done, h, rest, m, a, omega (arith, b), c, d))
