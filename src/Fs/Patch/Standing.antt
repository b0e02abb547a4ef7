-- ===== src/Fs/Patch/Standing.antt =====
-- What it means that lines stand at a place of a text, beside the test of `matches_at`.
use agent_d.Base.{
  ℕ, zero, suc, ◌+◌, ◌≡◌, ◌≤◌, ◌<◌, ◌⊎◌, inl, inr, refl, sym, ap, ◌∙◌, subst, true, false, List, [],
  ◌∷◌, ◌++◌, take, drop, length, length-append, drop-add, drop-append, leb, and_iff, arith,
}
use agent_d.Base.Text.{Str, str_eq_refl}
use agent_d.Fs.Patch.{Line, Reason, inserts_after, appears_twice, matches, matches_at, mismatch}
use agent_d.Fs.Patch.Places.{HasNoPlace, IsChosen}
use agent_d.Fs.Patch.Replaced.{texts, matches-texts}

pub length-take : (n : ℕ) (l : List Line) → n ≤ length l → length (take n l) ≡ n
length-take zero l h = refl
length-take (suc n) [] h = absurd (omega (arith, h))
length-take (suc n) (x ∷ l) h = ap (λ z. suc z) (length-take n l (omega (arith, h)))

pub length-texts : (l : List Line) → length (texts l) ≡ length l
length-texts [] = refl
length-texts (x ∷ l) = ap (λ z. suc z) (length-texts l)

take-append-drop : (n : ℕ) (l : List Line) → take n l ++ drop n l ≡ l
take-append-drop zero l = refl
take-append-drop (suc n) [] = refl
take-append-drop (suc n) (x ∷ l) = ap (λ z. x ∷ z) (take-append-drop n l)

pub split_at : (at k : ℕ) (l : List Line) → l ≡ take at l ++ (take k (drop at l) ++ drop (at + k) l)
split_at at k l =
    sym (take-append-drop at l)
    ∙ ap (λ z. take at l ++ z)
        (sym (take-append-drop k (drop at l))
          ∙ ap (λ z. take k (drop at l) ++ z) (sym (drop-add at k l)))

-- Lines that read as the texts stand behind so many others.
abbrev pub StandsAt : List Line → List Str → ℕ → Type 0
StandsAt lines old at =
    (before : List Line) × (middle : List Line) × (behind : List Line) × (lines
      ≡ before ++ (middle ++ behind))
    × (texts middle ≡ old)
    × (length before ≡ at)

-- Why there is no place: an insertion that is expected behind the last line, or lines that are
-- nowhere, or lines that are not where they are expected and in two places.
abbrev pub Unplaced : List Line → List Str → ℕ → Reason → Type 0
Unplaced lines old wanted r =
    ((old ≡ []) × (length lines < wanted) × (r ≡ inserts_after wanted (length lines)))
    ⊎ ((((at : ℕ) → ¬ StandsAt lines old at) × (r ≡ mismatch lines old wanted))
        ⊎ ((¬ StandsAt lines old wanted)
            × ((i : ℕ) × (j : ℕ) × (i < j) × StandsAt lines old i × StandsAt lines old j)
            × (r ≡ appears_twice)))

-- The place that is expected, or the only one.
abbrev pub IsFound : List Line → List Str → ℕ → ℕ → Type 0
IsFound lines old wanted at = (at ≡ wanted) ⊎ ((i : ℕ) → StandsAt lines old i → i ≡ at)

module _ (lines : List Line) (old : List Str) where
  StandsAt-of_matches_at : (at : ℕ) → matches_at lines old at ≡ true → StandsAt lines old at
  unfolding matches_at
  StandsAt-of_matches_at at e =
      let (f, m) =
        (and_iff (leb (at + length old) (length lines)) (matches old (drop at lines))).0 e in
      (
        take at lines,
        take (length old) (drop at lines),
        drop (at + length old) lines,
        split_at at (length old) lines,
        matches-texts old (drop at lines) m,
        length-take at lines (within f),
      )
    where
      within : leb (at + length old) (length lines) ≡ true → at ≤ length lines
      within f = ground arith

  matches-append : (middle behind : List Line) → matches (texts middle) (middle ++ behind) ≡ true
  unfolding matches
  matches-append [] behind = refl
  matches-append (x ∷ middle) behind = rw (str_eq_refl x.content) (matches-append middle behind)

  matches_at-append :
      (before middle behind : List Line)
      → matches_at (before ++ (middle ++ behind)) (texts middle) (length before) ≡ true
  unfolding matches_at
  matches_at-append before middle behind =
      (and_iff _ _).1
        (fits, rw (drop-append before (middle ++ behind)) (matches-append middle behind))
    where
      fits :
          leb (length before + length (texts middle)) (length (before ++ (middle ++ behind))) ≡ true
      fits =
          let a = length-append before (middle ++ behind) in
          let b = length-append middle behind in
          let c = length-texts middle in ground (arith, a, b, c)

  matches_at_of_StandsAt : (at : ℕ) → StandsAt lines old at → matches_at lines old at ≡ true
  matches_at_of_StandsAt at (before, middle, behind, e, t, n) =
      subst (λ l. matches_at l old at ≡ true) (sym e)
        (subst (λ o. matches_at (before ++ (middle ++ behind)) o at ≡ true) t
          (subst (λ k. matches_at (before ++ (middle ++ behind)) (texts middle) k ≡ true) n
            (matches_at-append before middle behind)))

  not_standing : (at : ℕ) → matches_at lines old at ≡ false → ¬ StandsAt lines old at
  not_standing at e h = cc (e, matches_at_of_StandsAt at h)

  pub Unplaced-of :
      (wanted : ℕ) (r : Reason) → HasNoPlace lines old wanted r → Unplaced lines old wanted r
  Unplaced-of wanted r (inl h) = inl h
  Unplaced-of wanted r (inr (inl (h, e))) = inr (inl (λ at. not_standing at (h at), e))
  Unplaced-of wanted r (inr (inr (w, (i, j, l, a, b), e))) = inr (
      inr (
        not_standing wanted w,
        (i, j, l, StandsAt-of_matches_at i a, StandsAt-of_matches_at j b),
        e,
      ))

  pub IsFound-of : (wanted at : ℕ) → IsChosen lines old wanted at → IsFound lines old wanted at
  IsFound-of wanted at (inl e) = inl e
  IsFound-of wanted at (inr h) = inr (λ i s. h i (matches_at_of_StandsAt i s))
