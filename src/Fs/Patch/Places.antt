-- ===== src/Fs/Patch/Places.antt =====
-- Where the lines of a hunk are.
use agent_d.Base.{
  ℕ, zero, suc, ◌+◌, ◌-◌, ◌≤◌, ◌<◌, ◌≡◌, ◌⊎◌, inl, inr, refl, sym, subst, ap, ◌∙◌, true, false,
  List, [], ◌∷◌, ◌&&◌, take, drop, length, In, leb, ltb, is_empty, Bool-cases, and_iff, arith,
}
use agent_d.Base.Text.{Str}
use agent_d.Fs.Patch.{
  Line, Reason, inserts_after, appears_twice, matches, matches_at, places_from, found, mismatch,
  place,
}

module _ (lines : List Line) (old : List Str) where
  -- Why there is no place: an insertion that is expected behind the last line, or lines that are
  -- nowhere, or lines that are not where they are expected and in two places.
  abbrev pub HasNoPlace : ℕ → Reason → Type 0
  HasNoPlace wanted r =
      ((old ≡ []) × (length lines < wanted) × (r ≡ inserts_after wanted (length lines)))
      ⊎ ((((at : ℕ) → matches_at lines old at ≡ false) × (r ≡ mismatch lines old wanted))
          ⊎ ((matches_at lines old wanted ≡ false)
              × ((i : ℕ) × (j : ℕ) × (i < j)
                  × (matches_at lines old i ≡ true)
                  × (matches_at lines old j ≡ true))
              × (r ≡ appears_twice)))

  -- The place that is expected, or the only one.
  abbrev pub IsChosen : ℕ → ℕ → Type 0
  IsChosen wanted at = (at ≡ wanted) ⊎ ((i : ℕ) → matches_at lines old i ≡ true → i ≡ at)

  abbrev pub IsPlace : ℕ → Reason ⊎ ℕ → Type 0
  IsPlace wanted (inl r) = HasNoPlace wanted r
  IsPlace wanted (inr at) = (matches_at lines old at ≡ true) × IsChosen wanted at

  of_places_from :
      (k n a : ℕ) → In a (places_from lines old k n) → (k ≤ a) × (matches_at lines old a ≡ true)
  unfolding places_from
  of_places_from k zero a i = elim i [ ]
  of_places_from k (suc n) a i = elim (Bool-cases (matches_at lines old k)) [
    | inr e ↦
        let (l, m) = of_places_from (suc k) n a (rw (e, places_from) at i) in (omega (arith, l), m)
    | inl e ↦ elim (rw (e, places_from) at i) [
      | inl p ↦ (omega (arith, p), ap (matches_at lines old) p ∙ e)
      | inr j ↦ let (l, m) = of_places_from (suc k) n a j in (omega (arith, l), m)
    ]
  ]

  In-places_from :
      (k n a : ℕ)
      → k ≤ a
      → a < k + n
      → matches_at lines old a ≡ true
      → In a (places_from lines old k n)
  unfolding places_from
  In-places_from k zero a l u m = absurd (omega (arith, l, u))
  In-places_from k (suc n) a l u m = elim (Bool-cases (leb a k)) [
    | inl e ↦
        let p : a ≡ k = ground (arith, e, l) in
        rw (ap (matches_at lines old) (sym p) ∙ m, places_from) (inl p)
    | inr e ↦
        let i = In-places_from (suc k) n a (ground (arith, e)) (omega (arith, u)) m in
        elim (Bool-cases (matches_at lines old k)) [
          | inl f ↦ rw (f, places_from) (inr i)
          | inr f ↦ rw (f, places_from) i
        ]
  ]

  ascending : (k n i j : ℕ) (l : List ℕ) → places_from lines old k n ≡ i ∷ j ∷ l → i < j
  unfolding places_from
  ascending k zero i j l e = cc e
  ascending k (suc n) i j l e = elim (Bool-cases (matches_at lines old k)) [
    | inr f ↦ ascending (suc k) n i j l (rw (f, places_from) at e)
    | inl f ↦
        let h : ◌≡◌ {A = List ℕ} (k ∷ places_from lines old (suc k) n) (i ∷ j ∷ l) =
          rw (f, places_from) at e in
        let t : places_from lines old (suc k) n ≡ j ∷ l = cc h in
        let p : k ≡ i = cc h in
        let (a, m) = of_places_from (suc k) n j (rw t (inl refl)) in omega (arith, a, p)
  ]

  -- All places are looked at.
  In-all_places :
      (at : ℕ)
      → matches_at lines old at ≡ true
      → In at (places_from lines old 0 (suc (length lines - length old)))
  unfolding matches_at
  In-all_places at m =
      let l =
        ((and_iff (leb (at + length old) (length lines)) (matches old (drop at lines))).0 m).0 in
      In-places_from 0 (suc (length lines - length old)) at (omega arith) (below l) m
    where
      below : leb (at + length old) (length lines) ≡ true → at < 0 + suc (length lines - length old)
      below l = ground arith

  by_found :
      (at : ℕ) (ps : List ℕ)
      → matches_at lines old at ≡ false
      → places_from lines old 0 (suc (length lines - length old)) ≡ ps
      → IsPlace at (elim (take 2 ps) as (λ z. Reason ⊎ ℕ) [
        | [] ↦ inl (mismatch lines old at)
        | a ∷ l ↦ elim l as (λ z. Reason ⊎ ℕ) [ [] ↦ inr a | b ∷ k ↦ inl appears_twice ]
      ])
  by_found at [] w e = inr (
      inl (
        λ i. elim (Bool-cases (matches_at lines old i)) [
          | inr n ↦ n
          | inl m ↦ elim (rw e at (In-all_places i m)) [ ]
        ],
        refl,
      ))
  by_found at (a ∷ []) w e = (
    (of_places_from 0 (suc (length lines - length old)) a (rw e (inl refl))).1,
    inr (λ i m. only (rw e at (In-all_places i m))),
  )
    where
      only : {i : ℕ} → (i ≡ a) ⊎ ⊥ → i ≡ a
      only (inl p) = p
      only (inr n) = elim n [ ]
  by_found at (a ∷ b ∷ l) w e = inr (
      inr (
        w,
        (
          a,
          b,
          ascending 0 (suc (length lines - length old)) a b l e,
          (of_places_from 0 (suc (length lines - length old)) a (rw e (inl refl))).1,
          (of_places_from 0 (suc (length lines - length old)) b (rw e (inr (inl refl)))).1,
        ),
        refl,
      ))

  nil_of_empty : is_empty old ≡ true → old ≡ []
  nil_of_empty e = of_list old e
    where
      of_list : (l : List Str) → is_empty l ≡ true → l ≡ []
      of_list [] h = refl
      of_list (x ∷ l) h = cc h

  -- An insertion that is expected in the text or right behind it has its place there.
  nil_matches :
      (wanted : ℕ)
      → (is_empty old && ltb (length lines) wanted) ≡ false
      → is_empty old ≡ true
      → matches_at lines old wanted ≡ true
  unfolding matches_at matches
  nil_matches wanted e n =
      let few : ltb (length lines) wanted ≡ false = ground arith in
      let k : leb (wanted + 0) (length lines) ≡ true = ground arith in
      subst (λ l. matches_at lines l wanted ≡ true) (sym (nil_of_empty n)) (rw (k, matches_at) refl)

  -- A hunk's lines are at the place they are given. Where they are given none, they are not where they are expected, and
  -- nowhere or in two places, or the hunk only inserts and is expected behind the last line.
  pub place-IsPlace : (wanted : ℕ) → IsPlace wanted (place lines old wanted)
  unfolding place found
  place-IsPlace wanted = elim (Bool-cases (is_empty old && ltb (length lines) wanted)) [
    | inl e ↦
        let (n, f) = (and_iff (is_empty old) (ltb (length lines) wanted)).0 e in
        rw (e, place) (inl (nil_of_empty n, ground (arith, f), refl))
    | inr e ↦ elim (Bool-cases (matches_at lines old wanted)) [
      | inl m ↦ rw (e, m, place) (m, inl refl)
      | inr m ↦ elim (Bool-cases (is_empty old)) [
        | inl n ↦ cc (m, nil_matches wanted e n)
        | inr n ↦ rw (e, m, n, place) (by_found wanted _ m refl)
      ]
    ]
  ]
