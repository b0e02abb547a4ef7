-- ===== src/Executor/Compaction/Boundary.antt =====
-- Where a history is cut.
use agent_d.Base.{
  first, ℕ, zero, suc, ◌+◌, ◌-◌, ◌≤◌, ◌<◌, ◌≡◌, refl, sym, ap, ◌∙◌, ◌⊎◌, inl, inr, Bool, true,
  false, List, [], ◌∷◌, some, ltb, ◌==◌, ==_iff, ltb→lt, length, drop, Bool-cases, is_some_and,
  arith, length-drop,
}
use agent_d.Executor.Compaction.{
  Message, Cut, cut_at, no_cut, out_of_range, is_boundary, find_cut, compaction_cut,
}

module _ {F : Type 0} where
  -- A turn of the user starts at an index.
  abbrev pub Starts : List (Message F) → ℕ → Type 0
  Starts h i = is_some_and is_boundary (first (drop i h)) ≡ true

  -- The last start of a turn that leaves the recent messages, if there is one; the cut is out of range
  -- exactly where no message of a history is to be kept.
  abbrev pub IsCut : List (Message F) → ℕ → Cut → Type 0
  IsCut h keep (cut_at c) =
      (1 ≤ c)
      × (1 ≤ keep)
      × (c + keep ≤ length h)
      × Starts h c
      × ((i : ℕ) → c < i → i + keep ≤ length h → Starts h i → ⊥)
  IsCut h keep no_cut =
      ((1 ≤ keep) ⊎ (h ≡ [])) × ((i : ℕ) → 1 ≤ i → i + keep ≤ length h → Starts h i → ⊥)
  IsCut h keep out_of_range = (keep ≡ 0) × (1 ≤ length h)

  -- Of the indices up to a bound.
  abbrev Scanned : ℕ → List (Message F) → Cut → Type 0
  Scanned n h (cut_at c) =
      (1 ≤ c) × (c ≤ n) × Starts h c × ((i : ℕ) → c < i → i ≤ n → Starts h i → ⊥)
  Scanned n h no_cut = (i : ℕ) → 1 ≤ i → i ≤ n → Starts h i → ⊥
  Scanned n h out_of_range = ⊥

  first_held : (l : List (Message F)) → 1 ≤ length l → (m : Message F) × (first l ≡ some m)
  first_held (m ∷ l) h = (m, refl)
  first_held [] h = absurd (omega arith)

  start_of :
      (n : ℕ) (h : List (Message F)) (m : Message F) (b : Bool)
      → first (drop n h) ≡ some m
      → is_boundary m ≡ b
      → is_some_and is_boundary (first (drop n h)) ≡ b
  start_of n h m b e f = ap (is_some_and is_boundary) e ∙ f

  here : (n : ℕ) (h : List (Message F)) → Starts h (suc n) → Scanned (suc n) h (cut_at (suc n))
  here n h s = (omega arith, omega arith, s, λ i p q r. absurd (omega (arith, p, q)))

  further :
      (n : ℕ) (h : List (Message F)) (c : Cut)
      → is_some_and is_boundary (first (drop (suc n) h)) ≡ false
      → Scanned n h c
      → Scanned (suc n) h c
  further n h (cut_at c) e (p, q, r, s) = (
    p,
    omega (arith, q),
    r,
    λ i x y z. elim (Bool-cases (i == suc n)) [
      | inl f ↦ cc (
          sym e
          ∙ ap (λ k. is_some_and is_boundary (first (drop k h))) (sym ((==_iff i (suc n)).0 f))
          ∙ z)
      | inr f ↦ s i x (below i y f) z
    ],
  )
    where
      below : (i : ℕ) → i ≤ suc n → (i == suc n) ≡ false → i ≤ n
      below i y f = ground (arith, y, f)
  further n h no_cut e s = λ i x y z. elim (Bool-cases (i == suc n)) [
    | inl f ↦ cc (
        sym e
        ∙ ap (λ k. is_some_and is_boundary (first (drop k h))) (sym ((==_iff i (suc n)).0 f))
        ∙ z)
    | inr f ↦ s i x (ground (arith, y, f)) z
  ]
  further n h out_of_range e s = s

  find_cut-Scanned : (n : ℕ) (h : List (Message F)) → n < length h → Scanned n h (find_cut n h)
  unfolding find_cut
  find_cut-Scanned zero h l = λ i x y z. absurd (omega (arith, x, y))
  find_cut-Scanned (suc n) h l =
      let (m, e) = first_held (drop (suc n) h) (omega (arith, length-drop (suc n) h)) in
      elim (Bool-cases (is_boundary m)) [
        | inl b ↦ rw (e, b, find_cut) (here n h (start_of (suc n) h m true e b))
        | inr b ↦
            rw (e, b, find_cut)
              (further n h (find_cut n h) (start_of (suc n) h m false e b)
                (find_cut-Scanned n h (omega (arith, l))))
      ]

  cut_of_scan :
      (n keep : ℕ) (h : List (Message F)) (c : Cut)
      → 1 ≤ keep
      → n + keep ≡ length h
      → Scanned n h c
      → IsCut h keep c
  cut_of_scan n keep h (cut_at c) k e (p, q, r, s) =
      (p, k, omega (arith, q, e), r, λ i x y. s i x (omega (arith, y, e)))
  cut_of_scan n keep h no_cut k e s = (inl k, λ i x y. s i x (omega (arith, y, e)))
  cut_of_scan n keep h out_of_range k e s = elim s [ ]

  beyond : (m : Message F) (l : List (Message F)) → find_cut (suc (length l)) (m ∷ l) ≡ out_of_range
  unfolding find_cut
  beyond m l = rw (ap first (nothing_left l), find_cut) refl
    where
      nothing_left : (l : List (Message F)) → drop (length l) l ≡ []
      nothing_left [] = refl
      nothing_left (x ∷ l) = nothing_left l

  -- A history is cut before the last message of the user, other than the first, that leaves as many messages
  -- as are to be kept, and not cut where there is none; an index is out of range exactly where a history
  -- with messages is to keep none of them.
  pub compaction_cut-IsCut :
      (h : List (Message F)) (keep : ℕ) → IsCut h keep (compaction_cut h keep)
  unfolding compaction_cut
  compaction_cut-IsCut [] zero = (inr refl, λ i x y z. absurd (omega (arith, x, y)))
  compaction_cut-IsCut (m ∷ l) zero =
      let e : suc (length l) - 0 ≡ suc (length l) = omega arith in
      let f : (suc (length l) - 0 == 0) ≡ false = ground arith in
      let g : ltb (suc (length l)) 0 ≡ false = ground arith in
      rw (g, f, e, beyond m l) (refl, omega arith)
  compaction_cut-IsCut h (suc k) = elim (Bool-cases (ltb (length h) (suc k))) [
    | inl e ↦
        rw e
          (inl (omega arith), λ i x y z. absurd (omega (arith, x, y, ltb→lt (length h) (suc k) e)))
    | inr e ↦ elim (Bool-cases (length h - suc k == 0)) [
      | inl f ↦ rw (e, f) (inl (omega arith), λ i x y z. absurd (ground (arith, e, f, x, y)))
      | inr f ↦
          rw (e, f)
            (cut_of_scan (length h - suc k) (suc k) h _ (omega arith) (ground (arith, e, f))
              (find_cut-Scanned (length h - suc k) h (ground (arith, e, f))))
    ]
  ]
