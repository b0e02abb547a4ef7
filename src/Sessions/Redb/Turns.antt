-- ===== src/Sessions/Redb/Turns.antt =====
-- The turns of the durable store against those of the store in memory.
use agent_d.Base.{
  ℕ, zero, suc, ◌+◌, ◌-◌, ◌≤◌, ◌<◌, ◌≡◌, refl, sym, ap, ◌∙◌, inl, inr, true, false, List, [], ◌∷◌,
  ◌++◌, some, ltb, leb, length, drop, drop-nil, max, arith, Bool-cases, ◌==◌,
}
use mathlib.Core.List.{append-nil, append_assoc}
use agent_d.Base.Keys.{nat_key, str_key, beq_refl}
use agent_d.Base.Maps.{Map, insert, remove, values, Ascends, Above}
use agent_d.Sessions.{u64, u64_max}
use agent_d.Sessions.Store.{Compaction}
use agent_d.Sessions.Redb.{range, push_turns, seqs_to_drop, remove_all, compact_turns}

module _ {M : Type 0} where
  -- Every number of the table is below the next one.
  abbrev Below : ℕ → Map ℕ M → Type 0
  Below n [] = Unit
  Below n ((a, m) ∷ t) = (a < n) × Below n t

  -- The numbers of the turns ascend, and the next one is free.
  abbrev pub IsLog : ℕ → Map ℕ M → Type 0
  IsLog n t = Ascends t × Below n t × (n ≤ u64_max)

  Below-more : (n k : ℕ) (t : Map ℕ M) → n ≤ k → Below n t → Below k t
  Below-more n k [] h b = tt
  Below-more n k ((a, m) ∷ t) h (l, b) = (omega (arith, l, h), Below-more n k t h b)

  insert_last : (n : ℕ) (x : M) (t : Map ℕ M) → Below n t → insert n x t ≡ t ++ (n, x) ∷ []
  unfolding insert
  insert_last n x [] b = refl
  insert_last n x ((a, m) ∷ t) (l, b) =
      let e : (a == n) ≡ false = ground (arith, l) in
      let f : ltb n a ≡ false = ground (arith, l) in
      rw (e, f) (ap (λ u. (a, m) ∷ u) (insert_last n x t b))

  Above-append : (a n : ℕ) (x : M) (t : Map ℕ M) → Above a t → a < n → Above a (t ++ (n, x) ∷ [])
  Above-append a n x [] u l = (ground (arith, l), tt)
  Above-append a n x ((b, m) ∷ t) (p, u) l = (p, Above-append a n x t u l)

  Ascends-append :
      (n : ℕ) (x : M) (t : Map ℕ M) → Ascends t → Below n t → Ascends (t ++ (n, x) ∷ [])
  Ascends-append n x [] s b = (tt, tt)
  Ascends-append n x ((a, m) ∷ t) (u, s) (l, b) =
      (Above-append a n x t u l, Ascends-append n x t s b)

  Below-append : (n : ℕ) (x : M) (t : Map ℕ M) → Below n t → Below (suc n) (t ++ (n, x) ∷ [])
  Below-append n x [] b = (omega arith, tt)
  Below-append n x ((a, m) ∷ t) (l, b) = (omega (arith, l), Below-append n x t b)

  values-append : (s t : Map ℕ M) → values (s ++ t) ≡ values s ++ values t
  values-append [] t = refl
  values-append ((a, m) ∷ s) t = ap (λ l. m ∷ l) (values-append s t)

  pub push_turns_lem :
      (n : ℕ) (new : List M) (t : Map ℕ M)
      → IsLog n t
      → n + length new ≤ u64_max
      → (values (push_turns n new t) ≡ values t ++ new)
        × IsLog (n + length new) (push_turns n new t)
  unfolding push_turns
  push_turns_lem n [] t (s, b, h) k =
      let e : n ≡ n + 0 = omega arith in (sym (append-nil (values t)), rw (← e) (s, b, h))
  push_turns_lem n (x ∷ new) t (s, b, h) k =
      let u : u64 (n + 1) ≡ suc n = omega (arith, k) in
      let e : suc n + length new ≡ n + suc (length new) = omega arith in
      let v : Map ℕ M = t ++ (n, x) ∷ [] in
      let (f, w) =
        push_turns_lem (suc n) new v
          (Ascends-append n x t s b, Below-append n x t b, omega (arith, k)) (omega (arith, k)) in
      rw (u, insert_last n x t b)
        (
          f
              ∙ ap (λ l. l ++ new) (values-append t ((n, x) ∷ []))
              ∙ append_assoc (values t) (x ∷ []) new,
          rw (← e) w,
        )

  pub range_all : (n : ℕ) (t : Map ℕ M) → Below n t → n ≤ u64_max → range t ≡ t
  unfolding range
  range_all n [] b h = refl
  range_all n ((a, m) ∷ t) (l, b) h =
      let e : ltb a u64_max ≡ true = ground (arith, l, h) in
      rw e (ap (λ u. (a, m) ∷ u) (range_all n t b h))

  remove-Above : (a : ℕ) (t : Map ℕ M) → Above a t → remove a t ≡ t
  unfolding remove
  remove-Above a [] u = refl
  remove-Above a ((b, m) ∷ t) (p, u) =
      let e : (b == a) ≡ false = ground (arith, p) in
      rw e (ap (λ l. (b, m) ∷ l) (remove-Above a t u))

  remove_first : (a : ℕ) (m : M) (t : Map ℕ M) → Above a t → remove a ((a, m) ∷ t) ≡ t
  unfolding remove
  remove_first a m t u = rw (beq_refl a) (remove-Above a t u)

  -- What the loop drops is the first turn, and those after it up to the number that is asked for.
  dropped :
      (n c : ℕ) (t : Map ℕ M)
      → Ascends t
      → remove_all (seqs_to_drop n c t) t ≡ drop (max 1 (n - c)) t
  unfolding remove_all seqs_to_drop
  dropped n c [] s = sym (drop-nil (max 1 (n - c)))
  dropped n c ((a, m) ∷ t) (u, s) = elim (Bool-cases (leb n (suc c))) [
    | inl e ↦ let k : max 1 (n - c) ≡ 1 = ground (arith, e) in rw (e, k) (remove_first a m t u)
    | inr e ↦
        let k : max 1 (n - c) ≡ suc (n - suc c) = ground (arith, e) in
        let l : max 1 (n - suc c) ≡ n - suc c = ground (arith, e) in
        rw (e, k)
          (ap (remove_all (seqs_to_drop n (suc c) t)) (remove_first a m t u)
            ∙ dropped n (suc c) t s
            ∙ ap (λ i. drop i t) l)
  ]

  drop-Above : (a n : ℕ) (t : Map ℕ M) → Above a t → Above a (drop n t)
  drop-Above a zero t u = u
  drop-Above a (suc n) [] u = tt
  drop-Above a (suc n) ((b, m) ∷ t) (p, u) = drop-Above a n t u

  drop-Ascends : (n : ℕ) (t : Map ℕ M) → Ascends t → Ascends (drop n t)
  drop-Ascends zero t s = s
  drop-Ascends (suc n) [] s = tt
  drop-Ascends (suc n) ((b, m) ∷ t) (u, s) = drop-Ascends n t s

  drop-Below : (k n : ℕ) (t : Map ℕ M) → Below k t → Below k (drop n t)
  drop-Below k zero t b = b
  drop-Below k (suc n) [] b = tt
  drop-Below k (suc n) ((a, m) ∷ t) (l, b) = drop-Below k n t b

  values-drop : (n : ℕ) (t : Map ℕ M) → values (drop n t) ≡ drop n (values t)
  values-drop zero t = refl
  values-drop (suc n) [] = refl
  values-drop (suc n) ((a, m) ∷ t) = values-drop n t

  insert_first : (a : ℕ) (x : M) (t : Map ℕ M) → Above a t → insert a x t ≡ (a, x) ∷ t
  unfolding insert
  insert_first a x [] u = refl
  insert_first a x ((b, m) ∷ t) (p, u) =
      let e : (b == a) ≡ false = ground (arith, p) in rw (e, p) refl

  compact_turns_step :
      (n a : ℕ) (m : M) (t : Map ℕ M) (c : Compaction M)
      → IsLog n ((a, m) ∷ t)
      → compact_turns c ((a, m) ∷ t)
        ≡ some (
          length (seqs_to_drop c.drop_count 0 ((a, m) ∷ t)),
          (a, c.summary) ∷ drop (max 1 c.drop_count - 1) t,
        )
  unfolding compact_turns seqs_to_drop
  compact_turns_step n a m t c ((u, s), b, h) =
      let k : max 1 (c.drop_count - 0) ≡ suc (max 1 c.drop_count - 1) = omega arith in
      let e : remove_all (seqs_to_drop c.drop_count 0 ((a, m) ∷ t)) ((a, m) ∷ t)
          ≡ drop (max 1 c.drop_count - 1) t =
        dropped c.drop_count 0 ((a, m) ∷ t) (u, s) ∙ ap (λ i. drop i ((a, m) ∷ t)) k in
      rw (range_all n ((a, m) ∷ t) b h, compact_turns)
        (ap (λ v. some (length (seqs_to_drop c.drop_count 0 ((a, m) ∷ t)), insert a c.summary v)) e
          ∙ ap (λ v. some (length (seqs_to_drop c.drop_count 0 ((a, m) ∷ t)), v))
              (insert_first a c.summary (drop (max 1 c.drop_count - 1) t)
                (drop-Above a (max 1 c.drop_count - 1) t u)))

  -- A compaction of a log with a turn leaves the summary and what is not dropped.
  pub compact_turns_lem :
      (n a : ℕ) (m : M) (t : Map ℕ M) (c : Compaction M)
      → IsLog n ((a, m) ∷ t)
      → (count : ℕ) × (u : Map ℕ M) × (compact_turns c ((a, m) ∷ t) ≡ some (count, u))
        × (values u ≡ c.summary ∷ drop (max 1 c.drop_count) (values ((a, m) ∷ t)))
        × IsLog n u
  compact_turns_lem n a m t c ((u, s), (l, b), h) =
      let i = max 1 c.drop_count - 1 in
      let k : suc i ≡ max 1 c.drop_count = omega arith in
      (
        length (seqs_to_drop c.drop_count 0 ((a, m) ∷ t)),
        (a, c.summary) ∷ drop i t,
        compact_turns_step n a m t c ((u, s), (l, b), h),
        ap (λ v. c.summary ∷ v) (values-drop i t ∙ ap (λ y. drop y (m ∷ values t)) k),
        ((drop-Above a i t u, drop-Ascends i t s), (l, drop-Below n i t b), h),
      )
