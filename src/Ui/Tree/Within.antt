-- ===== src/Ui/Tree/Within.antt =====
-- The walk from a node to its parents.
use agent_d.Base.{
  ℕ, zero, suc, ◌≤◌, ◌<◌, ◌≡◌, refl, sym, ap, ◌∙◌, ◌↔◌, inl, inr, true, false, List, [], ◌∷◌,
  Option, none, some, length, ◌==◌, ==_iff, arith, Bool-cases, Option-cases, In, is_some,
}
use mathlib.Core.Option.{some-injective}
use agent_d.Base.Keys.{nat_key}
use agent_d.Base.Maps.{Map, get, remove, get-remove}
use agent_d.Ui.Tree.{Tree, parent_of, is_within_fuel, is_within}

-- A node's parent, the parent of that, and so on to one that has none.
abbrev pub Ancestors : (ℕ → Option ℕ) → ℕ → List ℕ → Type 0
Ancestors p n [] = p n ≡ none
Ancestors p n (m ∷ l) = (p n ≡ some m) × Ancestors p m l

-- Every way up ends.
abbrev pub IsForest : {V : Type 0} → Tree V → Type 0
IsForest t = (n : ℕ) → (l : List ℕ) × Ancestors (parent_of t) n l

-- A node is another or sits somewhere under it.
pub data IsWithin (p : ℕ → Option ℕ) (a : ℕ) : ℕ → Type 0 where
  itself : {n : ℕ} → n ≡ a → IsWithin p a n
  under : {n m : ℕ} → p n ≡ some m → IsWithin p a m → IsWithin p a n

abbrev Distinct : List ℕ → Type 0
Distinct [] = Unit
Distinct (x ∷ l) = (In x l → ⊥) × Distinct l

In-same : {a b : ℕ} (k : List ℕ) → a ≡ b → In b k → In a k
In-same k e i = rw e i

module _ {V : Type 0} where
  remove-length : (a : ℕ) (m : Map ℕ V) → length (remove a m) ≤ length m
  unfolding remove
  remove-length a [] = omega arith
  remove-length a ((b, v) ∷ m) = ground (arith, remove-length a m)

  remove_held : (a : ℕ) (m : Map ℕ V) → is_some (get a m) ≡ true → length (remove a m) < length m
  unfolding get remove
  remove_held a [] h = ground arith
  remove_held a ((b, v) ∷ m) h = elim (Bool-cases (b == a)) [
    | inl e ↦ rw e (omega (arith, remove-length a m))
    | inr e ↦ rw e (omega (arith, remove_held a m (rw e at h)))
  ]

  -- Keys that differ are no more than a map holds.
  Distinct-length :
      (l : List ℕ) (m : Map ℕ V)
      → Distinct l
      → ((a : ℕ) → In a l → is_some (get a m) ≡ true)
      → length l ≤ length m
  Distinct-length [] m d h = omega arith
  Distinct-length (x ∷ l) m (n, d) h =
      let rest : length l ≤ length (remove x m) =
        Distinct-length l (remove x m) d (λ a i. kept a i) in
      omega (arith, remove_held x m (h x (inl refl)), rest)
    where
      kept : (a : ℕ) → In a l → is_some (get a (remove x m)) ≡ true
      kept a i = elim (Bool-cases (x == a)) [
        | inl e ↦ elim (n (In-same l ((==_iff x a).0 e) i)) [ ]
        | inr e ↦ rw (get-remove x a m, e) (h a (inr i))
      ]

module _ (p : ℕ → Option ℕ) where
  pub Ancestors-same : (n : ℕ) (l k : List ℕ) → Ancestors p n l → Ancestors p n k → l ≡ k
  Ancestors-same n [] [] a b = refl
  Ancestors-same n [] (y ∷ k) a (e, b) = cc (a, e)
  Ancestors-same n (x ∷ l) [] (e, a) b = cc (e, b)
  Ancestors-same n (x ∷ l) (y ∷ k) (e, a) (f, b) =
      let g : y ≡ x = some-injective _ _ (sym f ∙ e) in
      ap (λ t. x ∷ t) (Ancestors-same x l k a (rw g at b)) ∙ ap (λ z. z ∷ k) (sym g)

  shorter :
      (n a : ℕ) (l : List ℕ)
      → Ancestors p n l
      → In a l
      → (k : List ℕ) × Ancestors p a k × (length k < length l)
  shorter n a (m ∷ l) (e, h) (inl f) = (l, rw f h, omega arith)
  shorter n a (m ∷ l) (e, h) (inr i) = let (k, g, s) = shorter m a l h i in (k, g, omega (arith, s))
  shorter n a [] h i = elim i [ ]

  -- A node is not above itself.
  pub Ancestors-above : (n : ℕ) (l : List ℕ) → Ancestors p n l → In n l → ⊥
  Ancestors-above n l h i =
      let (k, g, s) = shorter n n l h i in
      let e : length k ≡ length l = ap length (Ancestors-same n k l g h) in
      absurd (omega (arith, s, e))

  -- The nodes on the way up that have a parent.
  abbrev climbed : ℕ → List ℕ → List ℕ
  climbed n [] = []
  climbed n (m ∷ l) = n ∷ climbed m l

  climbed-length : (n : ℕ) (l : List ℕ) → length (climbed n l) ≡ length l
  climbed-length n [] = refl
  climbed-length n (m ∷ l) = ap suc (climbed-length m l)

  In-climbed : (a n : ℕ) (l : List ℕ) → In a (climbed n l) → In a (n ∷ l)
  In-climbed a n [] i = elim i [ ]
  In-climbed a n (m ∷ l) (inl e) = inl e
  In-climbed a n (m ∷ l) (inr i) = inr (In-climbed a m l i)

  climbed-Distinct : (n : ℕ) (l : List ℕ) → Ancestors p n l → Distinct (climbed n l)
  climbed-Distinct n [] h = tt
  climbed-Distinct n (m ∷ l) (e, h) =
      (λ i. Ancestors-above n (m ∷ l) (e, h) (In-climbed n m l i), climbed-Distinct m l h)

  climbed_held :
      (a n : ℕ) (l : List ℕ) → Ancestors p n l → In a (climbed n l) → is_some (p a) ≡ true
  climbed_held a n (m ∷ l) (e, h) (inl f) = ap is_some (ap p f ∙ e)
  climbed_held a n (m ∷ l) (e, h) (inr i) = climbed_held a m l h i
  climbed_held a n [] h i = elim i [ ]

  pub IsWithin-of_In : (n a : ℕ) (l : List ℕ) → Ancestors p n l → In a (n ∷ l) → IsWithin p a n
  IsWithin-of_In n a [] h (inl e) = itself (sym e)
  IsWithin-of_In n a [] h (inr i) = elim i [ ]
  IsWithin-of_In n a (m ∷ l) (e, h) (inl f) = itself (sym f)
  IsWithin-of_In n a (m ∷ l) (e, h) (inr i) = under e (IsWithin-of_In m a l h i)

  In-of_IsWithin : (n a : ℕ) (l : List ℕ) → Ancestors p n l → IsWithin p a n → In a (n ∷ l)
  In-of_IsWithin n a [] h (itself e) = inl (sym e)
  In-of_IsWithin n a [] h (under f w) = cc (h, f)
  In-of_IsWithin n a (m ∷ l) (e, h) (itself f) = inl (sym f)
  In-of_IsWithin n a (m ∷ l) (e, h) (under {m = k} f w) =
      let g : k ≡ m = some-injective _ _ (sym f ∙ e) in inr (In-of_IsWithin m a l h (rw g at w))

module _ {V : Type 0} (t : Tree V) where
  held_of_parent : (a : ℕ) → is_some (parent_of t a) ≡ true → is_some (get a t.nodes) ≡ true
  unfolding parent_of
  held_of_parent a h = elim (Option-cases (get a t.nodes)) [
    | inl e ↦ cc (rw e at h)
    | inr (v, e) ↦ rw e refl
  ]

  Ancestors-length : (n : ℕ) (l : List ℕ) → Ancestors (parent_of t) n l → length l ≤ length t.nodes
  Ancestors-length n l h =
      let c = climbed (parent_of t) n l in
      let b : length c ≤ length t.nodes =
        Distinct-length c t.nodes (climbed-Distinct (parent_of t) n l h)
          (λ a i. held_of_parent a (climbed_held (parent_of t) a n l h i)) in
      omega (arith, climbed-length (parent_of t) n l, b)

  no_more : (fuel a : ℕ) → is_within_fuel fuel t none a ≡ false
  unfolding is_within_fuel
  no_more zero a = refl
  no_more (suc fuel) a = refl

  is_within_fuel-In :
      (fuel n a : ℕ) (l : List ℕ)
      → Ancestors (parent_of t) n l
      → length l < fuel
      → (is_within_fuel fuel t (some n) a ≡ true) ↔ In a (n ∷ l)
  unfolding is_within_fuel
  is_within_fuel-In zero n a l h f = absurd (omega arith)
  is_within_fuel-In (suc fuel) n a [] h f = elim (Bool-cases (n == a)) [
    | inl e ↦ rw e (λ g. inl (sym ((==_iff n a).0 e)), λ i. refl)
    | inr e ↦
        rw (e, h, no_more fuel a)
          (λ g. cc g, λ i. elim i [ inl k ↦ ground (arith, k) | inr k ↦ elim k [ ] ])
  ]
  is_within_fuel-In (suc fuel) n a (m ∷ l) (g, h) f = elim (Bool-cases (n == a)) [
    | inl e ↦ rw e (λ k. inl (sym ((==_iff n a).0 e)), λ i. refl)
    | inr e ↦
        let (to, from) = is_within_fuel-In fuel m a l h (omega arith) in
        rw (e, g) (λ k. inr (to k), λ i. elim i [ inl k ↦ ground (arith, k) | inr k ↦ from k ])
  ]

  pub is_within-IsWithin :
      IsForest t → (n a : ℕ) → (is_within t n a ≡ true) ↔ IsWithin (parent_of t) a n
  unfolding is_within
  is_within-IsWithin w n a =
      let (l, h) = w n in
      let (f, g) =
        is_within_fuel-In (suc (suc (length t.nodes))) n a l h
          (omega (arith, Ancestors-length n l h)) in
      (
        λ e. IsWithin-of_In (parent_of t) n a l h (f e),
        λ i. g (In-of_IsWithin (parent_of t) n a l h i),
      )
