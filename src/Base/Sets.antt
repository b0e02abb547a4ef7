-- ===== src/Base/Sets.antt =====
-- Ordered sets: `BTreeSet` as a list in ascending order.
use mathlib.Core.Path.{◌≡◌, refl}
use mathlib.Core.Logic.{◌⊎◌, inl, inr}
use mathlib.Core.Bool.{Bool, true, false, ◌||◌}
use mathlib.Core.List.{List, [], ◌∷◌}
use native.Mathlib.Omega.{arith}
use agent_d.Base.Tests.{if◌then◌else◌, Bool-cases}
use agent_d.Base.Lists.{In}
use agent_d.Base.Keys.{Key}

abbrev pub Set : Type 0 → Type 0
Set K = List K

module _ {K : Type 0} ⦃k : Key K⦄ where
  -- `BTreeSet::contains`.
  unfoldable pub member : K → Set K → Bool
  member a [] = false
  member a (b ∷ s) = k.beq b a || member a s

  -- `BTreeSet::insert`.
  unfoldable pub add : K → Set K → Set K
  add a [] = a ∷ []
  add a (b ∷ s) = if k.beq b a then b ∷ s else if k.lt a b then a ∷ b ∷ s else b ∷ add a s

  -- `BTreeSet::remove`.
  unfoldable pub remove : K → Set K → Set K
  remove a [] = []
  remove a (b ∷ s) = if k.beq b a then s else b ∷ remove a s

  -- Adding the elements of a list in turn.
  unfoldable pub add_all : List K → Set K → Set K
  add_all [] s = s
  add_all (a ∷ l) s = add_all l (add a s)

  pub In-of_member : (a : K) (s : Set K) → member a s ≡ true → In a s
  unfolding member
  In-of_member a [] h = ground arith
  In-of_member a (b ∷ s) h = elim (Bool-cases (k.beq b a)) [
    | inl e ↦ inl (ground (arith, (k.beq_iff b a).0 e))
    | inr e ↦ inr (In-of_member a s (ground arith))
  ]

  pub member_of_In : (a : K) (s : Set K) → In a s → member a s ≡ true
  unfolding member
  member_of_In a [] m = elim m [ ]
  member_of_In a (b ∷ s) (inl e) = ground (arith, k.beq_iff b a)
  member_of_In a (b ∷ s) (inr m) = ground (arith, member_of_In a s m)

  pub In-add_self : (a : K) (s : Set K) → In a (add a s)
  unfolding add
  In-add_self a [] = inl refl
  In-add_self a (b ∷ s) = elim (Bool-cases (k.beq b a)) [
    | inl e ↦ rw e (inl (ground (arith, (k.beq_iff b a).0 e)))
    | inr e ↦ rw e (elim (Bool-cases (k.lt a b)) [
      | inl l ↦ rw l (inl refl)
      | inr l ↦ rw l (inr (In-add_self a s))
    ])
  ]

  pub In-add_old : (a b : K) (s : Set K) → In b s → In b (add a s)
  unfolding add
  In-add_old a b [] m = elim m [ ]
  In-add_old a b (c ∷ s) m = elim (Bool-cases (k.beq c a)) [
    | inl e ↦ rw e m
    | inr e ↦ rw e (elim (Bool-cases (k.lt a c)) [
      | inl l ↦ rw l (inr m)
      | inr l ↦ rw l (old (In-add_old a b s) m)
    ])
  ]
    where
      old : (In b s → In b (add a s)) → (b ≡ c) ⊎ In b s → (b ≡ c) ⊎ In b (add a s)
      old f (inl e) = inl e
      old f (inr n) = inr (f n)

  pub In-add_cases : (a b : K) (s : Set K) → In b (add a s) → (b ≡ a) ⊎ In b s
  unfolding add
  In-add_cases a b [] m = m
  In-add_cases a b (c ∷ s) m = elim (Bool-cases (k.beq c a)) [
    | inl e ↦ inr (rw e at m)
    | inr e ↦ elim (Bool-cases (k.lt a c)) [
      | inl l ↦ rw (e, l) at m
      | inr l ↦ last (In-add_cases a b s) (rw (e, l) at m)
    ]
  ]
    where
      last :
          (In b (add a s) → (b ≡ a) ⊎ In b s)
          → (b ≡ c) ⊎ In b (add a s)
          → (b ≡ a) ⊎ ((b ≡ c) ⊎ In b s)
      last f (inl e) = inr (inl e)
      last f (inr n) = elim (f n) [ inl e ↦ inl e | inr o ↦ inr (inr o) ]

  pub In-add_all_old : (l : List K) (b : K) (s : Set K) → In b s → In b (add_all l s)
  unfolding add_all
  In-add_all_old [] b s m = m
  In-add_all_old (a ∷ l) b s m = In-add_all_old l b (add a s) (In-add_old a b s m)

  pub In-add_all_new : (l : List K) (b : K) (s : Set K) → In b l → In b (add_all l s)
  unfolding add_all
  In-add_all_new [] b s m = elim m [ ]
  In-add_all_new (a ∷ l) b s (inl e) = rw e (In-add_all_old l a (add a s) (In-add_self a s))
  In-add_all_new (a ∷ l) b s (inr m) = In-add_all_new l b (add a s) m

  pub In-add_all_cases : (l : List K) (b : K) (s : Set K) → In b (add_all l s) → In b l ⊎ In b s
  unfolding add_all
  In-add_all_cases [] b s m = inr m
  In-add_all_cases (a ∷ l) b s m = elim (In-add_all_cases l b (add a s) m) [
    | inl n ↦ inl (inr n)
    | inr n ↦ elim (In-add_cases a b s n) [ inl e ↦ inl (inl e) | inr o ↦ inr o ]
  ]

module _ {K : Type 0} ⦃k : Key K⦄ where
  pub member-add : (a b : K) (s : Set K) → member b (add a s) ≡ (k.beq a b || member b s)
  unfolding member add
  member-add a b [] = refl
  member-add a b (c ∷ s) =
      ground (arith, k.beq_iff a b, k.beq_iff c a, k.beq_iff c b, member-add a b s)
