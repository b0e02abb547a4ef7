-- ===== src/Sessions/Store/Listing.antt =====
-- What `list` and `find_by_label` answer: whose sessions, how many, and in what order.
use agent_d.Base.{
  take, drop, ℕ, zero, suc, min, ◌≡◌, ◌<◌, ap, refl, ◌∙◌, ◌⊎◌, inl, inr, true, false, List, [], ◌∷◌,
  ◌++◌, arith, length, filter, ltb, Bool-cases, All,
}
use mathlib.Core.List.{Perm}
use mathlib.Core.List.Perm
use agent_d.Base.Text.{Str, str_eq, str_eq_iff}
use agent_d.Base.Keys.{str_key, str_lt, str_lt_irrefl, str_lt_trans, str_lt_total}
use agent_d.Base.Maps.{values}
use agent_d.Sessions.{SessionMeta, Scope, permits}
use agent_d.Sessions.Store.{Store, comes_first, sort_in, sort, list}

module _ {A : Type 0} where
  length-take : (n : ℕ) (l : List A) → length (take n l) ≡ min n (length l)
  length-take zero l = omega arith
  length-take (suc n) [] = omega arith
  length-take (suc n) (x ∷ l) = omega (arith, length-take n l)

  take-append-drop : (n : ℕ) (l : List A) → take n l ++ drop n l ≡ l
  take-append-drop zero l = refl
  take-append-drop (suc n) [] = refl
  take-append-drop (suc n) (x ∷ l) = ap (λ z. x ∷ z) (take-append-drop n l)

comes_first_total : (a b : SessionMeta) → comes_first a b ≡ false → comes_first b a ≡ true
unfolding comes_first
comes_first_total a b h =
    ground (arith, str_lt_total a.id b.id, str_lt_trans a.id b.id a.id, str_lt_irrefl a.id)

-- Each session comes before those after it.
abbrev First : SessionMeta → List SessionMeta → Type 0
First a [] = Unit
First a (b ∷ l) = (comes_first a b ≡ true) × First a l

abbrev Sorted : List SessionMeta → Type 0
Sorted [] = Unit
Sorted (a ∷ l) = First a l × Sorted l

-- A session that was used later, or at the same time and has no smaller id.
abbrev pub IsNewer : SessionMeta → SessionMeta → Type 0
IsNewer a b =
    (b.updated_at < a.updated_at) ⊎ ((a.updated_at ≡ b.updated_at) × (str_lt a.id b.id ≡ false))

-- Each session is newer than those after it.
abbrev pub IsNewestFirst : List SessionMeta → Type 0
IsNewestFirst [] = Unit
IsNewestFirst (a ∷ l) = All (IsNewer a) l × IsNewestFirst l

comes_first-IsNewer : (a b : SessionMeta) → comes_first a b ≡ true → IsNewer a b
unfolding comes_first
comes_first-IsNewer a b h = elim (Bool-cases (ltb b.updated_at a.updated_at)) [
  | inl e ↦ inl (ground arith)
  | inr e ↦ inr (ground arith, ground arith)
]

First-IsNewer : (a : SessionMeta) (l : List SessionMeta) → First a l → All (IsNewer a) l
First-IsNewer a [] u = tt
First-IsNewer a (b ∷ l) (p, u) = (comes_first-IsNewer a b p, First-IsNewer a l u)

Sorted-IsNewestFirst : (l : List SessionMeta) → Sorted l → IsNewestFirst l
Sorted-IsNewestFirst [] v = tt
Sorted-IsNewestFirst (a ∷ l) (u, v) = (First-IsNewer a l u, Sorted-IsNewestFirst l v)

-- What is not smaller, transitively.
not_smaller_trans : (a b c : Str) → str_lt a b ≡ false → str_lt b c ≡ false → str_lt a c ≡ false
not_smaller_trans a b c p q = elim (Bool-cases (str_eq a b)) [
  | inl e ↦ ap (λ x. str_lt x c) ((str_eq_iff a b).0 e) ∙ q
  | inr e ↦ elim (Bool-cases (str_lt a c)) [
    | inl h ↦ cc (q, str_lt_trans b a c (str_lt_total a b e p) h)
    | inr h ↦ h
  ]
]

comes_first_trans :
    (a b c : SessionMeta) → comes_first a b ≡ true → comes_first b c ≡ true → comes_first a c ≡ true
unfolding comes_first
comes_first_trans a b c p q = ground (arith, not_smaller_trans a.id b.id c.id)

First-trans :
    (a b : SessionMeta) (l : List SessionMeta) → comes_first a b ≡ true → First b l → First a l
First-trans a b [] h u = tt
First-trans a b (c ∷ l) h (p, u) = (comes_first_trans a b c h p, First-trans a b l h u)

First-sort_in :
    (a b : SessionMeta) (l : List SessionMeta)
    → comes_first b a ≡ true
    → First b l
    → First b (sort_in a l)
unfolding sort_in
First-sort_in a b [] h u = (h, tt)
First-sort_in a b (c ∷ l) h (p, u) = elim (Bool-cases (comes_first a c)) [
  | inl e ↦ rw e (h, (p, u))
  | inr e ↦ rw e (p, First-sort_in a b l h u)
]

sort_in-Sorted : (a : SessionMeta) (l : List SessionMeta) → Sorted l → Sorted (sort_in a l)
unfolding sort_in
sort_in-Sorted a [] v = (tt, tt)
sort_in-Sorted a (b ∷ l) (u, v) = elim (Bool-cases (comes_first a b)) [
  | inl e ↦ rw e ((e, First-trans a b l e u), (u, v))
  | inr e ↦ rw e (First-sort_in a b l (comes_first_total a b e) u, sort_in-Sorted a l v)
]

sort-Sorted : (l : List SessionMeta) → Sorted (sort l)
unfolding sort
sort-Sorted [] = tt
sort-Sorted (a ∷ l) = sort_in-Sorted a (sort l) (sort-Sorted l)

sort_in-perm : (a : SessionMeta) (l : List SessionMeta) → Perm (sort_in a l) (a ∷ l)
unfolding sort_in
sort_in-perm a [] = Perm.refl (a ∷ [])
sort_in-perm a (b ∷ l) = elim (Bool-cases (comes_first a b)) [
  | inl e ↦ rw e (Perm.refl (a ∷ b ∷ l))
  | inr e ↦ rw e (Perm.trans (Perm.cons b (sort_in-perm a l)) (Perm.swap a b l))
]

sort-perm : (l : List SessionMeta) → Perm (sort l) l
unfolding sort
sort-perm [] = Perm.refl []
sort-perm (a ∷ l) = Perm.trans (sort_in-perm a (sort l)) (Perm.cons a (sort-perm l))

module _ {M : Type 0} where
  -- What is listed and what is left out are together the sessions of the store that the caller may
  -- see, each as often as it is kept, the one last used first and of two alike the one with the
  -- greater id; what is left out comes after what is listed, and as many are listed as there are,
  -- up to the limit.
  pub list_lem :
      (scope : Scope) (limit : ℕ) (s : Store M)
      → (rest : List SessionMeta) × Perm
          (list scope limit s ++ rest)
          (filter (permits scope) (values s.metas))
        × IsNewestFirst (list scope limit s ++ rest)
        × (length (list scope limit s) ≡ min limit (length (list scope limit s ++ rest)))
  unfolding list
  list_lem scope limit s =
      let seen = filter (permits scope) (values s.metas) in
      let whole = take-append-drop limit (sort seen) in
      (
        drop limit (sort seen),
        rw whole (sort-perm seen),
        rw whole (Sorted-IsNewestFirst (sort seen) (sort-Sorted seen)),
        rw whole (length-take limit (sort seen)),
      )
