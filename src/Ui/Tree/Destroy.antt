-- ===== src/Ui/Tree/Destroy.antt =====
-- The destruction of a subtree is given fuel enough.
use agent_d.Base.{
  ℕ, zero, suc, ◌+◌, ◌≤◌, ◌≡◌, refl, sym, ap, ◌∙◌, inl, inr, List, [], ◌∷◌, ◌++◌, none, some,
  length, reverse, length-append, ◌==◌, arith, Bool-cases, Option-cases,
}
use mathlib.Core.List.{reverse_aux}
use mathlib.Core.Option.{some-injective}
use agent_d.Base.Keys.{nat_key}
use agent_d.Base.Maps.{Map, get, remove}
use agent_d.Ui.Tree.{Node, Tree, destroy_fuel, forgotten, links}

length-reverse_aux : {A : Type 0} (l r : List A) → length (reverse_aux l r) ≡ length l + length r
length-reverse_aux [] r = omega arith
length-reverse_aux (x ∷ l) r = omega (arith, length-reverse_aux l (x ∷ r))

length-reverse : {A : Type 0} (l : List A) → length (reverse l) ≡ length l
length-reverse l = omega (arith, length-reverse_aux l [])

module _ {V : Type 0} where
  links-remove : (a : ℕ) (m : Map ℕ (Node V)) → links (remove a m) ≤ links m
  unfolding links remove
  links-remove a [] = omega arith
  links-remove a ((b, v) ∷ m) = elim (Bool-cases (b == a)) [
    | inl e ↦ rw e (omega (arith, links-remove a m))
    | inr e ↦ rw e (omega (arith, links-remove a m))
  ]

  links_held :
      (a : ℕ) (v : Node V) (m : Map ℕ (Node V))
      → get a m ≡ some v
      → length v.children + links (remove a m) ≤ links m
  unfolding links remove get
  links_held a v [] e = cc e
  links_held a v ((b, w) ∷ m) e = elim (Bool-cases (b == a)) [
    | inl h ↦
        let s : length w.children ≡ length v.children =
          ap (λ n. length n.children) (some-injective _ _ (rw h at e)) in
        rw h (omega (arith, links-remove a m, s))
    | inr h ↦ rw h (omega (arith, links_held a v m (rw h at e)))
  ]

  destroy_missing :
      (fuel a : ℕ) (s : List ℕ) (t : Tree V)
      → get a t.nodes ≡ none
      → destroy_fuel (suc fuel) (a ∷ s) t ≡ destroy_fuel fuel s (forgotten a t)
  unfolding destroy_fuel
  destroy_missing fuel a s t e = rw (e, destroy_fuel) refl

  destroy_held :
      (fuel a : ℕ) (s : List ℕ) (t : Tree V) (v : Node V)
      → get a t.nodes ≡ some v
      → destroy_fuel (suc fuel) (a ∷ s) t
        ≡ destroy_fuel fuel (reverse v.children ++ s) (forgotten a t)
  unfolding destroy_fuel
  destroy_held fuel a s t v e = rw (e, destroy_fuel) refl

  destroy_done : (fuel : ℕ) (t : Tree V) → destroy_fuel fuel [] t ≡ t
  unfolding destroy_fuel
  destroy_done zero t = refl
  destroy_done (suc fuel) t = refl

  -- With one step for each element on the stack and each link to a child, the loop ends with an empty
  -- stack: more steps change nothing.
  destroy_fuel_lem :
      (fuel more : ℕ) (s : List ℕ) (t : Tree V)
      → length s + links t.nodes ≤ fuel
      → destroy_fuel (fuel + more) s t ≡ destroy_fuel fuel s t
  destroy_fuel_lem fuel more [] t h = destroy_done (fuel + more) t ∙ sym (destroy_done fuel t)
  destroy_fuel_lem zero more (a ∷ s) t h = absurd (omega arith)
  destroy_fuel_lem (suc fuel) more (a ∷ s) t h =
      let e : suc fuel + more ≡ suc (fuel + more) = omega arith in
      ap (λ n. destroy_fuel n (a ∷ s) t) e ∙ elim (Option-cases (get a t.nodes)) [
        | inl f ↦
            destroy_missing (fuel + more) a s t f
            ∙ destroy_fuel_lem fuel more s (forgotten a t) (omega (arith, links-remove a t.nodes))
            ∙ sym (destroy_missing fuel a s t f)
        | inr (v, f) ↦
            destroy_held (fuel + more) a s t v f
            ∙ destroy_fuel_lem fuel more (reverse v.children ++ s) (forgotten a t) (
                omega (
                  arith,
                  links_held a v t.nodes f,
                  length-append (reverse v.children) s,
                  length-reverse v.children,
                ))
            ∙ sym (destroy_held fuel a s t v f)
      ]
