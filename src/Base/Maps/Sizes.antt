-- ===== src/Base/Maps/Sizes.antt =====
-- How many keys a map holds, and that it holds each of them once.
use agent_d.Base.{
  suc, ◌≡◌, ◌≤◌, refl, sym, ap, ◌∙◌, [], ◌∷◌, some, length, arith, Bool-cases, In, inl, inr,
}
use agent_d.Base.Keys.{Key}
use agent_d.Base.Maps.{Map, Above, Ascends, get, insert, remove, modify}

module _ {ℓ} {K : Type 0} ⦃k : Key K⦄ {V : Type ℓ} where
  pub length-modify : (a : K) (f : V → V) (m : Map K V) → length (modify a f m) ≡ length m
  unfolding modify
  length-modify a f [] = refl
  length-modify a f ((b, v) ∷ m) = ground (arith, length-modify a f m)

  pub length-remove : (a : K) (m : Map K V) → length (remove a m) ≤ length m
  unfolding remove
  length-remove a [] = omega arith
  length-remove a ((b, v) ∷ m) = ground (arith, length-remove a m)

  pub length-insert : (a : K) (v : V) (m : Map K V) → length (insert a v m) ≤ suc (length m)
  unfolding insert
  length-insert a v [] = omega arith
  length-insert a v ((b, w) ∷ m) = ground (arith, length-insert a v m)

  modify-Above : (a b : K) (f : V → V) (m : Map K V) → Above b m → Above b (modify a f m)
  unfolding modify
  modify-Above a b f [] u = tt
  modify-Above a b f ((c, v) ∷ m) u = ground (arith, modify-Above a b f m u.1)

  pub modify-Ascends : (a : K) (f : V → V) (m : Map K V) → Ascends m → Ascends (modify a f m)
  unfolding modify
  modify-Ascends a f [] u = tt
  modify-Ascends a f ((b, v) ∷ m) u =
      ground (arith, modify-Above a b f m u.0, modify-Ascends a f m u.1)

module _ {K : Type 0} ⦃k : Key K⦄ {V : Type 0} where
  not-In-Above : (a : K) (v : V) (m : Map K V) → Above a m → In (a, v) m → ⊥
  not-In-Above a v ((b, w) ∷ m) (p, u) (inl e) =
      cc (sym (k.lt_irrefl a) ∙ ap (λ x. k.lt a x.0) e ∙ p)
  not-In-Above a v ((b, w) ∷ m) (p, u) (inr i) = not-In-Above a v m u i
  not-In-Above a v [] u i = elim i [ ]

  -- An entry of the map is what the map gives for its key.
  pub get-In : (a : K) (v : V) (m : Map K V) → Ascends m → In (a, v) m → get a m ≡ some v
  unfolding get
  get-In a v ((b, w) ∷ m) (p, u) (inl e) =
      rw ((k.beq_iff b a).1 (sym (ap (λ x. x.0) e))) (ap (λ x. some x.1) (sym e))
  get-In a v ((b, w) ∷ m) (p, u) (inr i) = elim (Bool-cases (k.beq b a)) [
    | inl e ↦ elim (not-In-Above b v m p (rw (← (k.beq_iff b a).0 e) at i)) [ ]
    | inr e ↦ rw e (get-In a v m u i)
  ]
  get-In a v [] u i = elim i [ ]
