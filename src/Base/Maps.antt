-- ===== src/Base/Maps.antt =====
-- Ordered maps: `BTreeMap` as an association list in key order, also for a `HashMap`, whose own
-- order no code here depends on.
pub mod Sizes
use mathlib.Core.Path.{◌≡◌, refl, sym, ap, ◌∙◌}
use mathlib.Core.Logic.{inl, inr}
use mathlib.Core.Bool.{true, false}
use mathlib.Core.Option.{Option, none, some, some-injective}
use mathlib.Core.List.{List, [], ◌∷◌, map}
use native.Mathlib.Omega.{arith}
use agent_d.Base.Tests.{is_some, if◌then◌else◌, Bool-cases}
use agent_d.Base.Lists.{In}
use agent_d.Base.Keys.{Key, beq_refl}

abbrev pub Map {ℓ} : Type 0 → Type ℓ → Type ℓ
Map K V = List (K × V)

module _ {ℓ} {K : Type 0} ⦃k : Key K⦄ {V : Type ℓ} where
  unfoldable pub get : K → Map K V → Option V
  get a [] = none
  get a ((b, v) ∷ m) = if k.beq b a then some v else get a m

  unfoldable pub insert : K → V → Map K V → Map K V
  insert a v [] = (a, v) ∷ []
  insert a v ((b, w) ∷ m) =
      if k.beq b a
      then (a, v) ∷ m
      else if k.lt a b
      then (a, v) ∷ (b, w) ∷ m
      else (b, w) ∷ insert a v m

  unfoldable pub remove : K → Map K V → Map K V
  remove a [] = []
  remove a ((b, w) ∷ m) = if k.beq b a then remove a m else (b, w) ∷ remove a m

  -- `get_mut`, and a change of what it gives.
  unfoldable pub modify : K → (V → V) → Map K V → Map K V
  modify a f [] = []
  modify a f ((b, v) ∷ m) = if k.beq b a then (b, f v) ∷ m else (b, v) ∷ modify a f m

  -- Every key of the map comes after `a`.
  abbrev pub Above : K → Map K V → Type 0
  Above a [] = Unit
  Above a ((b, v) ∷ m) = (k.lt a b ≡ true) × Above a m

  -- Strictly ascending keys: the map holds each key once.
  abbrev pub Ascends : Map K V → Type 0
  Ascends [] = Unit
  Ascends ((b, v) ∷ m) = Above b m × Ascends m

  pub get-insert :
      (a b : K) (v : V) (m : Map K V)
      → get b (insert a v m) ≡ (if k.beq a b then some v else get b m)
  unfolding get insert
  get-insert a b v [] = refl
  get-insert a b v ((c, w) ∷ m) =
      ground (arith, k.beq_iff a b, k.beq_iff c a, k.beq_iff c b, get-insert a b v m)

  pub get-remove :
      (a b : K) (m : Map K V) → get b (remove a m) ≡ (if k.beq a b then none else get b m)
  unfolding get remove
  get-remove a b [] = ground arith
  get-remove a b ((c, w) ∷ m) =
      ground (arith, k.beq_iff a b, k.beq_iff c a, k.beq_iff c b, get-remove a b m)

  pub get-modify_own :
      (a : K) (f : V → V) (v : V) (m : Map K V)
      → get a m ≡ some v
      → get a (modify a f m) ≡ some (f v)
  unfolding get modify
  get-modify_own a f v [] e = cc e
  get-modify_own a f v ((b, w) ∷ m) e = elim (Bool-cases (k.beq b a)) [
    | inl h ↦ rw (h, h) (ap (λ x. some (f x)) (some-injective _ _ (rw h at e)))
    | inr h ↦ rw (h, h) (get-modify_own a f v m (rw h at e))
  ]

  pub get-modify_other :
      (a b : K) (f : V → V) (m : Map K V) → k.beq a b ≡ false → get b (modify a f m) ≡ get b m
  unfolding get modify
  get-modify_other a b f [] n = refl
  get-modify_other a b f ((c, w) ∷ m) n =
      ground (arith, k.beq_iff a b, k.beq_iff c a, k.beq_iff c b, get-modify_other a b f m n)

  pub modify_missing : (a : K) (f : V → V) (m : Map K V) → get a m ≡ none → modify a f m ≡ m
  unfolding get modify
  modify_missing a f [] e = refl
  modify_missing a f ((b, w) ∷ m) e = elim (Bool-cases (k.beq b a)) [
    | inl h ↦ cc (rw h at e)
    | inr h ↦ rw h (ap (λ l. (b, w) ∷ l) (modify_missing a f m (rw h at e)))
  ]

  pub is_some-modify :
      (a b : K) (f : V → V) (m : Map K V) → is_some (get b (modify a f m)) ≡ is_some (get b m)
  unfolding get modify
  is_some-modify a b f [] = refl
  is_some-modify a b f ((c, w) ∷ m) =
      ground (arith, k.beq_iff a b, k.beq_iff c a, k.beq_iff c b, is_some-modify a b f m)

  Above-trans : (a b : K) (m : Map K V) → k.lt a b ≡ true → Above b m → Above a m
  Above-trans a b [] h u = tt
  Above-trans a b ((c, w) ∷ m) h (p, u) = (k.lt_trans a b c h p, Above-trans a b m h u)

  insert-Above :
      (a b : K) (v : V) (m : Map K V) → k.lt b a ≡ true → Above b m → Above b (insert a v m)
  unfolding insert
  insert-Above a b v [] h u = (h, tt)
  insert-Above a b v ((c, w) ∷ m) h u = ground (arith, insert-Above a b v m h u.1)

  -- The order of the keys is kept.
  pub insert-Ascends : (a : K) (v : V) (m : Map K V) → Ascends m → Ascends (insert a v m)
  unfolding insert
  insert-Ascends a v [] u = (tt, tt)
  insert-Ascends a v ((b, w) ∷ m) (p, u) = elim (Bool-cases (k.beq b a)) [
    | inl e ↦ rw e (rw (← (k.beq_iff b a).0 e) (p, u))
    | inr e ↦ rw e (elim (Bool-cases (k.lt a b)) [
      | inl l ↦ rw l ((l, Above-trans a b m l p), (p, u))
      | inr l ↦
          rw l (insert-Above a b v m (k.lt_total a b (beq_sym a b e) l) p, insert-Ascends a v m u)
    ])
  ]
    where
      beq_sym : (a b : K) → k.beq b a ≡ false → k.beq a b ≡ false
      beq_sym a b e = ground (arith, k.beq_iff a b, k.beq_iff b a)

  remove-Above : (a b : K) (m : Map K V) → Above b m → Above b (remove a m)
  unfolding remove
  remove-Above a b [] u = tt
  remove-Above a b ((c, w) ∷ m) u = ground (arith, remove-Above a b m u.1)

  pub remove-Ascends : (a : K) (m : Map K V) → Ascends m → Ascends (remove a m)
  unfolding remove
  remove-Ascends a [] u = tt
  remove-Ascends a ((b, w) ∷ m) u = ground (arith, remove-Above a b m u.0, remove-Ascends a m u.1)

  get-Above : (a : K) (m : Map K V) → Above a m → get a m ≡ none
  unfolding get
  get-Above a [] u = refl
  get-Above a ((b, v) ∷ m) (p, u) = elim (Bool-cases (k.beq b a)) [
    | inl e ↦ cc (sym (k.lt_irrefl a) ∙ ap (k.lt a) (sym ((k.beq_iff b a).0 e)) ∙ p)
    | inr e ↦ rw e (get-Above a m u)
  ]

  -- Of two maps that give the same for a key, without what they give for the first one.
  same_rest :
      (a : K) (v w : V) (m n : Map K V)
      → Above a m
      → Above a n
      → ((b : K) → get b ((a, v) ∷ m) ≡ get b ((a, w) ∷ n))
      → (b : K) → get b m ≡ get b n
  unfolding get
  same_rest a v w m n p q h b = elim (Bool-cases (k.beq a b)) [
    | inl e ↦ rw (← (k.beq_iff a b).0 e) (get-Above a m p ∙ sym (get-Above a n q))
    | inr e ↦ rw e at (h b)
  ]

  get_first : (a : K) (v : V) (m : Map K V) → get a ((a, v) ∷ m) ≡ some v
  unfolding get
  get_first a v m = rw (beq_refl a) refl

  -- Maps that give the same for each key are the same.
  pub Ascends-get : (m n : Map K V) → Ascends m → Ascends n → ((a : K) → get a m ≡ get a n) → m ≡ n
  Ascends-get [] [] p q h = refl
  Ascends-get [] ((b, w) ∷ n) p q h = cc (sym (get_first b w n) ∙ sym (h b) ∙ get-Above b [] tt)
  Ascends-get ((a, v) ∷ m) [] p q h = cc (sym (get_first a v m) ∙ h a ∙ get-Above a [] tt)
  Ascends-get ((a, v) ∷ m) ((b, w) ∷ n) (u, p) (x, q) h = elim (Bool-cases (k.beq a b)) [
    | inl e ↦
        let g : a ≡ b = (k.beq_iff a b).0 e in
        let h' : (c : K) → get c ((a, v) ∷ m) ≡ get c ((a, w) ∷ n) =
          λ c. h c ∙ ap (λ z. get c ((z, w) ∷ n)) (sym g) in
        let y : v ≡ w = some-injective _ _ (sym (get_first a v m) ∙ h' a ∙ get_first a w n) in
        let z : m ≡ n = Ascends-get m n p q (same_rest a v w m n u (rw g x) h') in cc (g, y, z)
    | inr e ↦ elim (Bool-cases (k.lt a b)) [
      | inl l ↦
          cc (sym (get_first a v m) ∙ h a ∙ get-Above a ((b, w) ∷ n) (l, Above-trans a b n l x))
      | inr l ↦
          let g = k.lt_total a b e l in
          cc (
            sym (get_first b w n) ∙ sym (h b) ∙ get-Above b ((a, v) ∷ m) (g, Above-trans b a m g u))
    ]
  ]

  -- The values in key order.
  abbrev pub values : Map K V → List V
  values m = map (λ e. e.1) m

module _ {K : Type 0} ⦃k : Key K⦄ {V : Type 0} where
  pub In-values_of_get : (a : K) (v : V) (m : Map K V) → get a m ≡ some v → In v (values m)
  unfolding get
  In-values_of_get a v [] e = cc
  In-values_of_get a v ((b, w) ∷ m) e = elim (Bool-cases (k.beq b a)) [
    | inl f ↦ inl (sym (some-injective _ _ (rw f at e)))
    | inr f ↦ inr (In-values_of_get a v m (rw f at e))
  ]
