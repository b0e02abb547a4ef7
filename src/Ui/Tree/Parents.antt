-- ===== src/Ui/Tree/Parents.antt =====
-- What the operations do to the parents of elements.
use agent_d.Base.{
  ℕ, zero, suc, ◌≡◌, refl, sym, ap, ◌∙◌, ◌⊎◌, inl, inr, true, List, [], ◌∷◌, ◌++◌, Option, none,
  some, ◌==◌, ==_iff, Bool-cases, Option-cases, is_some, reverse,
}
use agent_d.Base.Keys.{nat_key}
use agent_d.Base.Maps.{
  Map, get, insert, remove, modify, get-insert, get-remove, is_some-modify, get-modify_own,
  get-modify_other, modify_missing,
}
use agent_d.Ui.Tree.{
  Node, Tree, pointer, parent_of, exists, detach, forgotten, orphan, without, adopted, with_child,
  destroy_fuel,
}

-- Each node has the parent it had, or none.
abbrev pub Loosens : (ℕ → Option ℕ) → (ℕ → Option ℕ) → Type 0
Loosens p q = (n : ℕ) → (q n ≡ none) ⊎ (q n ≡ p n)

pub Loosens-trans : (p q r : ℕ → Option ℕ) → Loosens p q → Loosens q r → Loosens p r
Loosens-trans p q r v w n = elim (w n) [
  | inl e ↦ inl e
  | inr e ↦ elim (v n) [ inl f ↦ inl (e ∙ f) | inr f ↦ inr (e ∙ f) ]
]

module _ {V : Type 0} where
  abbrev pub up : Map ℕ (Node V) → ℕ → Option ℕ
  up m n = pointer (get n m)

  pub up-modify :
      (a : ℕ) (f : Node V → Node V) (m : Map ℕ (Node V))
      → ((v : Node V) → (f v).parent ≡ v.parent)
      → (n : ℕ) → up (modify a f m) n ≡ up m n
  up-modify a f m keeps n = elim (Bool-cases (a == n)) [
    | inr e ↦ ap pointer (get-modify_other a n f m e)
    | inl e ↦ rw (← (==_iff a n).0 e) (own (get a m) refl)
  ]
    where
      own : (o : Option (Node V)) → get a m ≡ o → up (modify a f m) a ≡ up m a
      own none e = ap (λ x. up x a) (modify_missing a f m e)
      own (some v) e = ap pointer (get-modify_own a f v m e) ∙ keeps v ∙ ap pointer (sym e)

  up-orphan : (a : ℕ) (m : Map ℕ (Node V)) → Loosens (up m) (up (modify a orphan m))
  up-orphan a m n = elim (Bool-cases (a == n)) [
    | inr e ↦ inr (ap pointer (get-modify_other a n orphan m e))
    | inl e ↦ rw (← (==_iff a n).0 e) (own (get a m) refl)
  ]
    where
      own :
          (o : Option (Node V))
          → get a m ≡ o
          → (up (modify a orphan m) a ≡ none) ⊎ (up (modify a orphan m) a ≡ up m a)
      own none e = inr (ap (λ x. up x a) (modify_missing a orphan m e))
      own (some v) e = inl (ap pointer (get-modify_own a orphan v m e))

  detach_apart :
      (node b : ℕ) (t : Tree V)
      → parent_of t node ≡ some b
      → (detach node t).nodes ≡ modify b (without node) (modify node orphan t.nodes)
  unfolding detach
  detach_apart node b t e = rw (e, detach) refl

  pub detach_free : (node : ℕ) (t : Tree V) → parent_of t node ≡ none → detach node t ≡ t
  unfolding detach
  detach_free node t e = rw (e, detach) refl

  pub parent_of-detach : (node : ℕ) (t : Tree V) → Loosens (parent_of t) (parent_of (detach node t))
  unfolding parent_of
  parent_of-detach node t n = elim (Option-cases (parent_of t node)) [
    | inl e ↦ inr (ap (λ u. up u.nodes n) (detach_free node t e))
    | inr (b, e) ↦
        let f =
          ap (λ u. up u n) (detach_apart node b t e)
          ∙ up-modify b (without node) (modify node orphan t.nodes) (λ v. refl) n in
        elim (up-orphan node t.nodes n) [ inl g ↦ inl (f ∙ g) | inr g ↦ inr (f ∙ g) ]
  ]

  pub up-remove : (a : ℕ) (m : Map ℕ (Node V)) → Loosens (up m) (up (remove a m))
  up-remove a m n = elim (Bool-cases (a == n)) [
    | inl e ↦ inl (rw (get-remove a n m, e) refl)
    | inr e ↦ inr (rw (get-remove a n m, e) refl)
  ]

  destroy_next :
      (fuel a : ℕ) (stack : List ℕ) (t : Tree V)
      → (s : List ℕ) × (destroy_fuel (suc fuel) (a ∷ stack) t ≡ destroy_fuel fuel s (forgotten a t))
  unfolding destroy_fuel
  destroy_next fuel a stack t = elim (Option-cases (get a t.nodes)) [
    | inl e ↦ (stack, missing e)
    | inr (v, e) ↦ (reverse v.children ++ stack, held v e)
  ]
    where
      missing :
          get a t.nodes ≡ none
          → destroy_fuel (suc fuel) (a ∷ stack) t ≡ destroy_fuel fuel stack (forgotten a t)
      missing e = rw (e, destroy_fuel) refl

      held :
          (v : Node V)
          → get a t.nodes ≡ some v
          → destroy_fuel (suc fuel) (a ∷ stack) t
            ≡ destroy_fuel fuel (reverse v.children ++ stack) (forgotten a t)
      held v e = rw (e, destroy_fuel) refl

  pub parent_of-destroy_fuel :
      (fuel : ℕ) (stack : List ℕ) (t : Tree V)
      → Loosens (parent_of t) (parent_of (destroy_fuel fuel stack t))
  unfolding destroy_fuel parent_of
  parent_of-destroy_fuel zero stack t = λ n. inr refl
  parent_of-destroy_fuel (suc fuel) [] t = λ n. inr refl
  parent_of-destroy_fuel (suc fuel) (a ∷ stack) t =
      let (s, e) = destroy_next fuel a stack t in
      let u : Tree V = forgotten a t in
      rw e (
        Loosens-trans (parent_of t) (parent_of u) (parent_of (destroy_fuel fuel s u))
          (up-remove a t.nodes) (parent_of-destroy_fuel fuel s u))

  pub exists-detach : (node a : ℕ) (t : Tree V) → exists (detach node t) a ≡ exists t a
  unfolding exists
  exists-detach node a t = elim (Option-cases (parent_of t node)) [
    | inl e ↦ ap (λ u. is_some (get a u.nodes)) (detach_free node t e)
    | inr (b, e) ↦
        ap (λ m. is_some (get a m)) (detach_apart node b t e)
        ∙ is_some-modify b a (without node) (modify node orphan t.nodes)
        ∙ is_some-modify node a orphan t.nodes
  ]

  pub up-adopted :
      (parent node i : ℕ) (m : Map ℕ (Node V)) (v : Node V)
      → get node m ≡ some v
      → up (modify node (adopted parent) (modify parent (with_child i node) m)) node ≡ some parent
  up-adopted parent node i m v e =
      let k = modify parent (with_child i node) m in
      let h : is_some (get node k) ≡ true =
        is_some-modify parent node (with_child i node) m ∙ ap is_some e in
      own k (get node k) h refl
    where
      own :
          (k : Map ℕ (Node V)) (o : Option (Node V))
          → is_some o ≡ true
          → get node k ≡ o
          → up (modify node (adopted parent) k) node ≡ some parent
      own k (some w) h g = ap pointer (get-modify_own node (adopted parent) w k g)
      own k none h g = cc h

  pub up-insert :
      (a : ℕ) (v : Node V) (m : Map ℕ (Node V))
      → v.parent ≡ none
      → Loosens (up m) (up (insert a v m))
  up-insert a v m e n = elim (Bool-cases (a == n)) [
    | inl h ↦ inl (rw (get-insert a n v m, h) e)
    | inr h ↦ inr (rw (get-insert a n v m, h) refl)
  ]
