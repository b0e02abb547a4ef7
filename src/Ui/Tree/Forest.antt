-- ===== src/Ui/Tree/Forest.antt =====
-- No operation makes an element an ancestor of itself.
use agent_d.Base.{
  ℕ, suc, ◌≡◌, refl, sym, ap, ◌∙◌, ◌⊎◌, inl, inr, true, false, List, [], ◌∷◌, Option, none, some,
  ◌==◌, ==_iff, Bool-cases, In, is_some,
}
use agent_d.Base.Keys.{nat_key}
use agent_d.Base.Maps.{get, insert, modify, get-modify_other}
use agent_d.Ui.{Json, Op}
use agent_d.Ui.Tree.{
  Node, Tree, pointer, parent_of, is_within, exists, detach, adopted, with_child, destroy_fuel,
  insert_child, empty, parts, places, default_chat, apply_all, apply, set_or_remove, links,
}
use agent_d.Ui.Tree.Within.{Ancestors, IsForest, is_within-IsWithin, IsWithin-of_In}
use agent_d.Ui.Tree.Parents.{
  Loosens, up-modify, parent_of-detach, parent_of-destroy_fuel, exists-detach, up-adopted,
  up-insert,
}

module _ (p q : ℕ → Option ℕ) where
  loosened :
      Loosens p q
      → (n : ℕ) (l : List ℕ) → Ancestors p n l
      → (k : List ℕ) × Ancestors q n k × ((a : ℕ) → In a k → In a l)
  loosened w n [] h = elim (w n) [ inl e ↦ ([], e, λ a i. i) | inr e ↦ ([], e ∙ h, λ a i. i) ]
  loosened w n (m ∷ l) (e, h) = elim (w n) [
    | inl f ↦ ([], f, λ a i. elim i [ ])
    | inr f ↦
        let (k, g, s) = loosened w m l h in
        (m ∷ k, (f ∙ e, g), λ a i. elim i [ inl j ↦ inl j | inr j ↦ inr (s a j) ])
  ]

module _ (r q : ℕ → Option ℕ) (node parent : ℕ) (placed : q node ≡ some parent)
    (others : (n : ℕ) → (node == n) ≡ false → q n ≡ r n) where
  beside : (n : ℕ) (l : List ℕ) → Ancestors r n l → (In node (n ∷ l) → ⊥) → Ancestors q n l
  beside n [] h x = others n (apart n x) ∙ h
    where
      apart : (n : ℕ) → (In node (n ∷ []) → ⊥) → (node == n) ≡ false
      apart n x = elim (Bool-cases (node == n)) [
        | inl e ↦ elim (x (inl ((==_iff node n).0 e))) [ ]
        | inr e ↦ e
      ]
  beside n (m ∷ l) (e, h) x = elim (Bool-cases (node == n)) [
    | inl f ↦ elim (x (inl ((==_iff node n).0 f))) [ ]
    | inr f ↦ (others n f ∙ e, beside m l h (λ i. x (inr i)))
  ]

  grafted :
      (k : List ℕ)
      → Ancestors q parent k
      → (n : ℕ) (l : List ℕ) → Ancestors r n l
      → (z : List ℕ) × Ancestors q n z
  grafted k above n [] h = elim (Bool-cases (node == n)) [
    | inl e ↦ (parent ∷ k, (ap q (sym ((==_iff node n).0 e)) ∙ placed, above))
    | inr e ↦ ([], others n e ∙ h)
  ]
  grafted k above n (m ∷ l) (g, h) = elim (Bool-cases (node == n)) [
    | inl e ↦ (parent ∷ k, (ap q (sym ((==_iff node n).0 e)) ∙ placed, above))
    | inr e ↦ let (z, y) = grafted k above m l h in (m ∷ z, (others n e ∙ g, y))
  ]

module _ {V : Type 0} where
  loosened-IsForest : (t u : Tree V) → Loosens (parent_of t) (parent_of u) → IsForest t → IsForest u
  loosened-IsForest t u w f n =
      let (l, h) = f n in let (k, g, s) = loosened (parent_of t) (parent_of u) w n l h in (k, g)

  grown : (parent node i : ℕ) → Tree V → Tree V
  grown parent node i u = record u {
    nodes = modify node (adopted parent) (modify parent (with_child i node) u.nodes);
  }

  insert_child-cases :
      (parent node i : ℕ) (t : Tree V)
      → (insert_child parent node i t ≡ t)
        ⊎ ((insert_child parent node i t ≡ grown parent node i (detach node t))
            × (exists t node ≡ true)
            × (is_within t parent node ≡ false))
  unfolding insert_child grown
  insert_child-cases parent node i t = elim (Bool-cases (exists t parent)) [
    | inr e ↦ inl (rw e refl)
    | inl e ↦ elim (Bool-cases (exists t node)) [
      | inr f ↦ inl (rw (e, f) refl)
      | inl f ↦ elim (Bool-cases (is_within t parent node)) [
        | inl g ↦ inl (rw (e, f, g) refl)
        | inr g ↦ inr (rw (e, f, g) refl, f, g)
      ]
    ]
  ]

  grown-IsForest :
      (parent node i : ℕ) (t : Tree V)
      → IsForest t
      → exists t node ≡ true
      → is_within t parent node ≡ false
      → IsForest (grown parent node i (detach node t))
  unfolding grown exists parent_of
  grown-IsForest parent node i t f x g n =
      let u = detach node t in
      let p = parent_of t in
      let r = parent_of u in
      let q = parent_of (grown parent node i u) in
      let (l, h) = f parent in
      let (k, h', s) = loosened p r (parent_of-detach node t) parent l h in
      let (z, y) = (loosened-IsForest t u (parent_of-detach node t) f) n in
      let (v, e) = held_of (get node u.nodes) (exists-detach node node t ∙ x) in
      let placed : q node ≡ some parent = up-adopted parent node i u.nodes v e in
      let others : (m : ℕ) → (node == m) ≡ false → q m ≡ r m = λ m b.
        ap pointer
          (get-modify_other node m (adopted parent) (modify parent (with_child i node) u.nodes) b)
        ∙ up-modify parent (with_child i node) u.nodes (λ w. refl) m in
      let apart : In node (parent ∷ k) → ⊥ = λ c. true_false (
        sym (
          (is_within-IsWithin t f parent node).1
            (IsWithin-of_In p parent node l h (widened k l s c)))
        ∙ g) in
      grafted r q node parent placed others k
        (beside r q node parent placed others parent k h' apart) n z y
    where
      held_of : (o : Option (Node V)) → is_some o ≡ true → (v : Node V) × (o ≡ some v)
      held_of (some v) h = (v, refl)
      held_of none h = cc h

      true_false : true ≡ false → ⊥
      true_false h = cc h

      widened :
          (k l : List ℕ) → ((a : ℕ) → In a k → In a l) → In node (parent ∷ k) → In node (parent ∷ l)
      widened k l s (inl b) = inl b
      widened k l s (inr b) = inr (s node b)

  changed :
      (t : Tree V) (a : ℕ) (f : Node V → Node V)
      → ((v : Node V) → (f v).parent ≡ v.parent)
      → IsForest t
      → IsForest (record t { nodes = modify a f t.nodes })
  unfolding parent_of
  changed t a f keeps w =
      loosened-IsForest t (record t { nodes = modify a f t.nodes })
        (λ n. inr (up-modify a f t.nodes keeps n)) w

module _ {V : Type 0} ⦃j : Json V⦄ where
  -- Every operation, applied to a tree in which no element is its own ancestor, gives such a tree.
  pub apply-IsForest : (o : Op V) (t : Tree V) → IsForest t → IsForest (apply o t)
  unfolding apply parent_of
  apply-IsForest (Op.create node kind props style) t w =
      let v : Node V = record {
        kind = kind;
        props = props;
        style = style;
        children = [];
        parent = none;
      } in
      loosened-IsForest t (record t { nodes = insert node v t.nodes })
        (up-insert node v t.nodes refl) w
  apply-IsForest (Op.set node key value) t w =
      changed t node (λ n. record n { props = set_or_remove key value n.props }) (λ v. refl) w
  apply-IsForest (Op.style node key value) t w =
      changed t node (λ n. record n { style = set_or_remove key value n.style }) (λ v. refl) w
  apply-IsForest (Op.insert parent node index) t w = elim (insert_child-cases parent node index t) [
    | inl e ↦ rw e w
    | inr (e, f, g) ↦ rw e (grown-IsForest parent node index t w f g)
  ]
  apply-IsForest (Op.remove node) t w =
      loosened-IsForest t (detach node t) (parent_of-detach node t) w
  apply-IsForest (Op.destroy node) t w =
      let u = detach node t in
      loosened-IsForest u (destroy_fuel (suc (links u.nodes)) (node ∷ []) u)
        (parent_of-destroy_fuel (suc (links u.nodes)) (node ∷ []) u)
        (loosened-IsForest t u (parent_of-detach node t) w)
  apply-IsForest (Op.root node) t w = w
  apply-IsForest (Op.bindings keys) t w = w
  apply-IsForest (Op.entry key decoration) t w = w
  apply-IsForest (Op.screen node screen) t w = w
  apply-IsForest (Op.note text error) t w = w

  apply_all-IsForest : (ops : List (Op V)) (t : Tree V) → IsForest t → IsForest (apply_all ops t)
  apply_all-IsForest [] t w = w
  apply_all-IsForest (o ∷ ops) t w = apply_all-IsForest ops (apply o t) (apply-IsForest o t w)

pub default_chat-IsForest : (V : Type 0) ⦃j : Json V⦄ → IsForest {V = V} default_chat
unfolding default_chat parent_of get
default_chat-IsForest V =
    apply_all-IsForest places (apply_all parts empty)
      (apply_all-IsForest parts empty λ n. ([], refl))
