-- ===== src/Ui/Tree/Restore.antt =====
-- A property or a style that is set and then set back.
use agent_d.Base.{
  ◌==◌, ==_iff, ℕ, ◌≡◌, refl, sym, ap, ◌∙◌, inl, inr, Bool, true, false, [], ◌∷◌, Option, none,
  some, Bool-cases, unwrap_or,
}
use mathlib.Core.Option.{some-injective}
use agent_d.Base.Text.{Str, str_eq, str_eq_iff}
use agent_d.Base.Keys.{nat_key, str_key, beq_refl}
use agent_d.Base.Maps.{
  Map, get, insert, remove, modify, Ascends, insert-Ascends, remove-Ascends, get-insert, get-remove,
  Ascends-get, get-modify_own, get-modify_other, modify_missing,
}
use agent_d.Ui.{Json, is_null, Props, Op}
use agent_d.Ui.Tree.{Node, Tree, set_or_remove, apply}

module _ {V : Type 0} ⦃j : Json V⦄ where
  -- Each key once and in order, and no `null`.
  abbrev pub IsTidyProps : Props V → Type 0
  IsTidyProps m = Ascends m × ((key : Str) → get key m ≡ some j.null → ⊥)

  abbrev pub IsTidy : Tree V → Type 0
  IsTidy t =
      (a : ℕ) (n : Node V) → get a t.nodes ≡ some n → IsTidyProps n.props × IsTidyProps n.style

  is_null_null : (v : V) → v ≡ j.null → is_null v ≡ true
  is_null_null v = (j.eq_iff v j.null).1

  set_null :
      (key : Str) (w : V) (m : Props V) → is_null w ≡ true → set_or_remove key w m ≡ remove key m
  unfolding set_or_remove
  set_null key w m e = rw e refl

  set_value :
      (key : Str) (w : V) (m : Props V) → is_null w ≡ false → set_or_remove key w m ≡ insert key w m
  unfolding set_or_remove
  set_value key w m e = rw e refl

  pub set_or_remove-IsTidyProps :
      (key : Str) (w : V) (m : Props V) → IsTidyProps m → IsTidyProps (set_or_remove key w m)
  set_or_remove-IsTidyProps key w m (s, n) = elim (Bool-cases (is_null w)) [
    | inl e ↦ rw (set_null key w m e) (
      remove-Ascends key m s,
      λ k h. elim (Bool-cases (str_eq key k)) [
        | inl f ↦ cc (rw (get-remove key k m, f) at h)
        | inr f ↦ n k (rw (get-remove key k m, f) at h)
      ],
    )
    | inr e ↦ rw (set_value key w m e) (
      insert-Ascends key w m s,
      λ k h. elim (Bool-cases (str_eq key k)) [
        | inl f ↦
            let g : w ≡ j.null = some-injective _ _ (rw (get-insert key k w m, f) at h) in
            cc (sym e ∙ (j.eq_iff w j.null).1 g)
        | inr f ↦ n k (rw (get-insert key k w m, f) at h)
      ],
    )
  ]

  set_other :
      (key k : Str) (w : V) (m : Props V)
      → str_eq key k ≡ false
      → get k (set_or_remove key w m) ≡ get k m
  set_other key k w m f = elim (Bool-cases (is_null w)) [
    | inl e ↦ rw (set_null key w m e, get-remove key k m, f) refl
    | inr e ↦ rw (set_value key w m e, get-insert key k w m, f) refl
  ]

  set_own :
      (key : Str) (o : Option V) (m : Props V)
      → (o ≡ some j.null → ⊥)
      → get key (set_or_remove key (unwrap_or j.null o) m) ≡ o
  set_own key none m n =
      rw (set_null key j.null m (is_null_null j.null refl), get-remove key key m, beq_refl key) refl
  set_own key (some v) m n = elim (Bool-cases (is_null v)) [
    | inl e ↦ elim (n (ap some ((j.eq_iff v j.null).0 e))) [ ]
    | inr e ↦ rw (set_value key v m e, get-insert key key v m, beq_refl key) refl
  ]

  pub set_back :
      (key : Str) (w : V) (m : Props V)
      → IsTidyProps m
      → set_or_remove key (unwrap_or j.null (get key m)) (set_or_remove key w m) ≡ m
  set_back key w m t =
      let u = set_or_remove key w m in
      let z = unwrap_or j.null (get key m) in
      let tu = set_or_remove-IsTidyProps key w m t in
      Ascends-get (set_or_remove key z u) m (set_or_remove-IsTidyProps key z u tu).0 t.0 λ k.
        elim (Bool-cases (str_eq key k)) [
          | inl e ↦ rw (← (str_eq_iff key k).0 e) (set_own key (get key m) u (t.1 key))
          | inr e ↦ set_other key k z u e ∙ set_other key k w m e
        ]

module _ {V : Type 0} where
  modify_twice :
      (a : ℕ) (f g : V → V) (v : V) (m : Map ℕ V)
      → get a m ≡ some v
      → g (f v) ≡ v
      → modify a g (modify a f m) ≡ m
  unfolding get modify
  modify_twice a f g v [] e h = refl
  modify_twice a f g v ((b, w) ∷ m) e h = elim (Bool-cases (b == a)) [
    | inl k ↦
        let s : w ≡ v = some-injective _ _ (rw k at e) in rw (k, k) (ap (λ y. (b, y) ∷ m) (rw s h))
    | inr k ↦ rw (k, k) (ap (λ l. (b, w) ∷ l) (modify_twice a f g v m (rw k at e) h))
  ]

module _ {V : Type 0} ⦃j : Json V⦄ where
  -- The operation that sets a property or a style.
  abbrev pub assign : Bool → ℕ → Str → V → Op V
  assign true node key value = Op.style node key value
  assign false node key value = Op.set node key value

  abbrev pub changed_node : Bool → Str → V → Node V → Node V
  changed_node true key value n = record n { style = set_or_remove key value n.style }
  changed_node false key value n = record n { props = set_or_remove key value n.props }

  abbrev pub values_of : Bool → Node V → Props V
  values_of true n = n.style
  values_of false n = n.props

  changed_node_back :
      (b : Bool) (key : Str) (w : V) (n : Node V)
      → IsTidyProps n.props × IsTidyProps n.style
      → changed_node b key (unwrap_or j.null (get key (values_of b n))) (changed_node b key w n) ≡ n
  changed_node_back true key w n (p, s) = rw (set_back key w n.style s) refl
  changed_node_back false key w n (p, s) = rw (set_back key w n.props p) refl

  changed_node_tidy :
      (b : Bool) (key : Str) (w : V) (n : Node V)
      → IsTidyProps n.props × IsTidyProps n.style
      → IsTidyProps (changed_node b key w n).props × IsTidyProps (changed_node b key w n).style
  changed_node_tidy true key w n (p, s) = (p, set_or_remove-IsTidyProps key w n.style s)
  changed_node_tidy false key w n (p, s) = (set_or_remove-IsTidyProps key w n.props p, s)

  apply-assign :
      (b : Bool) (a : ℕ) (key : Str) (w : V) (t : Tree V)
      → apply (assign b a key w) t ≡ record t { nodes = modify a (changed_node b key w) t.nodes }
  unfolding apply
  apply-assign true a key w t = refl
  apply-assign false a key w t = refl

  pub assign_missing :
      (b : Bool) (a : ℕ) (key : Str) (w : V) (t : Tree V)
      → get a t.nodes ≡ none
      → apply (assign b a key w) t ≡ t
  assign_missing b a key w t e =
      apply-assign b a key w t
      ∙ ap (λ m. record t { nodes = m }) (modify_missing a (changed_node b key w) t.nodes e)

  -- What was there before, set again.
  pub assign_back :
      (b : Bool) (a : ℕ) (key : Str) (w : V) (t : Tree V) (n : Node V)
      → get a t.nodes ≡ some n
      → IsTidy t
      → apply
          (assign b a key (unwrap_or j.null (get key (values_of b n))))
          (apply (assign b a key w) t)
        ≡ t
  assign_back b a key w t n e h =
      let z = unwrap_or j.null (get key (values_of b n)) in
      ap (apply (assign b a key z)) (apply-assign b a key w t)
      ∙ apply-assign b a key z (record t { nodes = modify a (changed_node b key w) t.nodes })
      ∙ ap (λ m. record t { nodes = m })
          (modify_twice a (changed_node b key w) (changed_node b key z) n t.nodes e
            (changed_node_back b key w n (h a n e)))

  pub assign-IsTidy :
      (b : Bool) (a : ℕ) (key : Str) (w : V) (t : Tree V)
      → IsTidy t
      → IsTidy (apply (assign b a key w) t)
  assign-IsTidy b a key w t h = rw (apply-assign b a key w t) λ c n e. elim (Bool-cases (a == c)) [
    | inr k ↦ h c n (sym (get-modify_other a c (changed_node b key w) t.nodes k) ∙ e)
    | inl k ↦ own c n e ((==_iff a c).0 k) (get c t.nodes) refl
  ]
    where
      own :
          (c : ℕ) (n : Node V)
          → get c (modify a (changed_node b key w) t.nodes) ≡ some n
          → a ≡ c
          → (o : Option (Node V)) → get c t.nodes ≡ o
          → IsTidyProps n.props × IsTidyProps n.style
      own c n e k none f = cc (
        sym (
              ap (get c)
                (modify_missing a (changed_node b key w) t.nodes (ap (λ x. get x t.nodes) k ∙ f)))
            ∙ e,
        f,
      )
      own c n e k (some v) f =
          let g : changed_node b key w v ≡ n = some-injective _ _ (
            sym (get-modify_own a (changed_node b key w) v t.nodes (ap (λ x. get x t.nodes) k ∙ f))
            ∙ ap (λ x. get x (modify a (changed_node b key w) t.nodes)) k
            ∙ e) in
          rw (← g) (changed_node_tidy b key w v (h c v f))
