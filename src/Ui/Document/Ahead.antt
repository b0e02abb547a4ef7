-- ===== src/Ui/Document/Ahead.antt =====
-- Frames that are drawn ahead of time.
use agent_d.Base.{
  ℕ, ◌≡◌, refl, sym, ap, ◌∙◌, inl, inr, Bool, true, false, List, [], ◌∷◌, ◌++◌, none, some,
  if◌then◌else◌, Option-cases, unwrap_or, reverse,
}
use mathlib.Core.List.{reverse-append}
use agent_d.Base.Text.{Str}
use agent_d.Base.Keys.{nat_key, str_key}
use agent_d.Base.Maps.{get}
use agent_d.Ui.{Json, Op}
use agent_d.Ui.Tree.{Node, Tree, apply, apply_all}
use agent_d.Ui.Tree.Restore.{IsTidy, assign, values_of, assign_missing, assign_back, assign-IsTidy}
use agent_d.Ui.Document.{
  Document, record_op, inverse, undone, capture_begin, capture_end, prop, style, set, set_style,
  is_shown,
}
use agent_d.Ui.Document.Mirror.{apply_all-append}

module _ {V : Type 0} ⦃j : Json V⦄ where
  -- A capture, with properties and styles set in it.
  pub data Drawn (d : Document V) : Document V → Type 0 where
    begun : Drawn d (capture_begin d)
    sets :
        {e : Document V} (node : ℕ) (key : Str) (value : V)
        → Drawn d e
        → Drawn d (set node key value e)
    styles :
        {e : Document V} (node : ℕ) (key : Str) (value : V)
        → Drawn d e
        → Drawn d (set_style node key value e)

  -- What a capture has put into a document.
  abbrev capturing : Document V → Tree V → List (Op V) → List (Op V) → Document V
  capturing d t u l = record d { tree = t; undo = u; capture = some l }

  abbrev IsAhead : Document V → Document V → Type 0
  IsAhead d e =
      (t : Tree V) × (u : List (Op V)) × (l : List (Op V)) × (e ≡ capturing d t u l)
      × (apply_all (reverse u) t ≡ d.tree)
      × (apply_all l d.tree ≡ t)
      × IsTidy t

  inverse_missing :
      (b : Bool) (a : ℕ) (key : Str) (w : V) (t : Tree V)
      → get a t.nodes ≡ none
      → inverse t (assign b a key w) ≡ none
  unfolding inverse
  inverse_missing true a key w t e = rw (e, inverse) refl
  inverse_missing false a key w t e = rw (e, inverse) refl

  inverse_held :
      (b : Bool) (a : ℕ) (key : Str) (w : V) (t : Tree V) (n : Node V)
      → get a t.nodes ≡ some n
      → inverse t (assign b a key w)
        ≡ some (assign b a key (unwrap_or j.null (get key (values_of b n))))
  unfolding inverse
  inverse_held true a key w t n e = rw (e, inverse) refl
  inverse_held false a key w t n e = rw (e, inverse) refl

  record_kept :
      (d : Document V) (t : Tree V) (u l : List (Op V)) (o : Op V)
      → inverse t o ≡ none
      → record_op o (capturing d t u l) ≡ capturing d (apply o t) u (l ++ (o ∷ []))
  unfolding record_op undone
  record_kept d t u l o e = rw (e, undone) refl

  record_undone :
      (d : Document V) (t : Tree V) (u l : List (Op V)) (o b : Op V)
      → inverse t o ≡ some b
      → record_op o (capturing d t u l) ≡ capturing d (apply o t) (u ++ (b ∷ [])) (l ++ (o ∷ []))
  unfolding record_op undone
  record_undone d t u l o b e = rw (e, undone) refl

  record-IsAhead :
      (d e : Document V) (b : Bool) (a : ℕ) (key : Str) (w : V)
      → IsAhead d e
      → IsAhead d (record_op (assign b a key w) e)
  record-IsAhead d e b a key w (t, u, l, f, g, h, s) = elim (Option-cases (get a t.nodes)) [
    | inl n ↦ (
      apply o t,
      u,
      l ++ (o ∷ []),
      ap (record_op o) f ∙ record_kept d t u l o (inverse_missing b a key w t n),
      ap (apply_all (reverse u)) (assign_missing b a key w t n) ∙ g,
      sent,
      assign-IsTidy b a key w t s,
    )
    | inr (v, n) ↦
        let back = assign b a key (unwrap_or j.null (get key (values_of b v))) in
        (
          apply o t,
          u ++ (back ∷ []),
          l ++ (o ∷ []),
          ap (record_op o) f ∙ record_undone d t u l o back (inverse_held b a key w t v n),
          ap (λ r. apply_all r (apply o t)) (reverse-append u (back ∷ []))
              ∙ ap (apply_all (reverse u)) (assign_back b a key w t v n s)
              ∙ g,
          sent,
          assign-IsTidy b a key w t s,
        )
  ]
    where
      o : Op V
      o = assign b a key w

      sent : apply_all (l ++ (o ∷ [])) d.tree ≡ apply o t
      sent = apply_all-append l (o ∷ []) d.tree ∙ ap (apply o) h

  unless-IsAhead :
      (b : Bool) (d e g : Document V) → IsAhead d e → IsAhead d g → IsAhead d (if b then e else g)
  unless-IsAhead true d e g m n = m
  unless-IsAhead false d e g m n = n

  Drawn-IsAhead : (d e : Document V) → d.undo ≡ [] → IsTidy d.tree → Drawn d e → IsAhead d e
  unfolding capture_begin set set_style
  Drawn-IsAhead d e u s begun =
      (d.tree, [], [], ap (λ x. record d { undo = x; capture = some [] }) u, refl, refl, s)
  Drawn-IsAhead d e u s (sets {e = g} node key value h) =
      let m = Drawn-IsAhead d g u s h in
      unless-IsAhead (is_shown (prop g node key) value) d g _ m
        (record-IsAhead d g false node key value m)
  Drawn-IsAhead d e u s (styles {e = g} node key value h) =
      let m = Drawn-IsAhead d g u s h in
      unless-IsAhead (is_shown (style g node key) value) d g _ m
        (record-IsAhead d g true node key value m)

  restored :
      (d : Document V) (x : Tree V)
      → x ≡ d.tree
      → d.undo ≡ []
      → d.capture ≡ none
      → record d { tree = x; undo = []; capture = none } ≡ d
  restored d x e u c =
      ap (λ y. record d { tree = y; undo = []; capture = none }) e
      ∙ ap (λ y. record d { undo = y; capture = none }) (sym u)
      ∙ ap (λ y. record d { capture = y }) (sym c)

  -- Ending a capture in which properties and styles were set gives back the document of its start, and
  -- operations that turn its tree into what was drawn; no `null` is stored in the tree at the start,
  -- each of its keys stands once and in order, and no other capture is going on.
  pub capture_end-capture_begin :
      (d e : Document V)
      → d.undo ≡ []
      → d.capture ≡ none
      → IsTidy d.tree
      → Drawn d e
      → ((capture_end e).1 ≡ d) × (apply_all (capture_end e).0 d.tree ≡ e.tree)
  unfolding capture_end
  capture_end-capture_begin d e u c s h =
      let (t, v, l, f, g, k, z) = Drawn-IsAhead d e u s h in
      rw f (restored d (apply_all (reverse v) t) g u c, k)
