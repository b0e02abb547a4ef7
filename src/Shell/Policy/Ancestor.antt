-- ===== src/Shell/Policy/Ancestor.antt =====
-- The folder that a pattern is confined to holds everything that the pattern covers.
use agent_d.Base.{
  ℕ, ◌≡◌, refl, sym, ap, ◌∙◌, ◌⊎◌, inl, inr, Bool, true, false, [], ◌∷◌, ◌++◌, none, some, is_empty,
  unwrap_or, ◌==◌, if◌then◌else◌, arith, Bool-cases, Option-cases,
}
use mathlib.Core.Option.{some-injective}
use mathlib.Core.List.{append_assoc}
use agent_d.Base.Text.{Str, text, starts_with, split_once, append_of_split_once}
use agent_d.Permissions.Pattern.{folds, match_spec}
use agent_d.Permissions.Pattern.Covers.{
  Covers, everything, itself, folder, below, child, begins, match_spec-Covers,
}
use agent_d.Shell.Policy.{is_separator, before_last, concrete_ancestor}

-- A path is the folder or stands below it; the empty folder stands for none.
pub data IsUnder (a r : Str) : Type 0 where
  no_folder : a ≡ [] → IsUnder a r
  same : r ≡ a → IsUnder a r
  inside : (c : ℕ) (t : Str) → is_separator c ≡ true → r ≡ a ++ c ∷ t → IsUnder a r
  at_root : a ≡ text "/" → starts_with (text "/") r ≡ true → IsUnder a r

-- The text before the first star of a text with a star in it begins what stands before that one.
first_star :
    (q u : Str)
    → (head : Str) × (rest : Str) × (split_once b'*' (q ++ b'*' ∷ u) ≡ some (head, rest))
      × (w : Str) × (q ≡ head ++ w)
unfolding split_once
first_star [] u = ([], u, refl, [], refl)
first_star (x ∷ q) u = elim (Bool-cases (x == b'*')) [
  | inl e ↦ ([], q ++ b'*' ∷ u, rw e refl, x ∷ q, refl)
  | inr e ↦
      let (head, rest, f, w, g) = first_star q u in
      (x ∷ head, rest, rw (e, f) refl, w, ap (λ t. x ∷ t) g)
]

-- What stands before the last separator, in front of it.
before_last-append :
    (p : ℕ → Bool) (s t : Str)
    → before_last p s ≡ some t
    → (c : ℕ) × (w : Str) × (p c ≡ true) × (s ≡ t ++ c ∷ w)
unfolding before_last
before_last-append p [] t e = cc
before_last-append p (x ∷ s) t e = elim (Option-cases (before_last p s)) [
  | inr (u, f) ↦
      let (c, w, h, g) = before_last-append p s u f in
      (c, w, h, ap (λ y. x ∷ y) g ∙ ap (λ y. y ++ c ∷ w) (some-injective _ _ (rw f at e)))
  | inl f ↦ elim (Bool-cases (p x)) [
    | inl h ↦ (x, s, h, ap (λ y. y ++ x ∷ s) (some-injective _ _ (rw (f, h) at e)))
    | inr h ↦ cc (rw (f, h) at e)
  ]
]

before_last_end :
    (p : ℕ → Bool) (r : Str) (c : ℕ) → p c ≡ true → before_last p (r ++ c ∷ []) ≡ some r
unfolding before_last
before_last_end p [] c h = rw h refl
before_last_end p (x ∷ r) c h = rw (before_last_end p r c h) refl

-- A text with one character behind it, cut in two.
cut_end :
    (r head w : Str) (x : ℕ)
    → r ++ x ∷ [] ≡ head ++ w
    → ((v : Str) × (r ≡ head ++ v)) ⊎ (head ≡ r ++ x ∷ [])
cut_end r [] w x e = inl (r, refl)
cut_end [] (y ∷ []) w x e = inr (cc e)
cut_end [] (y ∷ z ∷ head) w x e = cc e
cut_end (a ∷ r) (y ∷ head) w x e = elim (cut_end r head w x (cc e)) [
  | inl (v, f) ↦ inl (v, cc (e, f))
  | inr f ↦ inr (cc (e, f))
]

no_root :
    (head rest : Str)
    → before_last is_separator head ≡ none
    → starts_with (text "/") (head ++ b'*' ∷ rest) ≡ false
unfolding before_last starts_with is_separator
no_root [] rest e = refl
no_root (x ∷ head) rest e = elim (Option-cases (before_last is_separator head)) [
  | inr (t, f) ↦ cc (rw f at e)
  | inl f ↦ let g = rw f at e in ground (arith, g)
]

root_start :
    (c : ℕ) (w t v : Str)
    → starts_with (text "/") ((c ∷ w) ++ t) ≡ true
    → starts_with (text "/") ((c ∷ w) ++ v) ≡ true
unfolding starts_with
root_start c w t v h = h

module _ (h r : Str) (solid : is_empty r ≡ false) where
  ancestor_of :
      (head rest : Str)
      → split_once b'*' h ≡ some (head, rest)
      → concrete_ancestor h ≡ (
          let trimmed = unwrap_or [] (before_last is_separator head) in
          if is_empty trimmed then (if starts_with (text "/") h then text "/" else []) else trimmed)
  unfolding concrete_ancestor
  ancestor_of head rest e = rw (e, concrete_ancestor) refl

  ancestor_none :
      (head rest : Str)
      → split_once b'*' h ≡ some (head, rest)
      → before_last is_separator head ≡ none
      → concrete_ancestor h ≡ []
  ancestor_none head rest e n =
      ancestor_of head rest e
      ∙ rw
          (
            n,
            ap (starts_with (text "/")) ((append_of_split_once b'*' h head rest e).1)
                ∙ no_root head rest n,
          )
          refl

  ancestor_root :
      (head rest : Str)
      → split_once b'*' h ≡ some (head, rest)
      → before_last is_separator head ≡ some []
      → (concrete_ancestor h ≡ [])
        ⊎ ((concrete_ancestor h ≡ text "/") × (starts_with (text "/") h ≡ true))
  ancestor_root head rest e n = elim (Bool-cases (starts_with (text "/") h)) [
    | inl s ↦ inr (ancestor_of head rest e ∙ rw (n, s) refl, s)
    | inr s ↦ inl (ancestor_of head rest e ∙ rw (n, s) refl)
  ]

  ancestor_some :
      (head rest : Str) (x : ℕ) (a : Str)
      → split_once b'*' h ≡ some (head, rest)
      → before_last is_separator head ≡ some (x ∷ a)
      → concrete_ancestor h ≡ x ∷ a
  ancestor_some head rest x a e n = ancestor_of head rest e ∙ rw n refl

  -- Where the text before the star begins the path, the path is under the folder.
  IsUnder-prefix :
      (head rest v : Str)
      → split_once b'*' h ≡ some (head, rest)
      → r ≡ head ++ v
      → IsUnder (concrete_ancestor h) r
  IsUnder-prefix head rest v e f = elim (Option-cases (before_last is_separator head)) [
    | inl n ↦ no_folder (ancestor_none head rest e n)
    | inr (a, n) ↦ by_folder a n
  ]
    where
      by_folder :
          (a : Str) → before_last is_separator head ≡ some a → IsUnder (concrete_ancestor h) r
      by_folder [] n =
          let (c, w, p, g) = before_last-append is_separator head [] n in
          elim (ancestor_root head rest e n) [
            | inl q ↦ no_folder q
            | inr (q, t) ↦
                let whole =
                  (append_of_split_once b'*' h head rest e).1 ∙ ap (λ y. y ++ b'*' ∷ rest) g in
                at_root q (
                  ap (starts_with (text "/")) (f ∙ ap (λ y. y ++ v) g)
                  ∙ root_start c w (b'*' ∷ rest) v (ap (starts_with (text "/")) (sym whole) ∙ t))
          ]
      by_folder (x ∷ a) n =
          let (c, w, p, g) = before_last-append is_separator head (x ∷ a) n in
          inside c (w ++ v) p (
            f
            ∙ ap (λ y. y ++ v) g
            ∙ append_assoc (x ∷ a) (c ∷ w) v
            ∙ ap (λ y. y ++ c ∷ (w ++ v)) (sym (ancestor_some head rest x a e n)))

  -- The same for a pattern that has a star behind what begins the path.
  IsUnder-star : (q u v : Str) → h ≡ q ++ b'*' ∷ u → r ≡ q ++ v → IsUnder (concrete_ancestor h) r
  IsUnder-star q u v e f =
      let (head, rest, s, w, g) = first_star q u in
      IsUnder-prefix head rest (w ++ v) (ap (split_once b'*') e ∙ s)
        (f ∙ ap (λ y. y ++ v) g ∙ append_assoc head w v)

IsUnder-end :
    (h r head rest : Str)
    → is_empty r ≡ false
    → split_once b'*' h ≡ some (head, rest)
    → head ≡ r ++ b'/' ∷ []
    → IsUnder (concrete_ancestor h) r
unfolding is_separator
IsUnder-end h [] head rest solid e g = cc solid
IsUnder-end h (x ∷ a) head rest solid e g = same (
    sym (
      ancestor_some h (x ∷ a) solid head rest x a e
        (ap (before_last is_separator) g ∙ before_last_end is_separator (x ∷ a) b'/' slash)))
  where
    slash : is_separator b'/' ≡ true
    slash = refl

IsUnder-folder :
    (h r : Str) → is_empty r ≡ false → h ≡ r ++ text "/**" → IsUnder (concrete_ancestor h) r
IsUnder-folder h r solid e =
    let q = r ++ b'/' ∷ [] in
    let whole : h ≡ q ++ b'*' ∷ text "*" = e ∙ sym (append_assoc r (b'/' ∷ []) (text "**")) in
    let (head, rest, s, w, g) = first_star q (text "*") in
    let s' = ap (split_once b'*') whole ∙ s in
    elim (cut_end r head w b'/' g) [
      | inl (v, f) ↦ IsUnder-prefix h r solid head rest v s' f
      | inr f ↦ IsUnder-end h r head rest solid s' f
    ]

plain : (h : Str) → split_once b'*' h ≡ none → concrete_ancestor h ≡ h
unfolding concrete_ancestor
plain h n = rw (n, concrete_ancestor) refl

-- Where a pattern and a path are compared as they are written, every path that the pattern covers,
-- other than the empty one, is the pattern's folder or stands below it, unless there is no folder.
pub concrete_ancestor-IsUnder :
    (h r : Str)
    → is_empty r ≡ false
    → folds h r ≡ false
    → match_spec h r ≡ true
    → IsUnder (concrete_ancestor h) r
unfolding concrete_ancestor
concrete_ancestor-IsUnder h r solid f m = covered (rw f at ((match_spec-Covers h r).0 m))
  where
    covered : Covers h r → IsUnder (concrete_ancestor h) r
    covered (everything (inl e)) = IsUnder-star h r solid [] [] r e refl
    covered (everything (inr e)) = IsUnder-star h r solid [] (text "*") r e refl
    covered (itself e) = elim (Option-cases (split_once b'*' h)) [
      | inl n ↦ same (sym e ∙ sym (plain h n))
      | inr ((head, rest), s) ↦
          IsUnder-prefix h r solid head rest (b'*' ∷ rest) s
            (sym e ∙ (append_of_split_once b'*' h head rest s).1)
    ]
    covered (folder p e g) = IsUnder-folder h r solid (e ∙ ap (λ y. y ++ text "/**") (sym g))
    covered (below p t e g) =
        IsUnder-star h r solid (p ++ b'/' ∷ []) (text "*") t
          (e ∙ sym (append_assoc p (b'/' ∷ []) (text "**")))
          (g ∙ sym (append_assoc p (b'/' ∷ []) t))
    covered (child p n e g k) =
        IsUnder-star h r solid (p ++ b'/' ∷ []) [] n
          (e ∙ sym (append_assoc p (b'/' ∷ []) (text "*"))) (g ∙ sym (append_assoc p (b'/' ∷ []) n))
    covered (begins p t e g j k) = IsUnder-star h r solid p [] t e g
