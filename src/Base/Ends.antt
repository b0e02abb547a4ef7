-- ===== src/Base/Ends.antt =====
-- What stands at the end of a text, and what stands in it: the standard library's `trim_end_matches`, `ends_with` and
-- `contains` against the pieces of a text.
use Prim.Native.Nat.{ℕ}
use mathlib.Core.Path.{◌≡◌, refl, sym, ◌∙◌, ap, subst}
use mathlib.Core.Logic.{◌↔◌, inl, inr}
use mathlib.Core.Bool.{Bool, true, false}
use mathlib.Core.List.{[], ◌∷◌, ◌++◌, reverse, reverse-append, reverse-reverse}
use agent_d.Base.Tests.{◌==◌, ==_iff, Bool-cases, or_iff}
use agent_d.Base.Lists.{In, In-append_cases, is_empty, any_of_In, In-of_any}
use agent_d.Base.Text.{
  Str, starts_with, ends_with, contains, contains_char, trim_start, trim_end, starts_with-append,
  append_of_starts_with,
}

-- All characters of a text satisfy a test, or none does.
abbrev pub Only : (ℕ → Bool) → Str → Type 0
Only p s = (c : ℕ) → In c s → p c ≡ true

abbrev pub None : (ℕ → Bool) → Str → Type 0
None p s = (c : ℕ) → In c s → p c ≡ false

In-reverse : (c : ℕ) (s : Str) → In c (reverse s) → In c s
In-reverse c [] m = m
In-reverse c (x ∷ s) m =
    elim (In-append_cases c (reverse s) (x ∷ []) (subst (In c) (reverse-append (x ∷ []) s) m)) [
      | inl k ↦ inr (In-reverse c s k)
      | inr (inl e) ↦ inl e
      | inr (inr k) ↦ elim k [ ]
    ]

module _ (p : ℕ → Bool) where
  trim_start-split : (s : Str) → (t : Str) × (s ≡ t ++ trim_start p s) × Only p t
  unfolding trim_start
  trim_start-split [] = ([], refl, λ c m. elim m [ ])
  trim_start-split (x ∷ s) = elim (Bool-cases (p x)) [
    | inr e ↦ rw e ([], refl, λ c m. elim m [ ])
    | inl e ↦
        let (t, h, u) = trim_start-split s in
        rw e (x ∷ t, ap (λ z. x ∷ z) h, λ c m. elim m [ inl k ↦ ap p k ∙ e | inr k ↦ u c k ])
  ]

  trim_start-append : (t s : Str) → Only p t → trim_start p (t ++ s) ≡ trim_start p s
  unfolding trim_start
  trim_start-append [] s u = refl
  trim_start-append (x ∷ t) s u = rw (u x (inl refl)) (trim_start-append t s (λ c m. u c (inr m)))

  -- What is trimmed off.
  pub trim_end-split : (s : Str) → (t : Str) × (s ≡ trim_end p s ++ t) × Only p t
  unfolding trim_end
  trim_end-split s =
      let (t, h, u) = trim_start-split (reverse s) in
      (
        reverse t,
        sym (reverse-reverse s) ∙ ap reverse h ∙ reverse-append t (trim_start p (reverse s)),
        λ c m. u c (In-reverse c t m),
      )

  pub trim_end-append : (s t : Str) → Only p t → trim_end p (s ++ t) ≡ trim_end p s
  unfolding trim_end
  trim_end-append s t u =
      ap (λ z. reverse (trim_start p z)) (reverse-append s t)
      ∙ ap reverse (trim_start-append (reverse t) (reverse s) (λ c m. u c (In-reverse c t m)))

  trim_start-None : (s : Str) → None p s → trim_start p s ≡ s
  unfolding trim_start
  trim_start-None [] u = refl
  trim_start-None (x ∷ s) u = rw (u x (inl refl)) refl

  pub trim_end-None : (s : Str) → None p s → trim_end p s ≡ s
  unfolding trim_end
  trim_end-None s u =
      ap reverse (trim_start-None (reverse s) (λ c m. u c (In-reverse c s m))) ∙ reverse-reverse s

  -- A text that ends with a character which stays.
  pub trim_end-last : (s : Str) (c : ℕ) → p c ≡ false → trim_end p (s ++ c ∷ []) ≡ s ++ c ∷ []
  unfolding trim_end trim_start
  trim_end-last s c e =
      ap (λ z. reverse (trim_start p z)) (reverse-append s (c ∷ []))
      ∙ rw e (ap reverse (sym (reverse-append s (c ∷ []))) ∙ reverse-reverse (s ++ c ∷ []))

-- A text with its last character.
pub last_of_ends_with :
    (c : ℕ) (s : Str) → ends_with (c ∷ []) s ≡ true → (t : Str) × (s ≡ t ++ c ∷ [])
unfolding ends_with
last_of_ends_with c s h =
    let (t, e) = append_of_starts_with (c ∷ []) (reverse s) h in
    (reverse t, sym (reverse-reverse s) ∙ ap reverse e ∙ reverse-append (c ∷ []) t)

pub ends_with-last : (c : ℕ) (t : Str) → ends_with (c ∷ []) (t ++ c ∷ []) ≡ true
unfolding ends_with
ends_with-last c t =
    ap (starts_with (c ∷ [])) (reverse-append t (c ∷ [])) ∙ starts_with-append (c ∷ []) (reverse t)

-- A text that ends with one character or more, all of them the same.
pub ends_with-Only :
    (c : ℕ) (s t : Str)
    → Only (λ x. x == c) t
    → is_empty t ≡ false
    → ends_with (c ∷ []) (s ++ t) ≡ true
unfolding ends_with
ends_with-Only c s t u n = by_reverse (reverse t) refl
  where
    by_reverse : (r : Str) → reverse t ≡ r → starts_with (c ∷ []) (reverse (s ++ t)) ≡ true
    by_reverse [] e = cc (n, ap is_empty (sym (reverse-reverse t) ∙ ap reverse e))
    by_reverse (x ∷ r) e =
        let k : x ≡ c = (==_iff x c).0 (u x (In-reverse x t (subst (In x) (sym e) (inl refl)))) in
        ap (starts_with (c ∷ []))
          (reverse-append s t ∙ ap (λ z. z ++ reverse s) (e ∙ ap (λ y. y ∷ r) k))
        ∙ starts_with-append (c ∷ []) (r ++ reverse s)

-- The characters of a text.
pub contains_char_iff : (c : ℕ) (s : Str) → (contains_char c s ≡ true) ↔ In c s
unfolding contains_char
contains_char_iff c s = (
  λ h. let (x, m, e) = In-of_any (λ y. y == c) s h in subst (λ z. In z s) ((==_iff x c).0 e) m,
  λ m. any_of_In (λ y. y == c) s c m ((==_iff c c).1 refl),
)

pieces : (v s : Str) → contains v s ≡ true → (a : Str) × (b : Str) × (s ≡ a ++ (v ++ b))
unfolding contains
pieces v [] h = let (t, e) = append_of_starts_with v [] h in ([], t, e)
pieces v (x ∷ s) h = elim ((or_iff (starts_with v (x ∷ s)) (contains v s)).0 h) [
  | inl k ↦ let (t, e) = append_of_starts_with v (x ∷ s) k in ([], t, e)
  | inr k ↦ let (a, b, e) = pieces v s k in (x ∷ a, b, ap (λ z. x ∷ z) e)
]

contains_of_starts_with : (v s : Str) → starts_with v s ≡ true → contains v s ≡ true
unfolding contains
contains_of_starts_with v [] h = h
contains_of_starts_with v (x ∷ s) h = rw h refl

inside : (v a b : Str) → contains v (a ++ (v ++ b)) ≡ true
unfolding contains
inside v [] b = contains_of_starts_with v (v ++ b) (starts_with-append v b)
inside v (x ∷ a) b =
    (or_iff (starts_with v (x ∷ (a ++ (v ++ b)))) (contains v (a ++ (v ++ b)))).1
      (inr (inside v a b))

-- A text that stands in another.
pub contains_iff :
    (v s : Str) → (contains v s ≡ true) ↔ ((a : Str) × (b : Str) × (s ≡ a ++ (v ++ b)))
contains_iff v s =
    (pieces v s, λ (a, b, e). subst (λ z. contains v z ≡ true) (sym e) (inside v a b))
