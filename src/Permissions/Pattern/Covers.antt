-- ===== src/Permissions/Pattern/Covers.antt =====
-- What the glob forms of a held specifier mean, as a relation on texts.
use agent_d.Base.{
  ◌≡◌, sym, ap, ◌∙◌, ◌↔◌, ◌⊎◌, inl, inr, Bool, true, false, not, ◌||◌, ◌++◌, none, arith,
  Bool-cases, Option-cases, or_iff, not_iff, if◌then◌else◌, is_some_and,
}
use mathlib.Core.List.{reverse-append}
use agent_d.Base.Text.{
  Str, text, str_eq, str_eq_iff, str_eq_refl, starts_with, strip_prefix, strip_suffix,
  contains_char, replace_char, strip_prefix-append, append_of_strip_prefix, starts_with-append,
  append_of_starts_with, append_of_strip_suffix, strip_suffix-append,
}
use agent_d.Permissions.Pattern.{match_glob, folds, slashes, match_spec}
use agent_d.Permissions.Pattern.Fuel.{match_plain, match_two, match_spec-two}

abbrev pub EndsWith : Str → Str → Type 0
EndsWith p s = (q : Str) × (s ≡ q ++ p)

-- A pattern covers a text: everything, itself, a folder and all below it, the direct children of a
-- folder, or all that begin alike.
pub data Covers (h r : Str) : Type 0 where
  everything : (h ≡ text "*") ⊎ (h ≡ text "**") → Covers h r
  itself : h ≡ r → Covers h r
  folder : (p : Str) → h ≡ p ++ text "/**" → r ≡ p → Covers h r
  below : (p t : Str) → h ≡ p ++ text "/**" → r ≡ p ++ (text "/" ++ t) → Covers h r
  child :
      (p n : Str)
      → h ≡ p ++ text "/*"
      → r ≡ p ++ (text "/" ++ n)
      → contains_char b'/' n ≡ false
      → Covers h r
  begins :
      (p t : Str)
      → h ≡ p ++ text "*"
      → r ≡ p ++ t
      → ¬ EndsWith (text "/**") h
      → ¬ EndsWith (text "/*") h
      → Covers h r

suffix_none_of : (p s : Str) → ¬ EndsWith p s → strip_suffix p s ≡ none
suffix_none_of p s h = elim (Option-cases (strip_suffix p s)) [
  | inl e ↦ e
  | inr (t, e) ↦ absurd (h (t, append_of_strip_suffix p s t e))
]

ends_of_suffix_none : (p s : Str) → strip_suffix p s ≡ none → ¬ EndsWith p s
ends_of_suffix_none p s e (q, same) = cc (e, strip_suffix-append p q, same)

-- The three forms are told apart by how they end.
strip_suffix-child : (p : Str) → strip_suffix (text "/**") (p ++ text "/*") ≡ none
unfolding strip_suffix strip_prefix
strip_suffix-child p = rw (reverse-append p (text "/*"))

-- A tail behind a folder, read by `starts_with` or by `strip_prefix`.
strip_then :
    (p r : Str) (f : Str → Bool)
    → is_some_and f (strip_prefix p r) ≡ true
    → (t : Str) × (r ≡ p ++ t) × (f t ≡ true)
strip_then p r f e = elim (Option-cases (strip_prefix p r)) [
  | inl n ↦ cc (ap (is_some_and f) n)
  | inr (t, s) ↦ (t, append_of_strip_prefix p r t s, sym (ap (is_some_and f) s) ∙ e)
]

tail_sound :
    (h r p : Str)
    → h ≡ p ++ text "/**"
    → (str_eq r p || is_some_and (λ tail. starts_with (text "/") tail) (strip_prefix p r)) ≡ true
    → Covers h r
tail_sound h r p form e = elim ((or_iff _ _).0 e) [
  | inl same ↦ folder p form ((str_eq_iff r p).0 same)
  | inr more ↦
      let (t, split, s) = strip_then p r _ more in
      let (u, tail) = append_of_starts_with (text "/") t s in
      below p u form (split ∙ ap (λ q. p ++ q) tail)
]

child_sound :
    (h r p : Str)
    → h ≡ p ++ text "/*"
    → is_some_and
        (λ tail. is_some_and (λ name. not (contains_char b'/' name)) (strip_prefix (text "/") tail))
        (strip_prefix p r)
      ≡ true
    → Covers h r
child_sound h r p form e =
    let (t, split, s) = strip_then p r _ e in
    let (n, tail, plain) = strip_then (text "/") t _ s in
    child p n form (split ∙ ap (λ q. p ++ q) tail) ((not_iff _).0 plain)

glob_sound : (h r : Str) → match_glob h r ≡ true → Covers h r
unfolding match_glob
glob_sound h r e = elim (Option-cases (strip_suffix (text "/**") h)) [
  | inr (p, a) ↦ tail_sound h r p (append_of_strip_suffix _ h p a) (rw (a, match_glob) at e)
  | inl a ↦ elim (Option-cases (strip_suffix (text "/*") h)) [
    | inr (p, b) ↦ child_sound h r p (append_of_strip_suffix _ h p b) (rw (a, b, match_glob) at e)
    | inl b ↦ elim (Option-cases (strip_suffix (text "*") h)) [
      | inr (p, c) ↦
          let (t, split) = append_of_starts_with p r (rw (a, b, c, match_glob) at e) in
          begins p t (append_of_strip_suffix _ h p c) split (ends_of_suffix_none _ h a)
            (ends_of_suffix_none _ h b)
      | inl c ↦ cc (rw (a, b, c, match_glob) at e)
    ]
  ]
]

star_cases :
    (h : Str)
    → (str_eq h (text "*") || str_eq h (text "**")) ≡ true
    → (h ≡ text "*") ⊎ (h ≡ text "**")
star_cases h e = elim ((or_iff _ _).0 e) [
  | inl s ↦ inl ((str_eq_iff h _).0 s)
  | inr s ↦ inr ((str_eq_iff h _).0 s)
]

plain_sound : (h r : Str) → match_plain h r ≡ true → Covers h r
unfolding match_plain
plain_sound h r e = elim (Bool-cases (str_eq h (text "*") || str_eq h (text "**"))) [
  | inl star ↦ everything (star_cases h star)
  | inr other ↦ elim (Bool-cases (str_eq h r)) [
    | inl same ↦ itself ((str_eq_iff h r).0 same)
    | inr ne ↦ glob_sound h r (rw (other, ne) at e)
  ]
]

-- It is enough that the globs cover, or one of the tests before them.
plain_of_glob : (h r : Str) → match_glob h r ≡ true → match_plain h r ≡ true
unfolding match_plain
plain_of_glob h r e = ground arith

match_glob-folder :
    (p r : Str)
    → match_glob (p ++ text "/**") r
      ≡ (str_eq r p || is_some_and (λ tail. starts_with (text "/") tail) (strip_prefix p r))
unfolding match_glob
match_glob-folder p r = rw (strip_suffix-append (text "/**") p, match_glob)

match_glob-child :
    (p r : Str)
    → match_glob (p ++ text "/*") r
      ≡ is_some_and
          (λ tail.
            is_some_and (λ name. not (contains_char b'/' name)) (strip_prefix (text "/") tail))
          (strip_prefix p r)
unfolding match_glob
match_glob-child p r = rw (strip_suffix-child p, strip_suffix-append (text "/*") p, match_glob)

match_glob-begins :
    (p r : Str)
    → ¬ EndsWith (text "/**") (p ++ text "*")
    → ¬ EndsWith (text "/*") (p ++ text "*")
    → match_glob (p ++ text "*") r ≡ starts_with p r
unfolding match_glob
match_glob-begins p r a b =
    rw (suffix_none_of _ _ a, suffix_none_of _ _ b, strip_suffix-append (text "*") p, match_glob)

plain_complete : (h r : Str) → Covers h r → match_plain h r ≡ true
plain_complete h r (everything (inl e)) = unfold match_plain in rw (e, str_eq_refl (text "*"))
plain_complete h r (everything (inr e)) =
    unfold match_plain in rw (e, str_eq_refl (text "**")) (ground arith)
plain_complete h r (itself e) = unfold match_plain in rw (e, str_eq_refl r) (ground arith)
plain_complete h r (folder p e f) =
    plain_of_glob h r (rw (e, f, match_glob-folder p p, str_eq_refl p))
plain_complete h r (below p t e f) = plain_of_glob h r (
    rw (e, f, match_glob-folder p (p ++ (text "/" ++ t)), strip_prefix-append p (text "/" ++ t))
      (rw (starts_with-append (text "/") t) (ground arith)))
plain_complete h r (child p n e f g) = plain_of_glob h r (
    rw (e, f, match_glob-child p (p ++ (text "/" ++ n)), strip_prefix-append p (text "/" ++ n))
      (rw (strip_prefix-append (text "/") n, g)))
plain_complete h r (begins p t e f a b) =
    plain_of_glob h r
      (rw (e, f, match_glob-begins p (p ++ t) (rw e at a) (rw e at b)) (starts_with-append p t))

-- The two texts as they are compared: with `/` for both separators where either is a Windows path
-- and a backslash stands in one.
abbrev pub compared : Str → Str → Str → Str
compared h r s = if folds h r then slashes s else s

-- The tests before the fold are not lost by it.
slashes-star :
    (h : Str) → (h ≡ text "*") ⊎ (h ≡ text "**") → (slashes h ≡ text "*") ⊎ (slashes h ≡ text "**")
unfolding slashes replace_char
slashes-star h (inl e) = inl (rw e)
slashes-star h (inr e) = inr (rw e)

two-folded : (h r : Str) → folds h r ≡ true → match_two h r ≡ match_plain (slashes h) (slashes r)
unfolding match_two
two-folded h r f = elim (Bool-cases (str_eq h (text "*") || str_eq h (text "**"))) [
  | inl star ↦ rw star (sym (plain_complete _ _ (everything (slashes-star h (star_cases h star)))))
  | inr other ↦ elim (Bool-cases (str_eq h r)) [
    | inl same ↦
        rw (other, same) (sym (plain_complete _ _ (itself (ap slashes ((str_eq_iff h r).0 same)))))
    | inr ne ↦ rw (other, ne, f)
  ]
]

two-same : (h r : Str) → folds h r ≡ false → match_two h r ≡ match_plain h r
unfolding match_two match_plain
two-same h r f = rw f

two-compared : (h r : Str) → match_two h r ≡ match_plain (compared h r h) (compared h r r)
two-compared h r = elim (Bool-cases (folds h r)) [
  | inl f ↦ rw f (two-folded h r f)
  | inr f ↦ rw f (two-same h r f)
]

both : (h r : Str) → match_spec h r ≡ match_plain (compared h r h) (compared h r r)
both h r = match_spec-two h r ∙ two-compared h r

pub match_spec-Covers :
    (holder required : Str)
    → (match_spec holder required ≡ true)
      ↔ (Covers (compared holder required holder) (compared holder required required))
match_spec-Covers h r =
    (λ e. plain_sound _ _ (sym (both h r) ∙ e), λ c. both h r ∙ plain_complete _ _ c)
