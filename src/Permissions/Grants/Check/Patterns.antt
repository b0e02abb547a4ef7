-- ===== src/Permissions/Grants/Check/Patterns.antt =====
-- The patterns that `check_grants` takes, by where their stars stand, beside `unsupported_pattern`.
use agent_d.Base.{
  ℕ, ◌≡◌, refl, sym, ap, subst, ◌∙◌, ◌↔◌, inl, inr, true, false, ◌&&◌, [], ◌∷◌, ◌++◌, Bool, Option,
  none, some, In, if◌then◌else◌, is_empty, ◌==◌, ==_iff, Bool-cases, Option-cases, and_iff,
}
use agent_d.Base.Text.{Str, text, str_eq, str_eq_iff, ends_with, contains_char, trim_end}
use agent_d.Base.Ends.{
  Only, None, trim_end-split, trim_end-append, trim_end-None, last_of_ends_with, ends_with-Only,
  contains_char_iff,
}
use agent_d.Permissions.Slug.{Permission, parts}
use agent_d.Permissions.Grants.Check.{star_inside, address_prefix, Unsupported, unsupported_pattern}

abbrev pub is_star : ℕ → Bool
is_star c = c == b'*'

-- A text without stars, as many stars as there are, and nothing after them; before a star, a `net`
-- specifier has no `:`.
abbrev pub HasStarsLast : Str → Str → Type 0
HasStarsLast domain spec =
    (body : Str) × (stars : Str) × (spec ≡ body ++ stars)
    × ((c : ℕ) → In c stars → c ≡ b'*')
    × (In b'*' body → ⊥)
    × (domain ≡ text "net" → In b':' body → stars ≡ [])

-- A pattern that is read: no star in the domain, and stars only at the end of the specifier.
abbrev pub IsSupported : Permission → Type 0
IsSupported q =
    (In b'*' (parts q).0 → ⊥)
    × ((spec : Str) → (parts q).1 ≡ some spec → HasStarsLast (parts q).0 spec)

not-In : (c : ℕ) (s : Str) → contains_char c s ≡ false → In c s → ⊥
not-In c s e m = cc (e, (contains_char_iff c s).1 m)

contains_none : (c : ℕ) (s : Str) → (In c s → ⊥) → contains_char c s ≡ false
contains_none c s n = elim (Bool-cases (contains_char c s)) [
  | inl e ↦ elim (n ((contains_char_iff c s).0 e)) [ ]
  | inr e ↦ e
]

not_star : (s : Str) → (In b'*' s → ⊥) → None is_star s
not_star s n c m = elim (Bool-cases (is_star c)) [
  | inl e ↦ elim (n (subst (λ z. In z s) ((==_iff c b'*').0 e) m)) [ ]
  | inr e ↦ e
]

Only-star : (s : Str) → ((c : ℕ) → In c s → c ≡ b'*') → Only is_star s
Only-star s u c m = (==_iff c b'*').1 (u c m)

-- The test on a specifier.
abbrev test : Str → Str → Option Unsupported
test domain spec =
    let body = trim_end is_star spec in
    if contains_char b'*' body
    then some star_inside
    else if str_eq domain (text "net") && (ends_with (text "*") spec && contains_char b':' body)
    then some address_prefix
    else none

empty_of : (s : Str) → is_empty s ≡ true → s ≡ []
empty_of [] h = refl
empty_of (x ∷ s) h = cc h

-- A specifier that passes the test.
HasStarsLast-of_test : (domain spec : Str) → test domain spec ≡ none → HasStarsLast domain spec
HasStarsLast-of_test domain spec h =
    elim (Bool-cases (contains_char b'*' (trim_end is_star spec))) [
      | inl e ↦ cc (rw e at h)
      | inr e ↦
          let (stars, s, u) = trim_end-split is_star spec in
          (
            trim_end is_star spec,
            stars,
            s,
            λ c m. (==_iff c b'*').0 (u c m),
            not-In b'*' (trim_end is_star spec) e,
            λ n m. elim (Bool-cases (is_empty stars)) [
              | inl k ↦ empty_of stars k
              | inr k ↦
                  let a = (str_eq_iff domain (text "net")).1 n in
                  let b : ends_with (text "*") spec ≡ true =
                    subst (λ z. ends_with (text "*") z ≡ true) (sym s)
                      (ends_with-Only b'*' (trim_end is_star spec) stars u k) in
                  let c = (contains_char_iff b':' (trim_end is_star spec)).1 m in
                  cc (rw (e, a, b, c) at h)
            ],
          )
    ]

-- A specifier with its stars behind the rest passes the test.
test_of_HasStarsLast : (domain spec : Str) → HasStarsLast domain spec → test domain spec ≡ none
test_of_HasStarsLast domain spec (body, stars, s, u, n, a) =
    rw (trimmed, contains_none b'*' body n) passes
  where
    trimmed : trim_end is_star spec ≡ body
    trimmed =
        ap (trim_end is_star) s
        ∙ trim_end-append is_star body stars (Only-star stars u)
        ∙ trim_end-None is_star body (not_star body n)

    append-nil_of : (b : Str) → b ++ [] ≡ b
    append-nil_of [] = refl
    append-nil_of (x ∷ b) = ap (λ z. x ∷ z) (append-nil_of b)

    in_last : (b : Str) (c : ℕ) → In c (b ++ c ∷ [])
    in_last [] c = inl refl
    in_last (x ∷ b) c = inr (in_last b c)

    unmarked : stars ≡ [] → ends_with (text "*") spec ≡ true → ⊥
    unmarked e k =
        let (t, f) = last_of_ends_with b'*' spec k in
        let g : body ≡ t ++ b'*' ∷ [] =
          sym (append-nil_of body) ∙ ap (λ z. body ++ z) (sym e) ∙ sym s ∙ f in
        n (subst (In b'*') (sym g) (in_last t b'*'))

    unmet :
        (str_eq domain (text "net") && (ends_with (text "*") spec && contains_char b':' body))
          ≡ true
        → ⊥
    unmet h =
        let (d, h') = (and_iff (str_eq domain (text "net")) _).0 h in
        let (k, m) = (and_iff (ends_with (text "*") spec) (contains_char b':' body)).0 h' in
        unmarked (a ((str_eq_iff domain (text "net")).0 d) ((contains_char_iff b':' body).0 m)) k

    passes :
        (if str_eq domain (text "net") && (ends_with (text "*") spec && contains_char b':' body)
          then some address_prefix
          else none)
        ≡ none
    passes =
        elim (Bool-cases
          (str_eq domain (text "net") && (ends_with (text "*") spec && contains_char b':' body))) [
            | inl h ↦ elim (unmet h) [ ]
            | inr h ↦ rw h refl
          ]

pub unsupported_pattern-none : (q : Permission) → (unsupported_pattern q ≡ none) ↔ IsSupported q
unfolding unsupported_pattern
unsupported_pattern-none q = elim (Bool-cases (contains_char b'*' (parts q).0)) [
  | inl e ↦ (λ h. cc (rw e at h), λ (n, u). elim (n ((contains_char_iff b'*' (parts q).0).0 e)) [ ])
  | inr e ↦ (
    λ h. (
      not-In b'*' (parts q).0 e,
      λ spec k. HasStarsLast-of_test (parts q).0 spec (rw (e, k) at h),
    ),
    λ (n, u). elim (Option-cases (parts q).1) [
      | inl k ↦ rw (e, k) refl
      | inr (spec, k) ↦ rw (e, k) (test_of_HasStarsLast (parts q).0 spec (u spec k))
    ],
  )
]
