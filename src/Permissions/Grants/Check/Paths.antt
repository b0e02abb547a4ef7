-- ===== src/Permissions/Grants/Check/Paths.antt =====
-- The paths that `check_grants` takes, by how they begin and end, beside the code's tests.
use agent_d.Base.{
  ℕ, ◌≡◌, refl, sym, ap, subst, ◌∙◌, ◌↔◌, ◌⊎◌, inl, inr, Bool, true, false, not, ◌||◌, [], ◌∷◌,
  ◌++◌, is_empty, ◌==◌, ==_iff, Bool-cases, or_iff, arith,
}
use agent_d.Base.Text.{Str, text, str_eq, str_eq_iff, starts_with, ends_with, trim_end}
use agent_d.Base.Ends.{
  Only, trim_end-split, trim_end-append, trim_end-None, trim_end-last, last_of_ends_with,
  ends_with-last,
}
use agent_d.Permissions.Grants.Check.{is_absolute_path, is_root, is_file_domain}

empty_of : (s : Str) → is_empty s ≡ true → s ≡ []
empty_of [] h = refl
empty_of (x ∷ s) h = cc h

-- A path with no `~` before it, and a separator first or what the platform calls absolute.
abbrev pub IsAbsolute : (Str → Bool) → Str → Type 0
IsAbsolute absolute path =
    ((t : Str) → path ≡ b'~' ∷ t → ⊥)
    × ((absolute path ≡ true) ⊎ ((t : Str) × ((path ≡ b'/' ∷ t) ⊎ (path ≡ b'\\' ∷ t))))

pub is_absolute_path-IsAbsolute :
    (absolute : Str → Bool) (path : Str)
    → (is_absolute_path absolute path ≡ true) ↔ IsAbsolute absolute path
unfolding is_absolute_path starts_with
is_absolute_path-IsAbsolute absolute [] = (
  λ h. (λ t e. cc e, inl (ground arith)),
  λ (n, o). elim o [ inl e ↦ rw e refl | inr (t, inl e) ↦ cc e | inr (t, inr e) ↦ cc e ],
)
is_absolute_path-IsAbsolute absolute (c ∷ path) = (to, from)
  where
    first_of : (d : ℕ) (t : Str) → c ∷ path ≡ d ∷ t → c ≡ d
    first_of d t e = cc e

    to : is_absolute_path absolute (c ∷ path) ≡ true → IsAbsolute absolute (c ∷ path)
    to h = (
      λ t e. let k = (==_iff b'~' c).1 (sym (first_of b'~' t e)) in cc (rw k at h),
      elim (Bool-cases (absolute (c ∷ path))) [
        | inl e ↦ inl e
        | inr e ↦ elim (Bool-cases (b'/' == c)) [
          | inl f ↦ inr (path, inl (ap (λ z. z ∷ path) (sym ((==_iff b'/' c).0 f))))
          | inr f ↦
              inr (path, inr (ap (λ z. z ∷ path) (sym ((==_iff b'\\' c).0 (ground (arith, e, f))))))
        ]
      ],
    )

    from : IsAbsolute absolute (c ∷ path) → is_absolute_path absolute (c ∷ path) ≡ true
    from (n, o) =
        let k : (b'~' == c) ≡ false = elim (Bool-cases (b'~' == c)) [
          | inl e ↦ elim (n path (ap (λ z. z ∷ path) (sym ((==_iff b'~' c).0 e)))) [ ]
          | inr e ↦ e
        ] in
        elim o [
          | inl e ↦ rw (k, e) refl
          | inr (t, inl e) ↦ let m = first_of b'/' t e in ground (arith, k, m)
          | inr (t, inr e) ↦ let m = first_of b'\\' t e in ground (arith, k, m)
        ]

-- The characters that a pattern of a folder may end with.
abbrev pub ends_folder : ℕ → Bool
ends_folder c = c == b'*' || (c == b'/' || c == b'\\')

-- The root of a disk: separators alone, or a path without parent, or one that ends with `:`, before
-- separators and stars.
abbrev pub IsRoot : (Str → Bool) → Str → Type 0
IsRoot has_parent path =
    Only ends_folder path
    ⊎ ((has_parent path ≡ false)
        ⊎ ((a : Str) × (t : Str) × (path ≡ a ++ b':' ∷ t) × Only ends_folder t))

snoc_append : (a : Str) (c : ℕ) (t : Str) → (a ++ c ∷ []) ++ t ≡ a ++ c ∷ t
snoc_append [] c t = refl
snoc_append (x ∷ a) c t = ap (λ z. x ∷ z) (snoc_append a c t)

pub is_root-IsRoot :
    (has_parent : Str → Bool) (path : Str)
    → (is_root has_parent path ≡ true) ↔ IsRoot has_parent path
unfolding is_root
is_root-IsRoot has_parent path = (to, from)
  where
    trimmed : Str
    trimmed = trim_end ends_folder path

    alone :
        (t : Str)
        → path ≡ trimmed ++ t
        → Only ends_folder t
        → is_empty trimmed ≡ true
        → Only ends_folder path
    alone t s u e = subst (Only ends_folder) (sym (s ∙ ap (λ z. z ++ t) (empty_of trimmed e))) u

    drive :
        (t : Str)
        → path ≡ trimmed ++ t
        → ends_with (text ":") trimmed ≡ true
        → (a : Str) × (path ≡ a ++ b':' ∷ t)
    drive t s e =
        let (a, f) = last_of_ends_with b':' trimmed e in
        (a, s ∙ ap (λ z. z ++ t) f ∙ snoc_append a b':' t)

    to : is_root has_parent path ≡ true → IsRoot has_parent path
    to h =
        let (t, s, u) = trim_end-split ends_folder path in
        elim ((or_iff (is_empty trimmed) _).0 h) [
          | inl e ↦ inl (alone t s u e)
          | inr k ↦ elim ((or_iff (not (has_parent path)) _).0 k) [
            | inl e ↦ inr (inl (ground arith))
            | inr e ↦ let (a, f) = drive t s e in inr (inr (a, t, f, u))
          ]
        ]

    from : IsRoot has_parent path → is_root has_parent path ≡ true
    from (inl u) =
        let e : trimmed ≡ [] =
          trim_end-append ends_folder [] path u
          ∙ trim_end-None ends_folder [] (λ c m. elim m [ ]) in
        (or_iff (is_empty trimmed) _).1 (inl (ap is_empty e))
    from (inr (inl e)) =
        (or_iff (is_empty trimmed) _).1
          (inr ((or_iff (not (has_parent path)) _).1 (inl (ap not e))))
    from (inr (inr (a, t, s, u))) =
        let e : trimmed ≡ a ++ b':' ∷ [] =
          ap (trim_end ends_folder) (s ∙ sym (snoc_append a b':' t))
          ∙ trim_end-append ends_folder (a ++ b':' ∷ []) t u
          ∙ trim_end-last ends_folder a b':' refl in
        let f : ends_with (text ":") trimmed ≡ true =
          subst (λ z. ends_with (text ":") z ≡ true) (sym e) (ends_with-last b':' a) in
        (or_iff (is_empty trimmed) _).1 (inr ((or_iff (not (has_parent path)) _).1 (inr f)))

-- A permission to read or to write files.
abbrev pub IsFileDomain : Str → Type 0
IsFileDomain domain = (domain ≡ text "fs.read") ⊎ (domain ≡ text "fs.write")

pub is_file_domain-IsFileDomain :
    (domain : Str) → (is_file_domain domain ≡ true) ↔ IsFileDomain domain
unfolding is_file_domain
is_file_domain-IsFileDomain domain = (
  λ h. elim ((or_iff (str_eq domain (text "fs.read")) _).0 h) [
    | inl e ↦ inl ((str_eq_iff domain _).0 e)
    | inr e ↦ inr ((str_eq_iff domain _).0 e)
  ],
  λ o. (or_iff (str_eq domain (text "fs.read")) _).1 (elim o as (λ z. _) [
    | inl e ↦ inl ((str_eq_iff domain _).1 e)
    | inr e ↦ inr ((str_eq_iff domain _).1 e)
  ]),
)
