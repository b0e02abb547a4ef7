-- ===== src/Permissions/Grants/Check/Accepted.antt =====
-- What a grants file that is accepted has.
use agent_d.Base.{
  ◌≡◌, refl, sym, ap, ◌∙◌, ◌↔◌, inl, inr, Bool, true, not, ◌&&◌, List, [], ◌∷◌, ◌++◌, Option, none,
  some, In, or_else, if◌then◌else◌, Bool-cases, Option-cases,
}
use mathlib.Core.Option
use agent_d.Base.Text.{Str, text, contains}
use agent_d.Base.Ends.{contains_iff}
use agent_d.Permissions.Slug.{Permission, PermissionSet, parts}
use agent_d.Permissions.Grants.{GrantsFile, expand_home}
use agent_d.Permissions.Grants.Check.{
  Section, never_matches, denies_relative, first, unsupported_pattern, sections, check_section,
  check_cwd, is_absolute_path, is_root, check_folder, is_file_domain, check_denied_path,
  check_grants,
}
use agent_d.Permissions.Grants.Check.Patterns.{IsSupported, unsupported_pattern-none}
use agent_d.Permissions.Grants.Check.Tables.{Listed, Listed-of_sections, sections-of_Listed}
use agent_d.Permissions.Grants.Check.Paths.{
  IsAbsolute, is_absolute_path-IsAbsolute, IsRoot, is_root-IsRoot, IsFileDomain,
  is_file_domain-IsFileDomain,
}

or_else-none : {A : Type 0} (a b : Option A) → (or_else a b ≡ none) ↔ ((a ≡ none) × (b ≡ none))
or_else-none none b = (λ e. (refl, e), λ (e, f). f)
or_else-none (some a) b = (λ e. cc, λ (e, f). cc)

first-none :
    {A B : Type 0} (f : A → Option B) (l : List A)
    → (first f l ≡ none) ↔ ((a : A) → In a l → f a ≡ none)
unfolding first
first-none f [] = (λ e a m. elim m [ ], λ h. refl)
first-none f (x ∷ l) =
    let (to, from) = or_else-none (f x) (first f l) in
    let (p, q) = first-none f l in
    (
      λ e a m. elim m [ inl k ↦ ap f k ∙ (to e).0 | inr k ↦ p (to e).1 a k ],
      λ h. from (h x (inl refl), q (λ a m. h a (inr m))),
    )

map-none : {A B : Type 0} (f : A → B) (o : Option A) → (Option.map f o ≡ none) ↔ (o ≡ none)
map-none f none = (λ e. refl, λ e. refl)
map-none f (some a) = (λ e. cc, λ e. cc)

check_section-none :
    (name : Section) (set : PermissionSet)
    → (check_section (name, set) ≡ none) ↔ ((q : Permission) → In q set → IsSupported q)
unfolding check_section
check_section-none name set =
    let (p, q) = first-none (λ q. Option.map (never_matches name q) (unsupported_pattern q)) set in
    (
      λ e r m.
          (unsupported_pattern-none r).0
            ((map-none (never_matches name r) (unsupported_pattern r)).0 (p e r m)),
      λ h. q (λ r m.
          (map-none (never_matches name r) (unsupported_pattern r)).1
            ((unsupported_pattern-none r).1 (h r m))),
    )

-- A permission that depends on the folder of a session.
abbrev pub NamesCwd : Permission → Type 0
NamesCwd q = (a : Str) × (b : Str) × (q.slug ≡ a ++ (text "{cwd}" ++ b))

check_cwd-none : (q : Permission) → (check_cwd q ≡ none) ↔ (¬ NamesCwd q)
unfolding check_cwd
check_cwd-none q = elim (Bool-cases (contains (text "{cwd}") q.slug)) [
  | inl e ↦ (λ h. cc (rw e at h), λ n. elim (n ((contains_iff (text "{cwd}") q.slug).0 e)) [ ])
  | inr e ↦ (λ h c. cc (e, (contains_iff (text "{cwd}") q.slug).1 c), λ n. rw e refl)
]

check_denied_path-none :
    (absolute : Str → Bool) (q : Permission)
    → (check_denied_path absolute q ≡ none) ↔ (
        (path : Str)
        → (parts q).1 ≡ some path
        → IsFileDomain (parts q).0
        → IsAbsolute absolute path)
unfolding check_denied_path
check_denied_path-none absolute q = (
  λ h path e f.
      (is_absolute_path-IsAbsolute absolute path).0
        (to h path e ((is_file_domain-IsFileDomain (parts q).0).1 f)),
  λ h. from (λ path e f.
      (is_absolute_path-IsAbsolute absolute path).1
        (h path e ((is_file_domain-IsFileDomain (parts q).0).0 f))),
)
  where
    at :
        (path : Str)
        → (parts q).1 ≡ some path
        → check_denied_path absolute q ≡ (
            if is_file_domain (parts q).0 && not (is_absolute_path absolute path)
            then some (denies_relative q)
            else none)
    at path e = rw (e, check_denied_path) refl

    to :
        check_denied_path absolute q ≡ none
        → (path : Str) → (parts q).1 ≡ some path
        → is_file_domain (parts q).0 ≡ true
        → is_absolute_path absolute path ≡ true
    to h path e f = elim (Bool-cases (is_absolute_path absolute path)) [
      | inl a ↦ a
      | inr a ↦ cc (rw (f, a) at (sym (at path e) ∙ h))
    ]

    from :
        ((path : Str)
          → (parts q).1 ≡ some path
          → is_file_domain (parts q).0 ≡ true
          → is_absolute_path absolute path ≡ true)
        → check_denied_path absolute q ≡ none
    from h = elim (Option-cases (parts q).1) [
      | inl e ↦ rw (e, check_denied_path) refl
      | inr (path, e) ↦ elim (Bool-cases (is_file_domain (parts q).0)) [
        | inl f ↦ at path e ∙ rw (f, h path e f) refl
        | inr f ↦ at path e ∙ rw f refl
      ]
    ]

module _ (absolute has_parent : Str → Bool) (home : Option Str) (join : Str → Str → Str) where
  check_folder-none :
      (entry : Str)
      → (check_folder absolute has_parent home join entry ≡ none) ↔ (
          IsAbsolute absolute (expand_home home join entry)
          × (¬ IsRoot has_parent (expand_home home join entry)))
  unfolding check_folder
  check_folder-none entry =
      let path = expand_home home join entry in
      let (p, p') = is_absolute_path-IsAbsolute absolute path in
      let (q, q') = is_root-IsRoot has_parent path in
      elim (Bool-cases (is_absolute_path absolute path)) [
        | inr a ↦ (λ h. cc (rw a at h), λ (f, g). cc (a, p' f))
        | inl a ↦ elim (Bool-cases (is_root has_parent path)) [
          | inl r ↦ (λ h. cc (rw (a, r) at h), λ (f, g). elim (g (q r)) [ ])
          | inr r ↦ (λ h. (p a, λ k. cc (r, q' k)), λ h. rw (a, r) refl)
        ]
      ]

  -- A grants file is accepted exactly when each permission that a tool, a runner, an interface, a
  -- service or the denials list has no star in its domain and stars only at the end of its
  -- specifier, with no `:` before them in one of `net`; no denial names `{cwd}`; each trusted folder,
  -- the home folder put in for its `~`, is an absolute path and no root of a disk; and the path of
  -- each denied `fs.read` or `fs.write` is absolute.
  pub check_grants-none :
      (g : GrantsFile)
      → (check_grants absolute has_parent home join g ≡ none) ↔ (
          ((q : Permission) → Listed g q → IsSupported q)
          × ((q : Permission) → In q g.denial.permissions → ¬ NamesCwd q)
          × ((entry : Str)
              → In entry g.folders.trusted
              → IsAbsolute absolute (expand_home home join entry)
                × (¬ IsRoot has_parent (expand_home home join entry)))
          × ((q : Permission) (path : Str)
              → In q g.denial.permissions
              → (parts q).1 ≡ some path
              → IsFileDomain (parts q).0
              → IsAbsolute absolute path))
  unfolding check_grants
  check_grants-none g =
      let a = first-none check_section (sections g) in
      let b = first-none check_cwd g.denial.permissions in
      let c = first-none (check_folder absolute has_parent home join) g.folders.trusted in
      let d = first-none (check_denied_path absolute) g.denial.permissions in
      (
        λ h.
            let (p, h') = (or_else-none _ _).0 h in
            let (q, h'') = (or_else-none _ _).0 h' in
            let (r, t) = (or_else-none _ _).0 h'' in
            (
              λ u l.
                  let (name, set, m, i) = sections-of_Listed g u l in
                  (check_section-none name set).0 (a.0 p (name, set) m) u i,
              λ u m. (check_cwd-none u).0 (b.0 q u m),
              λ e m. (check_folder-none e).0 (c.0 r e m),
              λ u path m. (check_denied_path-none absolute u).0 (d.0 t u m) path,
            ),
        λ (p, q, r, t). (or_else-none _ _).1 (
          a.1 (λ (name, set) m.
              (check_section-none name set).1 (λ u i. p u (Listed-of_sections g name set u m i))),
          (or_else-none _ _).1 (
            b.1 (λ u m. (check_cwd-none u).1 (q u m)),
            (or_else-none _ _).1 (
              c.1 (λ e m. (check_folder-none e).1 (r e m)),
              d.1 (λ u m. (check_denied_path-none absolute u).1 (λ path. t u path m)),
            ),
          ),
        ),
      )
