-- ===== src/Permissions/Slug/Laws.antt =====
-- When a permission is covered: by itself, and by a denial of a folder above it.
use mathlib.Core.List.{map-append, append-nil}
use agent_d.Base.{
  ℕ, ◌≡◌, refl, ap, ◌⊎◌, inl, inr, Bool, true, false, ◌++◌, Option, none, some, arith, Bool-cases,
  Option-cases, In, any_of_In, if◌then◌else◌, ◌==◌, ◌||◌,
}
use agent_d.Base.Text.{
  Str, text, str_eq, eq_of_str_eq, str_eq_refl, starts_with, ends_with, split_once, contains_char,
  trim_end, split_once-append, append_of_split_once, replace_char,
}
use agent_d.Permissions.Host.{Platform}
use agent_d.Permissions.Pattern.{normal_path, match_spec, folds, slashes}
use agent_d.Permissions.Pattern.Covers.{Covers, itself, folder, below, match_spec-Covers}
use agent_d.Permissions.Slug.{
  Permission, Denial, parts, is_fs, of_slug, covers, covers_with_case, covers_spec, denies_below,
  denies_permission,
}

pub match_spec_self : (s : Str) → match_spec s s ≡ true
match_spec_self s = (match_spec-Covers s s).1 (itself refl)

-- The permission is in its stored form: reading its slug again gives it back.
abbrev pub IsStored : Platform → Permission → Type 0
IsStored p r = of_slug p r.slug ≡ r

-- A file permission whose path has no `.` and no `..` component.
abbrev pub IsReachable : Permission → Type 0
IsReachable r = is_fs (parts r).0 ≡ true → (s : Str) → (parts r).1 ≡ some s → normal_path s ≡ true

covers_spec_self :
    (p : Platform) (ignore : Bool) (d : Str) (o : Option Str)
    → (is_fs d ≡ true → (s : Str) → o ≡ some s → normal_path s ≡ true)
    → covers_spec p ignore d o o ≡ true
unfolding covers_spec
covers_spec_self p ignore d none h = refl
covers_spec_self p ignore d (some s) h = elim (Bool-cases (is_fs d)) [
  | inr e ↦ rw e (match_spec_self s)
  | inl e ↦
      rw (e, h e s refl) (ground (arith, match_spec_self s, match_spec_self (p.to_lowercase s)))
]

-- A stored permission whose path, if it is a file's, does not climb is covered by itself when it is
-- read again from its slug: approving it once is enough.
pub covers_itself :
    (p : Platform) (r : Permission)
    → IsStored p r
    → IsReachable r
    → covers p (of_slug p r.slug) r ≡ true
unfolding covers covers_with_case
covers_itself p r stored reach =
    rw (stored, str_eq_refl (parts r).0)
      (covers_spec_self p p.ignore_case (parts r).0 (parts r).1 reach)

fs-ne-net : (d : Str) → is_fs d ≡ true → str_eq d (text "net") ≡ false
unfolding is_fs starts_with
fs-ne-net d h = elim (Bool-cases (str_eq d (text "net"))) [
  | inr e ↦ e
  | inl e ↦ cc (rw (eq_of_str_eq d _ e) at h)
]

parts-some :
    (h : Permission) (d s : Str)
    → (parts h).0 ≡ d
    → (parts h).1 ≡ some s
    → contains_char b':' d ≡ false
unfolding parts
parts-some h d s e f = elim (Option-cases (split_once b':' h.slug)) [
  | inl n ↦ cc (rw (n, parts) at f)
  | inr (q, n) ↦ rw (← e, n, parts) ((append_of_split_once b':' h.slug q.0 q.1 n).0)
]

-- The parts of a file permission written from its domain and a path.
parts_of_fs :
    (p : Platform) (d s : Str)
    → is_fs d ≡ true
    → contains_char b':' d ≡ false
    → parts (of_slug p (d ++ (text ":" ++ s))) ≡ (d, some s)
unfolding of_slug parts
parts_of_fs p d s fs free =
    rw (split_once-append b':' d s free, of_slug, fs-ne-net d fs)
      (rw (split_once-append b':' d s free, parts))

-- What follows a folder's path in that of something below it: nothing, or a separator and more.
abbrev pub IsTail : Str → Type 0
IsTail tail = (tail ≡ text "") ⊎ ((rest : Str) × (tail ≡ text "/" ++ rest))

Covers-below : (t tail : Str) → IsTail tail → Covers (t ++ text "/**") (t ++ tail)
Covers-below t tail (inl e) = folder t refl (rw e (append-nil t))
Covers-below t tail (inr (rest, e)) = below t rest refl (ap (λ q. t ++ q) e)

slashes-append : (s t : Str) → slashes (s ++ t) ≡ slashes s ++ slashes t
unfolding slashes replace_char
slashes-append s t = map-append _ s t

slashes-IsTail : (tail : Str) → IsTail tail → IsTail (slashes tail)
unfolding slashes replace_char
slashes-IsTail tail (inl e) = inl (rw e)
slashes-IsTail tail (inr (rest, e)) = inr (slashes rest, rw e)

slashes-glob : slashes (text "/**") ≡ text "/**"
unfolding slashes replace_char
slashes-glob = refl

match_below : (t tail : Str) → IsTail tail → match_spec (t ++ text "/**") (t ++ tail) ≡ true
match_below t tail h =
    (match_spec-Covers _ _).1 (elim (Bool-cases (folds (t ++ text "/**") (t ++ tail))) [
      | inr e ↦ rw e (Covers-below t tail h)
      | inl e ↦
          rw (e, slashes-append t (text "/**"), slashes-append t tail, slashes-glob)
            (Covers-below (slashes t) (slashes tail) (slashes-IsTail tail h))
    ])

abbrev pub separators : ℕ → Bool
separators c = c == b'/' || c == b'\\'

module _ (p : Platform) (h r : Permission) (d spec tail : Str) (tells_case : p.ignore_case ≡ false)
    (held : parts h ≡ (d, some spec)) (fs : is_fs d ≡ true)
    (no_glob : ends_with (text "*") spec ≡ false)
    (required : parts r ≡ (d, some (trim_end separators spec ++ tail))) (under : IsTail tail)
    (normal : normal_path (trim_end separators spec ++ tail) ≡ true) where
  denies_below_folder : denies_below p h r ≡ true
  unfolding denies_below covers covers_with_case covers_spec
  denies_below_folder =
      rw (ap (λ q. q.1) held, denies_below, ap (λ q. q.0) held, fs, no_glob)
        (rw
          (parts_of_fs p d (trim_end separators spec ++ text "/**") fs
            (parts-some h d spec (ap (λ q. q.0) held) (ap (λ q. q.1) held)))
          (rw (required, str_eq_refl d, fs, normal, tells_case)
            (match_below (trim_end separators spec) tail under)))

  -- Where file names tell letter case apart, denying a folder, however many separators it is
  -- written with at its end, denies the folder and everything below it whose path does not climb.
  pub denies_folder :
      (denial : Denial) → In h denial.permissions → denies_permission p denial r ≡ true
  unfolding denies_permission
  denies_folder denial m =
      any_of_In (λ q. if covers p q r then true else denies_below p q r) denial.permissions h m
        (rw denies_below_folder (ground arith))
