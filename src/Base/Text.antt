-- ===== src/Base/Text.antt =====
-- Texts as lists of code points, with the parts of Rust's `str` that the program uses.
use Prim.Native.Nat.{ℕ, ◌+◌}
use Prim.Native.Char.{code}
use Prim.Native.String.{String}
use mathlib.Core.Path.{◌≡◌, refl, sym, ap, ◌∙◌}
use mathlib.Core.Logic.{◌↔◌, ◌⊎◌, inl, inr}
use mathlib.Core.Bool.{Bool, true, false, ◌&&◌, ◌||◌}
use mathlib.Core.Option
use mathlib.Core.Option.{Option, none, some}
use mathlib.Core.List.{List, [], ◌∷◌, ◌++◌, map, reverse, reverse-append, reverse-reverse}
use native.Mathlib.Omega.{arith}
use agent_d.Base.Tests.{◌==◌, leb, if◌then◌else◌, Bool-cases}
use agent_d.Base.Lists.{any, all}

abbrev pub Str : Type 0
Str = List ℕ

-- A literal.
abbrev pub text : String → Str
text String.[] = []
text (String.◌∷◌ c s) = code c ∷ text s

unfoldable pub str_eq : Str → Str → Bool
str_eq [] [] = true
str_eq [] (y ∷ t) = false
str_eq (x ∷ s) [] = false
str_eq (x ∷ s) (y ∷ t) = x == y && str_eq s t

pub eq_of_str_eq : (s t : Str) → str_eq s t ≡ true → s ≡ t
unfolding str_eq
eq_of_str_eq [] [] h = refl
eq_of_str_eq [] (y ∷ t) h = ground arith
eq_of_str_eq (x ∷ s) [] h = ground arith
eq_of_str_eq (x ∷ s) (y ∷ t) h = ground (arith, eq_of_str_eq s t)

pub str_eq_refl : (s : Str) → str_eq s s ≡ true
unfolding str_eq
str_eq_refl [] = refl
str_eq_refl (x ∷ s) = ground (arith, str_eq_refl s)

pub str_eq_iff : (s t : Str) → (str_eq s t ≡ true) ↔ (s ≡ t)
str_eq_iff s t = (eq_of_str_eq s t, λ e. rw e (str_eq_refl t))

unfoldable pub starts_with : Str → Str → Bool
starts_with [] s = true
starts_with (x ∷ p) [] = false
starts_with (x ∷ p) (y ∷ s) = x == y && starts_with p s

-- `str::contains`.
unfoldable pub contains : Str → Str → Bool
contains v [] = starts_with v []
contains v (c ∷ s) = starts_with v (c ∷ s) || contains v s

-- `s.strip_prefix(p)`, the prefix first.
unfoldable pub strip_prefix : Str → Str → Option Str
strip_prefix [] s = some s
strip_prefix (x ∷ p) [] = none
strip_prefix (x ∷ p) (y ∷ s) = if x == y then strip_prefix p s else none

unfoldable pub strip_suffix : Str → Str → Option Str
unfolding strip_prefix
strip_suffix p s = Option.map reverse (strip_prefix (reverse p) (reverse s))

unfoldable pub ends_with : Str → Str → Bool
unfolding starts_with
ends_with p s = starts_with (reverse p) (reverse s)

-- `s.split_once(c)`.
unfoldable pub split_once : ℕ → Str → Option (Str × Str)
split_once c [] = none
split_once c (x ∷ s) =
    if x == c then some ([], s) else Option.map (λ p. (x ∷ p.0, p.1)) (split_once c s)

unfoldable pub contains_char : ℕ → Str → Bool
contains_char c s = any (λ x. x == c) s

-- `s.trim_start_matches(p)` and `s.trim_end_matches(p)`.
unfoldable pub trim_start : (ℕ → Bool) → Str → Str
trim_start p [] = []
trim_start p (x ∷ s) = if p x then trim_start p s else x ∷ s

unfoldable pub trim_end : (ℕ → Bool) → Str → Str
unfolding trim_start
trim_end p s = reverse (trim_start p (reverse s))

-- `s.replace(a, b)` for two characters.
unfoldable pub replace_char : ℕ → ℕ → Str → Str
replace_char a b s = map (λ x. if x == a then b else x) s

-- `s.split(p)`: the pieces between the separators, in order, never none.
unfoldable pub split_from : (ℕ → Bool) → Str → Str → List Str
split_from p cur [] = reverse cur ∷ []
split_from p cur (x ∷ s) =
    let cut = reverse cur ∷ split_from p [] s in
    let more = split_from p (x ∷ cur) s in if p x then cut else more

unfoldable pub split : (ℕ → Bool) → Str → List Str
unfolding split_from
split p s = split_from p [] s

unfoldable pub to_ascii_lowercase : Str → Str
to_ascii_lowercase s = map (λ c. if leb b'A' c && leb c b'Z' then c + 32 else c) s

unfoldable pub is_ascii : Str → Bool
is_ascii s = all (λ c. leb c 127) s

pub starts_with-strip_prefix :
    (p s : Str)
    → ((starts_with p s ≡ true) × ((t : Str) × (strip_prefix p s ≡ some t) × (s ≡ p ++ t)))
      ⊎ ((starts_with p s ≡ false) × (strip_prefix p s ≡ none))
unfolding starts_with strip_prefix
starts_with-strip_prefix [] s = inl (refl, (s, refl, refl))
starts_with-strip_prefix (x ∷ p) [] = inr (refl, refl)
starts_with-strip_prefix (x ∷ p) (y ∷ s) = elim (starts_with-strip_prefix p s) [
  | inl (a, (t, b, c)) ↦ elim (Bool-cases (x == y)) [
    | inl e ↦ inl (ground arith, (t, ground arith, ground arith))
    | inr e ↦ inr (ground arith, ground arith)
  ]
  | inr (a, b) ↦ inr (ground arith, ground arith)
]

pub strip_prefix-append : (p t : Str) → strip_prefix p (p ++ t) ≡ some t
unfolding strip_prefix
strip_prefix-append [] t = refl
strip_prefix-append (x ∷ p) t = ground (arith, strip_prefix-append p t)

pub append_of_strip_prefix : (p s t : Str) → strip_prefix p s ≡ some t → s ≡ p ++ t
unfolding strip_prefix
append_of_strip_prefix [] s t h = ground arith
append_of_strip_prefix (x ∷ p) [] t h = ground arith
append_of_strip_prefix (x ∷ p) (y ∷ s) t h = ground (arith, append_of_strip_prefix p s t)

pub starts_with-append : (p t : Str) → starts_with p (p ++ t) ≡ true
unfolding starts_with
starts_with-append [] t = refl
starts_with-append (x ∷ p) t = ground (arith, starts_with-append p t)

pub append_of_starts_with : (p s : Str) → starts_with p s ≡ true → (t : Str) × (s ≡ p ++ t)
append_of_starts_with p s h = elim (starts_with-strip_prefix p s) [
  | inl (a, (t, b, c)) ↦ (t, c)
  | inr (a, b) ↦ ground arith
]

pub append_of_strip_suffix : (p s t : Str) → strip_suffix p s ≡ some t → s ≡ t ++ p
unfolding strip_suffix
append_of_strip_suffix p s t h =
    let (u, e, same) = (Option.map-eq-some_iff _ _).0 h in
    sym (reverse-reverse s)
    ∙ ap reverse (append_of_strip_prefix (reverse p) (reverse s) u e)
    ∙ reverse-append (reverse p) u
    ∙ ap (λ q. reverse u ++ q) (reverse-reverse p)
    ∙ ap (λ q. q ++ p) same

pub strip_suffix-append : (p t : Str) → strip_suffix p (t ++ p) ≡ some t
unfolding strip_suffix
strip_suffix-append p t =
    rw (reverse-append t p, strip_prefix-append (reverse p) (reverse t), reverse-reverse t)

pub split_once-append :
    (c : ℕ) (d s : Str) → contains_char c d ≡ false → split_once c (d ++ c ∷ s) ≡ some (d, s)
unfolding split_once contains_char
split_once-append c [] s h = ground arith
split_once-append c (x ∷ d) s h = ground (arith, split_once-append c d s)

pub append_of_split_once :
    (c : ℕ) (t d s : Str)
    → split_once c t ≡ some (d, s)
    → (contains_char c d ≡ false) × (t ≡ d ++ c ∷ s)
unfolding split_once contains_char
append_of_split_once c [] d s h = ground arith
append_of_split_once c (x ∷ t) d s h = elim (Bool-cases (x == c)) [
  | inl e ↦ (ground arith, ground arith)
  | inr e ↦
      let (q, found, same) = (Option.map-eq-some_iff _ _).0 (rw e at h) in
      let (free, whole) = append_of_split_once c t q.0 q.1 found in
      (ground (arith, free), ground (arith, whole))
]
