-- ===== src/Permissions/Pattern/Fuel.antt =====
-- The recursion of `match_spec`.
use agent_d.Base.{
  ℕ, suc, ◌≡◌, refl, sym, ◌∙◌, Bool, true, false, ◌||◌, [], ◌∷◌, arith, if◌then◌else◌, some,
  unwrap_or, ap,
}
use agent_d.Base.Text.{Str, text, str_eq, contains_char, replace_char}
use agent_d.Permissions.Pattern.{slashes, match_glob, folds, match_spec_fuel, match_spec}

pub contains-slashes : (s : Str) → contains_char b'\\' (slashes s) ≡ false
unfolding contains_char slashes replace_char
contains-slashes [] = refl
contains-slashes (x ∷ s) = ground (arith, contains-slashes s)

pub folds-slashes : (h r : Str) → folds (slashes h) (slashes r) ≡ false
unfolding folds
folds-slashes h r = rw (contains-slashes h, contains-slashes r)

-- One comparison without the fold.
unfoldable pub match_plain : Str → Str → Bool
match_plain h r =
    if str_eq h (text "*") || str_eq h (text "**")
    then true
    else if str_eq h r
    then true
    else match_glob h r

match_spec_fuel-slashes :
    (n : ℕ) (h r : Str)
    → match_spec_fuel (suc n) (slashes h) (slashes r) ≡ some (match_plain (slashes h) (slashes r))
unfolding match_spec_fuel match_plain
match_spec_fuel-slashes n h r = rw (folds-slashes h r) (ground arith)

-- What two rounds compute.
unfoldable pub match_two : Str → Str → Bool
match_two h r =
    if str_eq h (text "*") || str_eq h (text "**")
    then true
    else if str_eq h r
    then true
    else if folds h r
    then match_plain (slashes h) (slashes r)
    else match_glob h r

pub match_spec_fuel-two :
    (n : ℕ) (h r : Str) → match_spec_fuel (suc (suc n)) h r ≡ some (match_two h r)
unfolding match_spec_fuel match_two
match_spec_fuel-two n h r = rw (match_spec_fuel-slashes n h r) (ground arith)

pub match_spec-two : (h r : Str) → match_spec h r ≡ match_two h r
unfolding match_spec
match_spec-two h r = ap (unwrap_or false) (match_spec_fuel-two 0 h r)

-- Two rounds, or any more, always suffice: the comparison answers, and its answer is that of
-- `match_spec`, so a call within a call never makes a third.
pub match_spec_fuel_enough :
    (n : ℕ) (holder required : Str)
    → match_spec_fuel (suc (suc n)) holder required ≡ some (match_spec holder required)
match_spec_fuel_enough n h r =
    match_spec_fuel-two n h r ∙ ap (λ b. some b) (sym (match_spec-two h r))
