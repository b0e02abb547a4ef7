-- ===== src/Executor/Redaction.antt =====
-- crates/executor/src/runs.rs: `redact_value` and `redact_str`, which put a name in place of each
-- secret a run has read. A JSON value is `serde_json`'s, whose objects are sorted by key; numbers,
-- truth values and null stand in one case, since none of them is looked into.
pub mod Hides
use agent_d.Base.{
  ℕ, zero, suc, ◌+◌, ◌-◌, ◌*◌, ◌/◌, ◌%◌, ◌≡◌, Bool, true, false, not, ◌&&◌, ◌||◌, List, [], ◌∷◌,
  ◌++◌, Option, none, some, length, take, if◌then◌else◌, ltb,
}
use agent_d.Base.Text.{Str, text, starts_with, contains}
use agent_d.Base.Keys.{str_key}
use agent_d.Base.Maps.{Map, insert}

-- `str::replace` of a text that is not empty, from the left; the first argument counts the
-- characters that an occurrence still covers.
unfoldable pub replace_after : ℕ → Str → Str → Str → Str
replace_after n v r [] = []
replace_after (suc n) v r (c ∷ s) = replace_after n v r s
replace_after zero v r (c ∷ s) =
    if starts_with v (c ∷ s)
    then r ++ replace_after (length v - 1) v r s
    else c ∷ replace_after zero v r s

abbrev pub replace : Str → Str → Str → Str
replace v r s = replace_after 0 v r s

abbrev pub max_detail_string : ℕ
max_detail_string = 2000

abbrev pub max_detail_items : ℕ
max_detail_items = 64

abbrev pub placeholder : Str → Str
placeholder name = text "<secret " ++ (name ++ text ">")

unfoldable pub replace_secrets : List (Str × Str) → Str → Str
replace_secrets [] out = out
replace_secrets ((name, value) ∷ l) out =
    replace_secrets l (if contains value out then replace value (placeholder name) out else out)

unfoldable pub redact_str : Str → List (Str × Str) → Bool → Str
redact_str s secrets capped =
    let out = replace_secrets secrets s in
    if capped && ltb max_detail_string (length out)
    then take max_detail_string out ++ text "..."
    else out

-- The decimal digits of a number, of which `n` are asked for at most.
unfoldable pub digits : ℕ → ℕ → Str
digits zero n = []
digits (suc k) n = if ltb n 10 then (48 + n) ∷ [] else digits k (n / 10) ++ ((48 + n % 10) ∷ [])

mutual
  pub data Value (A : Type 0) : Type 0 where
    scalar : A → Value A
    string : Str → Value A
    array : Values A → Value A
    object : Entries A → Value A

  pub data Values (A : Type 0) : Type 0 where
    end : Values A
    item : Value A → Values A → Values A

  pub data Entries (A : Type 0) : Type 0 where
    done : Entries A
    entry : Str → Value A → Entries A → Entries A

module _ {A : Type 0} where
  abbrev pub count : Values A → ℕ
  count end = 0
  count (item x l) = 1 + count l

  abbrev pub push : Value A → Values A → Values A
  push x end = item x end
  push x (item y l) = item y (push x l)

  -- `Map::insert` into an object.
  unfoldable pub put : Str → Value A → Entries A → Entries A
  put k x done = entry k x done
  put k x (entry j y l) =
      if str_key.beq j k
      then entry k x l
      else if str_key.lt k j
      then entry k x (entry j y l)
      else entry j y (put k x l)

abbrev pub more : ℕ → Str
more n = text "... " ++ (digits 20 n ++ text " more")

abbrev pub limit : Bool → ℕ
limit capped = if capped then max_detail_items else 18446744073709551615

module _ {A : Type 0} (secrets : List (Str × Str)) (capped : Bool) where
  unfoldable mutual
    pub redact_value : Value A → Value A
    redact_value (scalar a) = scalar a
    redact_value (string s) = string (redact_str s secrets capped)
    redact_value (array l) =
        let out = redact_values (limit capped) l in
        if ltb (limit capped) (count l)
        then array (push (string (more (count l - limit capped))) out)
        else array out
    redact_value (object l) = object (redact_entries (limit capped) done l)

    -- The first `n` items.
    pub redact_values : ℕ → Values A → Values A
    redact_values n end = end
    redact_values zero (item x l) = end
    redact_values (suc n) (item x l) = item (redact_value x) (redact_values n l)

    -- The first `n` entries, put one after another into `out`.
    pub redact_entries : ℕ → Entries A → Entries A → Entries A
    redact_entries n out done = out
    redact_entries zero out (entry k x l) = out
    redact_entries (suc n) out (entry k x l) =
        redact_entries n (put (redact_str k secrets capped) (redact_value x) out) l
