-- ===== src/Executor/Runs.antt =====
-- crates/executor/src/runs.rs: what the executor remembers about each run in flight. A list of
-- secrets that two runs share is one entry of a store, which both records name. `Drop` of a
-- `RunGuard` is `finish`.
pub mod Allows
pub mod Sharing
use agent_d.Base.{
  ℕ, zero, suc, ◌+◌, ◌-◌, ◌≡◌, Bool, true, false, not, ◌&&◌, ◌||◌, List, [], ◌∷◌, ◌++◌, Option,
  none, some, any, length, is_empty, if◌then◌else◌, ltb,
}
use agent_d.Base.Text.{Str, text, str_eq, starts_with}
use agent_d.Base.Keys.{nat_key, str_key}
use agent_d.Base.Maps.{Map, get, insert, remove}
use agent_d.Base.Sets.{member, add}

pub record RunRecord : Type 0 where
  pub allows : List Str
  pub secrets : ℕ
  pub user_said : List Str

-- The records, the lists of secrets by their addresses, and the next address.
pub record Runs : Type 0 where
  pub records : Map Str RunRecord
  pub shelves : Map ℕ (List (Str × Str))
  pub next : ℕ

abbrev pub empty : Runs
empty = record { records = []; shelves = []; next = 0 }

-- The record of a run's parent, if the run has one in flight.
unfoldable pub parent_of : Option Str → Runs → Option RunRecord
parent_of none s = none
parent_of (some p) s = get p s.records

unfoldable pub start : Str → Option Str → List Str → Runs → Runs
start id parent said s = elim (parent_of parent s) [
  | some r ↦ record s {
    records =
        insert id (record { allows = []; secrets = r.secrets; user_said = r.user_said }) s.records;
  }
  | none ↦ record {
    records = insert id (record { allows = []; secrets = s.next; user_said = said }) s.records;
    shelves = insert s.next [] s.shelves;
    next = s.next + 1;
  }
]

unfoldable pub finish : Str → Runs → Runs
finish id s = record s { records = remove id s.records }

unfoldable pub user_said : Str → Runs → List Str
user_said id s = elim (get id s.records) [ some r ↦ r.user_said | none ↦ [] ]

unfoldable pub covers_rest_of_run : Str → Bool
covers_rest_of_run p =
    any (λ d. starts_with d p) (text "fs.read:" ∷ text "fs.write:" ∷ text "net:" ∷ [])

unfoldable pub allows : Str → Str → Runs → Bool
allows id p s = elim (get id s.records) [ some r ↦ member p r.allows | none ↦ false ]

unfoldable pub allow : Str → Str → Runs → Runs
allow id p s = if not (covers_rest_of_run p) then s else elim (get id s.records) [
  | some r ↦ record s { records = insert id (record r { allows = add p r.allows }) s.records }
  | none ↦ s
]

-- The list that a run's record names.
unfoldable pub shelf : ℕ → Runs → List (Str × Str)
shelf a s = elim (get a s.shelves) [ some l ↦ l | none ↦ [] ]

unfoldable pub is_secret : Str → Str → Str × Str → Bool
is_secret name value (n, v) = str_eq n name && str_eq v value

unfoldable pub record_secret : Str → Str → Str → Runs → Runs
record_secret id name value s = if is_empty value then s else elim (get id s.records) [
  | some r ↦
      let l = shelf r.secrets s in
      if any (is_secret name value) l
      then s
      else record s { shelves = insert r.secrets (l ++ ((name, value) ∷ [])) s.shelves }
  | none ↦ s
]

unfoldable pub secrets : Option Str → Runs → List (Str × Str)
secrets none s = []
secrets (some id) s = elim (get id s.records) [ some r ↦ shelf r.secrets s | none ↦ [] ]
