-- ===== src/Executor/Runs/Allows.antt =====
-- What a run is allowed for its rest, against the history of the run.
use agent_d.Base.{
  ◌≡◌, refl, sym, ap, ◌∙◌, ◌⊎◌, inl, inr, Bool, true, false, not, ◌&&◌, ◌||◌, List, [], ◌∷◌, any,
  is_empty, Option, none, some, is_some, arith, if◌then◌else◌, Bool-cases, Option-cases,
}
use agent_d.Base.Text.{Str, str_eq, str_eq_iff}
use agent_d.Base.Keys.{str_key}
use agent_d.Base.Maps.{get, insert, get-insert, get-remove}
use agent_d.Base.Sets.{member, add, member-add}
use agent_d.Executor.Runs.{
  Runs, RunRecord, is_secret, shelf, empty, parent_of, start, finish, allows, allow, record_secret,
  covers_rest_of_run,
}

-- A call of the executor.
pub data Event : Type 0 where
  started : Str → Option Str → List Str → Event
  finished : Str → Event
  allowed : Str → Str → Event
  read_secret : Str → Str → Str → Event

unfoldable pub step : Event → Runs → Runs
step (started id parent said) s = start id parent said s
step (finished id) s = finish id s
step (allowed id p) s = allow id p s
step (read_secret id n v) s = record_secret id n v s

-- The records after the calls of a log, the latest of which stands first.
unfoldable pub after : List Event → Runs
after [] = empty
after (e ∷ l) = step e (after l)

-- A run is in flight: it started, and has not finished since.
unfoldable pub is_live : Str → List Event → Bool
is_live id [] = false
is_live id (started i p u ∷ l) = str_eq i id || is_live id l
is_live id (finished i ∷ l) = not (str_eq i id) && is_live id l
is_live id (allowed i p ∷ l) = is_live id l
is_live id (read_secret i n v ∷ l) = is_live id l

-- A run in flight was allowed a permission of the kind that holds for its rest.
unfoldable pub is_allowed : Str → Str → List Event → Bool
is_allowed id p [] = false
is_allowed id p (started i q u ∷ l) = not (str_eq i id) && is_allowed id p l
is_allowed id p (finished i ∷ l) = not (str_eq i id) && is_allowed id p l
is_allowed id p (allowed i q ∷ l) =
    (str_eq i id && (str_eq q p && (covers_rest_of_run q && is_live id l))) || is_allowed id p l
is_allowed id p (read_secret i n v ∷ l) = is_allowed id p l

-- The allows of a run depend only on its record.
allows_same :
    (id p : Str) (s t : Runs) → get id s.records ≡ get id t.records → allows id p s ≡ allows id p t
unfolding allows
allows_same id p s t e = rw (e, allows) refl

allows_of_record :
    (id p : Str) (s : Runs) (r : RunRecord)
    → get id s.records ≡ some r
    → allows id p s ≡ member p r.allows
unfolding allows
allows_of_record id p s r e = rw (e, allows) refl

allows_of_none : (id p : Str) (s : Runs) → get id s.records ≡ none → allows id p s ≡ false
unfolding allows
allows_of_none id p s e = rw (e, allows) refl

-- A run that starts has a record without allows, and every other run keeps its own.
start-record :
    (i id : Str) (q : Option Str) (u : List Str) (s : Runs)
    → ((str_eq i id ≡ true)
        × ((r : RunRecord) × (get id (start i q u s).records ≡ some r) × (r.allows ≡ [])))
      ⊎ ((str_eq i id ≡ false) × (get id (start i q u s).records ≡ get id s.records))
unfolding start
start-record i id q u s = elim (Option-cases (parent_of q s)) [
  | inl e ↦ rw (e, start) (by_id _ refl)
  | inr (r, e) ↦ rw (e, start) (by_id _ refl)
]
  where
    by_id :
        (r : RunRecord)
        → r.allows ≡ []
        → ((str_eq i id ≡ true)
            × ((t : RunRecord) × (get id (insert i r s.records) ≡ some t) × (t.allows ≡ [])))
          ⊎ ((str_eq i id ≡ false) × (get id (insert i r s.records) ≡ get id s.records))
    by_id r e = elim (Bool-cases (str_eq i id)) [
      | inl h ↦ inl (h, (r, rw (get-insert i id r s.records, h) refl, e))
      | inr h ↦ inr (h, rw (get-insert i id r s.records, h) refl)
    ]

pub record_secret-records : (i n v : Str) (s : Runs) → (record_secret i n v s).records ≡ s.records
unfolding record_secret
record_secret-records i n v s = elim (Bool-cases (is_empty v)) [
  | inl h ↦ rw (h, record_secret) refl
  | inr h ↦ elim (Option-cases (get i s.records)) [
    | inl e ↦ rw (h, e, record_secret) refl
    | inr (r, e) ↦ elim (Bool-cases (any (is_secret n v) (shelf r.secrets s))) [
      | inl k ↦ rw (h, e, k, record_secret) refl
      | inr k ↦ rw (h, e, k, record_secret) refl
    ]
  ]
]

-- An allow either changes nothing, as its permission is not of the kind or its run has no record,
-- or adds the permission to the record.
allow-cases :
    (i q : Str) (s : Runs)
    → ((allow i q s ≡ s) × ((covers_rest_of_run q && is_some (get i s.records)) ≡ false))
      ⊎ ((r : RunRecord) × (get i s.records ≡ some r)
          × (covers_rest_of_run q ≡ true)
          × (allow i q s
              ≡ record s { records = insert i (record r { allows = add q r.allows }) s.records }))
unfolding allow
allow-cases i q s = elim (Bool-cases (covers_rest_of_run q)) [
  | inr h ↦ inl (rw (h, allow) refl, ground (arith, h))
  | inl h ↦ elim (Option-cases (get i s.records)) [
    | inl e ↦ inl (rw (h, e, allow) refl, rw (h, e) refl)
    | inr (r, e) ↦ inr (r, e, h, rw (h, e, allow) refl)
  ]
]

or_true : (a b : Bool) → (a || b) ≡ ((a && true) || b)
or_true a b = ground arith

-- What an allow changes.
allow-allows :
    (i q id p : Str) (s : Runs)
    → (is_some (get id (allow i q s).records) ≡ is_some (get id s.records))
      × (allows id p (allow i q s) ≡ (
          (str_eq i id && (str_eq q p && (covers_rest_of_run q && is_some (get id s.records))))
          || allows id p s))
allow-allows i q id p s = elim (allow-cases i q s) [
  | inl (e, h) ↦ elim (Bool-cases (str_eq i id)) [
    | inr k ↦ rw (e, k) (refl, refl)
    | inl k ↦
        rw
          (
            e,
            k,
            ap (λ x. covers_rest_of_run q && is_some (get x s.records))
                  (sym ((str_eq_iff i id).0 k))
                ∙ h,
          )
          (refl, ground arith)
  ]
  | inr (r, g, h, e) ↦ elim (Bool-cases (str_eq i id)) [
    | inr k ↦
        rw (e, k)
          (
            rw (get-insert i id _ s.records, k) refl,
            allows_same id p _ s
                (rw (get-insert i id (record r { allows = add q r.allows }) s.records, k) refl),
          )
    | inl k ↦
        let o = ap (λ x. get x s.records) (sym ((str_eq_iff i id).0 k)) ∙ g in
        let n = get-insert i id (record r { allows = add q r.allows }) s.records in
        rw (e, k, h)
          (
            rw (n, k, o) refl,
            allows_of_record id p _ (record r { allows = add q r.allows }) (rw (n, k) refl)
                ∙ member-add q p r.allows
                ∙ rw (o, allows_of_record id p s r o) (or_true (str_eq q p) (member p r.allows)),
          )
  ]
]

finish-record :
    (i id : Str) (s : Runs)
    → get id (finish i s).records ≡ (if str_eq i id then none else get id s.records)
unfolding finish
finish-record i id s = get-remove i id s.records

-- A run has a record exactly while it is in flight, and it is allowed for its rest exactly what it
-- was allowed since it last started, of the kind that holds for the rest of a run.
pub allows-log :
    (l : List Event) (id p : Str)
    → (is_some (get id (after l).records) ≡ is_live id l)
      × (allows id p (after l) ≡ is_allowed id p l)
unfolding after step is_live is_allowed get member
allows-log [] id p = (nothing, allows_of_none id p empty refl)
  where
    nothing : is_some (get {V = RunRecord} id []) ≡ false
    nothing = refl
allows-log (started i q u ∷ l) id p =
    let (a, b) = allows-log l id p in
    elim (start-record i id q u (after l)) [
      | inl (h, (r, g, e)) ↦ (rw (h, g) refl, rw h (allows_of_record id p _ r g ∙ ap (member p) e))
      | inr (h, g) ↦ (rw (h, g) a, rw h (allows_same id p _ (after l) g ∙ b))
    ]
allows-log (finished i ∷ l) id p =
    let (a, b) = allows-log l id p in
    elim (Bool-cases (str_eq i id)) [
      | inl h ↦
          let g = finish-record i id (after l) ∙ rw h refl in
          (rw (h, g) refl, rw h (allows_of_none id p _ g))
      | inr h ↦
          let g = finish-record i id (after l) ∙ rw h refl in
          (rw (h, g) a, rw h (allows_same id p _ (after l) g ∙ b))
    ]
allows-log (allowed i q ∷ l) id p =
    let (a, b) = allows-log l id p in
    let (c, d) = allow-allows i q id p (after l) in (c ∙ a, d ∙ rw (a, b) refl)
allows-log (read_secret i n v ∷ l) id p =
    let (a, b) = allows-log l id p in
    let e = ap (get id) (record_secret-records i n v (after l)) in
    (ap is_some e ∙ a, allows_same id p _ (after l) e ∙ b)
