-- ===== src/Sessions/Store.antt =====
-- crates/sessions/src/lib.rs: `MemSessionStore`. A call that fails leaves the store as it was;
-- `panicked` is an `unwrap` of what is not there. The id and the time of a call are arguments.
pub mod Invariant
pub mod Steps
pub mod Turns
pub mod Listing
use agent_d.Base.{
  ℕ, zero, suc, ◌+◌, ◌%◌, ◌≡◌, String, Bool, true, false, not, ◌&&◌, ◌||◌, List, [], ◌∷◌, ◌++◌,
  Option, none, some, map, min, ltb, ◌==◌, if◌then◌else◌, length, take, drop, any, filter, find,
  is_some,
}
use agent_d.Base.Text.{Str, str_eq}
use agent_d.Base.Keys.{str_key, str_lt}
use agent_d.Base.Maps.{Map, get, insert, remove, values}
use agent_d.Permissions.Grants.{ApprovalSetting}
use agent_d.Sessions.{
  SessionMeta, NewSession, Scope, Usage, same_text, u64, add_usage, permits, fresh_meta,
}

pub data SessionError : Type 0 where
  not_found : Str → SessionError
  label_taken : Str → SessionError
  backend : Str → SessionError

pub data Result (A : Type 0) : Type 0 where
  ok : A → Result A
  err : SessionError → Result A
  panicked : Result A

unfoldable pub has_label : Str → Str → SessionMeta → Bool
has_label owner label m = str_eq m.owner owner && same_text m.label (some label)

-- The order of `list`: the newest first, of two alike the one with the greater id.
unfoldable pub comes_first : SessionMeta → SessionMeta → Bool
comes_first a b =
    ltb b.updated_at a.updated_at || (a.updated_at == b.updated_at && not (str_lt a.id b.id))

unfoldable pub sort_in : SessionMeta → List SessionMeta → List SessionMeta
sort_in a [] = a ∷ []
sort_in a (b ∷ l) = if comes_first a b then a ∷ b ∷ l else b ∷ sort_in a l

unfoldable pub sort : List SessionMeta → List SessionMeta
sort [] = []
sort (a ∷ l) = sort_in a (sort l)

abbrev pub filtered : Scope → Option SessionMeta → Option SessionMeta
filtered scope none = none
filtered scope (some m) = if permits scope m then some m else none

unfoldable pub appended : ℕ → ℕ → Usage → SessionMeta → SessionMeta
appended now count usage m = record m {
  usage = add_usage m.usage usage;
  turn_count = u64 (m.turn_count + count);
  next_seq = u64 (m.next_seq + count);
  updated_at = now;
}

unfoldable pub compacted : ℕ → ℕ → SessionMeta → SessionMeta
compacted now len m = record m {
  turn_count = u64 len;
  next_seq = u64 (m.next_seq + 1);
  compactions = (m.compactions + 1) % 4294967296;
  updated_at = now;
}

-- Another session of the owner has the label.
unfoldable pub taken : Str → Str → Str → SessionMeta → Bool
taken id owner label m = not (str_eq m.id id) && has_label owner label m

unfoldable pub relabelled : ℕ → Option Str → SessionMeta → SessionMeta
relabelled now label m = record m { label = label; updated_at = now }

-- One compaction.
pub record Compaction (M : Type 0) : Type 0 where
  pub drop_count : ℕ
  pub summary : M

-- The messages of the turns are not looked into.
pub record Store (M : Type 0) : Type 0 where
  pub metas : Map Str SessionMeta
  pub turns : Map Str (List M)

module _ {M : Type 0} where
  abbrev pub empty : Store M
  empty = record { metas = []; turns = [] }

  unfoldable pub create : Str → ℕ → NewSession → Store M → Result (SessionMeta × Store M)
  create id now new s =
      let meta = fresh_meta id now new in
      elim new.label [
        | some label ↦
            if any (has_label new.owner label) (values s.metas)
            then err (label_taken label)
            else ok
                (meta, record s { metas = insert id meta s.metas; turns = insert id [] s.turns })
        | none ↦
            ok (meta, record s { metas = insert id meta s.metas; turns = insert id [] s.turns })
      ]

  unfoldable pub find_by_label : Str → Str → Store M → Option SessionMeta
  find_by_label owner label s = find (has_label owner label) (values s.metas)

  unfoldable pub list : Scope → ℕ → Store M → List SessionMeta
  list scope limit s = take limit (sort (filter (permits scope) (values s.metas)))

  unfoldable pub get_in : Scope → Str → Store M → Option SessionMeta
  get_in scope id s = filtered scope (get id s.metas)

  unfoldable pub find_in : Scope → Str → Store M → Option SessionMeta
  find_in scope label s = filtered scope (find_by_label scope.owner label s)

  unfoldable pub turns_of : Str → Store M → Result (List M)
  turns_of id s = elim (get id s.turns) [ some l ↦ ok l | none ↦ err (not_found id) ]

  unfoldable pub append : ℕ → Str → List M → Usage → Store M → Result (SessionMeta × Store M)
  append now id new usage s = elim (get id s.metas) [
    | none ↦ err (not_found id)
    | some m ↦
        let meta = appended now (length new) usage m in
        elim (get id s.turns) [
          | none ↦ panicked
          | some l ↦ ok (
            meta,
            record { metas = insert id meta s.metas; turns = insert id (l ++ new) s.turns },
          )
        ]
  ]

  unfoldable pub compact : ℕ → Str → Compaction M → Store M → Result (SessionMeta × Store M)
  compact now id c s = elim (get id s.turns) [
    | none ↦ err (not_found id)
    | some l ↦
        let log = c.summary ∷ drop (min c.drop_count (length l)) l in
        elim (get id s.metas) [
          | none ↦ panicked
          | some m ↦
              let meta = compacted now (length log) m in
              ok (meta, record { metas = insert id meta s.metas; turns = insert id log s.turns })
        ]
  ]

  unfoldable pub delete : Str → Store M → Bool × Store M
  delete id s =
      (is_some (get id s.metas), record { metas = remove id s.metas; turns = remove id s.turns })

  unfoldable pub relabel : ℕ → Str → Option Str → Store M → Result (SessionMeta × Store M)
  relabel now id label s = elim (get id s.metas) [
    | none ↦ err (not_found id)
    | some m ↦
        let meta = relabelled now label m in
        let done : Result (SessionMeta × Store M) =
          ok (meta, record s { metas = insert id meta s.metas }) in
        elim label [
          | none ↦ done
          | some l ↦ if any (taken id m.owner l) (values s.metas) then err (label_taken l) else done
        ]
  ]

  unfoldable pub set_approval :
      ℕ → Str → Option ApprovalSetting → Store M → Result (SessionMeta × Store M)
  set_approval now id approval s = elim (get id s.metas) [
    | none ↦ err (not_found id)
    | some m ↦
        let meta : SessionMeta = record m { approval = approval; updated_at = now } in
        ok (meta, record s { metas = insert id meta s.metas })
  ]
