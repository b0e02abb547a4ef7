-- ===== src/Sessions/Redb.antt =====
-- crates/sessions/src/redb_store.rs: the durable session store. Its tables are maps, the turns a map for each
-- session by their sequence numbers; the database of memory keeps what is written to it, and a call that
-- fails writes nothing. The id and the time of a call are arguments.
pub mod Turns
pub mod Agrees
use agent_d.Base.{
  ℕ, zero, suc, ◌+◌, ◌-◌, ◌%◌, ◌≡◌, String, Bool, true, false, not, ◌&&◌, List, [], ◌∷◌, ◌++◌,
  Option, none, some, map, ltb, leb, if◌then◌else◌, length, take, filter, is_some, is_some_and,
  unwrap_or,
}
use agent_d.Base.Text.{Str, text, str_eq}
use agent_d.Base.Keys.{nat_key, str_key}
use agent_d.Base.Maps.{Map, get, insert, remove, values}
use agent_d.Permissions.Grants.{ApprovalSetting}
use agent_d.Sessions.{SessionMeta, NewSession, Scope, Usage, u64, u64_max, permits, fresh_meta}
use agent_d.Sessions.Store.{
  SessionError, not_found, label_taken, backend, Result, ok, err, sort, appended, relabelled,
  Compaction,
}

pub record Tables (M : Type 0) : Type 0 where
  pub sessions : Map Str SessionMeta
  pub turns : Map Str (Map ℕ M)
  pub labels : Map Str Str

unfoldable pub label_key : Str → Str → Str
label_key owner label = owner ++ 0 ∷ label

unfoldable pub shortened : ℕ → ℕ → SessionMeta → SessionMeta
shortened now count m = record m {
  turn_count = u64 (m.turn_count + 18446744073709551616 - count + 1);
  compactions = (m.compactions + 1) % 4294967296;
  updated_at = now;
}

-- A label that a session has leads to it, and one that it had does not.
unfoldable pub without_label : Str → Option Str → Map Str Str → Map Str Str
without_label owner none labels = labels
without_label owner (some label) labels = remove (label_key owner label) labels

unfoldable pub with_label : Str → Str → Option Str → Map Str Str → Map Str Str
with_label id owner none labels = labels
with_label id owner (some label) labels = insert (label_key owner label) id labels

-- A label leads somewhere.
unfoldable pub is_held : Str → Option Str → Map Str Str → Bool
is_held owner none labels = false
is_held owner (some label) labels = is_some (get (label_key owner label) labels)

-- A label leads to another session.
unfoldable pub is_held_by_other : Str → Str → Option Str → Map Str Str → Bool
is_held_by_other id owner none labels = false
is_held_by_other id owner (some label) labels =
    is_some_and (λ holder. not (str_eq holder id)) (get (label_key owner label) labels)

module _ {M : Type 0} where
  abbrev pub nothing_stored : Tables M
  nothing_stored = record { sessions = []; turns = []; labels = [] }

  -- The turns of a session, those below the last number that 64 bits hold.
  unfoldable pub turn_table : Str → Tables M → Map ℕ M
  turn_table id d = unwrap_or [] (get id d.turns)

  unfoldable pub range : Map ℕ M → Map ℕ M
  range t = filter (λ e. ltb e.0 u64_max) t

  unfoldable pub create : Str → ℕ → NewSession → Tables M → Result (SessionMeta × Tables M)
  create id now new d =
      if is_held new.owner new.label d.labels
      then err (label_taken (unwrap_or [] new.label))
      else (let meta = fresh_meta id now new in
          ok (
            meta,
            record d {
              sessions = insert id meta d.sessions;
              labels = with_label meta.id meta.owner meta.label d.labels;
            },
          ))

  unfoldable pub find_by_label : Str → Str → Tables M → Option SessionMeta
  find_by_label owner label d = elim (get (label_key owner label) d.labels) [
    | none ↦ none
    | some id ↦ get id d.sessions
  ]

  unfoldable pub list : Scope → ℕ → Tables M → List SessionMeta
  list scope limit d = take limit (sort (filter (permits scope) (values d.sessions)))

  unfoldable pub turns : Str → Tables M → Result (List M)
  turns id d = elim (get id d.sessions) [
    | none ↦ err (not_found id)
    | some m ↦ ok (values (range (turn_table id d)))
  ]

  unfoldable pub push_turns : ℕ → List M → Map ℕ M → Map ℕ M
  push_turns seq [] t = t
  push_turns seq (m ∷ new) t = push_turns (u64 (seq + 1)) new (insert seq m t)

  unfoldable pub append : ℕ → Str → List M → Usage → Tables M → Result (SessionMeta × Tables M)
  append now id new usage d = elim (get id d.sessions) [
    | none ↦ err (not_found id)
    | some m ↦
        let meta = appended now (length new) usage m in
        ok (
          meta,
          record d {
            sessions = insert id meta d.sessions;
            turns = insert id (push_turns m.next_seq new (turn_table id d)) d.turns;
          },
        )
  ]

  -- The numbers to drop, with `count` of them before.
  unfoldable pub seqs_to_drop : ℕ → ℕ → Map ℕ M → List ℕ
  seqs_to_drop drop_count count [] = []
  seqs_to_drop drop_count count ((seq, m) ∷ t) =
      let rest = seqs_to_drop drop_count (suc count) t in
      seq ∷ (if leb drop_count (suc count) then [] else rest)

  unfoldable pub remove_all : List ℕ → Map ℕ M → Map ℕ M
  remove_all [] t = t
  remove_all (seq ∷ seqs) t = remove_all seqs (remove seq t)

  -- With the number of turns that are dropped, the turns that are left; there is none without a turn.
  unfoldable pub compact_turns : Compaction M → Map ℕ M → Option (ℕ × Map ℕ M)
  compact_turns c t = elim (seqs_to_drop c.drop_count 0 (range t)) [
    | [] ↦ none
    | summary_seq ∷ seqs ↦ some (
      length (summary_seq ∷ seqs),
      insert summary_seq c.summary (remove_all (summary_seq ∷ seqs) t),
    )
  ]

  unfoldable pub compact : ℕ → Str → Compaction M → Tables M → Result (SessionMeta × Tables M)
  compact now id c d = elim (get id d.sessions) [
    | none ↦ err (not_found id)
    | some m ↦ elim (compact_turns c (turn_table id d)) [
      | none ↦ err (backend (text "compaction must drop at least one turn"))
      | some (count, t) ↦
          let meta = shortened now count m in
          ok (meta, record d { sessions = insert id meta d.sessions; turns = insert id t d.turns })
    ]
  ]

  unfoldable pub relabel : ℕ → Str → Option Str → Tables M → Result (SessionMeta × Tables M)
  relabel now id label d = elim (get id d.sessions) [
    | none ↦ err (not_found id)
    | some m ↦
        if is_held_by_other id m.owner label d.labels
        then err (label_taken (unwrap_or [] label))
        else (let meta = relabelled now label m in
            ok (
              meta,
              record d {
                sessions = insert id meta d.sessions;
                labels = with_label id m.owner label (without_label m.owner m.label d.labels);
              },
            ))
  ]

  unfoldable pub set_approval :
      ℕ → Str → Option ApprovalSetting → Tables M → Result (SessionMeta × Tables M)
  set_approval now id approval d = elim (get id d.sessions) [
    | none ↦ err (not_found id)
    | some m ↦
        let meta : SessionMeta = record m { approval = approval; updated_at = now } in
        ok (meta, record d { sessions = insert id meta d.sessions })
  ]

  unfoldable pub delete : Str → Tables M → Bool × Tables M
  delete id d = elim (get id d.sessions) [
    | none ↦ (false, d)
    | some m ↦ (
      true,
      record {
        sessions = remove id d.sessions;
        turns =
            insert id (remove_all (map (λ e. e.0) (range (turn_table id d))) (turn_table id d))
              d.turns;
        labels = without_label m.owner m.label d.labels;
      },
    )
  ]
