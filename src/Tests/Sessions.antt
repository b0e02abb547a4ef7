-- ===== src/Tests/Sessions.antt =====
-- The session store at concrete inputs.
use agent_d.Base.{drop, ℕ, ◌≡◌, refl, List, [], ◌∷◌, ◌++◌, none, some, min, map, filter, length}
use agent_d.Base.Text.{text}
use agent_d.Base.Keys.{str_key, str_lt}
use agent_d.Base.Maps.{get, insert, values}
use agent_d.Sessions.{
  SessionMeta, NewSession, Scope, no_usage, permits, fresh_meta, same_text, saturating_add,
  add_usage,
}
use agent_d.Sessions.Store.{
  Store, Compaction, empty, create, append, compact, list, has_label, appended, sort, sort_in,
  comes_first,
}
use agent_d.Sessions.Store.Invariant.{IsSound}
use agent_d.Sessions.Store.Steps.{Steps, start, next, created, reached-IsSound}
use agent_d.Sessions.Store.Turns.{Rewrites, append-Rewrites, compact-Rewrites}
use agent_d.Sessions.Store.Listing.{IsNewestFirst, list_lem}
use mathlib.Core.List.{Perm}
use agent_d.Tests.Permissions.{opened}

stored : Unit {0}
unfolding opened get insert create append fresh_meta has_label appended add_usage saturating_add
    same_text
stored = tt

abbrev new : NewSession
new = record {
  owner = text "service:chat";
  user = some (text "ada");
  label = some (text "plan");
  runner = none;
  approval = none;
  cwd = none;
}

abbrev pub meta : SessionMeta
meta = record {
  id = text "s1";
  owner = text "service:chat";
  runner = none;
  user = some (text "ada");
  label = some (text "plan");
  approval = none;
  cwd = none;
  created_at = 7;
  updated_at = 7;
  turn_count = 0;
  next_seq = 0;
  compactions = 0;
  usage = no_usage;
}

abbrev one : Store ℕ
one = record { metas = (text "s1", meta) ∷ []; turns = (text "s1", []) ∷ [] }

one_reached : Steps empty one
unfolding stored
one_reached = next start (created (text "s1") 7 new refl refl)

found : get (text "s1") one.metas ≡ some meta
unfolding stored
found = refl

abbrev summary : Compaction ℕ
summary = record { drop_count = 5; summary = 9 }

reached-IsSound_example : IsSound one
reached-IsSound_example = reached-IsSound one_reached

append-Rewrites_example :
    (old : List ℕ) × Rewrites
      (text "s1")
      one
      (append 8 (text "s1") (1 ∷ 2 ∷ []) no_usage one)
      old
      (old ++ (1 ∷ 2 ∷ []))
append-Rewrites_example =
    append-Rewrites one 8 (text "s1") (1 ∷ 2 ∷ []) no_usage meta one_reached found

compact-Rewrites_example :
    (old : List ℕ) × Rewrites
      (text "s1")
      one
      (compact 8 (text "s1") summary one)
      old
      (9 ∷ drop (min 5 (length old)) old)
compact-Rewrites_example = compact-Rewrites one 8 (text "s1") summary meta one_reached found

-- A second session of the same owner, used later, and one of another owner.
abbrev two : Store ℕ
two = record {
  metas =
      (text "s1", meta)
      ∷ (text "s2", record meta { id = text "s2"; updated_at = 9 })
      ∷ (text "s3", record meta { id = text "s3"; owner = text "service:mail" })
      ∷ [];
  turns = [];
}

abbrev own_chat : Scope
own_chat = record { owner = text "service:chat"; user = some (text "ada") }

list_run : map (λ (m : SessionMeta). m.id) (list own_chat 1 two) ≡ text "s2" ∷ []
unfolding stored list sort sort_in comes_first permits str_lt
list_run = refl

list_lem_example :
    (rest : List SessionMeta) × Perm
      (list own_chat 1 two ++ rest)
      (filter (permits own_chat) (values two.metas))
    × IsNewestFirst (list own_chat 1 two ++ rest)
    × (length (list own_chat 1 two) ≡ min 1 (length (list own_chat 1 two ++ rest)))
list_lem_example = list_lem own_chat 1 two
