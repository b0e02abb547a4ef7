-- ===== src/Tests/Durable.antt =====
-- The durable session store at concrete inputs.
use agent_d.Base.{◌≡◌, refl, arith, ℕ, [], ◌∷◌, some}
use agent_d.Base.Text.{text, str_eq}
use agent_d.Base.Keys.{nat_key, str_key}
use agent_d.Base.Maps.{get, insert, remove}
use agent_d.Sessions.{SessionMeta}
use agent_d.Sessions.Store.{Store}
use agent_d.Sessions.Redb.{
  Tables, turn_table, range, seqs_to_drop, remove_all, compact_turns, label_key, find_by_label,
}
use agent_d.Sessions.Redb.Agrees.{compacts, Agrees, Follows, durably-in_memory}
use agent_d.Tests.Sessions.{meta}

-- A session whose second turn was dropped.
abbrev durable_meta : SessionMeta
durable_meta = record meta { next_seq = 3 }

abbrev tables : Tables ℕ
tables = record {
  sessions = (text "s1", durable_meta) ∷ [];
  turns = (text "s1", (0, 4) ∷ (2, 5) ∷ []) ∷ [];
  labels = (label_key (text "service:chat") (text "plan"), text "s1") ∷ [];
}

abbrev kept_two : Store ℕ
kept_two = record { metas = (text "s1", meta) ∷ []; turns = (text "s1", 4 ∷ 5 ∷ []) ∷ [] }

two_agree : Agrees (text "s1") tables kept_two
unfolding get str_eq turn_table
two_agree = record {
  durable = durable_meta;
  memory = meta;
  log = 4 ∷ 5 ∷ [];
  held = refl;
  sound = (((refl, tt), (tt, tt)), (omega arith, (omega arith, tt)), omega arith);
  logged = refl;
  kept = refl;
  stored = refl;
}

durably-in_memory_example :
    Follows 9 (text "s1") (compacts (record { drop_count = 1; summary = 6 })) tables kept_two
unfolding two_agree
durably-in_memory_example =
    durably-in_memory 9 (text "s1") (compacts (record { drop_count = 1; summary = 6 })) tables
      kept_two two_agree (omega arith, omega arith)

-- One turn is dropped where none is asked for.
compact_turns_run :
    compact_turns {M = ℕ} (record { drop_count = 0; summary = 6 }) ((0, 4) ∷ (2, 5) ∷ [])
    ≡ some (1, (0, 6) ∷ (2, 5) ∷ [])
unfolding compact_turns range seqs_to_drop remove_all remove insert
compact_turns_run = refl

find_by_label_run : find_by_label (text "service:chat") (text "plan") tables ≡ some durable_meta
unfolding find_by_label label_key get str_eq
find_by_label_run = refl
