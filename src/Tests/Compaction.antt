-- ===== src/Tests/Compaction.antt =====
-- The compaction of a session at concrete inputs.
use agent_d.Base.{◌≡◌, refl, arith, ℕ, List, [], ◌∷◌, some}
use agent_d.Base.Text.{text, str_eq}
use agent_d.Base.Keys.{nat_key, str_key}
use agent_d.Base.Maps.{get}
use agent_d.Sessions.{SessionMeta}
use agent_d.Sessions.Store.{ok}
use agent_d.Sessions.Redb.{Tables, turn_table, range, turns, compact}
use agent_d.Executor.Compaction.{
  Message, assistant, tool, user_message, find_cut, compaction_cut, cut_at, out_of_range, summary,
  shortened_history, plain, join_calls, transcript,
}
use agent_d.Executor.Compaction.Boundary.{IsCut, compaction_cut-IsCut}
use agent_d.Executor.Compaction.Stored.{compact-shortened_history}
use agent_d.Tests.Sessions.{meta}

abbrev asks : Message ℕ
asks = user_message (text "list")

abbrev calls : Message ℕ
calls = record (user_message {F = ℕ} (text "")) {
  role = assistant;
  tool_calls = record { id = text "1"; name = text "ls"; arguments = text "{}" } ∷ [];
}

abbrev result : Message ℕ
result = record (user_message {F = ℕ} (text "a b")) { role = tool; tool_call_id = some (text "1") }

abbrev history : List (Message ℕ)
history = asks ∷ calls ∷ result ∷ asks ∷ calls ∷ result ∷ []

-- The cut goes back to where the user speaks.
cut_run : compaction_cut history 2 ≡ cut_at 3
unfolding compaction_cut find_cut
cut_run = refl

cut_nothing_kept : compaction_cut history 0 ≡ out_of_range
unfolding compaction_cut find_cut
cut_nothing_kept = refl

transcript_run :
    transcript 2 (text "sum up") history
    ≡ asks
      ∷ record (user_message {F = ℕ} (text "\n[called tools: ls({})]")) { role = assistant }
      ∷ user_message (text "sum up")
      ∷ []
unfolding transcript plain join_calls
transcript_run = refl

compaction_cut-IsCut_example : IsCut history 2 (compaction_cut history 2)
compaction_cut-IsCut_example = compaction_cut-IsCut history 2

abbrev durable_meta : SessionMeta
durable_meta = record meta { next_seq = 6 }

abbrev saved : Tables (Message ℕ)
saved = record {
  sessions = (text "s1", durable_meta) ∷ [];
  turns =
      (text "s1", (0, asks) ∷ (1, calls) ∷ (2, result) ∷ (3, asks) ∷ (4, calls) ∷ (5, result) ∷ [])
      ∷ [];
  labels = [];
}

turns_run : turns (text "s1") saved ≡ ok history
unfolding turns turn_table range get str_eq
turns_run = refl

found : get (text "s1") saved.sessions ≡ some durable_meta
unfolding get str_eq
found = refl

compact-shortened_history_example :
    (m : SessionMeta) × (d : Tables (Message ℕ)) × (compact 9
        (text "s1")
        (record { drop_count = 3; summary = summary (text "listed") })
        saved
      ≡ ok (m, d))
    × (turns (text "s1") d ≡ ok (shortened_history 3 (summary (text "listed")) history))
unfolding turn_table get str_eq
compact-shortened_history_example =
    compact-shortened_history 9 (text "s1") saved durable_meta history 2 3 (text "listed") found
      (
        (
          (refl, (refl, (refl, (refl, (refl, tt))))),
          (
            (refl, (refl, (refl, (refl, tt)))),
            ((refl, (refl, (refl, tt))), ((refl, (refl, tt)), ((refl, tt), (tt, tt)))),
          ),
        ),
        (
          omega arith,
          (omega arith, (omega arith, (omega arith, (omega arith, (omega arith, tt))))),
        ),
        omega arith,
      )
      turns_run cut_run
