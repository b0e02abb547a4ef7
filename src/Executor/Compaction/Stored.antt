-- ===== src/Executor/Compaction/Stored.antt =====
-- The history that a run goes on with and the one that is stored.
use agent_d.Base.{ℕ, ◌≡◌, sym, ap, subst, ◌∙◌, List, ◌∷◌, some, length, drop, max, arith}
use agent_d.Base.Text.{Str}
use agent_d.Base.Keys.{nat_key, str_key}
use agent_d.Base.Maps.{get, insert, values}
use agent_d.Sessions.{SessionMeta}
use agent_d.Sessions.Store.{ok}
use agent_d.Sessions.Store.Invariant.{get_own}
use agent_d.Sessions.Redb.{Tables, turn_table, turns, compact, shortened}
use agent_d.Sessions.Redb.Turns.{IsLog, range_all}
use agent_d.Sessions.Redb.Agrees.{own_table, compact_held, compact_turns_any}
use agent_d.Executor.Compaction.{Message, cut_at, compaction_cut, summary, shortened_history}
use agent_d.Executor.Compaction.Boundary.{IsCut, compaction_cut-IsCut}

ok-injective : {A : Type 0} (a b : A) → ok a ≡ ok b → a ≡ b
ok-injective a b e = cc e

module _ {F : Type 0} where
  turns_held :
      (id : Str) (d : Tables (Message F)) (m : SessionMeta)
      → get id d.sessions ≡ some m
      → IsLog m.next_seq (turn_table id d)
      → turns id d ≡ ok (values (turn_table id d))
  unfolding turns
  turns_held id d m e w =
      rw (e, turns) (ap (λ t. ok (values t)) (range_all m.next_seq (turn_table id d) w.1 w.2))

  -- Where a session's history is cut, the durable store takes the compaction, and what it holds afterwards
  -- is the history that the run goes on with; the numbers of the turns ascend, and the next one is free.
  pub compact-shortened_history :
      (now : ℕ) (id : Str) (d : Tables (Message F)) (m : SessionMeta) (h : List (Message F))
      (keep c : ℕ) (s : Str)
      → get id d.sessions ≡ some m
      → IsLog m.next_seq (turn_table id d)
      → turns id d ≡ ok h
      → compaction_cut h keep ≡ cut_at c
      → (m' : SessionMeta) × (d' : Tables (Message F)) × (compact now id
            (record { drop_count = c; summary = summary s })
            d
          ≡ ok (m', d'))
        × (turns id d' ≡ ok (shortened_history c (summary s) h))
  unfolding shortened_history shortened
  compact-shortened_history now id d m h keep c s e w f g =
      let v : values (turn_table id d) ≡ h = ok-injective _ _ (sym (turns_held id d m e w) ∙ f) in
      let (p, q, r, x, y) = subst (IsCut h keep) g (compaction_cut-IsCut h keep) in
      let (count, t, k, z, u) =
        compact_turns_any m.next_seq (turn_table id d)
          (record { drop_count = c; summary = summary s }) w (omega (arith, p, r, ap length v)) in
      let n : max 1 c ≡ c = omega (arith, p) in
      let d' : Tables (Message F) = record d {
        sessions = insert id (shortened now count m) d.sessions;
        turns = insert id t d.turns;
      } in
      let o = own_table id (insert id (shortened now count m) d.sessions) t d in
      (
        shortened now count m,
        d',
        compact_held now id (record { drop_count = c; summary = summary s }) d m count t e k,
        turns_held id d' (shortened now count m) (get_own id (shortened now count m) d.sessions)
              (subst (IsLog m.next_seq) (sym o) u)
            ∙ ap ok (
                ap values o
                ∙ z
                ∙ ap (λ l. summary s ∷ drop (max 1 c) l) v
                ∙ ap (λ i. summary s ∷ drop i h) n),
      )
