-- ===== src/Sessions/Redb/Agrees.antt =====
-- The durable store keeps the turns that the store in memory keeps.
use agent_d.Base.{
  ℕ, zero, suc, ◌+◌, ◌≤◌, ◌≡◌, refl, sym, ap, subst, ◌∙◌, List, [], ◌∷◌, ◌++◌, some, length, drop,
  drop-nil, min, max, arith, unwrap_or,
}
use agent_d.Base.Text.{Str}
use agent_d.Base.Keys.{nat_key, str_key}
use agent_d.Base.Maps.{Map, get, insert, values}
use agent_d.Sessions.{SessionMeta, Usage, u64_max}
use agent_d.Sessions.Store.{Result, ok, Compaction, Store, appended, compacted}
use agent_d.Sessions.Store
use agent_d.Sessions.Store.Invariant.{get_own}
use agent_d.Sessions.Store.Steps.{append_found, compact_found}
use agent_d.Sessions.Redb.{
  Tables, turn_table, turns, push_turns, append, compact_turns, compact, shortened,
}
use agent_d.Sessions.Redb.Turns.{IsLog, push_turns_lem, compact_turns_lem, range_all}

-- A call that changes the turns of a session.
pub data Call (M : Type 0) : Type 0 where
  appends : List M → Usage → Call M
  compacts : Compaction M → Call M

module _ {M : Type 0} where
  unfoldable pub durably : ℕ → Str → Call M → Tables M → Result (SessionMeta × Tables M)
  durably now id (appends new usage) d = append now id new usage d
  durably now id (compacts c) d = compact now id c d

  unfoldable pub in_memory : ℕ → Str → Call M → Store M → Result (SessionMeta × Store M)
  in_memory now id (appends new usage) s = Store.append now id new usage s
  in_memory now id (compacts c) s = Store.compact now id c s

  -- Both stores hold the session with the same turns, which stand in the table by ascending numbers.
  pub record Agrees (id : Str) (d : Tables M) (s : Store M) : Type 0 where
    pub durable : SessionMeta
    pub memory : SessionMeta
    pub log : List M
    pub held : get id d.sessions ≡ some durable
    pub sound : IsLog durable.next_seq (turn_table id d)
    pub logged : values (turn_table id d) ≡ log
    pub kept : get id s.metas ≡ some memory
    pub stored : get id s.turns ≡ some log

  -- The numbers of the turns stay in range, and a compaction drops a turn that is there.
  abbrev pub Fits : {id : Str} {d : Tables M} {s : Store M} → Agrees id d s → Call M → Type 0
  Fits a (appends new usage) = a.durable.next_seq + length new ≤ u64_max
  Fits a (compacts c) = (1 ≤ c.drop_count) × (1 ≤ length a.log)

  pub own_table :
      (id : Str) (x : Map Str SessionMeta) (t : Map ℕ M) (d : Tables M)
      → turn_table id (record d { sessions = x; turns = insert id t d.turns }) ≡ t
  unfolding turn_table
  own_table id x t d = ap (unwrap_or []) (get_own id t d.turns)

  turns_of-Agrees :
      (id : Str) (d : Tables M) (s : Store M) → Agrees id d s → turns id d ≡ Store.turns_of id s
  unfolding turns Store.turns_of
  turns_of-Agrees id d s a =
      rw (a.held, turns, a.stored, Store.turns_of)
        (ap ok (
          ap values (range_all a.durable.next_seq (turn_table id d) a.sound.1 a.sound.2)
          ∙ a.logged))

  Agrees-after :
      (id : Str) (d : Tables M) (s : Store M) (m n : SessionMeta) (t : Map ℕ M) (l : List M)
      → IsLog m.next_seq t
      → values t ≡ l
      → Agrees id
          (record d { sessions = insert id m d.sessions; turns = insert id t d.turns })
          (record { metas = insert id n s.metas; turns = insert id l s.turns })
  Agrees-after id d s m n t l w e =
      let f = own_table id (insert id m d.sessions) t d in
      record {
        durable = m;
        memory = n;
        log = l;
        held = get_own id m d.sessions;
        sound = rw f w;
        logged = ap values f ∙ e;
        kept = get_own id n s.metas;
        stored = get_own id l s.turns;
      }

  append_held :
      (now : ℕ) (id : Str) (new : List M) (usage : Usage) (d : Tables M) (m : SessionMeta)
      → get id d.sessions ≡ some m
      → append now id new usage d
        ≡ ok (
          appended now (length new) usage m,
          record d {
            sessions = insert id (appended now (length new) usage m) d.sessions;
            turns = insert id (push_turns m.next_seq new (turn_table id d)) d.turns;
          },
        )
  unfolding append
  append_held now id new usage d m e = rw (e, append) refl

  pub compact_held :
      (now : ℕ) (id : Str) (c : Compaction M) (d : Tables M) (m : SessionMeta) (count : ℕ)
      (t : Map ℕ M)
      → get id d.sessions ≡ some m
      → compact_turns c (turn_table id d) ≡ some (count, t)
      → compact now id c d
        ≡ ok (
          shortened now count m,
          record d {
            sessions = insert id (shortened now count m) d.sessions;
            turns = insert id t d.turns;
          },
        )
  unfolding compact
  compact_held now id c d m count t e f = rw (e, f, compact) refl

  drop_most : (n : ℕ) (l : List M) → drop n l ≡ drop (min n (length l)) l
  drop_most zero l = let e : 0 ≡ min 0 (length l) = omega arith in ap (λ k. drop k l) e
  drop_most (suc n) [] = sym (drop-nil (min (suc n) 0))
  drop_most (suc n) (x ∷ l) =
      let e : min (suc n) (suc (length l)) ≡ suc (min n (length l)) = omega arith in
      drop_most n l ∙ ap (λ k. drop k (x ∷ l)) (sym e)

  pub compact_turns_any :
      (n : ℕ) (t : Map ℕ M) (c : Compaction M)
      → IsLog n t
      → 1 ≤ length (values t)
      → (count : ℕ) × (u : Map ℕ M) × (compact_turns c t ≡ some (count, u))
        × (values u ≡ c.summary ∷ drop (max 1 c.drop_count) (values t))
        × IsLog n u
  compact_turns_any n [] c w h = absurd (omega arith)
  compact_turns_any n ((a, m) ∷ t) c w h = compact_turns_lem n a m t c w

  -- What both stores are after a call.
  abbrev pub Follows : ℕ → Str → Call M → Tables M → Store M → Type 0
  Follows now id call d s =
      (m : SessionMeta) × (n : SessionMeta) × (d' : Tables M) × (s' : Store M) × (durably now id
          call d
        ≡ ok (m, d'))
      × (in_memory now id call s ≡ ok (n, s'))
      × (turns id d' ≡ Store.turns_of id s')
      × Agrees id d' s'

  -- Where the stores hold the same turns of a session, an append or a compaction of it succeeds in both,
  -- and they hold the same turns of it again: the numbers of the turns stay in 64 bits, and a compaction
  -- drops at least one turn of a session that has one.
  pub durably-in_memory :
      (now : ℕ) (id : Str) (call : Call M) (d : Tables M) (s : Store M) (a : Agrees id d s)
      → Fits a call
      → Follows now id call d s
  unfolding durably in_memory appended shortened
  durably-in_memory now id (appends new usage) d s a f =
      let (e, w) = push_turns_lem a.durable.next_seq new (turn_table id d) a.sound f in
      let m : SessionMeta = appended now (length new) usage a.durable in
      let u : a.durable.next_seq + length new ≡ m.next_seq = omega (arith, f) in
      let t = push_turns a.durable.next_seq new (turn_table id d) in
      let b =
        Agrees-after id d s m (appended now (length new) usage a.memory) t (a.log ++ new)
          (subst (λ k. IsLog k t) u w) (e ∙ ap (λ l. l ++ new) a.logged) in
      (
        _,
        _,
        _,
        _,
        append_held now id new usage d a.durable a.held,
        append_found now id new a.log usage s a.memory a.kept a.stored,
        turns_of-Agrees id _ _ b,
        b,
      )
  durably-in_memory now id (compacts c) d s a (f, g) =
      let (count, t, e, v, w) =
        compact_turns_any a.durable.next_seq (turn_table id d) c a.sound
          (omega (arith, g, ap length a.logged)) in
      let k : max 1 c.drop_count ≡ c.drop_count = omega (arith, f) in
      let log = c.summary ∷ drop (min c.drop_count (length a.log)) a.log in
      let q : values t ≡ log =
        v
        ∙ ap (λ l. c.summary ∷ drop (max 1 c.drop_count) l) a.logged
        ∙ ap (λ i. c.summary ∷ drop i a.log) k
        ∙ ap (λ l. c.summary ∷ l) (drop_most c.drop_count a.log) in
      let b =
        Agrees-after id d s (shortened now count a.durable) (compacted now (length log) a.memory) t
          log w q in
      (
        _,
        _,
        _,
        _,
        compact_held now id c d a.durable count t a.held e,
        compact_found now id c a.log s a.memory a.kept a.stored,
        turns_of-Agrees id _ _ b,
        b,
      )
