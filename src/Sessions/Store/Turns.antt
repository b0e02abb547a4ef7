-- ===== src/Sessions/Store/Turns.antt =====
-- What `append` and `compact` do to a session's log and to the others'.
use agent_d.Base.{
  drop, ℕ, ◌+◌, ◌≡◌, refl, sym, ap, ◌∙◌, false, List, ◌∷◌, ◌++◌, some, min, length, length-append,
}
use agent_d.Base.Text.{Str, str_eq}
use agent_d.Base.Keys.{str_key}
use agent_d.Base.Maps.{get, insert}
use agent_d.Sessions.{SessionMeta, Usage, u64}
use agent_d.Sessions.Store.{
  Result, ok, Compaction, Store, empty, append, appended, compact, compacted, turns_of,
}
use agent_d.Sessions.Store.Invariant.{get_own, own_log, other_logs}
use agent_d.Sessions.Store.Steps.{Steps, append_found, compact_found, reached-IsSound, u64_add}

count_compacted : (now n : ℕ) (m : SessionMeta) → (compacted now n m).turn_count ≡ u64 n
unfolding compacted
count_compacted now n m = refl

count_appended :
    {M : Type 0} (now : ℕ) (u : Usage) (m : SessionMeta) (old new : List M)
    → m.turn_count ≡ u64 (length old)
    → (appended now (length new) u m).turn_count ≡ u64 (length (old ++ new))
unfolding appended
count_appended now u m old new c =
    ap (λ n. u64 (n + length new)) c
    ∙ u64_add (length old) (length new)
    ∙ ap u64 (sym (length-append old new))

module _ {M : Type 0} where
  turns_of_found :
      (id : Str) (s : Store M) (l : List M) → get id s.turns ≡ some l → turns_of id s ≡ ok l
  unfolding turns_of
  turns_of_found id s l e = rw (e, turns_of) refl

  turns_of_same :
      (id : Str) (s t : Store M) → get id s.turns ≡ get id t.turns → turns_of id s ≡ turns_of id t
  unfolding turns_of
  turns_of_same id s t e = rw (e, turns_of) refl

  -- The session's turns are `old`, a call gives metadata that counts `new`, and afterwards the
  -- session's turns are `new` and every other session's are as they were.
  pub record Rewrites (id : Str) (s : Store M) (r : Result (SessionMeta × Store M))
      (old new : List M) : Type 0 where
    pub before : turns_of id s ≡ ok old
    pub meta : SessionMeta
    pub result : Store M
    pub returned : r ≡ ok (meta, result)
    pub stored : get id result.metas ≡ some meta
    pub counted : meta.turn_count ≡ u64 (length new)
    pub after : turns_of id result ≡ ok new
    pub others : (j : Str) → str_eq id j ≡ false → turns_of j result ≡ turns_of j s

  -- An append to a session of a store that calls reach succeeds, counts every turn, and leaves the
  -- session with its turns and the new ones after them and every other session with its own.
  pub append-Rewrites :
      (s : Store M) (now : ℕ) (id : Str) (new : List M) (u : Usage) (m : SessionMeta)
      → Steps empty s
      → get id s.metas ≡ some m
      → (old : List M) × Rewrites id s (append now id new u s) old (old ++ new)
  append-Rewrites s now id new u m p g =
      let v = reached-IsSound p in
      let (old, k, c) = v.counted id m g in
      let m' = appended now (length new) u m in
      (
        old,
        record {
          before = turns_of_found id s old k;
          meta = m';
          result = record { metas = insert id m' s.metas; turns = insert id (old ++ new) s.turns };
          returned = append_found now id new old u s m g k;
          stored = get_own id m' s.metas;
          counted = count_appended now u m old new c;
          after = turns_of_found id _ (old ++ new) (own_log id (old ++ new) s.turns);
          others = λ j h. turns_of_same j _ s (other_logs id (old ++ new) s.turns j h);
        },
      )

  -- A compaction of a session of a store that calls reach succeeds, counts what is left, and leaves
  -- the session with the summary and the turns after those dropped, never more than there were, and
  -- every other session with its own.
  pub compact-Rewrites :
      (s : Store M) (now : ℕ) (id : Str) (c : Compaction M) (m : SessionMeta)
      → Steps empty s
      → get id s.metas ≡ some m
      → (old : List M) × Rewrites id s
          (compact now id c s)
          old
          (c.summary ∷ drop (min c.drop_count (length old)) old)
  compact-Rewrites s now id c m p g =
      let v = reached-IsSound p in
      let (old, k, n) = v.counted id m g in
      let new = c.summary ∷ drop (min c.drop_count (length old)) old in
      let m' = compacted now (length new) m in
      (
        old,
        record {
          before = turns_of_found id s old k;
          meta = m';
          result = record { metas = insert id m' s.metas; turns = insert id new s.turns };
          returned = compact_found now id c old s m g k;
          stored = get_own id m' s.metas;
          counted = count_compacted now (length new) m;
          after = turns_of_found id _ new (own_log id new s.turns);
          others = λ j h. turns_of_same j _ s (other_logs id new s.turns j h);
        },
      )
