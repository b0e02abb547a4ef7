-- ===== src/Sessions/Store/Steps.antt =====
-- The calls of the store as steps, and what every store that they reach has.
use agent_d.Base.{
  drop, ℕ, ◌+◌, ◌≡◌, refl, sym, ap, ◌∙◌, ◌⊎◌, inl, inr, true, false, not, List, [], ◌∷◌, ◌++◌,
  Option, none, some, min, arith, length, length-append, any, Bool-cases, Option-cases, and_iff,
}
use agent_d.Base.Text.{Str, str_eq, str_eq_iff}
use agent_d.Base.Keys.{str_key}
use agent_d.Base.Maps.{Map, get, insert, remove, values, get-remove}
use agent_d.Permissions.Grants.{ApprovalSetting}
use agent_d.Sessions.{SessionMeta, NewSession, Usage, u64, fresh_meta}
use agent_d.Sessions.Store.{
  SessionError, Result, ok, err, panicked, has_label, Compaction, Store, empty, create, append,
  appended, compact, compacted, delete, taken, relabelled, relabel, set_approval, not_found,
  label_taken,
}
use agent_d.Sessions.Store.Invariant.{
  IsSound, empty-IsSound, Fresh, put-IsSound, own_log, other_logs, Fresh-of_same, Fresh-of_test,
  has_label_of,
}

left_of_remove :
    {V : Type 0} (id j : Str) (s : Map Str V) (m : V)
    → get j (remove id s) ≡ some m
    → (str_eq id j ≡ false) × (get j s ≡ some m)
left_of_remove id j s m e = elim (Bool-cases (str_eq id j)) [
  | inl h ↦ cc (rw (get-remove id j s, h) at e)
  | inr h ↦ (h, rw (get-remove id j s, h) at e)
]

pub u64_add : (a b : ℕ) → u64 (u64 a + b) ≡ u64 (a + b)
u64_add a b = omega arith

module _ {M : Type 0} where
  -- One call that succeeds; the id of a created session is a new one.
  pub data Step : Store M → Store M → Type 0 where
    created :
        {s t : Store M} {m : SessionMeta} (id : Str) (now : ℕ) (new : NewSession)
        → get id s.metas ≡ none
        → create id now new s ≡ ok (m, t)
        → Step s t
    took_turns :
        {s t : Store M} {m : SessionMeta} (now : ℕ) (id : Str) (new : List M) (u : Usage)
        → append now id new u s ≡ ok (m, t)
        → Step s t
    shortened :
        {s t : Store M} {m : SessionMeta} (now : ℕ) (id : Str) (c : Compaction M)
        → compact now id c s ≡ ok (m, t)
        → Step s t
    deleted : {s : Store M} (id : Str) → Step s (delete id s).1
    renamed :
        {s t : Store M} {m : SessionMeta} (now : ℕ) (id : Str) (label : Option Str)
        → relabel now id label s ≡ ok (m, t)
        → Step s t
    set :
        {s t : Store M} {m : SessionMeta} (now : ℕ) (id : Str) (a : Option ApprovalSetting)
        → set_approval now id a s ≡ ok (m, t)
        → Step s t

  pub data Steps : Store M → Store M → Type 0 where
    start : {s : Store M} → Steps s s
    next : {s t u : Store M} → Steps s t → Step t u → Steps s u

  -- A call's result keeps the invariant: no panic, and a sound store if there is a new one.
  abbrev pub IsSoundResult : Result (SessionMeta × Store M) → Type 0
  IsSoundResult (ok (m, t)) = IsSound t
  IsSoundResult (err e) = Unit
  IsSoundResult panicked = ⊥

  pub append_found :
      (now : ℕ) (id : Str) (new l : List M) (u : Usage) (s : Store M) (m : SessionMeta)
      → get id s.metas ≡ some m
      → get id s.turns ≡ some l
      → append now id new u s
        ≡ ok (
          appended now (length new) u m,
          record {
            metas = insert id (appended now (length new) u m) s.metas;
            turns = insert id (l ++ new) s.turns;
          },
        )
  unfolding append
  append_found now id new l u s m g k = rw (g, k, append) refl

  pub compact_found :
      (now : ℕ) (id : Str) (c : Compaction M) (l : List M) (s : Store M) (m : SessionMeta)
      → get id s.metas ≡ some m
      → get id s.turns ≡ some l
      → let log = c.summary ∷ drop (min c.drop_count (length l)) l in
        compact now id c s
        ≡ ok (
          compacted now (length log) m,
          record {
            metas = insert id (compacted now (length log) m) s.metas;
            turns = insert id log s.turns;
          },
        )
  unfolding compact
  compact_found now id c l s m g k = rw (k, g, compact) refl

  result-IsSound :
      (r : Result (SessionMeta × Store M)) (m : SessionMeta) (t : Store M)
      → r ≡ ok (m, t)
      → IsSound t
      → IsSoundResult r
  result-IsSound r m t e v = rw e v

  failed-IsSound :
      (r : Result (SessionMeta × Store M)) (x : SessionError) → r ≡ err x → IsSoundResult r
  failed-IsSound r x e = rw e tt

  pub append-IsSound :
      (now : ℕ) (id : Str) (new : List M) (u : Usage) (s : Store M)
      → IsSound s
      → IsSoundResult (append now id new u s)
  unfolding append appended
  append-IsSound now id new u s v = elim (Option-cases (get id s.metas)) [
    | inl g ↦ failed-IsSound _ (not_found id) (rw (g, append) refl)
    | inr (m, g) ↦
        let (l, k, c) = v.counted id m g in
        result-IsSound _ _ _ (append_found now id new l u s m g k) (
          put-IsSound id (appended now (length new) u m) (l ++ new) s (insert id (l ++ new) s.turns)
            v (v.keyed id m g)
            (ap (λ n. u64 (n + length new)) c
              ∙ u64_add (length l) (length new)
              ∙ ap u64 (sym (length-append l new)))
            (Fresh-of_same id m (appended now (length new) u m) s v g refl refl)
            (own_log id (l ++ new) s.turns) (other_logs id (l ++ new) s.turns))
  ]

  pub compact-IsSound :
      (now : ℕ) (id : Str) (c : Compaction M) (s : Store M)
      → IsSound s
      → IsSoundResult (compact now id c s)
  unfolding compact compacted
  compact-IsSound now id c s v = elim (Option-cases (get id s.metas)) [
    | inl g ↦ failed-IsSound _ (not_found id) (rw (v.no_strays id g, compact) refl)
    | inr (m, g) ↦
        let (l, k, n) = v.counted id m g in
        let log = c.summary ∷ drop (min c.drop_count (length l)) l in
        result-IsSound _ _ _ (compact_found now id c l s m g k) (
          put-IsSound id (compacted now (length log) m) log s (insert id log s.turns) v
            (v.keyed id m g) refl
            (Fresh-of_same id m (compacted now (length log) m) s v g refl refl)
            (own_log id log s.turns) (other_logs id log s.turns))
  ]

  set_approval-IsSound :
      (now : ℕ) (id : Str) (a : Option ApprovalSetting) (s : Store M)
      → IsSound s
      → IsSoundResult (set_approval now id a s)
  unfolding set_approval
  set_approval-IsSound now id a s v = elim (Option-cases (get id s.metas)) [
    | inl g ↦ failed-IsSound _ (not_found id) (rw (g, set_approval) refl)
    | inr (m, g) ↦
        let (l, k, n) = v.counted id m g in
        let m' : SessionMeta = record m { approval = a; updated_at = now } in
        result-IsSound _ m' (record s { metas = insert id m' s.metas }) (rw (g, set_approval) refl)
          (put-IsSound id m' l s s.turns v (v.keyed id m g) n
            (Fresh-of_same id m m' s v g refl refl) k (λ j h. refl))
  ]

  -- The write of a relabelling whose label clashes with nothing.
  renamed_store :
      (now : ℕ) (id : Str) (label : Option Str) (s : Store M) (m : SessionMeta)
      → IsSound s
      → get id s.metas ≡ some m
      → Fresh id (relabelled now label m) s
      → IsSound (record s { metas = insert id (relabelled now label m) s.metas })
  unfolding relabelled
  renamed_store now id label s m v g f =
      let (l, k, n) = v.counted id m g in
      put-IsSound id (relabelled now label m) l s s.turns v (v.keyed id m g) n f k (λ j h. refl)

  relabel-IsSound :
      (now : ℕ) (id : Str) (label : Option Str) (s : Store M)
      → IsSound s
      → IsSoundResult (relabel now id label s)
  unfolding relabel relabelled taken
  relabel-IsSound now id none s v = elim (Option-cases (get id s.metas)) [
    | inl g ↦ failed-IsSound _ (not_found id) (rw (g, relabel) refl)
    | inr (m, g) ↦
        result-IsSound _ (relabelled now none m)
          (record s { metas = insert id (relabelled now none m) s.metas }) (rw (g, relabel) refl)
          (renamed_store now id none s m v g (λ j b x y z w u. cc))
  ]
  relabel-IsSound now id (some x) s v = elim (Option-cases (get id s.metas)) [
    | inl g ↦ failed-IsSound _ (not_found id) (rw (g, relabel) refl)
    | inr (m, g) ↦ elim (Bool-cases (any (taken id m.owner x) (values s.metas))) [
      | inl h ↦ failed-IsSound _ (label_taken x) (rw (g, h, relabel) refl)
      | inr h ↦
          result-IsSound _ (relabelled now (some x) m)
            (record s { metas = insert id (relabelled now (some x) m) s.metas })
            (rw (g, h, relabel) refl)
            (renamed_store now id (some x) s m v g
              (Fresh-of_test id (relabelled now (some x) m) s (taken id m.owner x) h (clash m g)))
    ]
  ]
    where
      clash :
          (m : SessionMeta)
          → get id s.metas ≡ some m
          → (j : Str) (b : SessionMeta) (l : Str) → get j s.metas ≡ some b
          → b.owner ≡ m.owner
          → some x ≡ some l
          → b.label ≡ some l
          → (j ≡ id) ⊎ (taken id m.owner x b ≡ true)
      clash m g j b l e o p q = elim (Bool-cases (str_eq b.id id)) [
        | inl h ↦ inl (sym (v.keyed j b e) ∙ (str_eq_iff b.id id).0 h)
        | inr h ↦ inr ((and_iff _ _).1 (ap not h, has_label_of m.owner x b o (q ∙ sym p)))
      ]

  delete-IsSound : (id : Str) (s : Store M) → IsSound s → IsSound (delete id s).1
  unfolding delete
  delete-IsSound id s v = record {
    keyed = λ j m e. v.keyed j m (left_of_remove id j s.metas m e).1;
    counted = λ j m e.
        let (h, g) = left_of_remove id j s.metas m e in
        let (l, k, n) = v.counted j m g in (l, rw (get-remove id j s.turns, h) k, n);
    no_strays = λ j e. elim (Bool-cases (str_eq id j)) [
      | inl h ↦ rw (get-remove id j s.turns, h) refl
      | inr h ↦
          rw (get-remove id j s.turns, h) (v.no_strays j (rw (get-remove id j s.metas, h) at e))
    ];
    labels = λ i j a b l e f.
        v.labels i j a b l (left_of_remove id i s.metas a e).1 (left_of_remove id j s.metas b f).1;
  }

  create_stored :
      (id : Str) (now : ℕ) (new : NewSession) (s : Store M)
      → get id s.metas ≡ none
      → IsSound s
      → Fresh id (fresh_meta id now new) s
      → IsSound (record {
        metas = insert id (fresh_meta id now new) s.metas;
        turns = insert id [] s.turns;
      })
  unfolding fresh_meta
  create_stored id now new s g v f =
      put-IsSound id (fresh_meta id now new) [] s (insert id [] s.turns) v refl refl f
        (own_log id [] s.turns) (other_logs id [] s.turns)

  create-IsSound :
      (id : Str) (now : ℕ) (new : NewSession) (s : Store M)
      → get id s.metas ≡ none
      → IsSound s
      → IsSoundResult (create id now new s)
  unfolding create fresh_meta
  create-IsSound id now new s g v = elim (Option-cases new.label) [
    | inl e ↦ stored (simp (e, create)) (λ j b l x y z w. cc)
    | inr (l, e) ↦ elim (Bool-cases (any (has_label new.owner l) (values s.metas))) [
      | inl h ↦ failed-IsSound _ (label_taken l) (simp (e, h, create))
      | inr h ↦ stored (simp (e, h, create)) (
          Fresh-of_test id (fresh_meta id now new) s (has_label new.owner l) h
            (λ j b k x y z w. inr (has_label_of new.owner l b y (w ∙ sym z ∙ e))))
    ]
  ]
    where
      stored :
          create id now new s
            ≡ ok (
              fresh_meta id now new,
              record {
                metas = insert id (fresh_meta id now new) s.metas;
                turns = insert id [] s.turns;
              },
            )
          → Fresh id (fresh_meta id now new) s
          → IsSoundResult (create id now new s)
      stored e f = result-IsSound _ (fresh_meta id now new) _ e (create_stored id now new s g v f)

  IsSound-of :
      (r : Result (SessionMeta × Store M)) (m : SessionMeta) (t : Store M)
      → r ≡ ok (m, t)
      → IsSoundResult r
      → IsSound t
  IsSound-of r m t e v = rw e at v

  Step-IsSound : {s t : Store M} → Step s t → IsSound s → IsSound t
  Step-IsSound (created id now new g e) v = IsSound-of _ _ _ e (create-IsSound id now new _ g v)
  Step-IsSound (took_turns now id new u e) v = IsSound-of _ _ _ e (append-IsSound now id new u _ v)
  Step-IsSound (shortened now id c e) v = IsSound-of _ _ _ e (compact-IsSound now id c _ v)
  Step-IsSound (deleted id) v = delete-IsSound id _ v
  Step-IsSound (renamed now id label e) v = IsSound-of _ _ _ e (relabel-IsSound now id label _ v)
  Step-IsSound (set now id a e) v = IsSound-of _ _ _ e (set_approval-IsSound now id a _ v)

  -- In every store that calls reach from the empty one, where each session is created with a new id,
  -- a session is kept under its id, beside a log of as many turns as it counts, modulo 2 to the 64,
  -- and no two sessions of one owner share a label.
  pub reached-IsSound : {s : Store M} → Steps empty s → IsSound s
  reached-IsSound start = empty-IsSound
  reached-IsSound (next p q) = Step-IsSound q (reached-IsSound p)
