-- ===== src/Sessions/Store/Invariant.antt =====
-- The store's invariant, and that every call keeps it.
use agent_d.Base.{
  ◌≡◌, refl, sym, ap, ◌∙◌, ◌⊎◌, inl, inr, Bool, true, false, List, none, some, length, any,
  Bool-cases, any_of_In, and_iff,
}
use mathlib.Core.Option.{some-injective}
use agent_d.Base.Text.{Str, str_eq, str_eq_iff, str_eq_refl}
use agent_d.Base.Keys.{str_key}
use agent_d.Base.Maps.{Map, get, insert, values, get-insert, In-values_of_get}
use agent_d.Sessions.{SessionMeta, u64}
use agent_d.Sessions.Scoping.{same_text_iff}
use agent_d.Sessions.Store.{has_label, Store, empty}

pub got :
    (id i : Str) (m a : SessionMeta) (s : Map Str SessionMeta)
    → get i (insert id m s) ≡ some a
    → ((id ≡ i) × (m ≡ a)) ⊎ ((str_eq id i ≡ false) × (get i s ≡ some a))
got id i m a s e = elim (Bool-cases (str_eq id i)) [
  | inl h ↦ inl ((str_eq_iff id i).0 h, some-injective _ _ (rw (get-insert id i m s, h) at e))
  | inr h ↦ inr (h, rw (get-insert id i m s, h) at e)
]

pub get_own : {V : Type 0} (id : Str) (v : V) (s : Map Str V) → get id (insert id v s) ≡ some v
get_own id v s = rw (get-insert id id v s, str_eq_refl id)

pub has_label_of :
    (owner label : Str) (b : SessionMeta)
    → b.owner ≡ owner
    → b.label ≡ some label
    → has_label owner label b ≡ true
unfolding has_label
has_label_of owner label b o l = (and_iff _ _).1 ((str_eq_iff _ _).1 o, (same_text_iff _ _).1 l)

module _ {M : Type 0} where
  -- Each session is kept under its id, beside a log of as many turns as its metadata says, and no
  -- two sessions of one owner have one label.
  pub record IsSound (s : Store M) : Type 0 where
    pub keyed : (id : Str) (m : SessionMeta) → get id s.metas ≡ some m → m.id ≡ id
    pub counted :
        (id : Str) (m : SessionMeta)
        → get id s.metas ≡ some m
        → (l : List M) × (get id s.turns ≡ some l) × (m.turn_count ≡ u64 (length l))
    pub no_strays : (id : Str) → get id s.metas ≡ none → get id s.turns ≡ none
    pub labels :
        (i j : Str) (a b : SessionMeta) (l : Str)
        → get i s.metas ≡ some a
        → get j s.metas ≡ some b
        → a.owner ≡ b.owner
        → a.label ≡ some l
        → b.label ≡ some l
        → i ≡ j

  pub empty-IsSound : IsSound (empty {M = M})
  unfolding get
  empty-IsSound = record {
    keyed = λ id m e. cc;
    counted = λ id m e. cc;
    no_strays = λ id e. refl;
    labels = λ i j a b l e f g h k. cc;
  }

  -- No other session of the owner has the label.
  abbrev pub Fresh : Str → SessionMeta → Store M → Type 0
  Fresh id m s =
      (j : Str) (b : SessionMeta) (l : Str)
      → get j s.metas ≡ some b
      → b.owner ≡ m.owner
      → m.label ≡ some l
      → b.label ≡ some l
      → j ≡ id

  -- A write of one session's metadata, beside logs that differ in this session's only.
  module _ (id : Str) (m : SessionMeta) (l : List M) (s : Store M) (logs : Map Str (List M))
      (v : IsSound s) (e : m.id ≡ id) (c : m.turn_count ≡ u64 (length l)) (f : Fresh id m s)
      (own : get id logs ≡ some l)
      (others : (j : Str) → str_eq id j ≡ false → get j logs ≡ get j s.turns) where
    put_labels :
        (i j : Str) (a b : SessionMeta) (k : Str)
        → get i (insert id m s.metas) ≡ some a
        → get j (insert id m s.metas) ≡ some b
        → a.owner ≡ b.owner
        → a.label ≡ some k
        → b.label ≡ some k
        → i ≡ j
    put_labels i j a b k x y o p q = elim (got id i m a s.metas x) [
      | inl (h, n) ↦ elim (got id j m b s.metas y) [
        | inl (h', n') ↦ sym h ∙ h'
        | inr (_, n') ↦
            sym h
            ∙ sym (
                f j b k n' (sym o ∙ ap (λ (t : SessionMeta). t.owner) (sym n))
                  (ap (λ (t : SessionMeta). t.label) n ∙ p) q)
      ]
      | inr (_, n) ↦ elim (got id j m b s.metas y) [
        | inl (h', n') ↦
            f i a k n (o ∙ ap (λ (t : SessionMeta). t.owner) (sym n'))
              (ap (λ (t : SessionMeta). t.label) n' ∙ q) p
            ∙ h'
        | inr (_, n') ↦ v.labels i j a b k n n' o p q
      ]
    ]

    put_counted :
        (j : Str) (b : SessionMeta)
        → get j (insert id m s.metas) ≡ some b
        → (k : List M) × (get j logs ≡ some k) × (b.turn_count ≡ u64 (length k))
    put_counted j b g = elim (got id j m b s.metas g) [
      | inl (h, n) ↦ (
        l,
        ap (λ i. get i logs) (sym h) ∙ own,
        ap (λ (t : SessionMeta). t.turn_count) (sym n) ∙ c,
      )
      | inr (h, n) ↦ let (k, t, o) = v.counted j b n in (k, others j h ∙ t, o)
    ]

    put_keyed : (j : Str) (b : SessionMeta) → get j (insert id m s.metas) ≡ some b → b.id ≡ j
    put_keyed j b g = elim (got id j m b s.metas g) [
      | inl (h, n) ↦ ap (λ (t : SessionMeta). t.id) (sym n) ∙ e ∙ h
      | inr (h, n) ↦ v.keyed j b n
    ]

    put_no_strays : (j : Str) → get j (insert id m s.metas) ≡ none → get j logs ≡ none
    put_no_strays j g = elim (Bool-cases (str_eq id j)) [
      | inl h ↦ cc (rw (get-insert id j m s.metas, h) at g)
      | inr h ↦ others j h ∙ v.no_strays j (rw (get-insert id j m s.metas, h) at g)
    ]

    pub put-IsSound : IsSound (record { metas = insert id m s.metas; turns = logs })
    put-IsSound = record {
      keyed = put_keyed;
      counted = put_counted;
      no_strays = put_no_strays;
      labels = put_labels;
    }

  pub own_log : (id : Str) (l : List M) (s : Map Str (List M)) → get id (insert id l s) ≡ some l
  own_log = get_own

  pub other_logs :
      (id : Str) (l : List M) (s : Map Str (List M)) (j : Str)
      → str_eq id j ≡ false
      → get j (insert id l s) ≡ get j s
  other_logs id l s j h = rw (get-insert id j l s, h)

  -- Metadata that keeps its owner and its label clashes with nothing.
  pub Fresh-of_same :
      (id : Str) (m m' : SessionMeta) (s : Store M)
      → IsSound s
      → get id s.metas ≡ some m
      → m'.owner ≡ m.owner
      → m'.label ≡ m.label
      → Fresh id m' s
  Fresh-of_same id m m' s v e o l j b k g p q r = v.labels j id b m k g e (p ∙ o) r (sym l ∙ q)

  -- No session has the label: the test of `create`, and that of `relabel`.
  pub Fresh-of_test :
      (id : Str) (m : SessionMeta) (s : Store M) (test : SessionMeta → Bool)
      → any test (values s.metas) ≡ false
      → ((j : Str) (b : SessionMeta) (l : Str)
          → get j s.metas ≡ some b
          → b.owner ≡ m.owner
          → m.label ≡ some l
          → b.label ≡ some l
          → (j ≡ id) ⊎ (test b ≡ true))
      → Fresh id m s
  Fresh-of_test id m s test none_has h j b l g o p q = elim (h j b l g o p q) [
    | inl e ↦ e
    | inr t ↦ cc (none_has, any_of_In test (values s.metas) b (In-values_of_get j b s.metas g) t)
  ]
