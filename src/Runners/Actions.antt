-- ===== src/Runners/Actions.antt =====
-- What a runner may call, by its composition.
use agent_d.Base.{
  ◌≡◌, ◌⊎◌, ◌↔◌, refl, sym, ap, subst, ◌∙◌, inl, inr, true, false, List, [], ◌∷◌, ◌++◌, none, some,
  any, In, Bool-cases, Option-cases, In-append_cases, In-append_left, In-append_right, In-of_any,
  any_of_In,
}
use mathlib.Core.Option.{some-injective}
use agent_d.Base.Text.{Str, str_eq, str_eq_iff}
use agent_d.Base.Keys.{str_key}
use agent_d.Base.Maps.{Map, get}
use agent_d.Runners.Approval.{RunnerError, unknown_skill}
use agent_d.Runners.Prompt.{
  SkillDef, RunnerDef, RunnerComposition, push_new, push_each, push_part, of_skills, compose,
}

-- Each element once.
abbrev pub Once : List Str → Type 0
Once [] = Unit
Once (a ∷ l) = (In a l → ⊥) × Once l

Once-snoc : (l : List Str) (a : Str) → Once l → (In a l → ⊥) → Once (l ++ a ∷ [])
Once-snoc [] a u n = (λ i. elim i [ ], tt)
Once-snoc (b ∷ l) a (p, u) n = (
  λ i. elim (In-append_cases b l (a ∷ []) i) [
    | inl j ↦ p j
    | inr j ↦ elim j [ inl e ↦ n (inl (sym e)) | inr k ↦ k ]
  ],
  Once-snoc l a u (λ i. n (inr i)),
)

push_new-Once : (a : Str) (l : List Str) → Once l → Once (push_new a l)
unfolding push_new
push_new-Once a l u = elim (Bool-cases (any (str_eq a) l)) [
  | inl e ↦ rw e u
  | inr e ↦ rw e (Once-snoc l a u (λ i. absent e i))
]
  where
    absent : any (str_eq a) l ≡ false → In a l → ⊥
    absent e i = cc (sym e ∙ any_of_In (str_eq a) l a i ((str_eq_iff a a).1 refl))

push_each-Once : (l actions : List Str) → Once actions → Once (push_each l actions)
unfolding push_each
push_each-Once [] actions u = u
push_each-Once (a ∷ l) actions u = push_each-Once l (push_new a actions) (push_new-Once a actions u)

In-push_new : (b a : Str) (l : List Str) → In b (push_new a l) ↔ ((b ≡ a) ⊎ In b l)
unfolding push_new
In-push_new b a l = elim (Bool-cases (any (str_eq a) l)) [
  | inl e ↦ rw e (λ i. inr i, λ o. elim o [ inl p ↦ rw p (present e) | inr i ↦ i ])
  | inr e ↦ rw e (
    λ i. elim (In-append_cases b l (a ∷ []) i) [
      | inl j ↦ inr j
      | inr j ↦ elim j [ inl p ↦ inl p | inr k ↦ elim k [ ] ]
    ],
    λ o. elim o [
      | inl p ↦ In-append_right b l (a ∷ []) (inl p)
      | inr i ↦ In-append_left b l (a ∷ []) i
    ],
  )
]
  where
    present : any (str_eq a) l ≡ true → In a l
    present e = let (c, i, q) = In-of_any (str_eq a) l e in rw ((str_eq_iff a c).0 q) i

In-push_each :
    (b : Str) (l actions : List Str) → In b (push_each l actions) ↔ (In b l ⊎ In b actions)
unfolding push_each
In-push_each b [] actions = (λ i. inr i, λ o. elim o [ inl n ↦ elim n [ ] | inr i ↦ i ])
In-push_each b (a ∷ l) actions =
    let (f, g) = In-push_each b l (push_new a actions) in
    let (h, k) = In-push_new b a actions in
    (
      λ i. elim (f i) [
        | inl j ↦ inl (inr j)
        | inr j ↦ elim (h j) [ inl p ↦ inl (inl p) | inr n ↦ inr n ]
      ],
      λ o. elim o [
        | inl j ↦ elim j [ inl p ↦ g (inr (k (inl p))) | inr n ↦ g (inl n) ]
        | inr n ↦ g (inr (k (inr n)))
      ],
    )

module _ (registry : Map Str SkillDef) where
  -- One of these skills has the action.
  abbrev pub HasAction : List Str → Str → Type 0
  HasAction names a =
      (n : Str) × In n names × ((s : SkillDef) × (get n registry ≡ some s) × In a s.actions)

  -- What is made of the skills, or a skill that there is not.
  abbrev IsGathered : List Str → List Str → Str ⊎ (List Str × List Str) → Type 0
  IsGathered names actions (inl n) = In n names × (get n registry ≡ none)
  IsGathered names actions (inr (p, l)) =
      (Once actions → Once l) × ((a : Str) → In a l ↔ (HasAction names a ⊎ In a actions))

  -- With the actions of one skill more.
  with_skill :
      (n : Str) (s : SkillDef) (names actions : List Str) (a : Str)
      → get n registry ≡ some s
      → (HasAction names a ⊎ In a (push_each s.actions actions))
        ↔ (HasAction (n ∷ names) a ⊎ In a actions)
  with_skill n s names actions a e = (there, back)
    where
      there :
          HasAction names a ⊎ In a (push_each s.actions actions)
          → HasAction (n ∷ names) a ⊎ In a actions
      there (inl (m, j, x)) = inl (m, inr j, x)
      there (inr j) = elim ((In-push_each a s.actions actions).0 j) [
        | inl k ↦ inl (n, inl refl, (s, e, k))
        | inr k ↦ inr k
      ]

      back :
          HasAction (n ∷ names) a ⊎ In a actions
          → HasAction names a ⊎ In a (push_each s.actions actions)
      back (inr k) = inr ((In-push_each a s.actions actions).1 (inr k))
      back (inl (m, inr j, x)) = inl (m, j, x)
      back (inl (m, inl p, (t, g, k))) =
          let q : t ≡ s = some-injective _ _ (sym g ∙ ap (λ z. get z registry) p ∙ e) in
          inr ((In-push_each a s.actions actions).1 (inl (subst (λ z. In a z.actions) q k)))

  with_more :
      (n : Str) (s : SkillDef) (names actions : List Str)
      → get n registry ≡ some s
      → (r : Str ⊎ (List Str × List Str)) → IsGathered names (push_each s.actions actions) r
      → IsGathered (n ∷ names) actions r
  with_more n s names actions e (inl m) (i, g) = (inr i, g)
  with_more n s names actions e (inr (p, l)) (u, g) = (
    λ w. u (push_each-Once s.actions actions w),
    λ a. let (f, h) = with_skill n s names actions a e in (λ i. f ((g a).0 i), λ o. (g a).1 (h o)),
  )

  of_skills-IsGathered :
      (names parts actions : List Str)
      → IsGathered names actions (of_skills registry names parts actions)
  unfolding of_skills
  of_skills-IsGathered [] parts actions =
      (λ u. u, λ a. (λ i. inr i, λ o. elim o [ inl h ↦ elim h.1 [ ] | inr i ↦ i ]))
  of_skills-IsGathered (n ∷ names) parts actions = elim (Option-cases (get n registry)) [
    | inl e ↦ rw (e, of_skills) (inl refl, e)
    | inr (s, e) ↦
        rw (e, of_skills)
          (with_more n s names actions e _
            (of_skills-IsGathered names (push_part s.system parts) (push_each s.actions actions)))
  ]

  -- What a composition is, by the skills of the runner.
  abbrev pub IsComposed : RunnerDef → RunnerError ⊎ RunnerComposition → Type 0
  IsComposed d (inl e) =
      (n : Str) × (e ≡ unknown_skill d.name n) × In n d.skills × (get n registry ≡ none)
  IsComposed d (inr c) =
      Once c.allowed_actions
      × ((a : Str) → In a c.allowed_actions ↔ (In a d.allowed_actions ⊎ HasAction d.skills a))

  composed :
      (d : RunnerDef) (r : Str ⊎ (List Str × List Str))
      → IsGathered d.skills [] r
      → of_skills registry d.skills [] [] ≡ r
      → IsComposed d (compose d registry)
  unfolding compose
  composed d (inl n) (i, g) e = rw (e, compose) (n, refl, i, g)
  composed d (inr (p, l)) (u, g) e =
      rw (e, compose)
        (
          push_each-Once d.allowed_actions l (u tt),
          λ a.
              let (f, h) = In-push_each a d.allowed_actions l in
              (
                λ i. elim (f i) [
                  | inl j ↦ inl j
                  | inr j ↦ elim ((g a).0 j) [ inl x ↦ inr x | inr n ↦ elim n [ ] ]
                ],
                λ o. elim o [ inl j ↦ h (inl j) | inr x ↦ h (inr ((g a).1 (inl x))) ],
              ),
        )

  -- A composition lists each of its own actions and of its skills'
  -- once and no other; it fails by the name of a skill that there is not.
  pub compose-IsComposed : (d : RunnerDef) → IsComposed d (compose d registry)
  compose-IsComposed d =
      composed d (of_skills registry d.skills [] []) (of_skills-IsGathered d.skills [] []) refl
