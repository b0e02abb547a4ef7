-- ===== src/Runners/Approval.antt =====
-- crates/runners/src/lib.rs: `resolve_approval`.
use agent_d.Base.{
  ℕ, ◌≤◌, ◌<◌, ◌≡◌, refl, sym, ap, ◌∙◌, ◌⊎◌, inl, inr, Bool, true, false, not, ◌&&◌, ◌||◌, Option,
  none, some, leb, ltb, unwrap_or, if◌then◌else◌, arith, Bool-cases,
}
use agent_d.Base.Text.{Str}
use agent_d.Permissions.Grants.{ApprovalSetting, nobody, human, classifier}

-- The errors that these functions return.
pub data RunnerError : Type 0 where
  invalid_input : Str → RunnerError
  approval_forbidden : ApprovalSetting → ApprovalSetting → RunnerError
  unknown_skill : Str → Str → RunnerError

-- The order of the settings, from strict to loose.
abbrev pub looseness : ApprovalSetting → ℕ
looseness nobody = 0
looseness human = 1
looseness classifier = 2

-- `p.min(resolved)`.
unfoldable pub stricter : ApprovalSetting → ApprovalSetting → ApprovalSetting
stricter p r = if leb (looseness p) (looseness r) then p else r

unfoldable pub with_session : Option ApprovalSetting → Bool → ApprovalSetting → ApprovalSetting
with_session none is_admin resolved = resolved
with_session (some s) is_admin resolved =
    if leb (looseness s) (looseness resolved) || is_admin then s else resolved

unfoldable pub with_requested :
    Option ApprovalSetting → Bool → ApprovalSetting → RunnerError ⊎ ApprovalSetting
with_requested none is_admin resolved = inr resolved
with_requested (some r) is_admin resolved =
    if ltb (looseness resolved) (looseness r) && not is_admin
    then inl (approval_forbidden r resolved)
    else inr r

unfoldable pub with_parent : Option ApprovalSetting → ApprovalSetting → ApprovalSetting
with_parent none resolved = resolved
with_parent (some p) resolved = stricter p resolved

unfoldable pub resolve_approval :
    Option ApprovalSetting
    → Option ApprovalSetting
    → Option ApprovalSetting
    → Bool
    → Option ApprovalSetting
    → RunnerError ⊎ ApprovalSetting
resolve_approval runner_default session requested is_admin parent =
    elim (with_requested requested is_admin
      (with_session session is_admin (unwrap_or human runner_default))) [
        | inl e ↦ inl e
        | inr resolved ↦ inr (with_parent parent resolved)
      ]

-- At most as loose as a setting, where one is given.
abbrev pub AtMost : ApprovalSetting → Option ApprovalSetting → Type 0
AtMost s none = Unit
AtMost s (some t) = looseness s ≤ looseness t

-- The strictest of a setting and of those given.
abbrev pub Strictest :
    ApprovalSetting
    → Option ApprovalSetting
    → Option ApprovalSetting
    → Option ApprovalSetting
    → ApprovalSetting
    → Type 0
Strictest d session requested parent s =
    (looseness s ≤ looseness d)
    × AtMost s session
    × AtMost s requested
    × AtMost s parent
    × ((s ≡ d) ⊎ ((session ≡ some s) ⊎ ((requested ≡ some s) ⊎ (parent ≡ some s))))

-- The stricter of the default and the session's setting, which a caller may not loosen.
abbrev pub Based : ApprovalSetting → Option ApprovalSetting → ApprovalSetting → Type 0
Based d session b = (looseness b ≤ looseness d) × AtMost b session × ((b ≡ d) ⊎ (session ≡ some b))

-- Nothing is asked for that is looser than a setting.
abbrev pub Tightens : Option ApprovalSetting → ApprovalSetting → Type 0
Tightens none b = Unit
Tightens (some r) b = looseness r ≤ looseness b

-- What a caller that is no admin is given or refused, where `b` is the stricter of the default and
-- the session's setting.
abbrev pub IsStrictest :
    ApprovalSetting
    → Option ApprovalSetting
    → Option ApprovalSetting
    → Option ApprovalSetting
    → ApprovalSetting
    → RunnerError ⊎ ApprovalSetting
    → Type 0
IsStrictest d session requested parent b (inr s) =
    Tightens requested b × Strictest d session requested parent s
IsStrictest d session requested parent b (inl e) =
    (r : ApprovalSetting) × (requested ≡ some r)
    × (looseness b < looseness r)
    × (e ≡ approval_forbidden r b)

-- The last of the settings that is given.
abbrev pub last_given :
    ApprovalSetting → Option ApprovalSetting → Option ApprovalSetting → ApprovalSetting
last_given d session (some r) = r
last_given d (some s) none = s
last_given d none none = d

-- The stricter of a setting and of the parent's.
abbrev pub IsUnder : ApprovalSetting → Option ApprovalSetting → ApprovalSetting → Type 0
IsUnder g parent s = (looseness s ≤ looseness g) × AtMost s parent × ((s ≡ g) ⊎ (parent ≡ some s))

with_parent-IsUnder :
    (g : ApprovalSetting) (parent : Option ApprovalSetting)
    → IsUnder g parent (with_parent parent g)
unfolding with_parent stricter
with_parent-IsUnder g none = (omega arith, tt, inl refl)
with_parent-IsUnder g (some p) = elim (Bool-cases (leb (looseness p) (looseness g))) [
  | inl l ↦ rw l (ground arith, omega arith, inr refl)
  | inr l ↦ rw l (omega arith, ground arith, inl refl)
]

AtMost-trans :
    (s t : ApprovalSetting) (o : Option ApprovalSetting)
    → looseness s ≤ looseness t
    → AtMost t o
    → AtMost s o
AtMost-trans s t none l h = tt
AtMost-trans s t (some u) l h = omega (arith, l, h)

module _ (d : ApprovalSetting) where
  with_session-Based :
      (session : Option ApprovalSetting) → Based d session (with_session session false d)
  unfolding with_session
  with_session-Based none = (omega arith, tt, inl refl)
  with_session-Based (some s) = elim (Bool-cases (leb (looseness s) (looseness d))) [
    | inl e ↦ rw e (kept e)
    | inr e ↦ rw e (omega arith, ground arith, inl refl)
  ]
    where
      kept : leb (looseness s) (looseness d) ≡ true → Based d (some s) s
      kept e = (ground arith, omega arith, inr refl)

  -- The stricter of what a run is given and of its parent's.
  under_parent :
      (session requested parent : Option ApprovalSetting) (g s : ApprovalSetting)
      → (looseness g ≤ looseness d)
      → AtMost g session
      → AtMost g requested
      → ((g ≡ d) ⊎ ((session ≡ some g) ⊎ (requested ≡ some g)))
      → IsUnder g parent s
      → Strictest d session requested parent s
  under_parent session requested parent g s a b c o (l, m, inr e) = (
    omega (arith, l, a),
    AtMost-trans s g session l b,
    AtMost-trans s g requested l c,
    m,
    inr (inr (inr e)),
  )
  under_parent session requested parent g s a b c o (l, m, inl e) = (
    omega (arith, l, a),
    AtMost-trans s g session l b,
    AtMost-trans s g requested l c,
    m,
    given o,
  )
    where
      given :
          (g ≡ d) ⊎ ((session ≡ some g) ⊎ (requested ≡ some g))
          → (s ≡ d) ⊎ ((session ≡ some s) ⊎ ((requested ≡ some s) ⊎ (parent ≡ some s)))
      given (inl k) = inl (e ∙ k)
      given (inr (inl k)) = inr (inl (k ∙ ap (λ x. some x) (sym e)))
      given (inr (inr k)) = inr (inr (inl (k ∙ ap (λ x. some x) (sym e))))

  requested-IsStrictest :
      (session requested parent : Option ApprovalSetting) (b : ApprovalSetting)
      → Based d session b
      → IsStrictest d session requested parent b
          (elim (with_requested requested false b) as (λ o. RunnerError ⊎ ApprovalSetting) [
            | inl e ↦ inl e
            | inr resolved ↦ inr (with_parent parent resolved)
          ])
  unfolding with_requested
  requested-IsStrictest session none parent b (l, a, inl e) =
      (tt, under_parent session none parent b _ l a tt (inl e) (with_parent-IsUnder b parent))
  requested-IsStrictest session none parent b (l, a, inr e) =
      (tt, under_parent session none parent b _ l a tt (inr (inl e)) (with_parent-IsUnder b parent))
  requested-IsStrictest session (some r) parent b (l, a, o) =
      elim (Bool-cases (ltb (looseness b) (looseness r))) [
        | inl e ↦ rw e (r, refl, ground arith, refl)
        | inr e ↦
            let h : looseness r ≤ looseness b = ground arith in
            rw e (
              h,
              under_parent session (some r) parent r _ (omega (arith, l, h))
                  (AtMost-trans r b session h a) (omega arith) (inr (inr refl))
                  (with_parent-IsUnder r parent),
            )
      ]

by_admin :
    (d : ApprovalSetting) (session requested parent : Option ApprovalSetting)
    → (s : ApprovalSetting) × (◌≡◌ {A = RunnerError ⊎ ApprovalSetting}
        (elim (with_requested requested true (with_session session true d))
          as (λ o. RunnerError ⊎ ApprovalSetting) [
            | inl e ↦ inl e
            | inr resolved ↦ inr (with_parent parent resolved)
          ])
        (inr s))
      × IsUnder (last_given d session requested) parent s
unfolding with_requested with_session
by_admin d none none parent = (with_parent parent d, refl, with_parent-IsUnder d parent)
by_admin d (some t) none parent = elim (Bool-cases (leb (looseness t) (looseness d))) [
  | inl e ↦ rw e (with_parent parent t, refl, with_parent-IsUnder t parent)
  | inr e ↦ rw e (with_parent parent t, refl, with_parent-IsUnder t parent)
]
by_admin d session (some r) parent =
    elim (Bool-cases (ltb (looseness (with_session session true d)) (looseness r))) [
      | inl e ↦ rw e (with_parent parent r, refl, with_parent-IsUnder r parent)
      | inr e ↦ rw e (with_parent parent r, refl, with_parent-IsUnder r parent)
    ]

-- A caller that is no admin is refused exactly if it asks for a looser setting than the stricter of
-- the runner's default (`human` if it has none) and the session's, with both in the error, and is
-- otherwise given the strictest of these two, what it asks for and the parent's. An admin is never
-- refused, and given the stricter of the parent's and the last that is given of the default, the
-- session's and what it asks for.
pub resolve_approval-IsStrictest :
    (runner_default session requested parent : Option ApprovalSetting)
    → ((b : ApprovalSetting) × Based (unwrap_or human runner_default) session b
        × IsStrictest
            (unwrap_or human runner_default)
            session
            requested
            parent
            b
            (resolve_approval runner_default session requested false parent))
      × ((s : ApprovalSetting) × (resolve_approval runner_default session requested true parent
            ≡ inr s)
          × IsUnder (last_given (unwrap_or human runner_default) session requested) parent s)
unfolding resolve_approval
resolve_approval-IsStrictest runner_default session requested parent = (
  (
    with_session session false d,
    with_session-Based d session,
    requested-IsStrictest d session requested parent (with_session session false d)
        (with_session-Based d session),
  ),
  by_admin d session requested parent,
)
  where
    d : ApprovalSetting
    d = unwrap_or human runner_default
