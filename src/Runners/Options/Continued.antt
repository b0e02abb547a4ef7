-- ===== src/Runners/Options/Continued.antt =====
-- A history that is accepted stays so when it is compacted.
use agent_d.Base.{
  ℕ, zero, suc, ◌≡◌, refl, sym, ap, ◌∙◌, subst, inl, inr, Bool, true, false, not, ◌&&◌, ◌||◌, List,
  [], ◌∷◌, first, drop, is_empty, is_some, is_some_and, Bool-cases, and_iff, arith, unwrap_or,
}
use agent_d.Base.Text.{Str}
use agent_d.Base.Sets.{member, add, remove, member-add}
use agent_d.Base.Keys.{str_key}
use agent_d.Executor.Compaction.{
  Message, ToolCall, Role, cut_at, compaction_cut, summary, shortened_history, is_user, is_boundary,
}
use agent_d.Executor.Compaction.Boundary.{IsCut, compaction_cut-IsCut}
use agent_d.Runners.Options.{
  Progress, Checked, refused, passed, then_check, check_call, check_calls, check_result,
  check_other, with_content, with_call_id, with_id_len, check_message, check_messages, fresh,
  with_call, without_call, is_tool, is_assistant,
}

-- The same calls wait, and no more ids have been seen.
abbrev Fewer : Progress → Progress → Type 0
Fewer s t = (s.pending ≡ t.pending) × ((x : Str) → member x t.seen ≡ true → member x s.seen ≡ true)

-- What passes one check passes another, with no more seen.
abbrev PassesToo : Checked → Checked → Type 0
PassesToo r q = (s : Progress) → r ≡ passed s → (t : Progress) × (q ≡ passed t) × Fewer s t

passed-injective : (s t : Progress) → passed s ≡ passed t → s ≡ t
passed-injective s t e = cc e

then_check-passed :
    (r : Checked) (f : Progress → Checked) (s : Progress)
    → then_check r f ≡ passed s
    → (t : Progress) × (r ≡ passed t) × (f t ≡ passed s)
then_check-passed (refused e) f s h = cc h
then_check-passed (passed t) f s h = (t, refl, h)

then_check-PassesToo :
    (r q : Checked) (f g : Progress → Checked)
    → PassesToo r q
    → ((s t : Progress) → Fewer s t → PassesToo (f s) (g t))
    → PassesToo (then_check r f) (then_check q g)
then_check-PassesToo r q f g h k s e =
    let (u, a, b) = then_check-passed r f s e in
    let (t, c, w) = h u a in let (v, d, x) = k u t w s b in (v, ap (λ z. then_check z g) c ∙ d, x)

user_not_tool : (r : Role) → is_user r ≡ true → is_tool r ≡ false
user_not_tool Role.user h = refl
user_not_tool Role.system h = refl
user_not_tool Role.assistant h = refl
user_not_tool Role.tool h = cc h

nil_of_empty : {A : Type 0} (l : List A) → is_empty l ≡ true → l ≡ []
nil_of_empty [] h = refl
nil_of_empty (x ∷ l) h = cc h

abbrev after_summary : Type 0 → ℕ → Str → Progress
after_summary F n t = with_id_len (summary {F = F} t) (with_content (summary {F = F} t) (fresh n))

summary_passes :
    (is_object : Str → Bool) (F : Type 0) (n : ℕ) (t : Str)
    → check_message is_object (summary {F = F} t) (fresh n) ≡ passed (after_summary F n t)
unfolding check_message check_other check_calls summary
summary_passes is_object F n t = refl

module _ (is_object : Str → Bool) where
  check_call-PassesToo :
      (c : ToolCall) (s t : Progress)
      → Fewer s t
      → PassesToo (check_call is_object c s) (check_call is_object c t)
  unfolding check_call
  check_call-PassesToo c s t (p, f) u e =
      elim (Bool-cases (
        is_empty c.id
        || (is_empty c.name || (not (is_object c.arguments) || member c.id s.seen)))) [
          | inl b ↦ cc (rw (b, check_call) at e)
          | inr b ↦
              let n : (is_empty c.id
                    || (is_empty c.name || (not (is_object c.arguments) || member c.id t.seen)))
                  ≡ false =
                ground (arith, b, f c.id) in
              (
                with_call c t,
                rw (n, check_call) refl,
                subst (λ z. Fewer z (with_call c t))
                    (passed-injective (with_call c s) u (rw (b, check_call) at e))
                    (ap (add c.id) p, more),
              )
        ]
    where
      more : (x : Str) → member x (add c.id t.seen) ≡ true → member x (add c.id s.seen) ≡ true
      more x h = member-add c.id x s.seen ∙ ground (arith, sym (member-add c.id x t.seen) ∙ h, f x)

  check_calls-PassesToo :
      (l : List ToolCall) (s t : Progress)
      → Fewer s t
      → PassesToo (check_calls is_object l s) (check_calls is_object l t)
  unfolding check_calls
  check_calls-PassesToo [] s t w u e = (t, refl, rw (passed-injective s u e) at w)
  check_calls-PassesToo (c ∷ l) s t w u e =
      then_check-PassesToo (check_call is_object c s) (check_call is_object c t) _ _
        (check_call-PassesToo c s t w) (check_calls-PassesToo l) u e

  module _ {F : Type 0} where
    check_result-PassesToo :
        (m : Message F) (s t : Progress)
        → Fewer s t
        → PassesToo (check_result m s) (check_result m t)
    unfolding check_result
    check_result-PassesToo m s t (p, f) u e =
        elim (Bool-cases (
          not (is_empty m.tool_calls)
          || not (is_some_and (λ id. member id s.pending) m.tool_call_id))) [
            | inl b ↦ cc (rw (b, check_result) at e)
            | inr b ↦
                let n : (not (is_empty m.tool_calls)
                      || not (is_some_and (λ id. member id t.pending) m.tool_call_id))
                    ≡ false =
                  subst
                    (λ z.
                      (not (is_empty m.tool_calls)
                        || not (is_some_and (λ id. member id z) m.tool_call_id))
                      ≡ false)
                    p b in
                (
                  without_call m.tool_call_id t,
                  rw (n, check_result) refl,
                  subst (λ z. Fewer z (without_call m.tool_call_id t))
                      (passed-injective (without_call m.tool_call_id s) u
                        (rw (b, check_result) at e))
                      (ap (remove (unwrap_or [] m.tool_call_id)) p, f),
                )
          ]

    check_other-PassesToo :
        (m : Message F) (s t : Progress)
        → Fewer s t
        → PassesToo (check_other is_object m s) (check_other is_object m t)
    unfolding check_other
    check_other-PassesToo m s t (p, f) u e =
        elim (Bool-cases (not (is_empty s.pending) || is_some m.tool_call_id)) [
          | inl b ↦ cc (rw (b, check_other) at e)
          | inr b ↦
              let n : (not (is_empty t.pending) || is_some m.tool_call_id) ≡ false =
                subst (λ z. (not (is_empty z) || is_some m.tool_call_id) ≡ false) p b in
              elim (Bool-cases (not (is_empty m.tool_calls) && not (is_assistant m.role))) [
                | inl c ↦ cc (rw (b, c, check_other) at e)
                | inr c ↦
                    let (v, g, w) =
                      check_calls-PassesToo m.tool_calls s t (p, f) u
                        (rw (b, c, check_other) at e) in
                    (v, rw (n, c, check_other) g, w)
              ]
        ]

    check_message-PassesToo :
        (m : Message F) (s t : Progress)
        → Fewer s t
        → PassesToo (check_message is_object m s) (check_message is_object m t)
    unfolding check_message
    check_message-PassesToo m s t w u e = elim (Bool-cases (is_tool m.role)) [
      | inl b ↦
          let (v, g, x) =
            then_check-PassesToo (check_result m (with_content m s))
              (check_result m (with_content m t)) (with_call_id m) (with_call_id m)
              (check_result-PassesToo m _ _ w) last u (rw (b, check_message) at e) in
          (v, rw (b, check_message) g, x)
      | inr b ↦
          let (v, g, x) =
            then_check-PassesToo (check_other is_object m (with_content m s))
              (check_other is_object m (with_content m t)) (with_call_id m) (with_call_id m)
              (check_other-PassesToo m _ _ w) last u (rw (b, check_message) at e) in
          (v, rw (b, check_message) g, x)
    ]
      where
        last : (s t : Progress) → Fewer s t → PassesToo (with_call_id m s) (with_call_id m t)
        last s t w u e = (
          with_id_len m t,
          refl,
          subst (λ z. Fewer z (with_id_len m t)) (passed-injective (with_id_len m s) u e) w,
        )

    check_messages-PassesToo :
        (l : List (Message F)) (s t : Progress)
        → Fewer s t
        → PassesToo (check_messages is_object l s) (check_messages is_object l t)
    unfolding check_messages
    check_messages-PassesToo [] s t w u e =
        (t, refl, subst (λ z. Fewer z t) (passed-injective s u e) w)
    check_messages-PassesToo (m ∷ l) s t w u e =
        then_check-PassesToo (check_message is_object m s) (check_message is_object m t) _ _
          (check_message-PassesToo m s t w) (check_messages-PassesToo l) u e

    -- Where a history is read through, so is what is left from any place on, from some progress.
    check_messages-drop :
        (n : ℕ) (l : List (Message F)) (s u : Progress)
        → check_messages is_object l s ≡ passed u
        → (t : Progress) × (check_messages is_object (drop n l) t ≡ passed u)
    unfolding check_messages
    check_messages-drop zero l s u e = (s, e)
    check_messages-drop (suc n) [] s u e = (s, e)
    check_messages-drop (suc n) (m ∷ l) s u e =
        let (t, a, b) = then_check-passed (check_message is_object m s) _ u e in
        check_messages-drop n l t u b

    -- No call waits before a message of the user.
    boundary_pending :
        (m : Message F) (s u : Progress)
        → is_boundary m ≡ true
        → check_message is_object m s ≡ passed u
        → is_empty s.pending ≡ true
    unfolding check_message check_other
    boundary_pending m s u b e =
        let n =
          user_not_tool m.role ((and_iff (is_user m.role) (not (is_some m.tool_call_id))).0 b).0 in
        let (t, g, h) =
          then_check-passed (check_other is_object m (with_content m s)) (with_call_id m) u
            (rw (n, check_message) at e) in
        elim (Bool-cases (not (is_empty s.pending) || is_some m.tool_call_id)) [
          | inl c ↦ cc (rw (c, check_other) at g)
          | inr c ↦ ground (arith, c)
        ]

    from_boundary :
        (n : ℕ) (t : Str) (l : List (Message F)) (s u : Progress)
        → is_some_and is_boundary (first l) ≡ true
        → check_messages is_object l s ≡ passed u
        → (v : Progress) × (check_messages is_object (summary t ∷ l) (fresh n) ≡ passed v)
          × (u.pending ≡ v.pending)
    unfolding check_messages member
    from_boundary n t [] s u b e = cc b
    from_boundary n t (m ∷ l) s u b e =
        let (w, g, h) = then_check-passed (check_message is_object m s) _ u e in
        let p = nil_of_empty s.pending (boundary_pending m s w b g) in
        let (v, x, y) =
          check_messages-PassesToo (m ∷ l) s (after_summary F n t) (p, λ z k. cc k) u e in
        (v, rw (summary_passes is_object F n t) x, y.0)

    -- Where a history is cut and each of its calls has its result, so has each call of the history that the run goes
    -- on with, whatever the summary says: it is read through by the same check from the start.
    pub check_messages-shortened_history :
        (h : List (Message F)) (keep c : ℕ) (t : Str) (n : ℕ) (u : Progress)
        → compaction_cut h keep ≡ cut_at c
        → check_messages is_object h (fresh n) ≡ passed u
        → u.pending ≡ []
        → (v : Progress) × (check_messages is_object (shortened_history c (summary t) h) (fresh n)
            ≡ passed v)
          × (v.pending ≡ [])
    unfolding shortened_history
    check_messages-shortened_history h keep c t n u k e z =
        let (p, q, r, b, y) = subst (IsCut h keep) k (compaction_cut-IsCut h keep) in
        let (s, g) = check_messages-drop c h (fresh n) u e in
        let (v, x, w) = from_boundary n t (drop c h) s u b g in (v, x, sym w ∙ z)
