-- ===== src/Approvals/Granted.antt =====
-- What has happened when the broker answers a request with an allow.
use agent_d.Base.{
  ℕ, ◌≡◌, refl, sym, ap, subst, ◌∙◌, ◌≢◌, ◌⊎◌, inl, inr, Bool, true, false, List, [], ◌∷◌, none,
  some, In, Bool-cases, Option-cases, is_empty, ◌==◌, ==_iff,
}
use mathlib.Core.Option.{some-injective}
use agent_d.Base.Keys.{nat_key}
use agent_d.Base.Maps.{get, remove, get-insert}
use agent_d.Executor.Dispatch.{Verdict, denied}
use agent_d.Approvals.{
  Channel, waiting, answered, dropped, State, open_ones, subscribe, unsubscribe, hang_up, resolve,
  begin, wake, given_up,
}
use agent_d.Approvals.Channels.{answered_of_insert, send_answered, drop_answered, get_of_remove}
use agent_d.Approvals.Events.{
  Event, subscribed, unsubscribed, hung_up, began, resolved, woke, step, after, resolve-none,
  resolve-some,
}

module _ {R : Type 0} where
  -- What a state knows of the log of events: a pending request is one that began, and an answer
  -- is one that was given to a request which began with that channel.
  pub record Knows (l : List (Event R)) (s : State R) : Type 0 where
    pub pending_began : (id c : ℕ) → get id s.pending ≡ some c → (r : R) × In (began id c r) l
    pub answer_given :
        (c : ℕ) (v : Verdict)
        → get c s.channels ≡ some (answered v)
        → (id : ℕ) × (r : R) × In (began id c r) l × In (resolved id v) l

  -- A state whose requests and answers were there before, after one more event.
  fewer :
      (e : Event R) (l : List (Event R)) (s t : State R)
      → Knows l s
      → ((id c : ℕ) → get id t.pending ≡ some c → get id s.pending ≡ some c)
      → ((c : ℕ) (v : Verdict)
          → get c t.channels ≡ some (answered v)
          → get c s.channels ≡ some (answered v))
      → Knows (e ∷ l) t
  fewer e l s t k p q = record {
    pending_began = λ id c g. let (r, m) = k.pending_began id c (p id c g) in (r, inr m);
    answer_given =
        λ c v g. let (id, r, m, n) = k.answer_given c v (q c v g) in (id, r, inr m, inr n);
  }

  resolve-Knows :
      (id : ℕ) (v : Verdict) (l : List (Event R)) (s : State R)
      → Knows l s
      → Knows (resolved id v ∷ l) (resolve id v s)
  resolve-Knows id v l s k = elim (Option-cases (get id s.pending)) [
    | inl e ↦
        subst (Knows (resolved id v ∷ l)) (sym (resolve-none id v s e))
          (fewer _ l s s k (λ i c g. g) (λ c w g. g))
    | inr (c, e) ↦ subst (Knows (resolved id v ∷ l)) (sym (resolve-some id c v s e)) (record {
      pending_began = λ i b g.
          let (r, m) = k.pending_began i b (get_of_remove id i b s.pending g) in (r, inr m);
      answer_given = λ b w g. elim (send_answered c b v w s.channels g) [
        | inl (h, n) ↦
            let (r, m) = k.pending_began id c e in
            (id, r, inr (subst (λ x. In (began id x r) l) h m), inl (ap (resolved id) (sym n)))
        | inr h ↦ let (i, r, m, n) = k.answer_given b w h in (i, r, inr m, inr n)
      ];
    })
  ]

  begin-Knows :
      (id c : ℕ) (r : R) (l : List (Event R)) (s : State R)
      → Knows l s
      → Knows (began id c r ∷ l) (begin id c r s).1
  unfolding begin
  begin-Knows id c r l s k = elim (Bool-cases (is_empty (open_ones s.approvers))) [
    | inl h ↦ rw (h, begin) (fewer (began id c r) l s _ k (λ i b g. g) (λ b w g. g))
    | inr h ↦
        rw (h, begin)
          (record {
            pending_began = λ i b g. elim (Bool-cases (id == i)) [
              | inl e ↦ (
                r,
                inl (
                    began_same i b ((==_iff id i).0 e)
                      (some-injective _ _ (rw (get-insert id i c s.pending, e) at g))),
              )
              | inr e ↦
                  let (q, m) = k.pending_began i b (rw (get-insert id i c s.pending, e) at g) in
                  (q, inr m)
            ];
            answer_given = λ b w g.
                let (i, q, m, n) = k.answer_given b w (
                  drop_answered (get id s.pending) b w s.channels
                    (answered_of_insert c b waiting w _ (λ x. cc) g)) in
                (i, q, inr m, inr n);
          })
  ]
    where
      began_same : (i b : ℕ) → id ≡ i → c ≡ b → began i b r ≡ began id c r
      began_same i b e f = cc

  -- What a poll answers.
  pub wake-cases :
      (id c : ℕ) (late : Bool) (s : State R)
      → (wake id c late s ≡ none)
        ⊎ ((wake id c late s ≡ given_up id c s)
            ⊎ ((v : Verdict) × (get c s.channels ≡ some (answered v))
                × (wake id c late s ≡ some (v, record s { channels = remove c s.channels }))))
  unfolding wake
  wake-cases id c late s = elim (Option-cases (get c s.channels)) [
    | inl e ↦ inl (rw (e, wake) refl)
    | inr (x, e) ↦ by_state x late e
  ]
    where
      by_state :
          (x : Channel) (late : Bool)
          → get c s.channels ≡ some x
          → (wake id c late s ≡ none)
            ⊎ ((wake id c late s ≡ given_up id c s)
                ⊎ ((v : Verdict) × (get c s.channels ≡ some (answered v))
                    × (wake id c late s ≡ some (v, record s { channels = remove c s.channels }))))
      by_state waiting true e = inr (inl (rw (e, wake) refl))
      by_state waiting false e = inl (rw (e, wake) refl)
      by_state dropped b e = inr (inl (rw (e, wake) refl))
      by_state (answered v) b e = inr (inr (v, e, rw (e, wake) refl))

  pub step_woke :
      (id c : ℕ) (late : Bool) (s t : State R) (v : Verdict)
      → wake id c late s ≡ some (v, t)
      → step (woke id c late) s ≡ t
  unfolding step
  step_woke id c late s t v e = rw (e, step) refl

  pub step_asleep :
      (id c : ℕ) (late : Bool) (s : State R) → wake id c late s ≡ none → step (woke id c late) s ≡ s
  unfolding step
  step_asleep id c late s e = rw (e, step) refl

  wake-Knows :
      (id c : ℕ) (late : Bool) (l : List (Event R)) (s : State R)
      → Knows l s
      → Knows (woke id c late ∷ l) (step (woke id c late) s)
  wake-Knows id c late l s k = elim (wake-cases id c late s) [
    | inl e ↦
        subst (Knows _) (sym (step_asleep id c late s e))
          (fewer _ l s s k (λ i b g. g) (λ b w g. g))
    | inr (inl e) ↦ subst (Knows _) (sym (step_woke id c late s _ denied e)) (
        fewer _ l s _ k (λ i b g. get_of_remove id i b s.pending g)
          (λ b w g.
            drop_answered (get id s.pending) b w s.channels (get_of_remove c b (answered w) _ g)))
    | inr (inr (v, _, e)) ↦
        subst (Knows _) (sym (step_woke id c late s _ v e))
          (fewer _ l s _ k (λ i b g. g) (λ b w g. get_of_remove c b (answered w) s.channels g))
  ]

  pub hang_up_same :
      (a : ℕ) (s : State R)
      → ((hang_up a s).pending ≡ s.pending) × ((hang_up a s).channels ≡ s.channels)
  unfolding hang_up
  hang_up_same a s = elim (Option-cases (get a s.approvers)) [
    | inl e ↦ rw (e, hang_up) (refl, refl)
    | inr (x, e) ↦ rw (e, hang_up) (refl, refl)
  ]

  pub after-Knows : (l : List (Event R)) → Knows l (after l)
  unfolding after step subscribe unsubscribe get
  after-Knows [] = record { pending_began = λ id c g. cc; answer_given = λ c v g. cc }
  after-Knows (subscribed ∷ l) = fewer _ l (after l) _ (after-Knows l) (λ i b g. g) (λ b w g. g)
  after-Knows (unsubscribed a ∷ l) = fewer _ l (after l) _ (after-Knows l) (λ i b g. g) (λ b w g. g)
  after-Knows (hung_up a ∷ l) =
      let (p, q) = hang_up_same a (after l) in
      fewer _ l (after l) _ (after-Knows l) (λ i b g. ap (get i) (sym p) ∙ g)
        (λ b w g. ap (get b) (sym q) ∙ g)
  after-Knows (began id c r ∷ l) = begin-Knows id c r l (after l) (after-Knows l)
  after-Knows (resolved id v ∷ l) = resolve-Knows id v l (after l) (after-Knows l)
  after-Knows (woke id c late ∷ l) = wake-Knows id c late l (after l) (after-Knows l)

  -- A request is answered with another verdict than a denial only if an approver gave that verdict
  -- to the request: whatever came before, where no other request used its channel.
  pub wake_granted :
      (l : List (Event R)) (id c : ℕ) (late : Bool) (v : Verdict) (t : State R)
      → ((k : ℕ) (r : R) → In (began k c r) l → k ≡ id)
      → wake id c late (after l) ≡ some (v, t)
      → v ≢ denied
      → In (resolved id v) l
  wake_granted l id c late v t own e n = elim (wake-cases id c late (after l)) [
    | inl h ↦ cc (sym e ∙ h)
    | inr (inl h) ↦ elim (n (first_of _ _ (sym e ∙ h))) [ ]
    | inr (inr (w, g, h)) ↦
        let (k, r, m, i) = (after-Knows l).answer_given c w g in
        subst (λ x. In (resolved x v) l) (own k r m)
          (subst (λ x. In (resolved k x) l) (sym (first_of _ _ (sym e ∙ h))) i)
  ]
    where
      first_of : (p q : Verdict × State R) → some p ≡ some q → p.0 ≡ q.0
      first_of p q e = ap (λ x. x.0) (some-injective p q e)
