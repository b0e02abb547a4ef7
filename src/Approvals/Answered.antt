-- ===== src/Approvals/Answered.antt =====
-- Which verdict a request ends with: the first that is given to it.
use agent_d.Base.{
  ℕ, ◌≡◌, refl, sym, ap, subst, ◌∙◌, ◌≢◌, inl, inr, Bool, false, List, [], ◌∷◌, ◌++◌, Option, none,
  some, In, All, Bool-cases, Option-cases, is_empty, ◌==◌, ==_iff, arith,
}
use mathlib.Core.Option.{some-injective}
use agent_d.Base.Keys.{nat_key}
use agent_d.Base.Maps.{Map, get, insert, remove, get-insert, get-remove}
use agent_d.Executor.Dispatch.{Verdict}
use agent_d.Approvals.{
  Channel, waiting, answered, dropped, State, drop_sender, send, open_ones, subscribe, unsubscribe,
  hang_up, resolve, begin, wake,
}
use agent_d.Approvals.Channels.{get_of_remove}
use agent_d.Approvals.Events.{
  Event, subscribed, unsubscribed, hung_up, began, resolved, woke, step, after, resolve-none,
  resolve-some,
}
use agent_d.Approvals.Granted.{wake-cases, step_woke, step_asleep, hang_up_same, after-Knows}

other_key : (b c : ℕ) → b ≢ c → (b == c) ≡ false
other_key b c n = elim (Bool-cases (b == c)) [ inl e ↦ elim (n ((==_iff b c).0 e)) [ ] | inr e ↦ e ]

-- What other writes leave of a channel.
insert_elsewhere :
    {A : Type 0} (b c : ℕ) (x : A) (l : Map ℕ A) → b ≢ c → get c (insert b x l) ≡ get c l
insert_elsewhere b c x l n = rw (get-insert b c x l, other_key b c n) refl

remove_elsewhere : {A : Type 0} (b c : ℕ) (l : Map ℕ A) → b ≢ c → get c (remove b l) ≡ get c l
remove_elsewhere b c l n = rw (get-remove b c l, other_key b c n) refl

send_elsewhere : (b c : ℕ) (w : Verdict) (l : Map ℕ Channel) → b ≢ c → get c (send b w l) ≡ get c l
unfolding send
send_elsewhere b c w l n = elim (Option-cases (get b l)) [
  | inl e ↦ rw (e, send) refl
  | inr (x, e) ↦ rw (e, send) (insert_elsewhere b c (answered w) l n)
]

send_here :
    (c : ℕ) (x : Channel) (v : Verdict) (l : Map ℕ Channel)
    → get c l ≡ some x
    → get c (send c v l) ≡ some (answered v)
unfolding send
send_here c x v l e = rw (e, send) (rw (get-insert c c (answered v) l) (ground arith))

-- A sender that goes away takes no answer back.
drop_keeps :
    (o : Option ℕ) (c : ℕ) (v : Verdict) (l : Map ℕ Channel)
    → get c l ≡ some (answered v)
    → get c (drop_sender o l) ≡ some (answered v)
unfolding drop_sender
drop_keeps none c v l e = e
drop_keeps (some b) c v l e = elim (Option-cases (get b l)) [
  | inl h ↦ rw (h, drop_sender) e
  | inr (x, h) ↦ by_state x h
]
  where
    by_state : (x : Channel) → get b l ≡ some x → get c (drop_sender (some b) l) ≡ some (answered v)
    by_state (answered w) h = rw (h, drop_sender) e
    by_state dropped h = rw (h, drop_sender) e
    by_state waiting h =
        rw (h, drop_sender)
          (insert_elsewhere b c dropped l (λ k. cc (sym h ∙ ap (λ z. get z l) k ∙ e)) ∙ e)

module _ {R : Type 0} where
  -- An event that is no other request on a channel, and no poll of the one that waits there.
  abbrev pub Leaves : ℕ → Event R → Type 0
  Leaves c subscribed = Unit
  Leaves c (unsubscribed a) = Unit
  Leaves c (hung_up a) = Unit
  Leaves c (began k b r) = b ≢ c
  Leaves c (resolved k w) = Unit
  Leaves c (woke k b late) = b ≢ c

  module _ (c : ℕ) (v : Verdict) where
    -- A channel that holds its answer, and that no request in flight has.
    abbrev Holds : State R → Type 0
    Holds s = (get c s.channels ≡ some (answered v)) × ((k : ℕ) → get k s.pending ≡ some c → ⊥)

    same-Holds :
        (s t : State R) → t.pending ≡ s.pending → t.channels ≡ s.channels → Holds s → Holds t
    same-Holds s t p q (a, n) = (ap (get c) q ∙ a, λ k h. n k (sym (ap (get k) p) ∙ h))

    resolve-Holds : (k : ℕ) (w : Verdict) (s : State R) → Holds s → Holds (resolve k w s)
    resolve-Holds k w s (a, n) = elim (Option-cases (get k s.pending)) [
      | inl e ↦ subst Holds (sym (resolve-none k w s e)) (a, n)
      | inr (b, e) ↦ subst Holds (sym (resolve-some k b w s e)) (
        send_elsewhere b c w s.channels (λ h. n k (e ∙ ap (λ z. some z) h)) ∙ a,
        λ i h. n i (get_of_remove k i c s.pending h),
      )
    ]

    begin-Holds : (k b : ℕ) (r : R) (s : State R) → b ≢ c → Holds s → Holds (begin k b r s).1
    unfolding begin
    begin-Holds k b r s d (a, n) = elim (Bool-cases (is_empty (open_ones s.approvers))) [
      | inl h ↦ rw (h, begin) (a, n)
      | inr h ↦
          rw (h, begin)
            (
              insert_elsewhere b c waiting (drop_sender (get k s.pending) s.channels) d
                  ∙ drop_keeps (get k s.pending) c v s.channels a,
              λ i e. elim (Bool-cases (k == i)) [
                | inl f ↦ d (some-injective _ _ (rw (get-insert k i b s.pending, f) at e))
                | inr f ↦ n i (rw (get-insert k i b s.pending, f) at e)
              ],
            )
    ]

    wake-Holds :
        (k b : ℕ) (late : Bool) (s : State R) → b ≢ c → Holds s → Holds (step (woke k b late) s)
    wake-Holds k b late s d (a, n) = elim (wake-cases k b late s) [
      | inl e ↦ subst Holds (sym (step_asleep k b late s e)) (a, n)
      | inr (inl e) ↦ subst Holds (sym (step_woke k b late s _ _ e)) (
        remove_elsewhere b c (drop_sender (get k s.pending) s.channels) d
            ∙ drop_keeps (get k s.pending) c v s.channels a,
        λ i h. n i (get_of_remove k i c s.pending h),
      )
      | inr (inr (w, g, e)) ↦
          subst Holds (sym (step_woke k b late s _ w e)) (remove_elsewhere b c s.channels d ∙ a, n)
    ]

    step-Holds : (e : Event R) (s : State R) → Leaves c e → Holds s → Holds (step e s)
    unfolding step subscribe unsubscribe
    step-Holds subscribed s d h = h
    step-Holds (unsubscribed a) s d h = h
    step-Holds (hung_up a) s d h = let (p, q) = hang_up_same a s in same-Holds s (hang_up a s) p q h
    step-Holds (began k b r) s d h = begin-Holds k b r s d h
    step-Holds (resolved k w) s d h = resolve-Holds k w s h
    step-Holds (woke k b late) s d h = wake-Holds k b late s d h

    after-Holds :
        (more l : List (Event R))
        → All (Leaves c) more
        → Holds (after l)
        → Holds (after (more ++ l))
    unfolding after
    after-Holds [] l d h = h
    after-Holds (e ∷ more) l (d, u) h = step-Holds e (after (more ++ l)) d (after-Holds more l u h)

    -- The first answer to a request that waits.
    first-Holds :
        (id : ℕ) (l : List (Event R))
        → ((k : ℕ) (r : R) → In (began k c r) l → k ≡ id)
        → get id (after l).pending ≡ some c
        → get c (after l).channels ≡ some waiting
        → Holds (resolve id v (after l))
    first-Holds id l own p w =
        let s = after l in
        subst Holds (sym (resolve-some id c v s p)) (
          send_here c waiting v s.channels w,
          λ k h. elim (Bool-cases (id == k)) [
            | inl e ↦ cc (rw (get-remove id k s.pending, e) at h)
            | inr e ↦
                let g : get k s.pending ≡ some c = rw (get-remove id k s.pending, e) at h in
                let (r, m) = (after-Knows l).pending_began k c g in
                cc (e, (==_iff id k).1 (sym (own k r m)))
          ],
        )

    wake-Holds_answer :
        (id : ℕ) (late : Bool) (s : State R)
        → Holds s
        → wake id c late s ≡ some (v, record s { channels = remove c s.channels })
    unfolding wake
    wake-Holds_answer id late s (a, n) = rw (a, wake) refl

  -- A request that waits ends with the first verdict that is given to it: once that is given, and
  -- whatever happens after it before the request is polled, other answers to it included, the poll
  -- gives that verdict, in time or late, where no other request was or is given its channel.
  pub wake-resolved :
      (l more : List (Event R)) (id c : ℕ) (v : Verdict) (late : Bool)
      → ((k : ℕ) (r : R) → In (began k c r) l → k ≡ id)
      → get id (after l).pending ≡ some c
      → get c (after l).channels ≡ some waiting
      → All (Leaves c) more
      → (t : State R) × (wake id c late (after (more ++ (resolved id v ∷ l))) ≡ some (v, t))
  unfolding after step
  wake-resolved l more id c v late own p w d =
      let s = after (more ++ (resolved id v ∷ l)) in
      (
        record s { channels = remove c s.channels },
        wake-Holds_answer c v id late s
            (after-Holds c v more (resolved id v ∷ l) d (first-Holds c v id l own p w)),
      )
