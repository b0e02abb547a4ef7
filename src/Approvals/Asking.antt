-- ===== src/Approvals/Asking.antt =====
-- Who is asked.
use agent_d.Base.{
  ℕ, ◌≡◌, refl, sym, ap, subst, inl, inr, Bool, true, false, List, [], ◌∷◌, some, In, arith,
  is_empty,
}
use agent_d.Base.Keys.{nat_key}
use agent_d.Base.Maps.{get, insert, get-insert}
use agent_d.Executor.Dispatch.{denied}
use agent_d.Approvals.{waiting, State, drop_sender, open_ones, begin}
use agent_d.Base.{map, ◌++◌, filter, not, In-filter, In-filter_cases, In-map}
use agent_d.Approvals.{Approver, refused, waits, open_ones, fan_out}

not_of : (b : Bool) → not b ≡ true → b ≡ false
not_of b e = ground arith

empty_of_none :
    {A : Type 0} (p : A → Bool) (l : List A)
    → ((a : A) → In a l → p a ≡ false)
    → is_empty (filter p l) ≡ true
empty_of_none p [] h = refl
empty_of_none p (x ∷ l) h = rw (h x (inl refl)) (empty_of_none p l (λ a m. h a (inr m)))

not_empty_of_In : {A : Type 0} (a : A) (l : List A) → In a l → is_empty l ≡ false
not_empty_of_In a [] m = elim m [ ]
not_empty_of_In a (x ∷ l) m = refl

In-map_cases :
    {A B : Type 0} (f : A → B) (b : B) (l : List A) → In b (map f l) → (a : A) × In a l × (b ≡ f a)
In-map_cases f b [] m = elim m [ ]
In-map_cases f b (x ∷ l) (inl e) = (x, inl refl, e)
In-map_cases f b (x ∷ l) (inr m) = let (a, n, e) = In-map_cases f b l m in (a, inr n, e)

module _ {R : Type 0} where
  begin_closed :
      (id c : ℕ) (r : R) (s : State R)
      → is_empty (open_ones s.approvers) ≡ true
      → begin id c r s ≡ (refused denied, record s { approvers = open_ones s.approvers })
  unfolding begin
  begin_closed id c r s h = rw (h, begin) refl

  begin_open :
      (id c : ℕ) (r : R) (s : State R)
      → is_empty (open_ones s.approvers) ≡ false
      → begin id c r s ≡ (
        waits,
        record s {
          approvers = fan_out r (open_ones s.approvers);
          pending = insert id c s.pending;
          channels = insert c waiting (drop_sender (get id s.pending) s.channels);
        },
      )
  unfolding begin
  begin_open id c r s h = rw (h, begin) refl

  -- A request that no connected approver can answer is denied at once, and leaves the requests that
  -- wait as they were.
  begin_refuses :
      (id c : ℕ) (r : R) (s : State R)
      → ((a : ℕ) (x : Approver R) → In (a, x) s.approvers → x.closed ≡ true)
      → ((begin id c r s).0 ≡ refused denied)
        × ((begin id c r s).1.pending ≡ s.pending)
        × ((begin id c r s).1.channels ≡ s.channels)
  unfolding open_ones
  begin_refuses id c r s h =
      rw (begin_closed id c r s (empty_of_none _ s.approvers (λ (a, x) m. ap not (h a x m))))
        (refl, refl, refl)

  -- Where an approver is connected, a request waits under its id, and every connected approver, and
  -- no other, is sent it after what it was sent before.
  begin_asks :
      (id c : ℕ) (r : R) (s : State R) (a : ℕ) (x : Approver R)
      → In (a, x) s.approvers
      → x.closed ≡ false
      → ((begin id c r s).0 ≡ waits)
        × (get id (begin id c r s).1.pending ≡ some c)
        × (get c (begin id c r s).1.channels ≡ some waiting)
        × ((b : ℕ) (y : Approver R)
            → In (b, y) s.approvers
            → y.closed ≡ false
            → In (b, record y { inbox = y.inbox ++ (r ∷ []) }) (begin id c r s).1.approvers)
        × ((b : ℕ) (z : Approver R)
            → In (b, z) (begin id c r s).1.approvers
            → (y : Approver R) × In (b, y) s.approvers
              × (y.closed ≡ false)
              × (z ≡ record y { inbox = y.inbox ++ (r ∷ []) }))
  unfolding open_ones fan_out
  begin_asks id c r s a x m h = rw (begin_open id c r s (not_empty_of_In (a, x) _ (kept a x m h))) (
    refl,
    rw (get-insert id id c s.pending) (ground arith),
    rw (get-insert c c waiting (drop_sender (get id s.pending) s.channels)) (ground arith),
    λ b y n k. In-map _ (b, y) (open_ones s.approvers) (kept b y n k),
    sent,
  )
    where
      kept :
          (b : ℕ) (y : Approver R)
          → In (b, y) s.approvers
          → y.closed ≡ false
          → In (b, y) (open_ones s.approvers)
      kept b y n k = In-filter _ (b, y) s.approvers n (ap not k)

      sent :
          (b : ℕ) (z : Approver R)
          → In (b, z) (fan_out r (open_ones s.approvers))
          → (y : Approver R) × In (b, y) s.approvers
            × (y.closed ≡ false)
            × (z ≡ record y { inbox = y.inbox ++ (r ∷ []) })
      sent b z n =
          let ((d, y), k, e) =
            In-map_cases (λ (d, y). (d, record y { inbox = y.inbox ++ (r ∷ []) })) (b, z)
              (open_ones s.approvers) n in
          let (i, o) = In-filter_cases (λ (d, y). not y.closed) (d, y) s.approvers k in
          (
            y,
            subst (λ q. In (q, y) s.approvers) (sym (ap (λ q. q.0) e)) i,
            not_of y.closed o,
            ap (λ q. q.1) e,
          )
