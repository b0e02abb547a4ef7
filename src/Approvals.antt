-- ===== src/Approvals.antt =====
-- crates/approvals/src/lib.rs: the broker between the executor and the connected approvers. The
-- state is that under its lock, beside the one-shot channels of the requests in flight; a request
-- is the part under the lock, `begin`, and its waiting, `wake`.
pub mod Channels
pub mod Events
pub mod Granted
pub mod Answered
pub mod Asking
use agent_d.Base.{
  ℕ, ◌+◌, ◌%◌, ◌≡◌, Bool, true, false, not, List, [], ◌∷◌, ◌++◌, Option, none, some, map, filter,
  is_empty, if◌then◌else◌,
}
use agent_d.Base.Keys.{nat_key}
use agent_d.Base.Maps.{Map, get, insert, remove}
use agent_d.Executor.Dispatch.{Verdict, denied}

-- What the receiving half of a one-shot channel sees.
pub data Channel : Type 0 where
  waiting : Channel
  answered : Verdict → Channel
  dropped : Channel

-- One connected approver: whether its receiver is gone, and what was sent to it.
pub record Approver (R : Type 0) : Type 0 where
  pub closed : Bool
  pub inbox : List R

pub record State (R : Type 0) : Type 0 where
  pub pending : Map ℕ ℕ
  pub approvers : Map ℕ (Approver R)
  pub next_approver : ℕ
  pub channels : Map ℕ Channel

-- A request is answered at once, or it waits.
pub data Begun : Type 0 where
  refused : Verdict → Begun
  waits : Begun

-- The sending half goes away without a verdict.
unfoldable pub drop_sender : Option ℕ → Map ℕ Channel → Map ℕ Channel
drop_sender none l = l
drop_sender (some c) l = elim (get c l) [
  | some x ↦ elim x [ waiting ↦ insert c dropped l | answered v ↦ l | dropped ↦ l ]
  | none ↦ l
]

-- A verdict is sent, which fails if the receiver is gone.
unfoldable pub send : ℕ → Verdict → Map ℕ Channel → Map ℕ Channel
send c v l = elim (get c l) [ some x ↦ insert c (answered v) l | none ↦ l ]

module _ {R : Type 0} where
  abbrev pub new : State R
  new = record { pending = []; approvers = []; next_approver = 0; channels = [] }

  unfoldable pub subscribe : State R → ℕ × State R
  subscribe s = (
    s.next_approver,
    record s {
      next_approver = (s.next_approver + 1) % 18446744073709551616;
      approvers = insert s.next_approver (record { closed = false; inbox = [] }) s.approvers;
    },
  )

  unfoldable pub unsubscribe : ℕ → State R → State R
  unsubscribe a s = record s { approvers = remove a s.approvers }

  -- An approver drops its receiver.
  unfoldable pub hang_up : ℕ → State R → State R
  hang_up a s = elim (get a s.approvers) [
    | some x ↦ record s { approvers = insert a (record x { closed = true }) s.approvers }
    | none ↦ s
  ]

  unfoldable pub resolve : ℕ → Verdict → State R → State R
  resolve id v s = elim (get id s.pending) [
    | some c ↦ record s { pending = remove id s.pending; channels = send c v s.channels }
    | none ↦ s
  ]

  unfoldable pub open_ones : Map ℕ (Approver R) → Map ℕ (Approver R)
  open_ones l = filter (λ (a, x). not x.closed) l

  unfoldable pub fan_out : R → Map ℕ (Approver R) → Map ℕ (Approver R)
  fan_out r l = map (λ (a, x). (a, record x { inbox = x.inbox ++ (r ∷ []) })) l

  -- The part of `request` under the lock, for a request `id` whose channel is `c`.
  unfoldable pub begin : ℕ → ℕ → R → State R → Begun × State R
  begin id c r s =
      let alive = open_ones s.approvers in
      if is_empty alive then (refused denied, record s { approvers = alive }) else (
        waits,
        record s {
          approvers = fan_out r alive;
          pending = insert id c s.pending;
          channels = insert c waiting (drop_sender (get id s.pending) s.channels);
        },
      )

  abbrev pub given_up : ℕ → ℕ → State R → Option (Verdict × State R)
  given_up id c s = some (
    denied,
    record s {
      pending = remove id s.pending;
      channels = remove c (drop_sender (get id s.pending) s.channels);
    },
  )

  -- The rest of `request`: what the waiting future gives when it is polled, `late` or in time.
  unfoldable pub wake : ℕ → ℕ → Bool → State R → Option (Verdict × State R)
  wake id c late s = elim (get c s.channels) [
    | none ↦ none
    | some x ↦ elim x [
      | answered v ↦ some (v, record s { channels = remove c s.channels })
      | dropped ↦ given_up id c s
      | waiting ↦ if late then given_up id c s else none
    ]
  ]
