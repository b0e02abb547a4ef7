-- ===== src/Tests/Approvals.antt =====
-- The approval broker at concrete inputs.
use agent_d.Base.{ℕ, ◌≡◌, refl, sym, inl, inr, true, false, List, [], ◌∷◌, ◌++◌, some, In}
use agent_d.Base.Keys.{nat_key}
use agent_d.Base.Maps.{get, insert, remove}
use agent_d.Executor.Dispatch.{allow_once, denied}
use agent_d.Approvals.{
  State, subscribe, resolve, begin, wake, drop_sender, send, open_ones, fan_out,
}
use agent_d.Approvals.Events.{Event, subscribed, began, resolved, step, after}
use agent_d.Approvals.Answered.{wake-resolved}
use agent_d.Approvals.Granted.{wake_granted}

asked : Unit {0}
unfolding get insert remove subscribe resolve begin wake drop_sender send open_ones fan_out step
    after
asked = tt

-- One approver connects, request 4 starts on channel 0, and it is allowed once.
abbrev events : List (Event ℕ)
events = resolved 4 allow_once ∷ began 4 0 9 ∷ subscribed ∷ []

abbrev calm : State ℕ
calm = record {
  pending = [];
  approvers = (0, record { closed = false; inbox = 9 ∷ [] }) ∷ [];
  next_approver = 1;
  channels = [];
}

answer : wake 4 0 false (after events) ≡ some (allow_once, calm)
unfolding asked
answer = refl

owner : (k : ℕ) (r : ℕ) → In (began k 0 r) events → k ≡ 4
owner k r (inl e) = cc
owner k r (inr (inl e)) = sym (id_of (began 4 0 9) (began k 0 r) (sym e))
  where
    ident : Event ℕ → ℕ
    ident (began i c q) = i
    ident _ = 0

    id_of : (p q : Event ℕ) → p ≡ q → ident p ≡ ident q
    id_of p q h = cc
owner k r (inr (inr (inl e))) = cc
owner k r (inr (inr (inr m))) = elim m [ ]

wake_granted_example : In (resolved 4 allow_once) events
wake_granted_example = wake_granted events 4 0 false allow_once calm owner answer (λ e. cc)

-- Request 4 waits; later it is answered twice, and another approver connects.
abbrev waiting_one : List (Event ℕ)
waiting_one = began 4 0 9 ∷ subscribed ∷ []

wake-resolved_example :
    (t : State ℕ) × (wake 4 0 true
        (after ((resolved 4 denied ∷ subscribed ∷ []) ++ (resolved 4 allow_once ∷ waiting_one)))
      ≡ some (allow_once, t))
unfolding asked
wake-resolved_example =
    wake-resolved waiting_one (resolved 4 denied ∷ subscribed ∷ []) 4 0 allow_once true
      (λ k r m. owner k r (inr m)) refl refl (tt, (tt, tt))
