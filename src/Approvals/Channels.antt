-- ===== src/Approvals/Channels.antt =====
-- What a one-shot channel holds after the broker's writes.
use agent_d.Base.{
  ℕ, ◌≡◌, refl, sym, ap, ◌∙◌, ◌≢◌, ◌⊎◌, inl, inr, Option, none, some, Bool-cases, Option-cases,
  ◌==◌, ==_iff,
}
use mathlib.Core.Option.{some-injective}
use agent_d.Base.Keys.{nat_key}
use agent_d.Base.Maps.{Map, get, insert, remove, get-insert, get-remove}
use agent_d.Executor.Dispatch.{Verdict}
use agent_d.Approvals.{Channel, waiting, answered, dropped, drop_sender, send}

answered-injective : (v w : Verdict) → answered v ≡ answered w → v ≡ w
answered-injective v w e = cc

-- What is read after a write of something else than an answer was there before it.
pub answered_of_insert :
    (c b : ℕ) (x : Channel) (w : Verdict) (l : Map ℕ Channel)
    → x ≢ answered w
    → get b (insert c x l) ≡ some (answered w)
    → get b l ≡ some (answered w)
answered_of_insert c b x w l n e = elim (Bool-cases (c == b)) [
  | inl h ↦ elim (n (some-injective _ _ (rw (get-insert c b x l, h) at e))) [ ]
  | inr h ↦ rw (get-insert c b x l, h) at e
]

pub send_answered :
    (c b : ℕ) (v w : Verdict) (l : Map ℕ Channel)
    → get b (send c v l) ≡ some (answered w)
    → ((c ≡ b) × (v ≡ w)) ⊎ (get b l ≡ some (answered w))
unfolding send
send_answered c b v w l e = elim (Option-cases (get c l)) [
  | inl h ↦ inr (ap (get b) (sym (unsent h)) ∙ e)
  | inr (x, h) ↦ elim (Bool-cases (c == b)) [
    | inl k ↦ inl (
      (==_iff c b).0 k,
      answered-injective v w
          (some-injective _ _ (rw (sent x h, get-insert c b (answered v) l, k) at e)),
    )
    | inr k ↦ inr (rw (sent x h, get-insert c b (answered v) l, k) at e)
  ]
]
  where
    unsent : get c l ≡ none → send c v l ≡ l
    unsent h = rw (h, send) refl

    sent : (x : Channel) → get c l ≡ some x → send c v l ≡ insert c (answered v) l
    sent x h = rw (h, send) refl

drop_cases :
    (o : Option ℕ) (l : Map ℕ Channel)
    → (drop_sender o l ≡ l) ⊎ ((c : ℕ) × (drop_sender o l ≡ insert c dropped l))
unfolding drop_sender
drop_cases none l = inl refl
drop_cases (some c) l = elim (Option-cases (get c l)) [
  | inl h ↦ inl (rw (h, drop_sender) refl)
  | inr (x, h) ↦ by_state x h
]
  where
    by_state :
        (x : Channel)
        → get c l ≡ some x
        → (drop_sender (some c) l ≡ l) ⊎ ((b : ℕ) × (drop_sender (some c) l ≡ insert b dropped l))
    by_state waiting h = inr (c, rw (h, drop_sender) refl)
    by_state (answered v) h = inl (rw (h, drop_sender) refl)
    by_state dropped h = inl (rw (h, drop_sender) refl)

pub drop_answered :
    (o : Option ℕ) (b : ℕ) (w : Verdict) (l : Map ℕ Channel)
    → get b (drop_sender o l) ≡ some (answered w)
    → get b l ≡ some (answered w)
drop_answered o b w l e = elim (drop_cases o l) [
  | inl h ↦ ap (get b) (sym h) ∙ e
  | inr (c, h) ↦ answered_of_insert c b dropped w l (λ k. cc) (ap (get b) (sym h) ∙ e)
]

pub get_of_remove :
    {V : Type 0} (a b : ℕ) (v : V) (l : Map ℕ V) → get b (remove a l) ≡ some v → get b l ≡ some v
get_of_remove a b v l e = elim (Bool-cases (a == b)) [
  | inl h ↦ cc (rw (get-remove a b l, h) at e)
  | inr h ↦ rw (get-remove a b l, h) at e
]
