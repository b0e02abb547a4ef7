-- ===== src/Sessions/Scoping.antt =====
-- What a scope may see.
use agent_d.Base.{
  ◌≡◌, refl, ap, ◌↔◌, ◌⊎◌, inl, inr, true, false, ◌||◌, Option, none, some, arith, and_iff, or_iff,
  ℕ,
}
use mathlib.Core.Option.{some-injective}
use agent_d.Base.Text.{Str, str_eq, str_eq_iff, str_eq_refl}
use agent_d.Sessions.{
  SessionMeta, Scope, same_text, admin_owner, owner_of, from_caller, admin, is_none, permits,
  in_scope, fresh_meta,
}

pub same_text_iff : (a b : Option Str) → (same_text a b ≡ true) ↔ (a ≡ b)
unfolding same_text
same_text_iff none none = (λ _. refl, λ _. refl)
same_text_iff none (some b) = (λ e. cc, λ e. cc)
same_text_iff (some a) none = (λ e. cc, λ e. cc)
same_text_iff (some a) (some b) =
    (λ e. ap some ((str_eq_iff a b).0 e), λ e. (str_eq_iff a b).1 (some-injective a b e))

-- No caller's scope is that of an admin connection, whatever the interface or service is called.
owner_ne_admin :
    (interface service : Option Str) → str_eq (owner_of interface service) admin_owner ≡ false
unfolding owner_of str_eq
owner_ne_admin (some i) s = refl
owner_ne_admin none (some s) = refl
owner_ne_admin none none = refl

user_ok_iff : (a b : Option Str) → ((is_none a || same_text a b) ≡ true) ↔ ((a ≡ none) ⊎ (a ≡ b))
user_ok_iff none b = (λ _. inl refl, λ _. refl)
user_ok_iff (some a) b = (
  λ e. inr ((same_text_iff (some a) b).0 e),
  λ h. elim h [ inl e ↦ cc | inr e ↦ (same_text_iff (some a) b).1 e ],
)

-- A caller that is no admin connection sees exactly the sessions of its own owner that were created
-- for no user or for the caller's.
from_caller-permits :
    (interface service user : Option Str) (m : SessionMeta)
    → (permits (from_caller interface service user) m ≡ true)
      ↔ ((m.owner ≡ owner_of interface service) × ((m.user ≡ none) ⊎ (m.user ≡ user)))
unfolding permits from_caller
from_caller-permits interface service user m = rw (owner_ne_admin interface service) (
  λ e. let (o, u) = (and_iff _ _).0 e in ((str_eq_iff _ _).0 o, (user_ok_iff m.user user).0 u),
  λ (o, u). (and_iff _ _).1 ((str_eq_iff _ _).1 o, (user_ok_iff m.user user).1 u),
)

-- An admin connection that names no user sees every session, and one that names a user those that
-- were created for no user or for that one.
admin-permits :
    (user : Option Str) (m : SessionMeta)
    → (permits (admin user) m ≡ true) ↔ ((user ≡ none) ⊎ ((m.user ≡ none) ⊎ (m.user ≡ user)))
unfolding permits admin
admin-permits user m = rw (str_eq_refl admin_owner) (
  λ e. elim ((or_iff _ _).0 e) [
    | inl n ↦ inl (none_of user n)
    | inr u ↦ inr ((user_ok_iff m.user user).0 u)
  ],
  λ h.
      (or_iff (is_none user) (is_none m.user || same_text m.user user)).1
        (elim h [ inl n ↦ inl (rw n) | inr u ↦ inr ((user_ok_iff m.user user).1 u) ]),
)
  where
    none_of : (u : Option Str) → is_none u ≡ true → u ≡ none
    none_of none e = refl
    none_of (some s) e = cc

-- A session that a caller creates in its scope is one that it sees.
permits-fresh_meta :
    (scope : Scope) (id : Str) (now : ℕ) → permits scope (fresh_meta id now (in_scope scope)) ≡ true
unfolding permits fresh_meta in_scope
permits-fresh_meta scope id now =
    ground (arith, str_eq_refl scope.owner, (user_ok_iff scope.user scope.user).1 (inr refl))
