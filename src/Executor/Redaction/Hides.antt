-- ===== src/Executor/Redaction/Hides.antt =====
-- A secret does not stand in the text that its placeholder replaced it in.
use agent_d.Base.{
  ℕ, zero, suc, ◌-◌, ◌≡◌, refl, sym, ap, ◌∙◌, inl, inr, true, false, List, [], ◌∷◌, ◌++◌, length,
  if◌then◌else◌, Bool-cases, In, and_iff, or_iff, ◌==◌, ==_iff, In-append_left, is_empty,
}
use agent_d.Base.Text.{contains, Str, starts_with}
use agent_d.Executor.Redaction.{replace_after, replace, placeholder, replace_secrets, redact_str}

-- No character stands in both texts.
abbrev pub IsApart : Str → Str → Type 0
IsApart v r = (c : ℕ) → In c v → In c r → ⊥

-- Where the text after the replacement starts with a part of the secret, the text before it did.
starts_with-replace :
    (v r w s : Str)
    → is_empty r ≡ false
    → IsApart w r
    → starts_with w (replace v r s) ≡ true
    → starts_with w s ≡ true
unfolding starts_with replace_after
starts_with-replace v r [] s n a h = refl
starts_with-replace v r (b ∷ w) [] n a h = h
starts_with-replace v [] (b ∷ w) (c ∷ s) n a h = cc
starts_with-replace v (d ∷ r) (b ∷ w) (c ∷ s) n a h = elim (Bool-cases (starts_with v (c ∷ s))) [
  | inl e ↦ elim (a b (inl refl) (inl ((==_iff b d).0 ((and_iff _ _).0 (rw e at h)).0))) [ ]
  | inr e ↦
      let (f, g) = (and_iff (b == c) _).0 (rw e at h) in
      (and_iff _ _).1 (f, starts_with-replace v (d ∷ r) w s n (λ x m k. a x (inr m) k) g)
]

-- A text apart from the secret, put before another, adds no occurrence of it.
contains-append :
    (v r s : Str)
    → is_empty v ≡ false
    → IsApart v r
    → contains v (r ++ s) ≡ true
    → contains v s ≡ true
unfolding contains starts_with
contains-append v [] s n a h = h
contains-append [] (c ∷ r) s n a h = cc
contains-append (b ∷ v) (c ∷ r) s n a h =
    elim ((or_iff (starts_with (b ∷ v) (c ∷ (r ++ s))) _).0 h) [
      | inl k ↦
          elim (a b (inl refl)
            (inl ((==_iff b c).0 ((and_iff (b == c) (starts_with v (r ++ s))).0 k).0))) [ ]
      | inr k ↦ contains-append (b ∷ v) r s n (λ x m i. a x m (inr i)) k
    ]

-- A character where the secret does not start stays.
unreplaced :
    (v r : Str) (c : ℕ) (s : Str)
    → starts_with v (c ∷ s) ≡ false
    → replace v r (c ∷ s) ≡ c ∷ replace v r s
unfolding replace_after
unreplaced v r c s e = rw (e, replace_after) refl

-- Replacing a secret adds no occurrence of another.
contains-replace :
    (v w r : Str)
    → is_empty v ≡ false
    → is_empty r ≡ false
    → IsApart v r
    → (n : ℕ) (s : Str) → contains v (replace_after n w r s) ≡ true
    → contains v s ≡ true
unfolding contains replace_after
contains-replace v w r e f a n [] h = h
contains-replace v w r e f a (suc n) (c ∷ s) h =
    (or_iff _ _).1 (inr (contains-replace v w r e f a n s h))
contains-replace v w r e f a zero (c ∷ s) h = elim (Bool-cases (starts_with w (c ∷ s))) [
  | inl k ↦
      (or_iff _ _).1 (
        inr (contains-replace v w r e f a (length w - 1) s (contains-append v r _ e a (rw k at h))))
  | inr k ↦
      elim ((or_iff (starts_with v (c ∷ replace w r s)) (contains v (replace w r s))).0
        (rw k at h)) [
          | inl i ↦ (or_iff _ _).1 (
              inl (
                starts_with-replace w r v (c ∷ s) f a
                  (ap (starts_with v) (unreplaced w r c s k) ∙ i)))
          | inr i ↦ (or_iff _ _).1 (inr (contains-replace v w r e f a zero s i))
        ]
]

no_end : (b : ℕ) (v : Str) → starts_with (b ∷ v) [] ≡ true → ⊥
unfolding starts_with
no_end b v h = cc

-- A secret that was replaced is gone.
replace-hides :
    (v r : Str)
    → is_empty v ≡ false
    → is_empty r ≡ false
    → IsApart v r
    → (n : ℕ) (s : Str) → contains v (replace_after n v r s) ≡ true
    → ⊥
unfolding contains replace_after
replace-hides [] r e f a n [] h = cc
replace-hides (b ∷ v) r e f a n [] h = no_end b v h
replace-hides v r e f a (suc n) (c ∷ s) h = replace-hides v r e f a n s h
replace-hides v r e f a zero (c ∷ s) h = elim (Bool-cases (starts_with v (c ∷ s))) [
  | inl k ↦ replace-hides v r e f a (length v - 1) s (contains-append v r _ e a (rw k at h))
  | inr k ↦
      elim ((or_iff (starts_with v (c ∷ replace v r s)) (contains v (replace v r s))).0
        (rw k at h)) [
          | inl i ↦ cc (
            k,
            starts_with-replace v r v (c ∷ s) f a (ap (starts_with v) (unreplaced v r c s k) ∙ i),
          )
          | inr i ↦ replace-hides v r e f a zero s i
        ]
]

-- Each secret has a value, no character of which stands in a placeholder.
abbrev pub AreApart : List (Str × Str) → List (Str × Str) → Type 0
AreApart l k =
    (n v m w : Str) → In (n, v) l → In (m, w) k → (is_empty v ≡ false) × IsApart v (placeholder m)

once-contains :
    (v m w out : Str)
    → is_empty v ≡ false
    → IsApart v (placeholder m)
    → contains v (if contains w out then replace w (placeholder m) out else out) ≡ true
    → contains v out ≡ true
once-contains v m w out e a h = elim (Bool-cases (contains w out)) [
  | inl k ↦ contains-replace v w (placeholder m) e refl a 0 out (rw k at h)
  | inr k ↦ rw k at h
]

-- No secret comes into a text by the replacement of others.
replace_secrets-contains :
    (l : List (Str × Str)) (n v out : Str)
    → AreApart ((n, v) ∷ []) l
    → contains v (replace_secrets l out) ≡ true
    → contains v out ≡ true
unfolding replace_secrets
replace_secrets-contains [] n v out a h = h
replace_secrets-contains ((m, w) ∷ l) n v out a h =
    let (e, b) = a n v m w (inl refl) (inl refl) in
    once-contains v m w out e b
      (replace_secrets-contains l n v _ (λ n' v' m' w' i j. a n' v' m' w' i (inr j)) h)

once-hides :
    (m w out : Str)
    → is_empty w ≡ false
    → IsApart w (placeholder m)
    → contains w (if contains w out then replace w (placeholder m) out else out) ≡ true
    → ⊥
once-hides m w out e a h = elim (Bool-cases (contains w out)) [
  | inl k ↦ replace-hides w (placeholder m) e refl a 0 out (rw k at h)
  | inr k ↦ cc (k, (rw k at h))
]

replace_secrets-hides :
    (l : List (Str × Str)) (n v out : Str)
    → AreApart l l
    → In (n, v) l
    → contains v (replace_secrets l out) ≡ true
    → ⊥
unfolding replace_secrets
replace_secrets-hides [] n v out a m h = elim m [ ]
replace_secrets-hides ((k, w) ∷ l) n v out a (inr m) h =
    replace_secrets-hides l n v _ (λ n' v' m' w' i j. a n' v' m' w' (inr i) (inr j)) m h
replace_secrets-hides ((k, w) ∷ l) n v out a (inl p) h =
    let (e, b) = a k w k w (inl refl) (inl refl) in
    let o = ap (λ q. q.1) p in
    once-hides k w out e b (
      replace_secrets-contains l k w _
        (λ n' v' m' w' i j. a n' v' m' w' (In-append_left (n', v') ((k, w) ∷ []) l i) (inr j))
        (ap
            (λ x.
              contains x
                (replace_secrets l (if contains w out then replace w (placeholder k) out else out)))
            (sym o)
          ∙ h))

-- None of the secrets stands in a text that is shown uncapped, where the secrets have values that
-- share no character with a placeholder.
pub redact_str-hides :
    (s : Str) (l : List (Str × Str)) (n v : Str)
    → AreApart l l
    → In (n, v) l
    → contains v (redact_str s l false) ≡ false
unfolding redact_str
redact_str-hides s l n v a m = elim (Bool-cases (contains v (replace_secrets l s))) [
  | inl h ↦ elim (replace_secrets-hides l n v s a m h) [ ]
  | inr h ↦ h
]
