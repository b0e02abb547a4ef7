-- ===== src/Shell/Output/Bounds.antt =====
-- What is kept of a stream.
use agent_d.Base.{
  ℕ, zero, suc, ◌+◌, ◌-◌, ◌≤◌, ◌≡◌, sym, ap, ◌∙◌, Bool, ◌||◌, List, [], ◌∷◌, ◌++◌, length, take,
  min, ltb, is_empty, if◌then◌else◌, arith, Bool-cases, inl, inr, length-append,
}
use mathlib.Core.List.{append-nil, append_assoc}
use agent_d.Shell.Output.{
  Capped, nothing, push_within, push, Read, chunk, failed, read_sync, max_output_bytes,
}

-- What a stream carries until it ends or fails.
unfoldable pub stream : List Read → List ℕ
stream [] = []
stream (failed ∷ l) = []
stream (chunk b ∷ l) = let rest = stream l in if is_empty b then [] else b ++ rest

length-take : {A : Type 0} (n : ℕ) (l : List A) → length (take n l) ≡ min n (length l)
length-take zero l = omega arith
length-take (suc n) [] = omega arith
length-take (suc n) (x ∷ l) = omega (arith, length-take n l)

take-append_both :
    {A : Type 0} (n : ℕ) (s t : List A) → take n (s ++ t) ≡ take n s ++ take (n - length s) t
take-append_both zero s t = let e : 0 ≡ 0 - length s = omega arith in ap (λ m. take m t) e
take-append_both (suc n) [] t = let e : suc n ≡ suc n - 0 = omega arith in ap (λ m. take m t) e
take-append_both (suc n) (x ∷ s) t =
    let e : suc n - suc (length s) ≡ n - length s = omega arith in
    ap (λ l. x ∷ l) (take-append_both n s t) ∙ ap (λ m. x ∷ (take n s ++ take m t)) (sym e)

take-min : {A : Type 0} (n : ℕ) (l : List A) → take (min (length l) n) l ≡ take n l
take-min zero l = let e : min (length l) 0 ≡ 0 = omega arith in ap (λ m. take m l) e
take-min (suc n) [] = let e : min 0 (suc n) ≡ 0 = omega arith in ap (λ m. take m []) e
take-min (suc n) (x ∷ l) =
    let e : min (suc (length l)) (suc n) ≡ suc (min (length l) n) = omega arith in
    ap (λ m. take m (x ∷ l)) e ∙ ap (λ t. x ∷ t) (take-min n l)

-- The first bytes of a text, and whether that is not all.
abbrev pub kept : ℕ → List ℕ → Capped
kept most t = record { bytes = take most t; truncated = ltb most (length t) }

Capped_of :
    {a b : List ℕ} {m n : Bool}
    → a ≡ b
    → m ≡ n
    → ◌≡◌ {A = Capped} (record { bytes = a; truncated = m }) (record { bytes = b; truncated = n })
Capped_of p q = cc (p, q)

over : (most t c m : ℕ) → m ≡ min most t → (ltb most t || ltb (most - m) c) ≡ ltb most (t + c)
over most t c m e = ground arith

push_within-kept : (most : ℕ) (c t : List ℕ) → push_within most c (kept most t) ≡ kept most (t ++ c)
unfolding push_within
push_within-kept most c t =
    let n = length-take most t in
    let room : most - length (take most t) ≡ most - length t = omega (arith, n) in
    Capped_of
      (ap (λ l. take most t ++ l)
          (take-min (most - length (take most t)) c ∙ ap (λ m. take m c) room)
        ∙ sym (take-append_both most t c))
      (over most (length t) (length c) (length (take most t)) n
        ∙ ap (ltb most) (sym (length-append t c)))

read_sync-kept :
    (l : List Read) (t : List ℕ)
    → read_sync l (kept max_output_bytes t) ≡ kept max_output_bytes (t ++ stream l)
unfolding read_sync stream push
read_sync-kept [] t = ap (kept max_output_bytes) (sym (append-nil t))
read_sync-kept (failed ∷ l) t = ap (kept max_output_bytes) (sym (append-nil t))
read_sync-kept (chunk b ∷ l) t = elim (Bool-cases (is_empty b)) [
  | inl e ↦ rw e (ap (kept max_output_bytes) (sym (append-nil t)))
  | inr e ↦ rw e (
      ap (read_sync l) (push_within-kept max_output_bytes b t)
      ∙ read_sync-kept l (t ++ b)
      ∙ ap (kept max_output_bytes) (append_assoc t b (stream l)))
]

-- Of a stream, in whatever chunks it comes, the first 16 MiB are kept and never more, and it is
-- marked as truncated exactly if it is longer.
pub read_sync-stream :
    (l : List Read)
    → (read_sync l nothing ≡ kept max_output_bytes (stream l))
      × (length (read_sync l nothing).bytes ≤ max_output_bytes)
read_sync-stream l =
    let e : read_sync l nothing ≡ kept max_output_bytes (stream l) = read_sync-kept l [] in
    (e, rw e (omega (arith, length-take max_output_bytes (stream l))))
