-- ===== src/Fs/Patch/Replaced.antt =====
-- What stands in the place of the lines of a hunk.
use agent_d.Base.{
  ℕ, ◌≡◌, refl, sym, ap, ◌∙◌, true, false, ◌||◌, ◌==◌, List, [], ◌∷◌, none, some, map, filter,
  first, take, drop, length, if◌then◌else◌, Bool-cases, and_iff, is_some_and, arith, inl, inr,
}
use agent_d.Base.Text.{Str, str_eq, str_eq_iff}
use agent_d.Fs.Patch.{
  Ending, Line, starts_by, old_texts, matches, cons_line, replacement, no_newline,
}

-- The lines of a hunk that the new file has, without their signs.
unfoldable pub new_texts : List Str → List Str
new_texts l = map (drop 1) (filter (λ s. starts_by b' ' s || starts_by b'+' s) l)

abbrev pub texts : List Line → List Str
texts l = map (λ z. z.content) l

pub matches-texts :
    (old : List Str) (l : List Line) → matches old l ≡ true → texts (take (length old) l) ≡ old
unfolding matches
matches-texts [] l h = refl
matches-texts (w ∷ old) [] h = cc h
matches-texts (w ∷ old) (m ∷ l) h =
    let (a, b) = (and_iff (str_eq w m.content) (matches old l)).0 h in
    cc ((str_eq_iff w m.content).0 a, matches-texts old l b)

old_kept :
    (c : ℕ) (t : Str) (rest : List Str)
    → (c == b' ' || c == b'-') ≡ true
    → old_texts ((c ∷ t) ∷ rest) ≡ t ∷ old_texts rest
unfolding old_texts
old_kept c t rest h = rw (h, old_texts) refl

old_dropped :
    (c : ℕ) (t : Str) (rest : List Str)
    → (c == b' ' || c == b'-') ≡ false
    → old_texts ((c ∷ t) ∷ rest) ≡ old_texts rest
unfolding old_texts
old_dropped c t rest h = rw (h, old_texts) refl

new_kept :
    (c : ℕ) (t : Str) (rest : List Str)
    → (c == b' ' || c == b'+') ≡ true
    → new_texts ((c ∷ t) ∷ rest) ≡ t ∷ new_texts rest
unfolding new_texts
new_kept c t rest h = rw (h, new_texts) refl

new_dropped :
    (c : ℕ) (t : Str) (rest : List Str)
    → (c == b' ' || c == b'+') ≡ false
    → new_texts ((c ∷ t) ∷ rest) ≡ new_texts rest
unfolding new_texts
new_dropped c t rest h = rw (h, new_texts) refl

-- The sign of a line decides which sides it is on.
not_both : (c : ℕ) → (c == b'-') ≡ true → (c == b' ' || c == b'+') ≡ false
not_both c h = ground arith

module _ (region : Ending) where
  -- There is a replacement, and it reads as the new side of the hunk.
  abbrev pub IsReplaced : List Str → List Line → Type 0
  IsReplaced ls original =
      (new : List Line) × (replacement region ls original ≡ some new) × (texts new ≡ new_texts ls)

  module _ (c : ℕ) (t : Str) (rest : List Str) where
    keep :
        (original : List Line)
        → (c == b' ') ≡ true
        → ((o : List Line) → texts o ≡ old_texts rest → IsReplaced rest o)
        → texts original ≡ t ∷ old_texts rest
        → IsReplaced ((c ∷ t) ∷ rest) original
    unfolding replacement
    keep [] b f e = cc e
    keep (m ∷ others) b f e =
        let (new, r, w) = f others (cc e) in
        let l : Line = record {
          content = m.content;
          ending = if is_some_and (str_eq no_newline) (first rest) then none else m.ending;
        } in
        let p : m.content ≡ t = cc e in
        (
          l ∷ new,
          rw (b, replacement) (ap (cons_line l) r),
          cc (p, w, new_kept c t rest (ground (arith, b))),
        )

    removed :
        (original : List Line)
        → (c == b' ') ≡ false
        → (c == b'-') ≡ true
        → ((o : List Line) → texts o ≡ old_texts rest → IsReplaced rest o)
        → texts original ≡ t ∷ old_texts rest
        → IsReplaced ((c ∷ t) ∷ rest) original
    unfolding replacement
    removed [] b m f e = cc e
    removed (o ∷ others) b m f e =
        let (new, r, w) = f others (cc e) in
        (new, rw (b, m, replacement) r, w ∙ sym (new_dropped c t rest (not_both c m)))

    added :
        (original : List Line)
        → (c == b' ') ≡ false
        → (c == b'-') ≡ false
        → (c == b'+') ≡ true
        → ((o : List Line) → texts o ≡ old_texts rest → IsReplaced rest o)
        → texts original ≡ old_texts rest
        → IsReplaced ((c ∷ t) ∷ rest) original
    unfolding replacement
    added original b m p f e =
        let (new, r, w) = f original e in
        let l : Line = record {
          content = t;
          ending = if is_some_and (str_eq no_newline) (first rest) then none else some region;
        } in
        (
          l ∷ new,
          rw (b, m, p, replacement) (ap (cons_line l) r),
          ap (λ z. t ∷ z) w ∙ sym (new_kept c t rest (ground (arith, b, p))),
        )

  -- Where the original lines read as the old side of the hunk, there is a replacement, which reads as the new side.
  pub replaced :
      (ls : List Str) (original : List Line)
      → texts original ≡ old_texts ls
      → IsReplaced ls original
  unfolding replacement old_texts new_texts
  replaced [] original e = ([], refl, refl)
  replaced ([] ∷ rest) original e = replaced rest original e
  replaced ((c ∷ t) ∷ rest) original e = elim (Bool-cases (c == b' ')) [
    | inl b ↦ keep c t rest original b (replaced rest) (e ∙ old_kept c t rest (ground (arith, b)))
    | inr b ↦ elim (Bool-cases (c == b'-')) [
      | inl m ↦
          removed c t rest original b m (replaced rest)
            (e ∙ old_kept c t rest (ground (arith, b, m)))
      | inr m ↦ elim (Bool-cases (c == b'+')) [
        | inl p ↦
            added c t rest original b m p (replaced rest)
              (e ∙ old_dropped c t rest (ground (arith, b, m)))
        | inr p ↦
            let (new, r, w) =
              replaced rest original (e ∙ old_dropped c t rest (ground (arith, b, m))) in
            (
              new,
              rw (b, m, p, replacement) r,
              w ∙ sym (new_dropped c t rest (ground (arith, b, p))),
            )
      ]
    ]
  ]
