-- ===== src/Shell/Dns/Total.antt =====
-- No packet makes the resolver panic or loop.
use agent_d.Base.{
  ℕ, zero, suc, ◌+◌, ◌/◌, ◌%◌, ◌≤◌, ◌<◌, ◌≡◌, refl, inl, inr, Bool, true, false, not, List, [], ◌∷◌,
  Option, none, some, length, if◌then◌else◌, ltb, ◌==◌, arith, Bool-cases,
}
use agent_d.Base.Text.{Str}
use agent_d.Shell.Dns.{
  byte_at, slice, Parsed, question, malformed, panicked, out_of_fuel, Labels, ended, bad_label,
  labels_out_of_fuel, word, read_labels, read_type, read_name, read_header, parse_query, class_in,
  or_bad, or_malformed,
}

-- A packet is read as a question or as malformed.
abbrev pub IsRead : Parsed → Type 0
IsRead (question q) = Unit
IsRead malformed = Unit
IsRead panicked = ⊥
IsRead out_of_fuel = ⊥

abbrev IsScanned : Labels → Type 0
IsScanned (ended l n) = Unit
IsScanned bad_label = Unit
IsScanned labels_out_of_fuel = ⊥

pub slice_end : (a b : ℕ) (buf l : List ℕ) → slice a b buf ≡ some l → b ≤ length buf
unfolding slice
slice_end a b buf l e = ground arith

or_bad-IsScanned :
    {A : Type 0} (o : Option A) (f : A → Labels)
    → ((a : A) → o ≡ some a → IsScanned (f a))
    → IsScanned (or_bad o f)
or_bad-IsScanned none f h = tt
or_bad-IsScanned (some a) f h = h a refl

or_malformed-IsRead :
    {A : Type 0} (o : Option A) (f : A → Parsed)
    → ((a : A) → IsRead (f a))
    → IsRead (or_malformed o f)
or_malformed-IsRead none f h = tt
or_malformed-IsRead (some a) f h = h a

unless-IsScanned : (b : Bool) (x : Labels) → IsScanned x → IsScanned (if b then bad_label else x)
unless-IsScanned true x h = tt
unless-IsScanned false x h = h

unless-IsRead : (b : Bool) (x : Parsed) → IsRead x → IsRead (if b then malformed else x)
unless-IsRead true x h = tt
unless-IsRead false x h = h

ended-IsScanned :
    (b : Bool) (l : List Str) (n : ℕ) (x : Labels)
    → IsScanned x
    → IsScanned (if b then ended l n else x)
ended-IsScanned true l n x h = tt
ended-IsScanned false l n x h = h

at_least : (buf : List ℕ) → ltb (length buf) 12 ≡ false → 12 ≤ length buf
at_least buf e = ground arith

module _ (lossy : List ℕ → Str) where
  read_labels-IsScanned :
      (fuel : ℕ) (buf : List ℕ) (pos : ℕ) (labels : List Str)
      → pos ≤ length buf
      → length buf < fuel + pos
      → IsScanned (read_labels lossy fuel buf pos labels)
  unfolding read_labels
  read_labels-IsScanned zero buf pos labels h f = absurd (omega arith)
  read_labels-IsScanned (suc fuel) buf pos labels h f =
      or_bad-IsScanned (byte_at pos buf) _ λ len e. ended-IsScanned (len == 0) _ _ _ (
        unless-IsScanned (not (len / 64 % 4 == 0)) _ (
          or_bad-IsScanned (slice (pos + 1) (pos + 1 + len) buf) _ λ label g.
            read_labels-IsScanned fuel buf (pos + 1 + len) _
              (slice_end (pos + 1) (pos + 1 + len) buf label g) (omega (arith, f))))

  read_type-IsRead :
      (id : ℕ) (buf : List ℕ) (labels : List Str) (pos : ℕ)
      → IsRead (read_type lossy id buf labels pos)
  unfolding read_type
  read_type-IsRead id buf labels pos = or_malformed-IsRead (byte_at pos buf) _ λ a.
      or_malformed-IsRead (byte_at (pos + 1) buf) _ λ b.
        or_malformed-IsRead (byte_at (pos + 2) buf) _ λ c.
          or_malformed-IsRead (byte_at (pos + 3) buf) _ λ d.
            unless-IsRead (not (word c d == class_in)) _
              (or_malformed-IsRead (slice 12 (pos + 4) buf) _ λ q. tt)

  read_name-IsRead : (id : ℕ) (buf : List ℕ) → 12 ≤ length buf → IsRead (read_name lossy id buf)
  unfolding read_name
  read_name-IsRead id buf h =
      scanned (read_labels lossy (length buf) buf 12 [])
        (read_labels-IsScanned (length buf) buf 12 [] h (omega arith))
    where
      scanned :
          (x : Labels)
          → IsScanned x
          → IsRead (elim x [
            | ended labels pos ↦ read_type lossy id buf labels pos
            | bad_label ↦ malformed
            | labels_out_of_fuel ↦ out_of_fuel
          ])
      scanned (ended labels pos) s = read_type-IsRead id buf labels pos
      scanned bad_label s = tt
      scanned labels_out_of_fuel s = s

  read_header-IsRead :
      (buf front : List ℕ)
      → 12 ≤ length buf
      → 12 ≤ length front
      → IsRead (read_header lossy buf front)
  unfolding read_header
  read_header-IsRead buf (b0 ∷ b1 ∷ b2 ∷ b3 ∷ b4 ∷ b5 ∷ rest) h f =
      unless-IsRead (not (word b2 b3 / 32768 % 2 == 0)) _ (
        unless-IsRead (not (word b2 b3 / 2048 % 16 == 0)) _
          (unless-IsRead (not (word b4 b5 == 1)) _ (read_name-IsRead (word b0 b1) buf h)))
  read_header-IsRead buf [] h f = omega (arith, f)
  read_header-IsRead buf (a ∷ []) h f = omega (arith, f)
  read_header-IsRead buf (a ∷ b ∷ []) h f = omega (arith, f)
  read_header-IsRead buf (a ∷ b ∷ c ∷ []) h f = omega (arith, f)
  read_header-IsRead buf (a ∷ b ∷ c ∷ d ∷ []) h f = omega (arith, f)
  read_header-IsRead buf (a ∷ b ∷ c ∷ d ∷ e ∷ []) h f = omega (arith, f)

  -- Every packet is read as a question or as malformed: no index is out of range, and the loop over
  -- the labels of its name ends within as many rounds as the packet has bytes.
  pub parse_query-IsRead : (buf : List ℕ) → IsRead (parse_query lossy buf)
  unfolding parse_query
  parse_query-IsRead buf = elim (Bool-cases (ltb (length buf) 12)) [
    | inl e ↦ rw e tt
    | inr e ↦ rw e (read_header-IsRead buf buf (at_least buf e) (at_least buf e))
  ]
