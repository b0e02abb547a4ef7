-- ===== src/Shell/Dns/RoundTrip.antt =====
-- A query that is built is read back.
use agent_d.Base.{
  first, ℕ, zero, suc, ◌+◌, ◌-◌, ◌/◌, ◌%◌, ◌≤◌, ◌<◌, ◌≡◌, refl, sym, ap, ◌∙◌, true, false, not,
  ◌&&◌, List, [], ◌∷◌, ◌++◌, some, map, length, drop, ltb, leb, ◌==◌, arith, length-append,
  length-drop, drop-add, drop-append, take-append, All, filter, is_empty,
}
use mathlib.Core.List.{append-nil, append_assoc}
use agent_d.Base.Text.{Str, to_ascii_lowercase, split}
use agent_d.Shell.Dns.Total.{slice_end}
use agent_d.Shell.Dns.{
  byte_at, slice, question, ended, word, be16, read_labels, read_type, read_name, read_header,
  parse_query, class_in, join, encode_labels, encode_qname, build_query,
}

-- A label that stands in a name.
abbrev pub IsLabel : List ℕ → Type 0
IsLabel l = (1 ≤ length l) × (length l < 64)

byte_of : (pos x : ℕ) (buf rest : List ℕ) → drop pos buf ≡ x ∷ rest → byte_at pos buf ≡ some x
unfolding byte_at
byte_of pos x buf rest e = ap first e

-- The bytes of a label, where the packet has them.
slice_of :
    (pos : ℕ) (buf l rest : List ℕ)
    → pos ≤ length buf
    → drop pos buf ≡ l ++ rest
    → slice pos (pos + length l) buf ≡ some l
unfolding slice
slice_of pos buf l rest h e =
    let n : length l + length rest ≡ length buf - pos =
      sym (length-append l rest) ∙ ap length (sym e) ∙ length-drop pos buf in
    let a : (leb pos (pos + length l) && leb (pos + length l) (length buf)) ≡ true = ground arith in
    let m : pos + length l - pos ≡ length l = omega arith in
    rw (a, m, e) (ap some (take-append l rest))

nonzero : (k : ℕ) → 1 ≤ k → (k == 0) ≡ false
nonzero k h = ground arith

no_pointer : (k : ℕ) → k < 64 → (k / 64 % 4 == 0) ≡ true
no_pointer k h = ground arith

-- The labels of a name that is written: what stands between its dots, if anything does.
abbrev pub labels_of : Str → List (List ℕ)
labels_of name = filter (λ l. not (is_empty l)) (split (λ c. c == b'.') name)

length_labels : (ls : List (List ℕ)) → length ls < length (encode_labels ls)
unfolding encode_labels
length_labels [] = omega arith
length_labels (l ∷ ls) = omega (arith, length_labels ls, length-append l (encode_labels ls))

long_enough : (n : ℕ) → 12 ≤ n → ltb n 12 ≡ false
long_enough n h = ground arith

module _ (lossy : List ℕ → Str) where
  abbrev pub shown : List ℕ → Str
  shown l = to_ascii_lowercase (lossy l)

  read_labels-encode :
      (ls : List (List ℕ)) (fuel : ℕ) (buf rest : List ℕ) (pos : ℕ) (labels : List Str)
      → All IsLabel ls
      → length ls < fuel
      → pos ≤ length buf
      → drop pos buf ≡ encode_labels ls ++ rest
      → read_labels lossy fuel buf pos labels
        ≡ ended (labels ++ map shown ls) (pos + length (encode_labels ls))
  unfolding read_labels encode_labels
  read_labels-encode ls zero buf rest pos labels v f h e = absurd (omega arith)
  read_labels-encode [] (suc fuel) buf rest pos labels v f h e =
      rw (byte_of pos 0 buf rest e) (ap (λ l. ended l (pos + 1)) (sym (append-nil labels)))
  read_labels-encode (l ∷ ls) (suc fuel) buf rest pos labels (w, v) f h e =
      let k = length l in
      let body = l ++ (encode_labels ls ++ rest) in
      let small : k % 256 ≡ k = omega (arith, w.1) in
      let e1 : drop pos buf ≡ k ∷ body =
        e
        ∙ ap (λ n. n ∷ ((l ++ encode_labels ls) ++ rest)) small
        ∙ ap (λ t. k ∷ t) (append_assoc l (encode_labels ls) rest) in
      let e2 : drop (pos + 1) buf ≡ body = drop-add pos 1 buf ∙ ap (drop 1) e1 in
      let n : suc (length body) ≡ length buf - pos = ap length (sym e1) ∙ length-drop pos buf in
      let s : slice (pos + 1) (pos + 1 + k) buf ≡ some l =
        slice_of (pos + 1) buf l (encode_labels ls ++ rest) (omega (arith, n)) e2 in
      let e3 : drop (pos + 1 + k) buf ≡ encode_labels ls ++ rest =
        drop-add (pos + 1) k buf ∙ ap (drop k) e2 ∙ drop-append l (encode_labels ls ++ rest) in
      rw (byte_of pos k buf body e1, nonzero k w.0, no_pointer k w.1, s)
        (read_labels-encode ls fuel buf rest (pos + 1 + k) (labels ++ (shown l ∷ [])) v
            (omega (arith, f)) (slice_end (pos + 1) (pos + 1 + k) buf l s) e3
          ∙ ended_of (append_assoc labels (shown l ∷ []) (map shown ls))
              (omega (arith, length-append l (encode_labels ls))))
    where
      ended_of : {a b : List Str} {m n : ℕ} → a ≡ b → m ≡ n → ended a m ≡ ended b n
      ended_of p q = cc (p, q)

  read_type-tail :
      (id : ℕ) (buf : List ℕ) (labels : List Str) (enc : List ℕ) (a b : ℕ)
      → 12 ≤ length buf
      → drop 12 buf ≡ enc ++ (a ∷ b ∷ 0 ∷ 1 ∷ [])
      → read_type lossy id buf labels (12 + length enc)
        ≡ question (record {
          id = id;
          name = join labels;
          qtype = word a b;
          qbytes = enc ++ (a ∷ b ∷ 0 ∷ 1 ∷ []);
        })
  unfolding read_type
  read_type-tail id buf labels enc a b h e =
      let pos = 12 + length enc in
      let tail = a ∷ b ∷ 0 ∷ 1 ∷ [] in
      let e0 : drop pos buf ≡ tail =
        drop-add 12 (length enc) buf ∙ ap (drop (length enc)) e ∙ drop-append enc tail in
      let n : pos + 4 ≡ 12 + length (enc ++ tail) = omega (arith, length-append enc tail) in
      let s : slice 12 (pos + 4) buf ≡ some (enc ++ tail) =
        ap (λ m. slice 12 m buf) n
        ∙ slice_of 12 buf (enc ++ tail) [] h (e ∙ sym (append-nil (enc ++ tail))) in
      rw
        (
          byte_of pos a buf (b ∷ 0 ∷ 1 ∷ []) e0,
          byte_of (pos + 1) b buf (0 ∷ 1 ∷ []) (drop-add pos 1 buf ∙ ap (drop 1) e0),
          byte_of (pos + 2) 0 buf (1 ∷ []) (drop-add pos 2 buf ∙ ap (drop 2) e0),
          byte_of (pos + 3) 1 buf [] (drop-add pos 3 buf ∙ ap (drop 3) e0),
          s,
        )
        refl

  parse_query_long :
      (buf : List ℕ) → 12 ≤ length buf → parse_query lossy buf ≡ read_header lossy buf buf
  unfolding parse_query
  parse_query_long buf h = rw (long_enough (length buf) h) refl

  read_name_ended :
      (id : ℕ) (buf : List ℕ) (l : List Str) (pos : ℕ)
      → read_labels lossy (length buf) buf 12 [] ≡ ended l pos
      → read_name lossy id buf ≡ read_type lossy id buf l pos
  unfolding read_name
  read_name_ended id buf l pos e = rw (e, read_name) refl

  -- A query for a name whose labels have fewer than 64 bytes is read as what was asked: its id and its
  -- type, the labels in lower case, and the bytes of the question.
  pub parse_query-build_query :
      (id : ℕ) (name : Str) (qtype : ℕ)
      → id < 65536
      → qtype < 65536
      → All IsLabel (labels_of name)
      → parse_query lossy (build_query id name qtype)
        ≡ question (record {
          id = id;
          name = join (map shown (labels_of name));
          qtype = qtype;
          qbytes = encode_qname name ++ (be16 qtype ++ be16 class_in);
        })
  unfolding parse_query read_header read_name build_query encode_qname
  parse_query-build_query id name qtype i t v =
      let enc = encode_labels (labels_of name) in
      let tail = be16 qtype ++ be16 class_in in
      let buf = build_query id name qtype in
      let scanned : read_labels lossy (length buf) buf 12 []
          ≡ ended (map shown (labels_of name)) (12 + length enc) =
        read_labels-encode (labels_of name) (length buf) buf tail 12 [] v
          (omega (arith, length_labels (labels_of name), length-append enc tail)) (omega arith)
          refl in
      let typed =
        read_type-tail (word (id / 256 % 256) (id % 256)) buf (map shown (labels_of name)) enc
          (qtype / 256 % 256) (qtype % 256) (omega arith) refl in
      let i' : word (id / 256 % 256) (id % 256) ≡ id = omega arith in
      let t' : word (qtype / 256 % 256) (qtype % 256) ≡ qtype = omega arith in
      parse_query_long buf (omega arith)
      ∙ read_name_ended (word (id / 256 % 256) (id % 256)) buf _ _ scanned
      ∙ typed
      ∙ question_of i' t'
    where
      question_of :
          {a b c d : ℕ} {n : Str} {l : List ℕ}
          → a ≡ b
          → c ≡ d
          → question (record { id = a; name = n; qtype = c; qbytes = l })
            ≡ question (record { id = b; name = n; qtype = d; qbytes = l })
      question_of p q = cc (p, q)
