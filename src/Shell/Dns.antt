-- ===== src/Shell/Dns.antt =====
-- crates/shell/src/dns_wire.rs: the DNS codec of the sandbox resolver. Packets are lists of bytes, a
-- text that is written is its UTF-8 bytes, and a test of bits is one of quotients. An index that is out of
-- range is `panicked`, where the code uses brackets; the reading of bytes as UTF-8 is an argument.
pub mod Total
pub mod RoundTrip
use agent_d.Base.{
  first, ℕ, zero, suc, ◌+◌, ◌-◌, ◌*◌, ◌/◌, ◌%◌, ◌≡◌, Bool, true, false, not, ◌&&◌, ◌||◌, List, [],
  ◌∷◌, ◌++◌, Option, none, some, map, length, take, drop, filter, is_empty, if◌then◌else◌, ltb, leb,
  ◌==◌,
}
use agent_d.Base.Text.{Str, text, split, to_ascii_lowercase}

-- `u16::to_be_bytes` and `u16::from_be_bytes`.
abbrev pub be16 : ℕ → List ℕ
be16 n = (n / 256 % 256) ∷ (n % 256) ∷ []

abbrev pub word : ℕ → ℕ → ℕ
word a b = a * 256 + b

-- `u32::to_be_bytes`.
abbrev pub be32 : ℕ → List ℕ
be32 n = (n / 16777216 % 256) ∷ (n / 65536 % 256) ∷ (n / 256 % 256) ∷ (n % 256) ∷ []

-- `buf.get(pos)` and `buf.get(pos..end)`.
unfoldable pub byte_at : ℕ → List ℕ → Option ℕ
byte_at pos buf = first (drop pos buf)

unfoldable pub slice : ℕ → ℕ → List ℕ → Option (List ℕ)
slice pos end buf =
    if leb pos end && leb end (length buf) then some (take (end - pos) (drop pos buf)) else none

abbrev pub type_a : ℕ
type_a = 1

abbrev pub type_aaaa : ℕ
type_aaaa = 28

abbrev pub class_in : ℕ
class_in = 1

pub record Question : Type 0 where
  pub id : ℕ
  pub name : Str
  pub qtype : ℕ
  pub qbytes : List ℕ

-- How a packet is read.
pub data Parsed : Type 0 where
  question : Question → Parsed
  malformed : Parsed
  panicked : Parsed
  out_of_fuel : Parsed

-- The labels of a name, and where the name ends.
pub data Labels : Type 0 where
  ended : List Str → ℕ → Labels
  bad_label : Labels
  labels_out_of_fuel : Labels

-- `labels.join(".")`.
unfoldable pub join : List Str → Str
join [] = []
join (s ∷ []) = s
join (s ∷ t ∷ l) = s ++ (text "." ++ join (t ∷ l))

-- `?` on what a packet may lack.
abbrev pub or_bad {ℓ} : {A : Type ℓ} → Option A → (A → Labels) → Labels
or_bad none f = bad_label
or_bad (some a) f = f a

abbrev pub or_malformed {ℓ} : {A : Type ℓ} → Option A → (A → Parsed) → Parsed
or_malformed none f = malformed
or_malformed (some a) f = f a

module _ (lossy : List ℕ → Str) where
  unfoldable pub read_labels : ℕ → List ℕ → ℕ → List Str → Labels
  read_labels zero buf pos labels = labels_out_of_fuel
  read_labels (suc fuel) buf pos labels = or_bad (byte_at pos buf) λ len.
      if len == 0
      then ended labels (pos + 1)
      else if not (len / 64 % 4 == 0)
      then bad_label
      else or_bad (slice (pos + 1) (pos + 1 + len) buf) λ label.
        read_labels fuel buf (pos + 1 + len) (labels ++ (to_ascii_lowercase (lossy label) ∷ []))

  -- What follows the name.
  unfoldable pub read_type : ℕ → List ℕ → List Str → ℕ → Parsed
  read_type id buf labels pos = or_malformed (byte_at pos buf) λ a.
      or_malformed (byte_at (pos + 1) buf) λ b. or_malformed (byte_at (pos + 2) buf) λ c.
        or_malformed (byte_at (pos + 3) buf) λ d.
          if not (word c d == class_in)
          then malformed
          else or_malformed (slice 12 (pos + 4) buf) λ qbytes.
            question (record { id = id; name = join labels; qtype = word a b; qbytes = qbytes })

  unfoldable pub read_name : ℕ → List ℕ → Parsed
  read_name id buf = elim (read_labels (length buf) buf 12 []) [
    | ended labels pos ↦ read_type id buf labels pos
    | bad_label ↦ malformed
    | labels_out_of_fuel ↦ out_of_fuel
  ]

  -- The tests of the header, which stands at the start of the packet.
  unfoldable pub read_header : List ℕ → List ℕ → Parsed
  read_header buf (b0 ∷ b1 ∷ b2 ∷ b3 ∷ b4 ∷ b5 ∷ rest) =
      if not (word b2 b3 / 32768 % 2 == 0)
      then malformed
      else if not (word b2 b3 / 2048 % 16 == 0)
      then malformed
      else if not (word b4 b5 == 1)
      then malformed
      else read_name (word b0 b1) buf
  read_header buf _ = panicked

  unfoldable pub parse_query : List ℕ → Parsed
  parse_query buf = if ltb (length buf) 12 then malformed else read_header buf buf

-- An address by its octets.
pub data IpAddr : Type 0 where
  v4 : ℕ → ℕ → ℕ → ℕ → IpAddr
  v6 : List ℕ → IpAddr

-- Whether an address is of the family that is asked for.
unfoldable pub has_family : ℕ → IpAddr → Bool
has_family qtype (v4 a b c d) = qtype == type_a
has_family qtype (v6 l) = qtype == type_aaaa

unfoldable pub answer : ℕ → IpAddr → List ℕ
answer ttl (v4 a b c d) =
    192 ∷ 12 ∷ (be16 type_a ++ (be16 class_in ++ (be32 ttl ++ (be16 4 ++ (a ∷ b ∷ c ∷ d ∷ [])))))
answer ttl (v6 l) = 192 ∷ 12 ∷ (be16 type_aaaa ++ (be16 class_in ++ (be32 ttl ++ (be16 16 ++ l))))

abbrev pub concat : List (List ℕ) → List ℕ
concat [] = []
concat (x ∷ l) = x ++ concat l

unfoldable pub build_response : Question → List IpAddr → ℕ → List ℕ
build_response q answers ttl =
    let typed = filter (has_family q.qtype) answers in
    be16 q.id
    ++ (be16 33152
        ++ (be16 1
            ++ (be16 (length typed)
                ++ (be16 0 ++ (be16 0 ++ (q.qbytes ++ concat (map (answer ttl) typed)))))))

unfoldable pub build_nxdomain : Question → List ℕ
build_nxdomain q =
    be16 q.id ++ (be16 33155 ++ (be16 1 ++ (be16 0 ++ (be16 0 ++ (be16 0 ++ q.qbytes)))))

-- The labels of a name, each behind its length in eight bits.
unfoldable pub encode_labels : List (List ℕ) → List ℕ
encode_labels [] = 0 ∷ []
encode_labels (label ∷ l) = (length label % 256) ∷ (label ++ encode_labels l)

unfoldable pub encode_qname : Str → List ℕ
encode_qname name = encode_labels (filter (λ l. not (is_empty l)) (split (λ c. c == b'.') name))

unfoldable pub build_query : ℕ → Str → ℕ → List ℕ
build_query id name qtype =
    be16 id
    ++ (be16 256
        ++ (be16 1
            ++ (be16 0
                ++ (be16 0 ++ (be16 0 ++ (encode_qname name ++ (be16 qtype ++ be16 class_in)))))))
