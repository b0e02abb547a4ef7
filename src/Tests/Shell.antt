-- ===== src/Tests/Shell.antt =====
-- Packets, streams and patterns of the sandbox at concrete inputs.
use agent_d.Base.{
  ℕ, ◌≡◌, ◌≤◌, refl, arith, List, [], ◌∷◌, ◌++◌, none, map, length, true, false, All,
}
use agent_d.Base.Text.{
  str_eq, contains_char, strip_suffix, ends_with, Str, text, split, to_ascii_lowercase, split_once,
  starts_with, strip_prefix,
}
use agent_d.Permissions.Pattern.{folds, match_spec, match_spec_fuel, match_glob, slashes}
use agent_d.Shell.Dns.{
  Question, question, malformed, be16, join, byte_at, slice, read_labels, read_type, read_name,
  read_header, parse_query, encode_labels, encode_qname, build_query, build_response,
  build_nxdomain, v4, v6, has_family, answer,
}
use agent_d.Shell.Dns.Total.{IsRead, parse_query-IsRead}
use agent_d.Shell.Dns.RoundTrip.{IsLabel, labels_of, shown, parse_query-build_query}
use agent_d.Shell.Output.{
  nothing, max_output_bytes, push_within, Read, chunk, failed, read_sync, read_async, into_text,
  note,
}
use agent_d.Shell.Output.Bounds.{stream, kept, read_sync-stream}
use agent_d.Shell.Policy.{concrete_ancestor, before_last, is_separator}
use agent_d.Shell.Policy.Ancestor.{IsUnder, concrete_ancestor-IsUnder}

-- Bytes that are all of one.
abbrev ascii : List ℕ → Str
ascii l = l

abbrev asked : List ℕ
asked =
    0 ∷ 7 ∷ 1 ∷ 0 ∷ 0 ∷ 1 ∷ 0 ∷ 0 ∷ 0 ∷ 0 ∷ 0 ∷ 0 ∷ 2 ∷ b'A' ∷ b'b' ∷ 1 ∷ b'c' ∷ 0 ∷ 0 ∷ 1 ∷ 0 ∷ 1
    ∷ []

abbrev q : Question
q = record {
  id = 7;
  name = text "ab.c";
  qtype = 1;
  qbytes = 2 ∷ b'A' ∷ b'b' ∷ 1 ∷ b'c' ∷ 0 ∷ 0 ∷ 1 ∷ 0 ∷ 1 ∷ [];
}

build_query_run : build_query 7 (text "Ab.c.") 1 ≡ asked
unfolding build_query encode_qname encode_labels split
build_query_run = refl

parse_query_run : parse_query ascii asked ≡ question q
unfolding parse_query read_header read_name read_labels read_type byte_at slice join
    to_ascii_lowercase
parse_query_run = refl

-- A pointer in a query is refused.
parse_query_pointer :
    parse_query ascii
      (0 ∷ 7 ∷ 1 ∷ 0 ∷ 0 ∷ 1 ∷ 0 ∷ 0 ∷ 0 ∷ 0 ∷ 0 ∷ 0 ∷ 192 ∷ 12 ∷ 0 ∷ 1 ∷ 0 ∷ 1 ∷ [])
    ≡ malformed
unfolding parse_query read_header read_name read_labels byte_at slice
parse_query_pointer = refl

build_response_run :
    build_response q (v6 [] ∷ v4 10 0 0 1 ∷ []) 60
    ≡ 0
      ∷ 7
      ∷ 129
      ∷ 128
      ∷ 0
      ∷ 1
      ∷ 0
      ∷ 1
      ∷ 0
      ∷ 0
      ∷ 0
      ∷ 0
      ∷ (q.qbytes ++ (192 ∷ 12 ∷ 0 ∷ 1 ∷ 0 ∷ 1 ∷ 0 ∷ 0 ∷ 0 ∷ 60 ∷ 0 ∷ 4 ∷ 10 ∷ 0 ∷ 0 ∷ 1 ∷ []))
unfolding build_response has_family answer
build_response_run = refl

build_nxdomain_run : build_nxdomain q ≡ 0 ∷ 7 ∷ 129 ∷ 131 ∷ 0 ∷ 1 ∷ 0 ∷ 0 ∷ 0 ∷ 0 ∷ 0 ∷ 0 ∷ q.qbytes
unfolding build_nxdomain
build_nxdomain_run = refl

parse_query-IsRead_example : IsRead (parse_query ascii asked)
parse_query-IsRead_example = parse_query-IsRead ascii asked

short : All IsLabel (labels_of (text "Ab.c."))
unfolding split
short = ((omega arith, omega arith), ((omega arith, omega arith), tt))

parse_query-build_query_example :
    parse_query ascii (build_query 7 (text "Ab.c.") 1)
    ≡ question (record {
      id = 7;
      name = join (map (shown ascii) (labels_of (text "Ab.c.")));
      qtype = 1;
      qbytes = encode_qname (text "Ab.c.") ++ (be16 1 ++ be16 1);
    })
parse_query-build_query_example =
    parse_query-build_query ascii 7 (text "Ab.c.") 1 (omega arith) (omega arith) short

push_within_run :
    push_within 3 (text "cd") (record { bytes = text "ab"; truncated = false })
    ≡ record { bytes = text "abc"; truncated = true }
unfolding push_within
push_within_run = refl

into_text_run :
    into_text ascii (record { bytes = text "ab"; truncated = true }) ≡ text "ab\n" ++ note
unfolding into_text ends_with
into_text_run = refl

abbrev reads : List Read
reads = chunk (text "ab") ∷ chunk (text "c") ∷ failed ∷ chunk (text "d") ∷ []

read_async_run : read_async reads nothing ≡ none
unfolding read_async
read_async_run = refl

read_sync-stream_example :
    (read_sync reads nothing ≡ kept max_output_bytes (stream reads))
    × (length (read_sync reads nothing).bytes ≤ max_output_bytes)
read_sync-stream_example = read_sync-stream reads

abbrev pattern : Str
pattern = text "/a/b*/**"

concrete_ancestor_run : concrete_ancestor (text "/a/b*/**") ≡ text "/a"
unfolding concrete_ancestor split_once before_last is_separator
concrete_ancestor_run = refl

plainly : folds (text "/a/b*") (text "/a/bc") ≡ false
unfolding folds contains_char
plainly = refl

covers : match_spec (text "/a/b*") (text "/a/bc") ≡ true
unfolding match_spec match_spec_fuel folds match_glob slashes starts_with strip_prefix str_eq
    contains_char strip_suffix
covers = refl

concrete_ancestor-IsUnder_example : IsUnder (concrete_ancestor (text "/a/b*")) (text "/a/bc")
concrete_ancestor-IsUnder_example =
    concrete_ancestor-IsUnder (text "/a/b*") (text "/a/bc") refl plainly covers
