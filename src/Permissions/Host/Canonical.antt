-- ===== src/Permissions/Host/Canonical.antt =====
-- When the stored form of a host is stable, and when it is not.
use agent_d.Base.{
  ◌≡◌, refl, sym, ap, ◌∙◌, ◌≢◌, true, [], ◌∷◌, ◌++◌, none, some, arith, length, length-append,
}
use mathlib.Core.List.{map-append}
use agent_d.Base.Text.{Str, text, strip_suffix-append, to_ascii_lowercase, is_ascii}
use agent_d.Permissions.Host.{Platform, bare_host, undotted, canonical_name, canonical_host}

lowercase_idem : (s : Str) → to_ascii_lowercase (to_ascii_lowercase s) ≡ to_ascii_lowercase s
unfolding to_ascii_lowercase
lowercase_idem [] = refl
lowercase_idem (c ∷ s) = ground (arith, lowercase_idem s)

lowercase-ascii : (s : Str) → is_ascii s ≡ true → is_ascii (to_ascii_lowercase s) ≡ true
unfolding to_ascii_lowercase is_ascii
lowercase-ascii [] h = refl
lowercase-ascii (c ∷ s) h = ground (arith, lowercase-ascii s)

name_of_ascii :
    (p : Platform) (s : Str) → is_ascii s ≡ true → canonical_name p s ≡ to_ascii_lowercase s
unfolding canonical_name
name_of_ascii p s h = rw (h, canonical_name)

host_of_ascii :
    (p : Platform) (h : Str)
    → p.parse_ip (bare_host h) ≡ none
    → is_ascii (undotted h) ≡ true
    → canonical_host p h ≡ to_ascii_lowercase (undotted h)
unfolding canonical_host
host_of_ascii p h e a = rw (e, canonical_host) (name_of_ascii p (undotted h) a)

undotted_of : (s : Str) → undotted (s ++ text ".") ≡ s
unfolding undotted
undotted_of s = rw (strip_suffix-append (text ".") s)

-- The stored form of an ASCII host name is stored as it is, if neither the name nor that form reads
-- as an address and that form ends in no dot: reading a grant back changes nothing.
canonical_host_idem :
    (p : Platform) (h : Str)
    → p.parse_ip (bare_host h) ≡ none
    → is_ascii (undotted h) ≡ true
    → p.parse_ip (bare_host (to_ascii_lowercase (undotted h))) ≡ none
    → undotted (to_ascii_lowercase (undotted h)) ≡ to_ascii_lowercase (undotted h)
    → canonical_host p (canonical_host p h) ≡ canonical_host p h
canonical_host_idem p h e a f u = rw (host_of_ascii p h e a) (
    host_of_ascii p _ f (rw u (lowercase-ascii _ a))
    ∙ ap to_ascii_lowercase u
    ∙ lowercase_idem (undotted h))

lowercase-append :
    (s t : Str) → to_ascii_lowercase (s ++ t) ≡ to_ascii_lowercase s ++ to_ascii_lowercase t
unfolding to_ascii_lowercase
lowercase-append s t = map-append _ s t

lowercase-dot : to_ascii_lowercase (text ".") ≡ text "."
unfolding to_ascii_lowercase
lowercase-dot = refl

longer : (s : Str) → s ≢ s ++ text "."
longer s e = absurd (omega (arith, ap length e, length-append s (text ".")))

-- A name written with two dots at its end is stored with one of them, and its stored form is stored
-- with none: the stored form is not the one form of that host.
canonical_host_two_dots :
    (p : Platform) (s : Str)
    → is_ascii s ≡ true
    → is_ascii (s ++ text ".") ≡ true
    → p.parse_ip (bare_host ((s ++ text ".") ++ text ".")) ≡ none
    → p.parse_ip (bare_host (to_ascii_lowercase s ++ text ".")) ≡ none
    → canonical_host p (canonical_host p ((s ++ text ".") ++ text "."))
      ≢ canonical_host p ((s ++ text ".") ++ text ".")
canonical_host_two_dots p s a b e f same = longer (to_ascii_lowercase s) (sym twice ∙ same ∙ once)
  where
    once : canonical_host p ((s ++ text ".") ++ text ".") ≡ to_ascii_lowercase s ++ text "."
    once =
        host_of_ascii p _ e (rw (undotted_of (s ++ text ".")) b)
        ∙ ap to_ascii_lowercase (undotted_of (s ++ text "."))
        ∙ lowercase-append s (text ".")
        ∙ ap (λ q. to_ascii_lowercase s ++ q) lowercase-dot

    twice : canonical_host p (canonical_host p ((s ++ text ".") ++ text ".")) ≡ to_ascii_lowercase s
    twice =
        ap (canonical_host p) once
        ∙ host_of_ascii p _ f (rw (undotted_of (to_ascii_lowercase s)) (lowercase-ascii s a))
        ∙ ap to_ascii_lowercase (undotted_of (to_ascii_lowercase s))
        ∙ lowercase_idem s

-- An address with a dot behind it is stored as a name. If its canonical text is not what it was
-- written with, the two spellings of the address are stored apart.
canonical_host_dotted_address :
    (p : Platform) (s t : Str)
    → p.parse_ip (bare_host s) ≡ some t
    → is_ascii s ≡ true
    → p.parse_ip (bare_host (s ++ text ".")) ≡ none
    → to_ascii_lowercase s ≢ t
    → canonical_host p (s ++ text ".") ≢ canonical_host p s
unfolding canonical_host
canonical_host_dotted_address p s t e a f differ same =
    differ (dotted ∙ same ∙ rw (e, canonical_host))
  where
    dotted : to_ascii_lowercase s ≡ canonical_host p (s ++ text ".")
    dotted =
        sym (host_of_ascii p _ f (rw (undotted_of s) a) ∙ ap to_ascii_lowercase (undotted_of s))
