-- ===== src/Tests/Runs.antt =====
-- What a run remembers, and what is shown of its secrets, at concrete inputs.
use agent_d.Base.{
  ℕ, ◌≡◌, refl, ap, subst, inl, inr, Bool, true, false, ◌&&◌, List, [], ◌∷◌, none, some, In,
  is_empty, is_some, not, of_all-In, arith, ltb,
}
use agent_d.Base.Text.{contains, Str, text, str_eq, starts_with}
use agent_d.Base.Keys.{str_key, nat_key}
use agent_d.Base.Maps.{get, insert, remove}
use agent_d.Base.Sets.{member, add}
use agent_d.Executor.Runs.{
  RunRecord, start, parent_of, finish, allows, allow, record_secret, secrets, shelf,
  covers_rest_of_run, is_secret, user_said,
}
use agent_d.Executor.Runs.Allows.{
  Event, started, finished, allowed, after, step, is_live, is_allowed, allows-log,
}
use agent_d.Executor.Redaction.{
  replace_after, placeholder, replace_secrets, redact_str, string, array, item, end, redact_value,
  put, digits,
}
use agent_d.Executor.Redaction.Hides.{AreApart, IsApart, redact_str-hides}

held : Unit {0}
unfolding get insert remove member add str_eq starts_with start parent_of finish allows allow
    record_secret secrets shelf covers_rest_of_run is_secret after step is_live is_allowed contains
    replace_after replace_secrets redact_str redact_value put digits user_said
held = tt

abbrev run : Str
run = text "r1"

abbrev file : Str
file = text "fs.read:/a"

abbrev log : List Event
log = allowed run file ∷ started run none [] ∷ []

-- A file stays allowed until the run ends, a command does not.
allows_tests :
    (allows run file (after log) ≡ true)
    × (allows run file (after (finished run ∷ log)) ≡ false)
    × (allows run (text "shell.exec:ls") (after (allowed run (text "shell.exec:ls") ∷ log)) ≡ false)
unfolding held
allows_tests = (refl, refl, refl)

allows-log_example :
    (is_some (get run (after log).records) ≡ is_live run log)
    × (allows run file (after log) ≡ is_allowed run file log)
allows-log_example = allows-log log run file

abbrev parent : RunRecord
parent = record { allows = []; secrets = 0; user_said = [] }

parent_found : get run (after (started run none [] ∷ [])).records ≡ some parent
unfolding held
parent_found = refl

two_runs : str_eq (text "r2") run ≡ false
unfolding held
two_runs = refl

abbrev known : List (Str × Str)
known = (text "K", text "0042") ∷ []

redact_tests : redact_str (text "key=0042;") known false ≡ text "key=<secret K>;"
unfolding held
redact_tests = refl

value_tests :
    redact_value {A = ℕ} known true (array (item (string (text "0042")) end))
    ≡ array (item (string (text "<secret K>")) end)
unfolding held
value_tests = refl

-- A secret that another one begins with is shown from where the other ends.
overlap_tests :
    redact_str (text "abcd") ((text "K", text "ab") ∷ (text "L", text "abcd") ∷ []) false
    ≡ text "<secret K>cd"
unfolding held
overlap_tests = refl

abbrev digit : ℕ → Bool
digit c = ltb 47 c && ltb c 58

apart : IsApart (text "0042") (placeholder (text "K"))
apart c m k =
    is_not (digit c) (of_all-In digit (text "0042") c refl m)
      (of_all-In (λ x. not (digit x)) (placeholder (text "K")) c refl k)
  where
    is_not : (b : Bool) → b ≡ true → not b ≡ true → ⊥
    is_not b e f = ground arith

known-AreApart : AreApart known known
known-AreApart n v m w (inl e) (inl f) = (
  ap (λ q. is_empty q.1) e,
  λ c i j.
      apart c (subst (In c) (ap (λ q. q.1) e) i)
        (subst (λ x. In c (placeholder x)) (ap (λ q. q.0) f) j),
)
known-AreApart n v m w (inr e) f = elim e [ ]
known-AreApart n v m w (inl e) (inr f) = elim f [ ]

redact_str-hides_example :
    contains (text "0042") (redact_str (text "key=0042;") known false) ≡ false
redact_str-hides_example =
    redact_str-hides (text "key=0042;") known (text "K") (text "0042") known-AreApart (inl refl)
