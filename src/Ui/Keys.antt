-- ===== src/Ui/Keys.antt =====
-- crates/ui/src/lib.rs: the names of keys.
use agent_d.Base.{
  ℕ, Bool, not, ◌&&◌, ◌||◌, List, [], ◌∷◌, ◌++◌, if◌then◌else◌, leb, ◌==◌, filter, any, is_empty,
  reverse,
}
use agent_d.Base.Text.{
  Str, text, str_eq, ends_with, split, to_ascii_lowercase, trim_start, trim_end,
}

-- `char::is_whitespace`.
unfoldable pub is_whitespace : ℕ → Bool
is_whitespace c =
    (leb 9 c && leb c 13)
    || (c == 32
        || (c == 133
            || (c == 160
                || (c == 5760
                    || ((leb 8192 c && leb c 8202)
                        || (c == 8232
                            || (c == 8233 || (c == 8239 || (c == 8287 || c == 12288)))))))))

abbrev pub reserved_keys : List Str
reserved_keys = text "ctrl+c" ∷ text "shift+tab" ∷ text "backtab" ∷ text "enter" ∷ []

unfoldable pub is_reserved_key : Str → Bool
is_reserved_key key = any (str_eq key) reserved_keys

-- The parts of a key name.
unfoldable pub key_parts : Str → List Str
key_parts lower =
    filter (λ p. not (is_empty p)) (split (λ c. c == b'+') lower)
    ++ (if ends_with (text "++") lower then text "+" ∷ [] else [])

unfoldable pub has_modifier : Str → List Str → Bool
has_modifier modifier keys =
    any (λ p. str_eq p modifier || (str_eq modifier (text "ctrl") && str_eq p (text "control")))
      keys

unfoldable pub named : Str → List Str → Str
named modifier keys = if has_modifier modifier keys then modifier ++ text "+" else []

unfoldable pub last_key : Str → Str
last_key key =
    if str_eq key (text "esc")
    then text "escape"
    else if str_eq key (text "return")
    then text "enter"
    else key

unfoldable pub normalize_key : Str → Str
normalize_key key =
    let lower = to_ascii_lowercase (trim_end is_whitespace (trim_start is_whitespace key)) in
    elim (reverse (key_parts lower)) [
      | [] ↦ lower
      | key ∷ before ↦
          named (text "ctrl") before
          ++ (named (text "alt") before ++ (named (text "shift") before ++ last_key key))
    ]
