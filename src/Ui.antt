-- ===== src/Ui.antt =====
-- crates/ui/src/lib.rs: what a chat's UI is made of, and the operations that carry its changes. The
-- JSON values of properties are `serde_json`'s, and come with an interface.
pub mod Keys
pub mod Tree
pub mod Document
use agent_d.Base.{
  ℕ, ◌≡◌, ◌↔◌, Bool, true, false, not, ◌&&◌, ◌||◌, List, [], ◌∷◌, Option, none, some, map,
  if◌then◌else◌, ltb, leb, ◌==◌, is_empty, is_some,
}
use agent_d.Base.Text.{Str, str_eq}
use agent_d.Base.Maps.{Map}

-- What the code uses of `serde_json::Value`.
pub record Json (V : Type 0) : Type 0 where
  pub null : V
  pub string : Str → V
  pub number : ℕ → V
  pub eq : V → V → Bool
  pub eq_iff : (a b : V) → (eq a b ≡ true) ↔ (a ≡ b)

abbrev pub is_null : {V : Type 0} ⦃j : Json V⦄ → V → Bool
is_null ⦃j⦄ v = j.eq v j.null

abbrev pub Props : Type 0 → Type 0
Props V = Map Str V

pub record EntryDecoration (V : Type 0) : Type 0 where
  pub summary : Option Str
  pub hidden : Bool
  pub style : Props V
  pub before : List ℕ
  pub after : List ℕ

abbrev pub undecorated : {V : Type 0} → EntryDecoration V
undecorated = record { summary = none; hidden = false; style = []; before = []; after = [] }

unfoldable pub list_eq : {A : Type 0} → (A → A → Bool) → List A → List A → Bool
list_eq f [] [] = true
list_eq f (x ∷ l) (y ∷ m) = f x y && list_eq f l m
list_eq f [] (y ∷ m) = false
list_eq f (x ∷ l) [] = false

unfoldable pub option_eq : {A : Type 0} → (A → A → Bool) → Option A → Option A → Bool
option_eq f none none = true
option_eq f (some a) (some b) = f a b
option_eq f none (some b) = false
option_eq f (some a) none = false

abbrev pub bool_eq : Bool → Bool → Bool
bool_eq a b = if a then b else not b

unfoldable pub decoration_eq :
    {V : Type 0} ⦃j : Json V⦄ → EntryDecoration V → EntryDecoration V → Bool
decoration_eq ⦃j⦄ a b =
    option_eq str_eq a.summary b.summary
    && (bool_eq a.hidden b.hidden
        && (list_eq (λ x y. str_eq x.0 y.0 && j.eq x.1 y.1) a.style b.style
            && (list_eq ◌==◌ a.before b.before && list_eq ◌==◌ a.after b.after)))

pub record Run : Type 0 where
  pub text : Str
  pub fg : Option Str
  pub bg : Option Str
  pub bold : Bool
  pub italic : Bool
  pub underline : Bool
  pub inverse : Bool

pub record Screen : Type 0 where
  pub width : ℕ
  pub height : ℕ
  pub lines : List (List Run)
  pub cursor : Option (ℕ × ℕ)

pub data Op (V : Type 0) : Type 0 where
  create : ℕ → Str → Props V → Props V → Op V
  set : ℕ → Str → V → Op V
  style : ℕ → Str → V → Op V
  insert : ℕ → ℕ → ℕ → Op V
  remove : ℕ → Op V
  destroy : ℕ → Op V
  root : ℕ → Op V
  bindings : List Str → Op V
  entry : Str → EntryDecoration V → Op V
  screen : ℕ → Screen → Op V
  note : Str → Bool → Op V

-- A frame's changes: whether they rebuild the whole UI, and the operations.
abbrev pub Changes : Type 0 → Type 0
Changes V = Bool × List (Op V)

-- `sanitize`. The control characters are those below 32 and from 127 to 159.
unfoldable pub sanitize : Str → Str
sanitize s =
    map
      (λ c.
        if c == b'\n'
        then c
        else if c == b'\t'
        then b' '
        else if ltb c 32 || (leb 127 c && leb c 159)
        then 65533
        else c)
      s
