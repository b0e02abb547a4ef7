-- ===== src/Tests/Ui.antt =====
-- A chat's UI at concrete inputs.
use agent_d.Base.{◌==◌, Bool-cases, inl, inr, ◌≡◌, refl, true, false, [], ◌∷◌, none, some, map}
use mathlib.Core.Option.{some-injective}
use agent_d.Base.Text.{
  Str, text, str_eq, str_eq_iff, split, to_ascii_lowercase, trim_start, trim_end, ends_with,
}
use agent_d.Base.Keys.{nat_key, str_key}
use agent_d.Base.Maps
use agent_d.Ui.Keys.{
  is_whitespace, is_reserved_key, key_parts, has_modifier, named, last_key, normalize_key,
}
use agent_d.Ui.{Json, Op, sanitize}
use agent_d.Ui.Tree.{
  Node, Tree, empty, parent_of, is_within_fuel, is_within, exists, detach, destroy_fuel, insert_at,
  insert_child, set_or_remove, links, apply, apply_all, snapshot, default_chat, main, conversation,
}
use agent_d.Ui.Tree.Within.{IsForest}
use agent_d.Ui.Tree.Forest.{apply-IsForest, default_chat-IsForest}
use agent_d.Ui.Tree.Restore.{IsTidy}
use agent_d.Ui.Document.{
  Document, record_op, inverse, undone, take_pending, capture_begin, capture_end, prop, set,
}
use agent_d.Ui.Document.Mirror.{play, play_all, opened, changed, taken, sets, play_all-take_pending}
use agent_d.Ui.Document.Ahead.{Drawn, begun, capture_end-capture_begin}
use agent_d.Ui.Document.Ahead

-- Values as texts: the empty one for `null`, and a letter before the others.
instance abbrev texts : Json Str
texts = record {
  null = [];
  string = λ s. b's' ∷ s;
  number = λ n. b'n' ∷ n ∷ [];
  eq = str_eq;
  eq_iff = str_eq_iff;
}

abbrev view : Tree Str
view = default_chat

-- A node cannot be put under itself.
default_chat_insert : apply (Op.insert conversation main 0) view ≡ view
unfolding default_chat apply insert_child is_within is_within_fuel exists parent_of detach insert_at
    Maps.get Maps.insert Maps.modify str_eq
default_chat_insert = refl

abbrev row : Tree Str
row = record {
  nodes =
      (
        100,
        record { kind = text "box"; props = []; style = []; children = 101 ∷ []; parent = none },
      )
      ∷ (
        101,
        record { kind = text "text"; props = []; style = []; children = []; parent = some 100 },
      )
      ∷ [];
  root = some 100;
  bindings = [];
  entries = [];
  screens = [];
}

snapshot_run : apply_all (snapshot row) empty ≡ row
unfolding snapshot apply insert_child is_within is_within_fuel exists parent_of detach insert_at
    Maps.get Maps.insert Maps.modify
snapshot_run = refl

destroy_run : map (λ e. e.0) (apply (Op.destroy main) view).nodes ≡ 1 ∷ 2 ∷ 5 ∷ 6 ∷ 7 ∷ []
unfolding default_chat apply destroy_fuel links insert_child is_within is_within_fuel exists
    parent_of detach insert_at Maps.get Maps.insert Maps.remove Maps.modify str_eq
destroy_run = refl

sanitize_run : sanitize (27 ∷ b'\t' ∷ b'\n' ∷ b'a' ∷ []) ≡ 65533 ∷ b' ' ∷ b'\n' ∷ b'a' ∷ []
unfolding sanitize
sanitize_run = refl

apply-IsForest_example : IsForest (apply (Op.insert conversation main 0) view)
apply-IsForest_example =
    apply-IsForest (Op.insert conversation main 0) view (default_chat-IsForest Str)

abbrev label : Node Str
label = record { kind = text "text"; props = []; style = []; children = []; parent = none }

abbrev page : Document Str
page = record {
  tree = record {
    nodes = (100, label) ∷ [];
    root = none;
    bindings = [];
    entries = [];
    screens = [];
  };
  next = 101;
  pending = [];
  reset = false;
  capture = none;
  undo = [];
  views = [];
  view = text "chat";
}

abbrev shown : Document Str
shown = set 100 (text "text") (text "shi") page

play_all-take_pending_example :
    play
      (take_pending (set 100 (text "text") (text "sho") (take_pending shown).1)).0
      (play_all ((take_pending shown).0 ∷ []) page.tree)
    ≡ (set 100 (text "text") (text "sho") (take_pending shown).1).tree
play_all-take_pending_example =
    play_all-take_pending page (set 100 (text "text") (text "sho") (take_pending shown).1)
      ((take_pending shown).0 ∷ []) refl refl refl
      (changed (taken (changed opened (sets 100 (text "text") (text "shi"))))
        (sets 100 (text "text") (text "sho")))

take_pending_run : (take_pending shown).0 ≡ (false, Op.set 100 (text "text") (text "shi") ∷ [])
unfolding take_pending set prop record_op undone inverse apply set_or_remove Maps.get Maps.insert
    Maps.modify str_eq
take_pending_run = refl

tidy : IsTidy page.tree
unfolding Maps.get
tidy a n e = elim (Bool-cases (100 == a)) [
  | inr f ↦ cc (rw f at e)
  | inl f ↦ rw (← some-injective _ _ (rw f at e)) ((tt, λ k h. cc h), (tt, λ k h. cc h))
]

abbrev drawn : Document Str
drawn = set 100 (text "text") (text "shi") (capture_begin page)

capture_end-capture_begin_example :
    ((capture_end drawn).1 ≡ page) × (apply_all (capture_end drawn).0 page.tree ≡ drawn.tree)
capture_end-capture_begin_example =
    capture_end-capture_begin page drawn refl refl tidy
      (Ahead.sets 100 (text "text") (text "shi") begun)

normalize_key_run : normalize_key (text " Shift+Control+Esc ") ≡ text "ctrl+shift+escape"
unfolding normalize_key key_parts has_modifier named last_key is_whitespace trim_start trim_end
    split to_ascii_lowercase ends_with str_eq
normalize_key_run = refl

is_reserved_key_run : is_reserved_key (normalize_key (text "Return")) ≡ true
unfolding is_reserved_key normalize_key key_parts has_modifier named last_key is_whitespace
    trim_start trim_end split to_ascii_lowercase ends_with str_eq
is_reserved_key_run = refl
