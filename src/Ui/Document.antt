-- ===== src/Ui/Document.antt =====
-- crates/ui/src/doc.rs: a chat's UI on the daemon, which is the tree with the changes that are not sent
-- yet. An operation takes the document and returns the new one; a number of a node is counted in 64 bits.
pub mod Mirror
pub mod Ahead
use agent_d.Base.{
  ℕ, zero, suc, ◌+◌, ◌%◌, ◌≡◌, Bool, true, false, not, ◌&&◌, ◌||◌, List, [], ◌∷◌, ◌++◌, Option,
  none, some, map, reverse, filter, if◌then◌else◌, leb, ◌==◌, is_some, unwrap_or,
}
use agent_d.Base.Text.{Str, text, str_eq}
use agent_d.Base.Keys.{nat_key, str_key}
use agent_d.Base.Maps.{Map}
use agent_d.Base.Maps
use agent_d.Ui.{
  Json, is_null, Props, EntryDecoration, undecorated, decoration_eq, option_eq, list_eq, Op,
  Changes, sanitize,
}
use agent_d.Ui.Tree.{Node, Tree, parent_of, is_within, exists, apply}
use agent_d.Ui.Tree

pub record Document (V : Type 0) : Type 0 where
  pub tree : Tree V
  pub next : ℕ
  pub pending : List (Op V)
  pub reset : Bool
  pub capture : Option (List (Op V))
  pub undo : List (Op V)
  pub views : Map Str ℕ
  pub view : Str

abbrev pub is_note : {V : Type 0} → Op V → Bool
is_note (Op.note text error) = true
is_note _ = false

abbrev pub first_free : ℕ
first_free = 100

-- Why the document is left as it is.
pub data Refused : Type 0 where
  no_longer_exists : Refused
  inside_itself : Refused
  no_view : Str → Refused

module _ {V : Type 0} ⦃j : Json V⦄ where
  -- A document with the default `chat` view, which is what `reset` gives back as well.
  unfoldable pub new : Document V
  new = record {
    tree = Tree.default_chat;
    next = first_free;
    pending = [];
    reset = true;
    capture = none;
    undo = [];
    views = (text "chat", Tree.chat) ∷ [];
    view = text "chat";
  }

  -- What a node's property or style is, `null` if it has none.
  abbrev pub value_of : Str → Props V → V
  value_of key m = unwrap_or j.null (Maps.get key m)

  unfoldable pub inverse : Tree V → Op V → Option (Op V)
  inverse t (Op.set node key value) = elim (Maps.get node t.nodes) [
    | some n ↦ some (Op.set node key (value_of key n.props))
    | none ↦ none
  ]
  inverse t (Op.style node key value) = elim (Maps.get node t.nodes) [
    | some n ↦ some (Op.style node key (value_of key n.style))
    | none ↦ none
  ]
  inverse t _ = none

  -- The operations that take back the captured ones, the latest last.
  unfoldable pub undone : Op V → Document V → List (Op V)
  undone op d = elim (inverse d.tree op) [
    | some back ↦ if is_some d.capture then d.undo ++ (back ∷ []) else d.undo
    | none ↦ d.undo
  ]

  unfoldable pub record_op : Op V → Document V → Document V
  record_op op d =
      let e = record d { undo = undone op d; tree = apply op d.tree } in
      elim d.capture [
        | some captured ↦ record e { capture = some (captured ++ (op ∷ [])) }
        | none ↦
            if not d.reset || is_note op then record e { pending = d.pending ++ (op ∷ []) } else e
      ]

  unfoldable pub take_pending : Document V → Changes V × Document V
  take_pending d =
      if d.reset
      then (
        (true, Tree.snapshot d.tree ++ filter is_note d.pending),
        record d { reset = false; pending = [] },
      )
      else ((false, d.pending), record d { pending = [] })

  unfoldable pub capture_begin : Document V → Document V
  capture_begin d = record d { capture = some [] }

  unfoldable pub capture_end : Document V → List (Op V) × Document V
  capture_end d = (
    unwrap_or [] d.capture,
    record d { tree = Tree.apply_all (reverse d.undo) d.tree; undo = []; capture = none },
  )

  unfoldable pub current : List (ℕ × Bool × Str) → Tree V → List (Op V)
  current [] t = []
  current ((node, style, key) ∷ keys) t = elim (Maps.get node t.nodes) [
    | some n ↦
        (if style
          then Op.style node key (value_of key n.style)
          else Op.set node key (value_of key n.props))
        ∷ current keys t
    | none ↦ current keys t
  ]

  unfoldable pub create : Str → Props V → Props V → Document V → ℕ × Document V
  create kind props style d = (
    d.next,
    record_op (Op.create d.next kind props style)
        (record d { next = (d.next + 1) % 18446744073709551616 }),
  )

  unfoldable pub prop : Document V → ℕ → Str → Option V
  prop d node key = elim (Maps.get node d.tree.nodes) [
    | some n ↦ Maps.get key n.props
    | none ↦ none
  ]

  unfoldable pub style : Document V → ℕ → Str → Option V
  style d node key = elim (Maps.get node d.tree.nodes) [
    | some n ↦ Maps.get key n.style
    | none ↦ none
  ]

  -- Whether a value is what there is already.
  abbrev pub is_shown : Option V → V → Bool
  is_shown (some w) value = j.eq w value
  is_shown none value = is_null value

  unfoldable pub set : ℕ → Str → V → Document V → Document V
  set node key value d =
      if is_shown (prop d node key) value then d else record_op (Op.set node key value) d

  unfoldable pub sync : ℕ → Str → V → Document V → Document V
  sync node key value d = record d { tree = apply (Op.set node key value) d.tree }

  unfoldable pub set_style : ℕ → Str → V → Document V → Document V
  set_style node key value d =
      if is_shown (style d node key) value then d else record_op (Op.style node key value) d

  unfoldable pub insert : ℕ → ℕ → ℕ → Document V → Option Refused × Document V
  insert parent node index d =
      if not (exists d.tree parent) || not (exists d.tree node)
      then (some no_longer_exists, d)
      else if is_within d.tree parent node
      then (some inside_itself, d)
      else (none, record_op (Op.insert parent node index) d)

  unfoldable pub remove : ℕ → Document V → Document V
  remove node d = if is_some (parent_of d.tree node) then record_op (Op.remove node) d else d

  unfoldable pub destroy : ℕ → Document V → Document V
  destroy node d =
      if exists d.tree node && leb first_free node then record_op (Op.destroy node) d else d

  unfoldable pub add_view : Str → ℕ → Document V → Document V
  add_view name root d = record d { views = Maps.insert name root d.views }

  unfoldable pub show : Str → Document V → Option Refused × Document V
  show name d = elim (Maps.get name d.views) [
    | none ↦ (some (no_view name), d)
    | some root ↦
        let e = record d { view = name } in
        (none, if option_eq ◌==◌ d.tree.root (some root) then e else record_op (Op.root root) e)
  ]

  unfoldable pub set_bindings : List Str → Document V → Document V
  set_bindings keys d =
      if list_eq str_eq d.tree.bindings keys then d else record_op (Op.bindings keys) d

  unfoldable pub decoration : Document V → Str → EntryDecoration V
  decoration d key = unwrap_or undecorated (Maps.get key d.tree.entries)

  unfoldable pub decorate : Str → EntryDecoration V → Document V → Document V
  decorate key e d = if decoration_eq (decoration d key) e then d else record_op (Op.entry key e) d

  abbrev pub forget_entries : List Str → Document V → Document V
  forget_entries [] d = d
  forget_entries (key ∷ keys) d = forget_entries keys (record_op (Op.entry key undecorated) d)

  unfoldable pub clear_entries : Document V → Document V
  clear_entries d = forget_entries (map (λ e. e.0) d.tree.entries) d

  unfoldable pub note : Str → Document V → Document V
  note text d = record_op (Op.note (sanitize text) false) d

  unfoldable pub error : Str → Document V → Document V
  error text d = record_op (Op.note (sanitize text) true) d
