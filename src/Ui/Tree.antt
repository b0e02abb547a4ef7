-- ===== src/Ui/Tree.antt =====
-- crates/ui/src/tree.rs: the tree of a chat's elements, which the daemon and its clients both hold. A
-- `HashMap` of nodes is a map in key order. The walk from a node to its parents is given as many steps as
-- there are nodes and one more, the destruction of a subtree as many as there are links to children and one more.
pub mod Within
pub mod Parents
pub mod Forest
pub mod Destroy
pub mod Restore
use agent_d.Base.{
  ℕ, zero, suc, ◌+◌, ◌≡◌, Bool, true, false, not, ◌||◌, List, [], ◌∷◌, ◌++◌, Option, none, some,
  min, length, take, drop, filter, reverse, if◌then◌else◌, ◌==◌, is_some, map, is_empty,
}
use agent_d.Base.Text.{Str, text}
use agent_d.Base.Keys.{nat_key, str_key}
use agent_d.Base.Maps.{Map}
use agent_d.Base.Maps
use agent_d.Ui.{Json, is_null, Props, EntryDecoration, undecorated, decoration_eq, Screen, Op}

pub record Node (V : Type 0) : Type 0 where
  pub kind : Str
  pub props : Props V
  pub style : Props V
  pub children : List ℕ
  pub parent : Option ℕ

pub record Tree (V : Type 0) : Type 0 where
  pub nodes : Map ℕ (Node V)
  pub root : Option ℕ
  pub bindings : List Str
  pub entries : Map Str (EntryDecoration V)
  pub screens : Map ℕ Screen

abbrev pub empty : {V : Type 0} → Tree V
empty = record { nodes = []; root = none; bindings = []; entries = []; screens = [] }

-- The number of links to children.
unfoldable pub links : {V : Type 0} → Map ℕ (Node V) → ℕ
links [] = 0
links ((a, n) ∷ m) = length n.children + links m

unfoldable pub insert_at : ℕ → ℕ → List ℕ → List ℕ
insert_at i n l = let at = min i (length l) in take at l ++ n ∷ drop at l

abbrev pub pointer : {V : Type 0} → Option (Node V) → Option ℕ
pointer none = none
pointer (some n) = n.parent

module _ {V : Type 0} where
  abbrev pub orphan : Node V → Node V
  orphan n = record n { parent = none }

  abbrev pub without : ℕ → Node V → Node V
  without node p = record p { children = filter (λ c. not (c == node)) p.children }

  abbrev pub adopted : ℕ → Node V → Node V
  adopted parent n = record n { parent = some parent }

  abbrev pub with_child : ℕ → ℕ → Node V → Node V
  with_child index node p = record p { children = insert_at index node p.children }

  unfoldable pub parent_of : Tree V → ℕ → Option ℕ
  parent_of t n = pointer (Maps.get n t.nodes)

  unfoldable pub is_within_fuel : ℕ → Tree V → Option ℕ → ℕ → Bool
  is_within_fuel zero t at ancestor = false
  is_within_fuel (suc fuel) t none ancestor = false
  is_within_fuel (suc fuel) t (some n) ancestor =
      let above = is_within_fuel fuel t (parent_of t n) ancestor in
      if n == ancestor then true else above

  -- The last round finds that there is no parent any more.
  unfoldable pub is_within : Tree V → ℕ → ℕ → Bool
  is_within t node ancestor = is_within_fuel (suc (suc (length t.nodes))) t (some node) ancestor

  unfoldable pub exists : Tree V → ℕ → Bool
  exists t n = is_some (Maps.get n t.nodes)

  unfoldable pub detach : ℕ → Tree V → Tree V
  detach node t = elim (parent_of t node) [
    | none ↦ t
    | some parent ↦ record t {
      nodes = Maps.modify parent (without node) (Maps.modify node orphan t.nodes);
    }
  ]

  abbrev pub forgotten : ℕ → Tree V → Tree V
  forgotten n t = record t { nodes = Maps.remove n t.nodes; screens = Maps.remove n t.screens }

  unfoldable pub destroy_fuel : ℕ → List ℕ → Tree V → Tree V
  destroy_fuel zero stack t = t
  destroy_fuel (suc fuel) [] t = t
  destroy_fuel (suc fuel) (n ∷ stack) t = elim (Maps.get n t.nodes) [
    | some gone ↦ destroy_fuel fuel (reverse gone.children ++ stack) (forgotten n t)
    | none ↦ destroy_fuel fuel stack (forgotten n t)
  ]

  unfoldable pub insert_child : ℕ → ℕ → ℕ → Tree V → Tree V
  insert_child parent node index t =
      if not (exists t parent) || (not (exists t node) || is_within t parent node)
      then t
      else (let u = detach node t in
          record u {
            nodes =
                Maps.modify node (adopted parent)
                  (Maps.modify parent (with_child index node) u.nodes);
          })

module _ {V : Type 0} ⦃j : Json V⦄ where
  unfoldable pub set_or_remove : Str → V → Props V → Props V
  set_or_remove key value m = if is_null value then Maps.remove key m else Maps.insert key value m

  -- `apply`; a script's note leaves the tree as it is.
  unfoldable pub apply : Op V → Tree V → Tree V
  apply (Op.create node kind props style) t = record t {
    nodes =
        Maps.insert node
          (record { kind = kind; props = props; style = style; children = []; parent = none })
          t.nodes;
  }
  apply (Op.set node key value) t = record t {
    nodes = Maps.modify node (λ n. record n { props = set_or_remove key value n.props }) t.nodes;
  }
  apply (Op.style node key value) t = record t {
    nodes = Maps.modify node (λ n. record n { style = set_or_remove key value n.style }) t.nodes;
  }
  apply (Op.insert parent node index) t = insert_child parent node index t
  apply (Op.remove node) t = detach node t
  apply (Op.destroy node) t =
      let u = detach node t in destroy_fuel (suc (links u.nodes)) (node ∷ []) u
  apply (Op.root node) t = record t { root = some node }
  apply (Op.bindings keys) t = record t { bindings = keys }
  apply (Op.entry key decoration) t = record t {
    entries =
        if decoration_eq decoration undecorated
        then Maps.remove key t.entries
        else Maps.insert key decoration t.entries;
  }
  apply (Op.screen node screen) t = record t { screens = Maps.insert node screen t.screens }
  apply (Op.note text error) t = t

  -- Operations in order.
  abbrev pub apply_all : List (Op V) → Tree V → Tree V
  apply_all [] t = t
  apply_all (o ∷ ops) t = apply_all ops (apply o t)

-- A node without its place in the tree.
abbrev pub made : {V : Type 0} → ℕ × Node V → Op V
made (id, n) = Op.create id n.kind n.props n.style

abbrev pub placed : {V : Type 0} → ℕ → ℕ → List ℕ → List (Op V)
placed parent index [] = []
placed parent index (c ∷ l) = Op.insert parent c index ∷ placed parent (suc index) l

abbrev pub all_placed : {V : Type 0} → Map ℕ (Node V) → List (Op V)
all_placed [] = []
all_placed ((id, n) ∷ m) = placed id 0 n.children ++ all_placed m

abbrev rooted : {V : Type 0} → Option ℕ → List (Op V)
rooted none = []
rooted (some node) = Op.root node ∷ []

unfoldable pub snapshot : {V : Type 0} → Tree V → List (Op V)
snapshot t =
    map made t.nodes
    ++ (all_placed t.nodes
        ++ (rooted t.root
            ++ ((if is_empty t.bindings then [] else Op.bindings t.bindings ∷ [])
                ++ (map (λ e. Op.entry e.0 e.1) t.entries
                    ++ map (λ e. Op.screen e.0 e.1) t.screens))))

-- Chat's own parts.
abbrev pub chat : ℕ
chat = 1

abbrev pub header : ℕ
header = 2

abbrev pub main : ℕ
main = 3

abbrev pub conversation : ℕ
conversation = 4

abbrev pub prompt : ℕ
prompt = 5

abbrev pub status : ℕ
status = 6

abbrev pub header_right : ℕ
header_right = 7

abbrev pub places : {V : Type 0} → List (Op V)
places =
    Op.insert chat header 0
    ∷ Op.insert header header_right 0
    ∷ Op.insert chat main 1
    ∷ Op.insert main conversation 0
    ∷ Op.insert chat prompt 2
    ∷ Op.insert chat status 3
    ∷ []

module _ {V : Type 0} ⦃j : Json V⦄ where
  -- A part by its number, its kind, its `id` and its other properties.
  abbrev part : ℕ → Str → Str → Props V → Op V
  part node kind id extra = Op.create node kind (Maps.insert (text "id") (j.string id) extra) []

  abbrev pub parts : List (Op V)
  parts =
      part chat (text "box") (text "chat") ((text "direction", j.string (text "column")) ∷ [])
      ∷ part header (text "chat.header") (text "header") []
      ∷ part header_right (text "box") (text "header.right")
          ((text "direction", j.string (text "row")) ∷ (text "gap", j.number 1) ∷ [])
      ∷ part main (text "box") (text "main")
          ((text "direction", j.string (text "row")) ∷ (text "height", j.string (text "fill")) ∷ [])
      ∷ part conversation (text "chat.conversation") (text "conversation")
          ((text "width", j.string (text "fill")) ∷ [])
      ∷ part prompt (text "chat.prompt") (text "prompt") []
      ∷ part status (text "chat.status") (text "status") []
      ∷ []

  -- The `chat` view as chat draws it.
  unfoldable pub default_chat : Tree V
  default_chat = record (apply_all places (apply_all parts empty)) { root = some chat }
