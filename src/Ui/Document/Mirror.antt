-- ===== src/Ui/Document/Mirror.antt =====
-- crates/cli/src/tui/remote.rs plays the frames of a chat into a copy of its tree: what the copy holds.
use agent_d.Base.{
  ◌≡◌, refl, ap, ◌∙◌, inl, inr, Bool, true, false, not, ◌||◌, ◌&&◌, List, [], ◌∷◌, ◌++◌, none, some,
  if◌then◌else◌, Bool-cases, Option-cases, map, is_some, leb, ◌==◌, ℕ, ◌+◌, ◌%◌,
}
use agent_d.Base.Text.{Str, str_eq}
use agent_d.Base.Keys.{nat_key, str_key}
use agent_d.Base.Maps
use agent_d.Ui.{
  sanitize, Json, Props, EntryDecoration, Op, Changes, undecorated, option_eq, list_eq,
  decoration_eq,
}
use agent_d.Ui.Tree.{Tree, empty, apply, apply_all, exists, is_within, parent_of}
use agent_d.Ui.Document.{
  Document, record_op, take_pending, create, is_shown, prop, style, set, set_style, insert, remove,
  destroy, show, add_view, set_bindings, decoration, decorate, clear_entries, forget_entries, note,
  error, first_free,
}

module _ {V : Type 0} ⦃j : Json V⦄ where
  -- A frame that is due, as a client applies it to its copy.
  unfoldable pub play : Changes V → Tree V → Tree V
  play (reset, ops) t = apply_all ops (if reset then empty else t)

  abbrev pub play_all : List (Changes V) → Tree V → Tree V
  play_all [] t = t
  play_all (c ∷ frames) t = play_all frames (play c t)

  -- A change of a document that is recorded for its clients: all but a reset, a capture, and `sync`,
  -- which takes a value that the client shows already.
  pub data Change : Document V → Document V → Type 0 where
    creates :
        {d : Document V} (kind : Str) (props style : Props V)
        → Change d (create kind props style d).1
    sets : {d : Document V} (node : ℕ) (key : Str) (value : V) → Change d (set node key value d)
    styles :
        {d : Document V} (node : ℕ) (key : Str) (value : V) → Change d (set_style node key value d)
    inserts : {d : Document V} (parent node index : ℕ) → Change d (insert parent node index d).1
    removes : {d : Document V} (node : ℕ) → Change d (remove node d)
    destroys : {d : Document V} (node : ℕ) → Change d (destroy node d)
    adds_view : {d : Document V} (name : Str) (root : ℕ) → Change d (add_view name root d)
    shows : {d : Document V} (name : Str) → Change d (show name d).1
    binds : {d : Document V} (keys : List Str) → Change d (set_bindings keys d)
    decorates : {d : Document V} (key : Str) (e : EntryDecoration V) → Change d (decorate key e d)
    clears : {d : Document V} → Change d (clear_entries d)
    notes : {d : Document V} (text : Str) → Change d (note text d)
    fails : {d : Document V} (text : Str) → Change d (error text d)

  -- Changes, and the frames that are taken between them.
  pub data Played : Document V → List (Changes V) → Document V → Type 0 where
    opened : {d : Document V} → Played d [] d
    changed :
        {d e g : Document V} {frames : List (Changes V)}
        → Played d frames e
        → Change e g
        → Played d frames g
    taken :
        {d e : Document V} {frames : List (Changes V)}
        → Played d frames e
        → Played d (frames ++ ((take_pending e).0 ∷ [])) (take_pending e).1

  -- Of a document that sends its changes: what waits turns the copy into the tree.
  abbrev Mirrors : Tree V → Document V → Type 0
  Mirrors c d = (d.reset ≡ false) × (d.capture ≡ none) × (apply_all d.pending c ≡ d.tree)

  pub apply_all-append :
      (a b : List (Op V)) (t : Tree V) → apply_all (a ++ b) t ≡ apply_all b (apply_all a t)
  apply_all-append [] b t = refl
  apply_all-append (o ∷ a) b t = apply_all-append a b (apply o t)

  record-Mirrors :
      (o : Op V) (c : Tree V) (d : Document V) → Mirrors c d → Mirrors c (record_op o d)
  unfolding record_op
  record-Mirrors o c d (r, k, e) =
      rw (k, r) (refl, refl, apply_all-append d.pending (o ∷ []) c ∙ ap (apply o) e)

  unless-Mirrors :
      (b : Bool) (c : Tree V) (d e : Document V)
      → Mirrors c d
      → Mirrors c e
      → Mirrors c (if b then d else e)
  unless-Mirrors true c d e m n = m
  unless-Mirrors false c d e m n = n

  forget-Mirrors :
      (keys : List Str) (c : Tree V) (d : Document V)
      → Mirrors c d
      → Mirrors c (forget_entries keys d)
  forget-Mirrors [] c d m = m
  forget-Mirrors (key ∷ keys) c d m =
      forget-Mirrors keys c (record_op (Op.entry key undecorated) d)
        (record-Mirrors (Op.entry key undecorated) c d m)

  show-Mirrors :
      (name : Str) (c : Tree V) (d : Document V) → Mirrors c d → Mirrors c (show name d).1
  unfolding show
  show-Mirrors name c d m = elim (Option-cases (Maps.get name d.views)) [
    | inl e ↦ rw (e, show) m
    | inr (root, e) ↦
        let f : Document V = record d { view = name } in
        rw (e, show)
          (unless-Mirrors (option_eq ◌==◌ d.tree.root (some root)) c f (record_op (Op.root root) f)
            m (record-Mirrors (Op.root root) c f m))
  ]

  changed-Mirrors : (c : Tree V) (d e : Document V) → Change d e → Mirrors c d → Mirrors c e
  unfolding create set set_style insert remove destroy add_view set_bindings decorate clear_entries
      note error
  changed-Mirrors c d e (creates kind props style) m =
      record-Mirrors (Op.create d.next kind props style) c
        (record d { next = (d.next + 1) % 18446744073709551616 }) m
  changed-Mirrors c d e (sets node key value) m =
      unless-Mirrors (is_shown (prop d node key) value) c d _ m
        (record-Mirrors (Op.set node key value) c d m)
  changed-Mirrors c d e (styles node key value) m =
      unless-Mirrors (is_shown (style d node key) value) c d _ m
        (record-Mirrors (Op.style node key value) c d m)
  changed-Mirrors c d e (inserts parent node index) m =
      elim (Bool-cases (not (exists d.tree parent) || not (exists d.tree node))) [
        | inl f ↦ rw f m
        | inr f ↦ elim (Bool-cases (is_within d.tree parent node)) [
          | inl g ↦ rw (f, g) m
          | inr g ↦ rw (f, g) (record-Mirrors (Op.insert parent node index) c d m)
        ]
      ]
  changed-Mirrors c d e (removes node) m =
      unless-Mirrors (is_some (parent_of d.tree node)) c _ d (record-Mirrors (Op.remove node) c d m)
        m
  changed-Mirrors c d e (destroys node) m =
      unless-Mirrors (exists d.tree node && leb first_free node) c _ d
        (record-Mirrors (Op.destroy node) c d m) m
  changed-Mirrors c d e (adds_view name root) m = m
  changed-Mirrors c d e (shows name) m = show-Mirrors name c d m
  changed-Mirrors c d e (binds keys) m =
      unless-Mirrors (list_eq str_eq d.tree.bindings keys) c d _ m
        (record-Mirrors (Op.bindings keys) c d m)
  changed-Mirrors c d e (decorates key x) m =
      unless-Mirrors (decoration_eq (decoration d key) x) c d _ m
        (record-Mirrors (Op.entry key x) c d m)
  changed-Mirrors c d e clears m = forget-Mirrors (map (λ x. x.0) d.tree.entries) c d m
  changed-Mirrors c d e (notes text) m = record-Mirrors (Op.note (sanitize text) false) c d m
  changed-Mirrors c d e (fails text) m = record-Mirrors (Op.note (sanitize text) true) c d m

  take-Mirrors :
      (c : Tree V) (d : Document V)
      → Mirrors c d
      → (play (take_pending d).0 c ≡ d.tree)
        × Mirrors (play (take_pending d).0 c) (take_pending d).1
  unfolding take_pending play
  take-Mirrors c d (r, k, e) = rw r (e, (refl, k, e))

  play_all-append :
      (a b : List (Changes V)) (t : Tree V) → play_all (a ++ b) t ≡ play_all b (play_all a t)
  play_all-append [] b t = refl
  play_all-append (x ∷ a) b t = play_all-append a b (play x t)

  played-Mirrors :
      (c : Tree V) (d : Document V) (frames : List (Changes V)) (e : Document V)
      → Played d frames e
      → Mirrors c d
      → Mirrors (play_all frames c) e
  played-Mirrors c d frames e opened m = m
  played-Mirrors c d frames e (changed {e = g} h s) m =
      changed-Mirrors (play_all frames c) g e s (played-Mirrors c d frames g h m)
  played-Mirrors c d frames e (taken {e = g} {frames = before} h) m =
      let n = (take-Mirrors (play_all before c) g (played-Mirrors c d before g h m)).1 in
      rw (play_all-append before ((take_pending g).0 ∷ []) c) n

  -- Of a document that has sent what it holds and has no capture open, a client that plays the
  -- frames taken since, in order, and then what waits, into a copy of its tree, holds the document's
  -- tree, where between the frames elements are created, set, styled, inserted, removed and
  -- destroyed, views are added and shown, and bindings, decorations, notes and errors are put in; a
  -- reset, a capture, and a value that the client has shown itself (`sync`) are not among these
  -- changes.
  pub play_all-take_pending :
      (d e : Document V) (frames : List (Changes V))
      → d.reset ≡ false
      → d.capture ≡ none
      → d.pending ≡ []
      → Played d frames e
      → play (take_pending e).0 (play_all frames d.tree) ≡ e.tree
  play_all-take_pending d e frames r k p h =
      (take-Mirrors (play_all frames d.tree) e
        (played-Mirrors d.tree d frames e h (r, k, ap (λ l. apply_all l d.tree) p))).0
