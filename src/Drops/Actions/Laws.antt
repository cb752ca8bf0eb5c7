-- ===== src/Drops/Actions/Laws.antt =====
-- Drops that are refused and drops that are made.
use papercrate.Base.{
  ◌≡◌, refl, sym, ◌∙◌, String, Bool, Bool-cases, Option-cases, true, false, List, [], ◌∷◌, ◌++◌,
  Option, none, some, ◌==◌, contains, count, list_cases, any, arith, eq_iff, eq_refl, inl, inr, ◌⊎◌,
}
use mathlib.Core.Path.{subst}
use papercrate.Api.{ok}
use papercrate.Dict.{Dict, lookup}
use papercrate.Js.{Fields, Value, assign}
use papercrate.Tree.{Forest, ids, find_node, Node, has_sibling}
use papercrate.Tree.Laws.{IsTree, find_node-contains}
use papercrate.Folders
use papercrate.Folders.{
  FoldersManager, ingest_changed, ingest, ingest_all, nonempty, move_node, target_parent,
  parent_value,
}
use papercrate.Folders.Moving.{lands, move_node_keeps}
use papercrate.Drops.{FolderNode, parent_of, folder_nodes_raw, is_invalid_folder_drop}
use papercrate.Drops.Walk.{IsBelow, is_invalid_folder_drop_exactly}
use papercrate.Drops.View.{IsParented, snapshot, below-IsBelow, shown-lookup}
use papercrate.Drops.Actions.{
  Workspace, Answer, Transfer, error, success, or_root, show_toast, move_folder, dropped_folders,
  on_drop,
}

any-contains :
    (p : String → Bool) (x : String) (xs : List String)
    → contains x xs ≡ true
    → p x ≡ true
    → any p xs ≡ true
unfolding contains
any-contains p x [] h k = absurd (cc h)
any-contains p x (y ∷ ys) h k = elim (Bool-cases (y == x)) [
  | inl same ↦
      let e : p y ≡ true = subst (λ z. p z ≡ true) (sym ((eq_iff y x).0 same)) k in
      ground (arith, e)
  | inr other ↦ ground (arith, any-contains p x ys (ground arith) k)
]

absent : (x : String) (xs : List String) → xs ≡ [] → contains x xs ≡ true → false ≡ true
unfolding contains
absent x [] e h = h
absent x (y ∷ ys) e h = absurd (cc e)

-- Where one of the folders dropped is met on the way up from the target, the target included, the
-- drop changes nothing but that no folder is dragged any more and that an error is shown: no folder
-- is moved, whatever the others are, and neither files nor documents are taken.
pub refused_drop_moves_nothing :
    (parse_list : String → Option (List (Option String))) (nodes : Dict FolderNode)
    (transfer : Transfer) (source target : String) (answers : String → Answer (Unit {0}))
    (w : Workspace)
    → contains source (dropped_folders parse_list transfer w.dragged_folder) ≡ true
    → IsBelow nodes source target
    → on_drop parse_list nodes transfer target answers w
      ≡ some (record w {
        dragged_folder = none;
        toasts =
            w.toasts ++ ("Cannot move a folder into itself or one of its descendants.", error) ∷ [];
      })
unfolding on_drop
refused_drop_moves_nothing parse_list nodes transfer source target answers w there below =
    elim (list_cases (dropped_folders parse_list transfer w.dragged_folder)) [
      | inl nothing ↦
          absurd (
            cc (absent source (dropped_folders parse_list transfer w.dragged_folder) nothing there))
      | inr (id, rest, e) ↦
          let refused =
            any-contains (λ source. is_invalid_folder_drop nodes (some source) (some target)) source
              (id ∷ rest) (rw (sym e) there)
              ((is_invalid_folder_drop_exactly nodes source target).1 below) in
          rw (e, on_drop) (rw refused (unfold show_toast in refl))
    ]

ingest_changed-tree :
    (id key : String) (v : Value) (m : FoldersManager)
    → (ingest_changed id key v m).tree_snapshot ≡ m.tree_snapshot
unfolding ingest_changed ingest
ingest_changed-tree id key v m = elim (Option-cases (lookup id m.by_id)) [
  | inl out ↦ rw (out, ingest_changed) refl
  | inr (existing, found) ↦
      rw (found, ingest_changed)
        (elim (Bool-cases (ingest_all (m.by_id, false, []) (assign key v existing ∷ [])).1) [
          | inl changed ↦ rw changed refl
          | inr kept ↦ rw kept refl
        ])
]

-- The store's own move, in terms of its tree before the folder's data is changed.
move_keeps :
    (id p : String) (m : FoldersManager) (node : Node)
    → IsTree m.tree_snapshot
    → find_node id m.tree_snapshot ≡ some node
    → has_sibling id m.tree_snapshot ≡ false
    → lands (some p) m.tree_snapshot ≡ true
    → (p == "") ≡ false
    → ((p == "root") ≡ true ⊎ (contains p (id ∷ ids node.1) ≡ false))
    → (m' : FoldersManager) × ((Folders.move id (some p) (ok tt) m).0 ≡ some m')
      × ((j : String) → count j (ids m'.tree_snapshot) ≡ count j (ids m.tree_snapshot))
unfolding Folders.move
move_keeps id p m node is_tree found inner there full outside =
    let m1 = ingest_changed id "parent_id" (parent_value (target_parent (some p))) m in
    let same : m1.tree_snapshot ≡ m.tree_snapshot =
      ingest_changed-tree id "parent_id" (parent_value (target_parent (some p))) m in
    let own : nonempty (some p) ≡ some p = unfold nonempty in rw full refl in
    let (m2, moves, counts) =
      move_node_keeps id (some p) m1 node (rw same is_tree) (rw same found) (rw same inner)
        (rw (own, same) there)
        (λ q e.
          let at : p ≡ q = ground (arith, own, e) in
          subst (λ r. (r == "root") ≡ true ⊎ (contains r (id ∷ ids node.1) ≡ false)) at outside) in
    (m2, moves, λ j. counts j ∙ rw same refl)

-- A folder is dropped on the root or on a folder of the tree, the drop is not refused by the nodes made
-- of the tree, and the API agrees: where the folder stood under the target already nothing changes,
-- otherwise the store is the one that its own move gives, and a success is shown; and every
-- identifier stands in the tree exactly as often as before, so that no folder is lost and none is
-- doubled. Of the tree it is supposed that
-- it has one root, that no identifier stands twice or is empty, and that every folder names the one
-- above it as its parent.
pub accepted_drop_keeps :
    (expanded : List String) (f : Fields) (raw : Forest) (source target : String) (node : Node)
    (w : Workspace)
    → w.manager.tree_snapshot ≡ snapshot f raw
    → IsTree (snapshot f raw)
    → IsParented "root" (snapshot f raw)
    → contains "" (ids (snapshot f raw)) ≡ false
    → find_node source (snapshot f raw) ≡ some node
    → (source == "root") ≡ false
    → contains target (ids (snapshot f raw)) ≡ true
    → is_invalid_folder_drop
        (folder_nodes_raw expanded w.manager.by_id (snapshot f raw))
        (some source)
        (some target)
      ≡ false
    → (w' : Workspace) × (n : FolderNode) × (lookup source
          (folder_nodes_raw expanded w.manager.by_id (snapshot f raw))
        ≡ some n)
      × (move_folder
            (folder_nodes_raw expanded w.manager.by_id (snapshot f raw))
            source
            (some target)
            (ok tt, none)
            w
          ≡ some w')
      × (((parent_of n == target) ≡ true) × (w' ≡ w)
          ⊎ (((parent_of n == target) ≡ false)
              × ((Folders.move source (some target) (ok tt) w.manager).0 ≡ some w'.manager)
              × (w'.toasts ≡ w.toasts ++ ("Folder moved.", success) ∷ [])))
      × ((j : String)
          → count j (ids w'.manager.tree_snapshot) ≡ count j (ids w.manager.tree_snapshot))
unfolding move_folder show_toast
accepted_drop_keeps expanded f raw source target node w shown is_tree parented named found inner
      there accepted =
    let nodes = folder_nodes_raw expanded w.manager.by_id (snapshot f raw) in
    let full : (target == "") ≡ false = ground (arith, there, named, eq_iff target "") in
    let outside : (target == "root") ≡ true ⊎ (contains target (source ∷ ids node.1) ≡ false) =
      elim (Bool-cases (contains target (source ∷ ids node.1))) [
        | inr apart ↦ inr apart
        | inl under ↦ absurd (
            cc (
              accepted,
              (is_invalid_folder_drop_exactly nodes source target).1 (
                  below-IsBelow expanded w.manager.by_id f raw source target node is_tree parented
                    named found inner under),
            ))
      ] in
    let lone : has_sibling source (snapshot f raw) ≡ false =
      unfold has_sibling in ground (arith, eq_iff "root" source, eq_refl source) in
    let landing : lands (some target) (snapshot f raw) ≡ true =
      unfold Folders.has_nodes in ground arith in
    let (m', moves, counts) =
      move_keeps source target w.manager node (rw shown is_tree) (rw shown found) (rw shown lone)
        (rw shown landing) full outside in
    let moves' : (Folders.move source (some (or_root (some target))) (ok tt) w.manager).0
        ≡ some m' =
      rw full moves in
    let answered : (Folders.move source (some (or_root (some target))) (ok (tt {0})) w.manager).1
        ≡ ok tt =
      unfold Folders.move in refl in
    let there' : contains source (ids (snapshot f raw)) ≡ true =
      ground (arith, find_node-contains source (snapshot f raw), found) in
    let (n, at) = shown-lookup expanded w.manager.by_id f raw source is_tree parented there' in
    elim (Bool-cases (parent_of n == target)) [
      | inl same ↦
          let same' : (parent_of n == or_root (some target)) ≡ true = rw full same in
          (w, n, at, rw (at, move_folder) (rw same' refl), inl (same, refl), λ j. refl)
      | inr differs ↦
          let differs' : (parent_of n == or_root (some target)) ≡ false = rw full differs in
          (
            show_toast "Folder moved." success (record w { manager = m' }),
            n,
            at,
            rw (at, move_folder)
                (rw differs' (rw (answered, move_folder) (rw (moves', move_folder) refl))),
            inr (differs, moves, refl),
            λ j. unfold show_toast in counts j,
          )
    ]
