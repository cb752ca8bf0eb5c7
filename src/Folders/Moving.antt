-- ===== src/Folders/Moving.antt =====
-- Moving, adding and removing a folder: what becomes of the identifiers in the tree.
use papercrate.Base.{
  ◌+◌, ◌≡◌, refl, ap, ◌∙◌, Bool, String, true, false, List, ◌∷◌, Option, none, some, if◌then◌else◌,
  ◌==◌, arith, inl, inr, ◌⊎◌, count, count-cons, contains, contains-count,
}
use papercrate.Js.{assign}
use papercrate.Tree.{
  Forest, empty, tree, ids, find_node, Node, has_sibling, remove_node_from_parent, attach_to_root,
}
use papercrate.Tree.Laws.{
  IsTree, count-tree, count-empty, remove-Removed, remove_flag, find_node-contains,
}
use papercrate.Tree.Moves.{attach_to-count, attach_to_root-count}
use papercrate.Folders
use papercrate.Folders.{
  FoldersManager, attach, nonempty, moved, move_node, new_node, add_node, remove_node, ingest,
  remove,
}

-- Whether `attach` has a place for the node: the root of the snapshot, or a parent that is there.
abbrev pub lands : Option String → Forest → Bool
lands none t = Folders.has_nodes t
lands (some p) t = if p == "root" then Folders.has_nodes t else contains p (ids t)

root-count :
    (j : String) (child t : Forest)
    → count j (ids (attach_to_root child t))
      ≡ count j (ids t) + (if Folders.has_nodes t then count j (ids child) else 0)
unfolding attach_to_root Folders.has_nodes
root-count j child empty = ground (arith, count-empty j)
root-count j child (tree id f kids rest) = attach_to_root-count j child id f kids rest

pub attach-count :
    (j : String) (parent : Option String) (child t : Forest)
    → count j (ids (attach parent child t))
      ≡ count j (ids t) + (if lands parent t then count j (ids child) else 0)
unfolding attach
attach-count j none child t = root-count j child t
attach-count j (some p) child t =
    ground (arith, root-count j child t, attach_to-count j p child t, find_node-contains p t)

moved-count :
    (j id : String) (parent : Option String) (node : Node)
    → count j (ids (moved id parent node)) ≡ count j (id ∷ ids node.1)
unfolding moved
moved-count j id parent (f, kids) = ground (
  arith,
  count-tree j id (assign "parent_id" (Folders.parent_value parent) f) kids empty,
  count-empty j,
  count-cons j id (ids kids),
)

abbrev relocated : String → Option String → Node → FoldersManager → FoldersManager
relocated id parent node m = Folders.notify (record m {
  tree_snapshot =
      attach (nonempty parent) (moved id (nonempty parent) node)
        (remove_node_from_parent id m.tree_snapshot).0;
})

move_node_moves :
    (id : String) (parent : Option String) (m : FoldersManager) (node : Node)
    → find_node id m.tree_snapshot ≡ some node
    → (remove_node_from_parent id m.tree_snapshot).1 ≡ true
    → move_node id parent m ≡ some (relocated id parent node m)
unfolding move_node
move_node_moves id parent m node found removed = rw (found, move_node) (rw removed refl)

has_nodes-remove :
    (id : String) (t : Forest)
    → Folders.has_nodes (remove_node_from_parent id t).0 ≡ Folders.has_nodes t
unfolding Folders.has_nodes remove_node_from_parent
has_nodes-remove id empty = refl
has_nodes-remove id (tree k f kids rest) = ground arith

lands_rest :
    (q : Option String) (below : List String) (t rest : Forest)
    → ((j : String) → count j (ids t) ≡ count j below + count j (ids rest))
    → Folders.has_nodes rest ≡ Folders.has_nodes t
    → lands q t ≡ true
    → ((p : String) → q ≡ some p → (p == "root") ≡ true ⊎ (contains p below ≡ false))
    → lands q rest ≡ true
lands_rest none below t rest counts same there outside = same ∙ there
lands_rest (some p) below t rest counts same there outside = elim (outside p refl) [
  | inl root ↦ ground (arith, same)
  | inr apart ↦ ground (
    arith,
    counts p,
    contains-count p below,
    contains-count p (ids t),
    contains-count p (ids rest),
  )
]

-- In a tree without repetition, a node that is not at the top of the snapshot is moved: every identifier that is not
-- the node's or below it stands in the tree as often as before, and each of those too if the new
-- parent (the root of the snapshot, or a folder outside the node) is in the tree left; if it is
-- not, as when a folder is moved below itself, they are all lost.
pub move_node_counts :
    (id : String) (parent : Option String) (m : FoldersManager)
    → IsTree m.tree_snapshot
    → contains id (ids m.tree_snapshot) ≡ true
    → has_sibling id m.tree_snapshot ≡ false
    → (m' : FoldersManager) × (node : Node) × (move_node id parent m ≡ some m')
      × (find_node id m.tree_snapshot ≡ some node)
      × ((j : String)
          → let rest = (remove_node_from_parent id m.tree_snapshot).0 in
            (count j (ids m.tree_snapshot) ≡ count j (id ∷ ids node.1) + count j (ids rest))
            × (count j (ids m'.tree_snapshot) ≡ (
                if lands (nonempty parent) rest
                then count j (ids m.tree_snapshot)
                else count j (ids rest))))
move_node_counts id parent m is_tree there inner =
    let t = m.tree_snapshot in
    let removed : (remove_node_from_parent id t).1 ≡ true =
      remove_flag id t (ground (arith, contains-count id (ids t))) inner in
    let (node, found, counts) = remove-Removed id t (is_tree id) removed in
    let rest = (remove_node_from_parent id t).0 in
    let child = moved id (nonempty parent) node in
    (
      relocated id parent node m,
      node,
      move_node_moves id parent m node found removed,
      found,
      λ j. (
        counts j,
        ground (
          arith,
          counts j,
          attach-count j (nonempty parent) child rest,
          moved-count j id (nonempty parent) node,
        ),
      ),
    )

-- In a tree without repetition, a folder that is not at the top of the snapshot, moved to the root of
-- the snapshot, or to a folder of the tree that is neither itself nor
-- below it: every identifier stands in the tree exactly as often as before.
pub move_node_keeps :
    (id : String) (parent : Option String) (m : FoldersManager) (node : Node)
    → IsTree m.tree_snapshot
    → find_node id m.tree_snapshot ≡ some node
    → has_sibling id m.tree_snapshot ≡ false
    → lands (nonempty parent) m.tree_snapshot ≡ true
    → ((p : String)
        → nonempty parent ≡ some p
        → (p == "root") ≡ true ⊎ (contains p (id ∷ ids node.1) ≡ false))
    → (m' : FoldersManager) × (move_node id parent m ≡ some m')
      × ((j : String) → count j (ids m'.tree_snapshot) ≡ count j (ids m.tree_snapshot))
move_node_keeps id parent m node is_tree found inner there outside =
    let (m', node', moves, found', counts) =
      move_node_counts id parent m is_tree (ground (arith, find_node-contains id m.tree_snapshot))
        inner in
    let same : ids node'.1 ≡ ids node.1 = cc in
    let landed : lands (nonempty parent) (remove_node_from_parent id m.tree_snapshot).0 ≡ true =
      lands_rest (nonempty parent) (id ∷ ids node.1) m.tree_snapshot _
        (λ j.
          (counts j).0
          ∙ ap
              (λ l. count j (id ∷ l) + count j (ids (remove_node_from_parent id m.tree_snapshot).0))
              same)
        (has_nodes-remove id m.tree_snapshot) there outside in
    (m', moves, λ j. ground (arith, (counts j).1, landed))
