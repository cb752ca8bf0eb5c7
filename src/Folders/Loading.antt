-- ===== src/Folders/Loading.antt =====
-- Taking folders in: the map of folders after `ingest`, after an added, a deleted and a moved folder,
-- and after the load of the tree.
use papercrate.Base.{
  ◌+◌, ◌≡◌, refl, sym, ◌∙◌, Bool, Bool-cases, String, true, false, List, [], ◌∷◌, none, some,
  if◌then◌else◌, ◌==◌, ◌||◌, arith, inl, inr, eq_iff, count, is_some, Option-cases, contains,
  contains-count,
}
use papercrate.Dict.{Dict, lookup}
use papercrate.Dict.Laws.{lookup-erase, has-lookup}
use papercrate.Js.{Fields, get, assign, boolean, identifier, truthy_identifier}
use papercrate.Documents.{ids_of}
use papercrate.Documents.Identity.{upsert-lookup, upsert_unchanged}
use papercrate.Tree.{Forest, empty, tree, ids, has_sibling, remove_node_from_parent}
use papercrate.Tree.Laws.{IsTree, Removed, count-tree, count-empty, remove-Removed, remove_flag}
use papercrate.Folders
use papercrate.Folders.{
  FoldersManager, ingest_one, ingest_all, ingest, remove, attach, new_node, add_node, remove_node,
}
use papercrate.Folders.Moving.{lands, attach-count}

-- A folder taken in is in the map, and those that were in it stay.
ingest_one-has :
    (k : String) (acc : Dict Fields × Bool × List Fields) (folder : Fields)
    → is_some (lookup k (ingest_one acc folder).0)
      ≡ (is_some (lookup k acc.0) || contains k (ids_of (folder ∷ [])))
unfolding ingest_one ids_of contains
ingest_one-has k acc folder = elim (Option-cases (identifier (get "id" folder))) [
  | inl missing ↦ rw (missing, ingest_one, ids_of) (ground arith)
  | inr (id, found) ↦
      rw (found, ingest_one, ids_of) (ground (arith, upsert-lookup id k folder (acc.0, acc.1)))
]

ids_of-has :
    (k : String) (folder : Fields) (folders : List Fields)
    → contains k (ids_of (folder ∷ folders))
      ≡ (contains k (ids_of (folder ∷ [])) || contains k (ids_of folders))
unfolding ids_of contains
ids_of-has k folder folders = ground arith

ingest_all-has :
    (k : String) (acc : Dict Fields × Bool × List Fields) (folders : List Fields)
    → is_some (lookup k (ingest_all acc folders).0)
      ≡ (is_some (lookup k acc.0) || contains k (ids_of folders))
unfolding ingest_all
ingest_all-has k acc [] = unfold ids_of contains in ground arith
ingest_all-has k acc (folder ∷ folders) = ground (
  arith,
  ingest_one-has k acc folder,
  ids_of-has k folder folders,
  ingest_all-has k (ingest_one acc folder) folders,
)

ingest_one_unchanged :
    (acc : Dict Fields × Bool × List Fields) (folder : Fields)
    → (ingest_one acc folder).1 ≡ false
    → (acc.1 ≡ false) × ((ingest_one acc folder).0 ≡ acc.0)
unfolding ingest_one
ingest_one_unchanged acc folder h = elim (Option-cases (identifier (get "id" folder))) [
  | inl missing ↦ rw (missing, ingest_one) (rw (missing, ingest_one) at h, refl)
  | inr (id, found) ↦
      rw (found, ingest_one)
        (upsert_unchanged id folder (acc.0, acc.1) (rw (found, ingest_one) at h))
]

ingest_all_unchanged :
    (acc : Dict Fields × Bool × List Fields) (folders : List Fields)
    → (ingest_all acc folders).1 ≡ false
    → (acc.1 ≡ false) × ((ingest_all acc folders).0 ≡ acc.0)
unfolding ingest_all
ingest_all_unchanged acc [] h = (h, refl)
ingest_all_unchanged acc (folder ∷ folders) h =
    let (one, same) = ingest_all_unchanged (ingest_one acc folder) folders h in
    let (before, same') = ingest_one_unchanged acc folder one in (before, same ∙ same')

ingest-by_id :
    (m : FoldersManager) (folders : List Fields)
    → (ingest m folders).0.by_id ≡ (ingest_all (m.by_id, false, []) folders).0
unfolding ingest
ingest-by_id m folders = elim (Bool-cases (ingest_all (m.by_id, false, []) folders).1) [
  | inl h ↦ rw h refl
  | inr h ↦ rw h (sym (ingest_all_unchanged (m.by_id, false, []) folders h).1)
]

ingest-has :
    (k : String) (m : FoldersManager) (folders : List Fields)
    → is_some (lookup k (ingest m folders).0.by_id)
      ≡ (is_some (lookup k m.by_id) || contains k (ids_of folders))
ingest-has k m folders = rw (ingest-by_id m folders) (ingest_all-has k (m.by_id, false, []) folders)

ingest-tree :
    (m : FoldersManager) (folders : List Fields)
    → (ingest m folders).0.tree_snapshot ≡ m.tree_snapshot
unfolding ingest
ingest-tree m folders = ground arith

new_node-count :
    (j id : String) (folder : Fields)
    → count j (ids (new_node id folder)) ≡ (if id == j then 1 else 0)
unfolding new_node
new_node-count j id folder = ground (
  arith,
  count-tree j id (assign "loaded" (boolean true) (assign "hasChildren" (boolean false) folder))
      empty empty,
  count-empty j,
)

-- A folder is added under its own identifier: it is in the map beside those that were there, and every
-- identifier stands in the tree as often as before, but the folder's own once more if the parent that
-- the folder names is in the tree, or, where it names none or the root, if the tree has a root.
pub add_node_adds :
    (id : String) (folder : Fields) (m : FoldersManager)
    → identifier (get "id" folder) ≡ some id
    → ((k : String)
        → is_some (lookup k (add_node id folder m).by_id)
          ≡ (is_some (lookup k m.by_id) || (id == k)))
      × ((j : String)
          → count j (ids (add_node id folder m).tree_snapshot)
            ≡ count j (ids m.tree_snapshot)
              + (if lands (truthy_identifier (get "parent_id" folder)) m.tree_snapshot
                  then (if id == j then 1 else 0)
                  else 0))
unfolding add_node ids_of lookup
add_node_adds id folder m named = (
  λ k. rw (ingest-has k m (folder ∷ []), named, ids_of) (unfold contains in ground arith),
  λ j. rw (ingest-tree m (folder ∷ [])) (
      ground (
        arith,
        attach-count j (truthy_identifier (get "parent_id" folder)) (new_node id folder)
            m.tree_snapshot,
        new_node-count j id folder,
      )),
)

remove-lookup :
    (id k : String) (m : FoldersManager)
    → lookup k (remove (id ∷ []) m).0.by_id ≡ (if id == k then none else lookup k m.by_id)
unfolding remove Folders.remove_all
remove-lookup id k m = ground (arith, lookup-erase id k m.by_id, has-lookup id m.by_id, eq_iff id k)

remove-tree :
    (ids : List String) (m : FoldersManager) → (remove ids m).0.tree_snapshot ≡ m.tree_snapshot
unfolding remove
remove-tree ids m = ground arith

remove_node-tree :
    (id : String) (m : FoldersManager)
    → (remove_node id m).tree_snapshot ≡ (remove_node_from_parent id m.tree_snapshot).0
unfolding remove_node
remove_node-tree id m = rw (remove-tree (id ∷ []) m) (ground arith)

remove_node-by_id :
    (id : String) (m : FoldersManager) → (remove_node id m).by_id ≡ (remove (id ∷ []) m).0.by_id
unfolding remove_node
remove_node-by_id id m = ground arith

-- A folder of a tree in which no identifier stands twice, not at the top of the snapshot, is deleted:
-- the map loses its entry and no other, also not those of the folders below it, and of the identifiers
-- in the tree the folder's and those below it are gone, each as often as it stood there, and no other.
pub remove_node_drops :
    (id : String) (m : FoldersManager)
    → IsTree m.tree_snapshot
    → contains id (ids m.tree_snapshot) ≡ true
    → has_sibling id m.tree_snapshot ≡ false
    → ((k : String)
        → lookup k (remove_node id m).by_id ≡ (if id == k then none else lookup k m.by_id))
      × Removed id m.tree_snapshot (remove_node id m).tree_snapshot
remove_node_drops id m is_tree there inner =
    let removed : (remove_node_from_parent id m.tree_snapshot).1 ≡ true =
      remove_flag id m.tree_snapshot (ground (arith, contains-count id (ids m.tree_snapshot)))
        inner in
    (
      λ k. rw (remove_node-by_id id m) (remove-lookup id k m),
      rw (remove_node-tree id m) (remove-Removed id m.tree_snapshot (is_tree id) removed),
    )

-- Every node carries its identifier among its properties.
unfoldable pub IsNamed : Forest → Type 0
IsNamed empty = Unit
IsNamed (tree id f kids rest) = (identifier (get "id" f) ≡ some id) × IsNamed kids × IsNamed rest
