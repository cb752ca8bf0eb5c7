-- ===== src/Folders/Tests.antt =====
-- A small tree of folders, and the theorems of the store of folders at it.
use papercrate.Base.{
  ◌+◌, ◌==◌, if◌then◌else◌, ◌≡◌, refl, String, true, false, [], ◌∷◌, none, some, ◌||◌, count,
  count-Distinct, contains, is_some, inr,
}
use mathlib.Core.Path.{subst}
use papercrate.Dict.{lookup}
use papercrate.Js.{Fields, end, field, get, identifier, text, truthy_identifier}
use papercrate.Tree.{Forest, empty, tree, ids, find_node, has_sibling}
use papercrate.Tree.Laws.{IsTree, Removed}
use papercrate.Folders
use papercrate.Folders.{FoldersManager, new, move_node, nonempty, add_node, remove_node}
use papercrate.Folders.Moving.{lands, move_node_keeps}
use papercrate.Folders.Loading.{add_node_adds, remove_node_drops}

abbrev named : String → Fields
named id = field "id" (text id) end

-- A folder "a" with a folder "b" in it, and a folder "c".
abbrev sent : Forest
sent = tree "a" (named "a") (tree "b" (named "b") empty empty) (tree "c" (named "c") empty empty)

abbrev shown : FoldersManager
shown = record (new true) { tree_snapshot = tree "root" end sent empty }

shown-IsTree : IsTree shown.tree_snapshot
unfolding ids contains
shown-IsTree = count-Distinct (ids shown.tree_snapshot) (refl, (refl, (refl, (refl, tt))))

shown-contains : contains "a" (ids shown.tree_snapshot) ≡ true
unfolding ids contains
shown-contains = refl

shown-inner : has_sibling "a" shown.tree_snapshot ≡ false
unfolding has_sibling
shown-inner = refl

shown-found : find_node "a" shown.tree_snapshot ≡ some (named "a", tree "b" (named "b") empty empty)
unfolding find_node
shown-found = refl

apart : (p : String) → "c" ≡ p → contains p ("a" ∷ ids (tree "b" (named "b") empty empty)) ≡ false
unfolding ids contains
apart p e = subst (λ q. contains q ("a" ∷ ids (tree "b" (named "b") empty empty)) ≡ false) e refl

-- "a" goes below "c".
move_node_keeps_example :
    (m' : FoldersManager) × (move_node "a" (some "c") shown ≡ some m')
    × ((j : String) → count j (ids m'.tree_snapshot) ≡ count j (ids shown.tree_snapshot))
unfolding ids contains nonempty
move_node_keeps_example =
    move_node_keeps "a" (some "c") shown (named "a", tree "b" (named "b") empty empty) shown-IsTree
      shown-found shown-inner refl (λ p e. inr (apart p cc))

abbrev added : Fields
added = field "id" (text "d") (field "parent_id" (text "b") end)

-- The same with two of its folders in the map.
abbrev stocked : FoldersManager
stocked = record shown { by_id = ("a", named "a") ∷ ("c", named "c") ∷ [] }

remove_node_drops_example :
    ((k : String)
      → lookup k (remove_node "a" stocked).by_id
        ≡ (if "a" == k then none else lookup k stocked.by_id))
    × Removed "a" stocked.tree_snapshot (remove_node "a" stocked).tree_snapshot
remove_node_drops_example = remove_node_drops "a" stocked shown-IsTree shown-contains shown-inner

add_node_adds_example :
    ((k : String)
      → is_some (lookup k (add_node "d" added stocked).by_id)
        ≡ (is_some (lookup k stocked.by_id) || ("d" == k)))
    × ((j : String)
        → count j (ids (add_node "d" added stocked).tree_snapshot)
          ≡ count j (ids stocked.tree_snapshot)
            + (if lands (truthy_identifier (get "parent_id" added)) stocked.tree_snapshot
                then (if "d" == j then 1 else 0)
                else 0))
unfolding get identifier
add_node_adds_example = add_node_adds "d" added stocked refl
