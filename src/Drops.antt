-- ===== src/Drops.antt =====
-- The folder tree as the workspace shows it, and which drops of a folder it refuses:
-- frontend/src/documents/features/folders/useFolderTree.ts. The nodes are derived from the tree and
-- the folders that the store has; what a drop does is in Drops/Actions.
pub mod Walk
pub mod View
pub mod Actions
mod Tests
use papercrate.Base.{
  ℕ, zero, suc, String, Bool, true, false, List, [], ◌∷◌, ◌++◌, Option, none, some, ◌==◌, ◌&&◌,
  ◌||◌, not, if◌then◌else◌, contains, filter, length, nat_eq, or_else,
}
use papercrate.Dict.{Dict, lookup, insert}
use papercrate.Js.{Value, text, null, Fields, get, is_nullish, object_is, truthy_identifier}
use papercrate.Tree.{Forest, empty, tree}

pub record FolderNode : Type 0 where
  pub name : Value
  pub parent_id : Option String
  pub children : List String
  pub expanded : Bool
  pub loaded : Bool
  pub has_children : Bool

-- `createRootNode()`
unfoldable pub root_node : FolderNode
root_node = record {
  name = text "Documents";
  parent_id = none;
  children = [];
  expanded = true;
  loaded = false;
  has_children = false;
}

-- the identifiers of an array of nodes
unfoldable pub siblings : Forest → List String
siblings empty = []
siblings (tree id f kids rest) = id ∷ siblings rest

-- `item.parent_id || 'root'`
unfoldable pub parent_or_root : Fields → String
parent_or_root f = elim (truthy_identifier (get "parent_id" f)) [ none ↦ "root" | some p ↦ p ]

-- `data?.name ?? item.name`
unfoldable pub name_of : Option Fields → Fields → Value
name_of none f = get "name" f
name_of (some found) f = if is_nullish (get "name" found) then get "name" f else get "name" found

-- the node of one item of the flat structure
unfoldable pub node_of : List String → Dict Fields → String → Fields → Forest → FolderNode
unfolding siblings parent_or_root name_of
node_of expanded by_id id f kids = record {
  name = name_of (lookup id by_id) f;
  parent_id = some (parent_or_root f);
  children = siblings kids;
  expanded = contains id expanded;
  loaded = true;
  has_children = not (nat_eq (length (siblings kids)) 0);
}

-- the loop over `flattenFolderTree(roots)`
unfoldable pub place : List String → Dict Fields → Dict FolderNode → Forest → Dict FolderNode
unfolding node_of
place expanded by_id nodes empty = nodes
place expanded by_id nodes (tree id f kids rest) =
    place expanded by_id
      (place expanded by_id (insert id (node_of expanded by_id id f kids) nodes) kids) rest

-- `folderNodesRaw`, of a store that is there
unfoldable pub folder_nodes_raw : List String → Dict Fields → Forest → Dict FolderNode
unfolding place root_node
folder_nodes_raw expanded by_id empty = ("root", root_node) ∷ []
folder_nodes_raw expanded by_id (tree id f kids rest) =
    place expanded by_id [] (tree id f kids rest)

abbrev pub same_parent : Option String → Option String → Bool
same_parent none none = true
same_parent (some a) (some b) = a == b
same_parent _ _ = false

abbrev pub same_flag : Bool → Bool → Bool
same_flag true b = b
same_flag false b = not b

-- What the comparison of two maps looks at; texts and flags are compared with `!==`.
abbrev pub alike : FolderNode → FolderNode → Bool
alike a b =
    object_is a.name b.name
    && same_parent a.parent_id b.parent_id
    && same_flag a.expanded b.expanded
    && nat_eq (length a.children) (length b.children)

unfoldable pub all_alike : Dict FolderNode → Dict FolderNode → Bool
all_alike prev [] = true
all_alike prev ((id, node) ∷ nodes) =
    (elim (lookup id prev) [ none ↦ false | some old ↦ alike old node ]) && all_alike prev nodes

-- `folderNodes`: the map before is kept where nothing that is compared has changed.
unfoldable pub folder_nodes : Dict FolderNode → Dict FolderNode → Dict FolderNode
unfolding all_alike
folder_nodes prev raw =
    if nat_eq (length prev) (length raw) && all_alike prev raw then prev else raw

-- `node.parentId ?? 'root'`
abbrev pub parent_of : FolderNode → String
parent_of node = elim node.parent_id [ none ↦ "root" | some p ↦ p ]

-- The loop of `isInvalidFolderDrop` with the nodes visited, none where the fuel runs out.
unfoldable pub climb : ℕ → Dict FolderNode → String → String → List String → Option Bool
climb zero nodes source current visited = none
climb (suc fuel) nodes source current visited =
    elim (current == "" || current == "root" || contains current visited) [
      | true ↦ some false
      | false ↦ elim (current == source) [
        | true ↦ some true
        | false ↦ elim (lookup current nodes) [
          | none ↦ some false
          | some node ↦ climb fuel nodes source (parent_of node) (current ∷ visited)
        ]
      ]
    ]

-- Every round visits another node, so that one round more than there are nodes is enough.
unfoldable pub is_invalid_folder_drop : Dict FolderNode → Option String → Option String → Bool
unfolding climb
is_invalid_folder_drop nodes none target = false
is_invalid_folder_drop nodes (some source) none = false
is_invalid_folder_drop nodes (some source) (some target) =
    if source == "" || target == "" || target == "root"
    then false
    else if source == target
    then true
    else or_else (climb (suc (length nodes)) nodes source target []) false

unfoldable pub toggle_folder : String → List String → List String
toggle_folder id expanded =
    if contains id expanded then filter (λ k. not (k == id)) expanded else expanded ++ id ∷ []
