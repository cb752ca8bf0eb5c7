-- ===== src/Tree.antt =====
-- The folder tree: arrays of nodes as `FoldersManager` keeps them in `treeSnapshot`
-- (frontend/src/documents/FoldersManager.ts), and `flattenFolderTree` of
-- frontend/src/app/workspaceUtils.ts. A node has its identifier, its other properties and its
-- children; a missing `children` array reads as an empty one everywhere. Nodes are changed in place
-- in the program; here an operation gives the changed tree.
pub mod Laws
pub mod Moves
use papercrate.Base.{
  Bool, String, true, false, List, [], ◌∷◌, ◌++◌, Option, none, some, if◌then◌else◌, ◌==◌, ◌||◌,
}
use papercrate.Js.{Fields, boolean, assign, spread, end}

-- An array of nodes: its first node, with the node's children, and the rest of the array.
pub data Forest : Type 0 where
  empty : Forest
  tree : String → Fields → Forest → Forest → Forest

-- the identifiers in the order of `flattenFolderTree`
unfoldable pub ids : Forest → List String
ids empty = []
ids (tree id f kids rest) = id ∷ ids kids ++ ids rest

-- `flattenFolderTree`
unfoldable pub flatten : Forest → List Fields
flatten empty = []
flatten (tree id f kids rest) = f ∷ flatten kids ++ flatten rest

-- `[...a, ...b]` of two arrays of nodes
unfoldable pub append : Forest → Forest → Forest
append empty b = b
append (tree id f kids rest) b = tree id f kids (append rest b)

-- a node: its properties and its children
abbrev pub Node : Type 0
Node = Fields × Forest

abbrev pub or_next : Option Node → Option Node → Option Node
or_next none b = b
or_next (some a) b = some a

unfoldable pub find_node : String → Forest → Option Node
find_node k empty = none
find_node k (tree id f kids rest) =
    let below = or_next (find_node k kids) (find_node k rest) in
    if id == k then some (f, kids) else below

-- `nodes.findIndex((c) => c.id === id) !== -1`
unfoldable pub has_sibling : String → Forest → Bool
has_sibling k empty = false
has_sibling k (tree id f kids rest) = id == k || has_sibling k rest

-- `nodes.splice(idx, 1)` at that index
unfoldable pub drop_sibling : String → Forest → Forest
drop_sibling k empty = empty
drop_sibling k (tree id f kids rest) =
    if id == k then rest else tree id f kids (drop_sibling k rest)

-- `hasChildren = false` on a node whose children have run out
unfoldable pub emptied : Forest → Fields → Fields
emptied empty f = assign "hasChildren" (boolean false) f
emptied (tree _ _ _ _) f = f

-- The nodes, and whether one was removed.
unfoldable pub remove_node_from_parent : String → Forest → Forest × Bool
unfolding has_sibling drop_sibling emptied
remove_node_from_parent k empty = (empty, false)
remove_node_from_parent k (tree id f kids rest) =
    let below = remove_node_from_parent k kids in
    let beside = remove_node_from_parent k rest in
    if has_sibling k kids
    then (tree id (emptied (drop_sibling k kids) f) (drop_sibling k kids) rest, true)
    else if below.1
    then (tree id f below.0 rest, true)
    else (tree id f kids beside.0, beside.1)

-- A change of the properties and children of the node that `find_node` finds, and whether it did.
unfoldable pub modify : String → (Node → Node) → Forest → Forest × Bool
modify k g empty = (empty, false)
modify k g (tree id f kids rest) =
    let below = modify k g kids in
    let beside = modify k g rest in
    if id == k
    then (tree id (g (f, kids)).0 (g (f, kids)).1 rest, true)
    else if below.1
    then (tree id f below.0 rest, true)
    else (tree id f kids beside.0, beside.1)

-- `parent.children = [...parent.children, node]; parent.hasChildren = true`
unfoldable pub adopt : Forest → Node → Node
unfolding append
adopt child (f, kids) = (assign "hasChildren" (boolean true) f, append kids child)

-- The same at the root, the first node of the snapshot, if there is one.
unfoldable pub attach_to_root : Forest → Forest → Forest
unfolding adopt
attach_to_root child empty = empty
attach_to_root child (tree id f kids rest) =
    tree id (adopt child (f, kids)).0 (adopt child (f, kids)).1 rest

unfoldable pub attach_to : String → Forest → Forest → Forest
unfolding modify
attach_to parent child t = (modify parent (adopt child) t).0
