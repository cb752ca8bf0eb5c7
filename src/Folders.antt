-- ===== src/Folders.antt =====
-- The store of folders, class `FoldersManager` of frontend/src/documents/FoldersManager.ts: the map
-- of folders, the tree that the sidebar shows, and the requests under way. A folder is the fields of
-- its object. The nodes of the tree are of their own, and the entries of the map are copies, which
-- hold no children here (the code copies the reference to the array of children along).
pub mod Moving
pub mod Loading
mod Tests
use papercrate.Base.{
  ℕ, zero, suc, ◌+◌, Bool, String, true, false, List, [], ◌∷◌, ◌++◌, Option, none, some,
  if◌then◌else◌, ◌&&◌, ◌||◌, not, ◌==◌, is_some, or_else, head?,
}
use papercrate.Api.{Reply, ok, failed}
use papercrate.Dict.{Dict, lookup, insert, erase, has}
use papercrate.Js.{
  Value, null, text, boolean, Fields, end, field, get, assign, identifier, truthy_identifier,
}
use papercrate.Emitter
use papercrate.Emitter.{Emitter}
use papercrate.Tree.{
  Forest, empty, tree, Node, flatten, find_node, remove_node_from_parent, modify, attach_to_root,
  attach_to,
}
use papercrate.Documents
use papercrate.Documents.{Ensured, resolved, joined, requested}

pub record FoldersManager : Type 0 where
  pub by_id : Dict Fields
  -- a fetcher has been given
  pub fetcher : Bool
  -- the request under way for a folder, by its number
  pub inflight : Dict ℕ
  -- `treePromise`: the number of the request for the tree that is under way
  pub tree_promise : Option ℕ
  pub tree_snapshot : Forest
  pub emitter : Emitter
  pub next_request : ℕ

-- the constructor
abbrev pub new : Bool → FoldersManager
new fetcher = record {
  by_id = [];
  fetcher = fetcher;
  inflight = [];
  tree_promise = none;
  tree_snapshot = empty;
  emitter = Emitter.new;
  next_request = 0;
}

abbrev pub notify : FoldersManager → FoldersManager
notify m = record m { emitter = Emitter.emit m.emitter }

-- one round of the loop of `ingestInternal`: `nextById`, `changed` and `canonical`
unfoldable pub ingest_one :
    Dict Fields × Bool × List Fields → Fields → Dict Fields × Bool × List Fields
ingest_one (next, changed, canonical) folder = elim (identifier (get "id" folder)) [
  | none ↦ (next, changed, canonical ++ folder ∷ [])
  | some id ↦
      let (next', changed', kept) = Documents.upsert id folder (next, changed) in
      (next', changed', canonical ++ kept ∷ [])
]

unfoldable pub ingest_all :
    Dict Fields × Bool × List Fields → List Fields → Dict Fields × Bool × List Fields
ingest_all acc [] = acc
ingest_all acc (folder ∷ folders) = ingest_all (ingest_one acc folder) folders

-- `ingest`, of folders that are there: the new state, `canonical` and `changed`
unfoldable pub ingest : FoldersManager → List Fields → FoldersManager × List Fields × Bool
unfolding ingest_one ingest_all
ingest m folders =
    let (next, changed, canonical) = ingest_all (m.by_id, false, []) folders in
    (if changed then notify (record m { by_id = next }) else m, canonical, changed)

unfoldable pub ensure : Bool → String → FoldersManager → FoldersManager × Ensured
ensure override id m = elim (lookup id m.by_id) [
  | some cached ↦ (m, resolved (some cached))
  | none ↦ if not (override || m.fetcher) then (m, resolved none) else elim (lookup id m.inflight) [
    | some request ↦ (m, joined request)
    | none ↦ (
      record m {
        inflight = insert id m.next_request m.inflight;
        next_request = suc m.next_request;
      },
      requested m.next_request,
    )
  ]
]

-- The rest of a request when the fetcher has answered.
unfoldable pub settle :
    String → Reply (Option Fields) → FoldersManager → FoldersManager × Reply (Option Fields)
unfolding ingest
settle id (ok fetched) m =
    let (m', canonical, changed) = ingest m (Documents.present (fetched ∷ [])) in
    (record m' { inflight = erase id m'.inflight }, ok (head? canonical))
settle id failed m = (record m { inflight = erase id m.inflight }, failed)

-- the loop of `remove`
unfoldable pub remove_all : Dict Fields × Bool → List String → Dict Fields × Bool
remove_all acc [] = acc
remove_all (next, changed) (id ∷ ids) =
    remove_all (if has id next then (erase id next, true) else (next, changed)) ids

unfoldable pub remove : List String → FoldersManager → FoldersManager × Bool
unfolding remove_all
remove ids m =
    let (next, changed) = remove_all (m.by_id, false) ids in
    if changed then (notify (record m { by_id = next }), true) else (m, false)

-- `map`: the mapper gives none where it returns undefined or the folder itself.
unfoldable pub map_folders : (Fields → Option Fields) → FoldersManager → FoldersManager × Bool
map_folders mapper m =
    let (next, changed) = Documents.map_all (λ _. mapper) 0 m.by_id in
    if changed then (notify (record m { by_id = next }), true) else (m, false)

-- the node that `addNode` makes of a folder
unfoldable pub new_node : String → Fields → Forest
new_node id folder =
    tree id (assign "loaded" (boolean true) (assign "hasChildren" (boolean false) folder)) empty
      empty

-- `!parentId || parentId === 'root'` decides between the root and the node of that name.
unfoldable pub attach : Option String → Forest → Forest → Forest
attach none child t = attach_to_root child t
attach (some parent) child t =
    if parent == "root" then attach_to_root child t else attach_to parent child t

-- `addNode` of a folder with identifier `id`
unfoldable pub add_node : String → Fields → FoldersManager → FoldersManager
unfolding ingest attach new_node
add_node id folder m =
    let m' = (ingest m (folder ∷ [])).0 in
    notify (record m' {
      tree_snapshot =
          attach (truthy_identifier (get "parent_id" folder)) (new_node id folder) m'.tree_snapshot;
    })

unfoldable pub remove_node : String → FoldersManager → FoldersManager
unfolding remove
remove_node id m =
    let m' = (remove (id ∷ []) m).0 in
    let (nodes, changed) = remove_node_from_parent id m'.tree_snapshot in
    let m'' = record m' { tree_snapshot = nodes } in if changed then notify m'' else m''

-- the value that stands for a parent in `parent_id`
unfoldable pub parent_value : Option String → Value
parent_value none = null
parent_value (some id) = text id

-- `parentId || null`
unfoldable pub nonempty : Option String → Option String
nonempty none = none
nonempty (some id) = if id == "" then none else some id

-- `parentId === 'root' ? null : parentId`
unfoldable pub target_parent : Option String → Option String
target_parent none = none
target_parent (some id) = if id == "root" then none else some id

-- the node with its new parent
unfoldable pub moved : String → Option String → Node → Forest
moved id parent (f, kids) = tree id (assign "parent_id" (parent_value parent) f) kids empty

-- `moveNode`; `none` where the node stands at the top of the snapshot, from where it is not removed:
-- attached below itself as well, it would make no tree.
unfoldable pub move_node : String → Option String → FoldersManager → Option FoldersManager
unfolding attach moved nonempty
move_node id parent m = elim (find_node id m.tree_snapshot) [
  | none ↦ some m
  | some node ↦
      let (nodes, removed) = remove_node_from_parent id m.tree_snapshot in
      if removed
      then some (
          notify (record m {
            tree_snapshot = attach (nonempty parent) (moved id (nonempty parent) node) nodes;
          }))
      else none
]

-- `existing ? ingest([{ ...existing, [key]: v }])`
unfoldable pub ingest_changed : String → String → Value → FoldersManager → FoldersManager
unfolding ingest
ingest_changed id key v m = elim (lookup id m.by_id) [
  | none ↦ m
  | some existing ↦ (ingest m (assign key v existing ∷ [])).0
]

-- the methods that change one folder, after the answer of the API; a failure is thrown on
unfoldable pub move :
    String
    → Option String
    → Reply (Unit {0})
    → FoldersManager
    → Option FoldersManager × Reply (Unit {0})
unfolding move_node ingest_changed target_parent
move id parent (ok _) m =
    let m' = ingest_changed id "parent_id" (parent_value (target_parent parent)) m in
    (move_node id parent m', ok tt)
move id parent failed m = (some m, failed)

unfoldable pub rename :
    String → String → Reply (Unit {0}) → FoldersManager → FoldersManager × Reply (Unit {0})
unfolding ingest_changed
rename id name (ok _) m =
    let m' = ingest_changed id "name" (text name) m in
    let (nodes, found) =
      modify id (λ node. (assign "name" (text name) node.0, node.1)) m'.tree_snapshot in
    let m'' = record m' { tree_snapshot = nodes } in (if found then notify m'' else m'', ok tt)
rename id name failed m = (m, failed)

-- a folder without an identifier makes `create` throw
unfoldable pub create : Reply Fields → FoldersManager → FoldersManager × Reply Fields
unfolding add_node
create (ok folder) m = elim (truthy_identifier (get "id" folder)) [
  | none ↦ (m, failed)
  | some id ↦ (add_node id folder m, ok folder)
]
create failed m = (m, failed)

unfoldable pub delete :
    String → Reply (Unit {0}) → FoldersManager → FoldersManager × Reply (Unit {0})
unfolding remove_node
delete id (ok _) m = (remove_node id m, ok tt)
delete id failed m = (m, failed)

unfoldable pub get_many : List String → FoldersManager → List Fields
get_many [] m = []
get_many (id ∷ ids) m = elim (lookup id m.by_id) [
  | none ↦ get_many ids m
  | some folder ↦ folder ∷ get_many ids m
]

-- What a call of `ensureTree` gives: the tree at hand, or the request for it, by its number.
pub data TreeAnswer : Type 0 where
  at_hand : Forest → TreeAnswer
  under_way : ℕ → TreeAnswer

-- `fetchTreeInternal` up to where it waits for the answer
unfoldable pub refresh_tree : FoldersManager → FoldersManager × TreeAnswer
refresh_tree m = (
  record m { tree_promise = some m.next_request; next_request = suc m.next_request },
  under_way m.next_request,
)

unfoldable pub ensure_tree : FoldersManager → FoldersManager × TreeAnswer
unfolding refresh_tree
ensure_tree m = elim m.tree_snapshot [
  | tree id f kids rest ↦ (m, at_hand (tree id f kids rest))
  | empty ↦ elim m.tree_promise [ some request ↦ (m, under_way request) | none ↦ refresh_tree m ]
]

unfoldable pub has_nodes : Forest → Bool
has_nodes empty = false
has_nodes (tree id f kids rest) = true

-- the properties of `createRootNode()` but its children, with the changes of `fetchTreeInternal`
unfoldable pub create_root_node : Fields
create_root_node = field "id" (text "root") (
    field "name" (text "Documents") (
      field "parentId" null (
        field "expanded" (boolean true)
          (field "loaded" (boolean false) (field "hasChildren" (boolean false) end)))))

-- `fetchTreeInternal` after the answer, and what it resolves to
unfoldable pub fetched_tree : Reply Forest → FoldersManager → FoldersManager × Forest
unfolding ingest create_root_node has_nodes
fetched_tree (ok raw) m =
    let m' = (ingest m (flatten raw)).0 in
    let root_fields =
      assign "loaded" (boolean true)
        (assign "hasChildren" (boolean (has_nodes raw)) create_root_node) in
    let snapshot = tree "root" root_fields raw empty in
    (record (notify (record m' { tree_snapshot = snapshot })) { tree_promise = none }, snapshot)
fetched_tree failed m = (record m { tree_promise = none }, m.tree_snapshot)
