-- ===== src/Drops/Tests.antt =====
-- A tree of three folders: "b" in "a", and "c".
use papercrate.Base.{
  ◌++◌, ◌⊎◌, ◌==◌, ◌≡◌, refl, ◌↔◌, String, true, false, List, [], ◌∷◌, Option, none, some, suc,
  is_some, length, contains, count, count-Distinct, unique,
}
use papercrate.Api.{ok, failed}
use papercrate.Dict.{Dict, lookup, insert}
use papercrate.Js.{Fields, field, text, null, end, get, truthy_identifier}
use papercrate.Text.{trim}
use papercrate.Tree.{Forest, empty, tree, ids, find_node}
use papercrate.Tree.Laws.{IsTree}
use papercrate.Folders
use papercrate.Folders.{new}
use papercrate.Drops.{
  parent_of, FolderNode, root_node, place, node_of, parent_or_root, folder_nodes_raw, climb,
  is_invalid_folder_drop,
}
use papercrate.Drops.Walk.{climb_terminates, is_invalid_folder_drop_exactly, IsBelow, here, up}
use papercrate.Drops.View.{IsParented, snapshot}
use papercrate.Drops.Actions.{
  Workspace, Transfer, error, success, move_folder, on_drop, dropped_folders, create_requested,
  handle_folder_create, handle_folder_delete, show_toast,
}
use papercrate.Drops.Actions.Laws.{refused_drop_moves_nothing, accepted_drop_keeps}

-- Two folders that name each other as their parent, and one that stands apart.
abbrev under : String → FolderNode
under p = record root_node { parent_id = some p }

abbrev cycle : Dict FolderNode
cycle = ("a", under "b") ∷ ("b", under "a") ∷ ("c", under "root") ∷ []

climb_terminates_example : is_some (climb (suc (length cycle)) cycle "c" "a" []) ≡ true
climb_terminates_example = climb_terminates cycle "c" "a"

is_invalid_folder_drop_exactly_example :
    (is_invalid_folder_drop cycle (some "c") (some "a") ≡ true) ↔ IsBelow cycle "c" "a"
is_invalid_folder_drop_exactly_example = is_invalid_folder_drop_exactly cycle "c" "a"

in_cycle : is_invalid_folder_drop cycle (some "c") (some "a") ≡ false
unfolding is_invalid_folder_drop lookup contains
in_cycle = refl

abbrev inside : String → Fields
inside p = field "parent_id" (text p) end

abbrev raw : Forest
raw =
    tree "a" (field "parent_id" null end) (tree "b" (inside "a") empty empty)
      (tree "c" end empty empty)

abbrev begun : Workspace
begun = record {
  manager = record (new true) { tree_snapshot = snapshot end raw };
  selected = "c";
  creating = false;
  dragged_folder = some "a";
  dragged_documents = [];
  toasts = [];
  file_drops = [];
  document_moves = [];
}

begun-IsTree : IsTree (snapshot end raw)
unfolding ids contains
begun-IsTree = count-Distinct (ids (snapshot end raw)) (refl, (refl, (refl, (refl, tt))))

abbrev nodes : Dict FolderNode
nodes = folder_nodes_raw [] [] (snapshot end raw)

begun-IsParented : IsParented "root" (snapshot end raw)
unfolding parent_or_root get truthy_identifier
begun-IsParented = (refl, (refl, (refl, tt, tt), (refl, tt, tt)), tt)

accepted_drop_keeps_example :
    (w' : Workspace) × (n : FolderNode) × (lookup "a" nodes ≡ some n)
    × (move_folder nodes "a" (some "c") (ok tt, none) begun ≡ some w')
    × (((parent_of n == "c") ≡ true) × (w' ≡ begun)
        ⊎ (((parent_of n == "c") ≡ false)
            × ((Folders.move "a" (some "c") (ok tt) begun.manager).0 ≡ some w'.manager)
            × (w'.toasts ≡ [] ++ ("Folder moved.", success) ∷ [])))
    × ((j : String)
        → count j (ids w'.manager.tree_snapshot) ≡ count j (ids begun.manager.tree_snapshot))
unfolding is_invalid_folder_drop folder_nodes_raw place lookup insert contains ids find_node
    parent_or_root get truthy_identifier
accepted_drop_keeps_example =
    accepted_drop_keeps [] end raw "a" "c"
      (field "parent_id" null end, tree "b" (inside "a") empty empty) begun refl begun-IsTree
      begun-IsParented refl refl refl refl refl

-- No lists are read.
abbrev parse_list : String → Option (List (Option String))
parse_list _ = none

abbrev transfer : Transfer
transfer = record { types = []; text_of = λ (k : String). "" }

below : IsBelow nodes "a" "b"
unfolding folder_nodes_raw place node_of parent_or_root get truthy_identifier lookup insert
below = up "b" _ refl refl (here "a" refl refl)

refused_drop_moves_nothing_example :
    on_drop parse_list nodes transfer "b" (λ k. (failed, none)) begun
    ≡ some (record begun {
      dragged_folder = none;
      toasts = ("Cannot move a folder into itself or one of its descendants.", error) ∷ [];
    })
unfolding dropped_folders contains unique
refused_drop_moves_nothing_example =
    refused_drop_moves_nothing parse_list nodes transfer "a" "b" (λ k. (failed, none)) begun refl
      below

-- While the request is out, a folder is being created, and no more once it failed.
creating : (create_requested "news" begun).0.creating ≡ true
unfolding create_requested trim
creating = refl

created :
    handle_folder_create "news" (failed, some "locked") begun
    ≡ (record begun { toasts = ("locked", error) ∷ [] }, false)
unfolding handle_folder_create show_toast Folders.create trim
created = refl

-- A deletion that fails is told twice.
deleted :
    handle_folder_delete nodes "a" true (failed, some "locked") begun
    ≡ (record begun { toasts = ("locked", error) ∷ ("locked", error) ∷ [] }, false)
unfolding handle_folder_delete show_toast Folders.delete
deleted = refl
