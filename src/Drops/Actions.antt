-- ===== src/Drops/Actions.antt =====
-- What the workspace does to folders: frontend/src/documents/features/folders/useFolderTreeActions.ts.
-- The nodes are those of the render in which the action was made. An answer of the API is given with
-- each request; of a failure, the text that the answer has. JSON.parse of a list that was dragged is
-- a parameter.
pub mod Laws
use papercrate.Base.{
  String, Bool, true, false, List, [], ◌∷◌, ◌++◌, Option, none, some, ◌==◌, ◌&&◌, ◌||◌, not,
  if◌then◌else◌, contains, unique, any,
}
use papercrate.Api.{Reply, ok, failed}
use papercrate.Dict.{Dict, lookup}
use papercrate.Js.{Fields}
use papercrate.Text.{trim}
use papercrate.Folders
use papercrate.Folders.{FoldersManager}
use papercrate.Drops.{FolderNode, parent_of, is_invalid_folder_drop}

pub data Variant : Type 0 where
  info success error : Variant

-- The state that the actions change: the store, what is selected and dragged, and the calls of
-- `showToast`, `handleFileDrop` and `moveDocumentsToFolder`, oldest first.
pub record Workspace : Type 0 where
  pub manager : FoldersManager
  pub selected : String
  pub creating : Bool
  pub dragged_folder : Option String
  pub dragged_documents : List String
  pub toasts : List (String × Variant)
  pub file_drops : List String
  pub document_moves : List (List String × String)

-- An answer, and the text of the error where it has one.
abbrev pub Answer {ℓ} : Type ℓ → Type ℓ
Answer A = Reply A × Option String

unfoldable pub show_toast : String → Variant → Workspace → Workspace
show_toast message variant w = record w { toasts = w.toasts ++ (message, variant) ∷ [] }

-- `error.response?.data?.error || fallback`
abbrev pub message_of : Option String → String → String
message_of none fallback = fallback
message_of (some text) fallback = if text == "" then fallback else text

-- `x || 'root'` of an identifier
abbrev pub or_root : Option String → String
or_root none = "root"
or_root (some id) = if id == "" then "root" else id

-- `moveFolder`; none where the store has no tree for the answer, as at `Folders.move_node`.
unfoldable pub move_folder :
    Dict FolderNode → String → Option String → Answer (Unit {0}) → Workspace → Option Workspace
unfolding show_toast
move_folder nodes id target (reply, text) w = elim (lookup id nodes) [
  | none ↦ some (show_toast "Folder metadata unavailable. Try refreshing." error w)
  | some node ↦
      let (manager, answered) = Folders.move id (some (or_root target)) reply w.manager in
      if parent_of node == or_root target then some w else elim answered [
        | failed ↦ some (show_toast (message_of text "Failed to move folder.") error w)
        | ok _ ↦ elim manager [
          | none ↦ none
          | some m ↦ some (show_toast "Folder moved." success (record w { manager = m }))
        ]
      ]
]

unfoldable pub select_folder : Option String → Workspace → Workspace
select_folder id w = record w { selected = or_root id }

-- The new state, and whether the folder was renamed.
unfoldable pub handle_folder_rename :
    String → Option String → Answer (Unit {0}) → Workspace → Workspace × Bool
unfolding show_toast
handle_folder_rename id next_name (reply, text) w =
    let trimmed : String = elim next_name [ none ↦ "" | some name ↦ trim name ] in
    let (manager, answered) = Folders.rename id trimmed reply w.manager in
    if trimmed == ""
    then (show_toast "Folder name cannot be empty." error w, false)
    else elim answered [
      | failed ↦ (show_toast (message_of text "Failed to rename folder.") error w, false)
      | ok _ ↦ (show_toast "Folder renamed." success (record w { manager = manager }), true)
    ]

-- The parent that the request names; a parent given as none is null, and one not given is none here.
unfoldable pub create_parent : Option (Option String) → String → Option String
create_parent none selected = if selected == "root" then none else some selected
create_parent (some none) selected = none
create_parent (some (some id)) selected = if id == "root" then none else some id

-- `handleFolderCreate` up to its request, and whether it sends one: for the trimmed name and
-- `create_parent`
unfoldable pub create_requested : String → Workspace → Workspace × Bool
unfolding show_toast
create_requested name w =
    if trim name == ""
    then (show_toast "Folder name cannot be empty." error w, false)
    else (record w { creating = true }, true)

-- `handleFolderCreate` from the answer on; the API answers with the folder
unfoldable pub create_answered : Answer Fields → Workspace → Workspace × Bool
unfolding show_toast
create_answered (reply, text) w =
    let (manager, answered) = Folders.create reply w.manager in
    let (w', created) : Workspace × Bool = elim answered [
      | failed ↦ (show_toast (message_of text "Failed to create folder.") error w, false)
      | ok _ ↦ (show_toast "Folder created." success (record w { manager = manager }), true)
    ] in
    (record w' { creating = false }, created)

unfoldable pub handle_folder_create : String → Answer Fields → Workspace → Workspace × Bool
unfolding create_requested create_answered
handle_folder_create name answer w =
    let (w', sent) = create_requested name w in
    if sent then create_answered answer w' else (w', false)

-- where the selection goes when its folder is deleted
abbrev pub fallback : Dict FolderNode → String → String
fallback nodes id = elim (lookup id nodes) [ none ↦ "root" | some node ↦ or_root node.parent_id ]

abbrev pub toast_if : Bool → String → Variant → Workspace → Workspace
toast_if shown message variant w = if shown then show_toast message variant w else w

unfoldable pub handle_folder_delete :
    Dict FolderNode → String → Bool → Answer (Unit {0}) → Workspace → Workspace × Bool
unfolding show_toast
handle_folder_delete nodes id show_message (reply, text) w =
    let (manager, answered) = Folders.delete id reply w.manager in
    if id == "" || id == "root"
    then (toast_if show_message "The root folder cannot be removed." error w, false)
    else elim answered [
      | failed ↦ (
        toast_if show_message (message_of text "Failed to delete folder.") error
            (show_toast (message_of text "Failed to delete folder.") error w),
        false,
      )
      | ok _ ↦ (
        toast_if show_message "Folder deleted." success (record w {
          manager = manager;
          selected = if w.selected == id then fallback nodes id else w.selected;
        }),
        true,
      )
    ]

-- What is dropped: the types, and the text of each, "" where there is none.
pub record Transfer : Type 0 where
  pub types : List String
  pub text_of : String → String

abbrev pub truthy : List (Option String) → List String
truthy [] = []
truthy (none ∷ ids) = truthy ids
truthy (some id ∷ ids) = if id == "" then truthy ids else id ∷ truthy ids

abbrev pub one : String → List String
one id = if id == "" then [] else id ∷ []

abbrev pub or_list : List String → List String → List String
or_list [] other = other
or_list (id ∷ ids) other = id ∷ ids

-- The elements of the array that a text is JSON of, none where it is not: its texts, and none for
-- its other elements, which are falsy.
module _ (parse_list : String → Option (List (Option String))) where
  unfoldable pub read_list : String → Transfer → List String
  read_list key transfer =
      let raw = transfer.text_of key in
      if raw == "" then [] else elim (parse_list raw) [ none ↦ [] | some ids ↦ truthy ids ]

  -- the folders that are dropped
  unfoldable pub dropped_folders : Transfer → Option String → List String
  unfolding read_list
  dropped_folders transfer dragged =
      let single =
        if contains "application/x-papercrate-folder" transfer.types
        then one (transfer.text_of "application/x-papercrate-folder")
        else [] in
      let source : List String = elim dragged [
        | none ↦ single
        | some id ↦ if id == "" then single else id ∷ []
      ] in
      unique [] (or_list (read_list "application/x-papercrate-folder-list" transfer) source)

  -- the documents that are dropped
  unfoldable pub dropped_documents : Transfer → List String → List String
  unfolding read_list
  dropped_documents transfer dragged = unique [] (
      or_list (read_list "application/x-papercrate-doc-list" transfer)
        (or_list (one (transfer.text_of "application/x-papercrate-doc")) dragged))

  abbrev pub has_files : Transfer → Bool
  has_files transfer = contains "Files" transfer.types

  -- the folders one after another
  unfoldable pub move_all :
      Dict FolderNode
      → List String
      → String
      → (String → Answer (Unit {0}))
      → Workspace
      → Option Workspace
  unfolding move_folder
  move_all nodes [] target answers w = some w
  move_all nodes (id ∷ ids) target answers w =
      elim (move_folder nodes id (some target) (answers id) w) [
        | none ↦ none
        | some w' ↦ move_all nodes ids target answers w'
      ]

  -- after the folders: the files, or the documents
  unfoldable pub drop_rest : Transfer → String → Workspace → Workspace
  unfolding dropped_documents
  drop_rest transfer target w =
      let ids = dropped_documents transfer w.dragged_documents in
      if has_files transfer
      then record w { file_drops = w.file_drops ++ target ∷ [] }
      else elim ids [
        | [] ↦ w
        | id ∷ rest ↦ if target == w.selected then w else record w {
          dragged_documents = [];
          document_moves = w.document_moves ++ (id ∷ rest, target) ∷ [];
        }
      ]

  -- `onDrop` of `folderClickHandlers`
  unfoldable pub on_drop :
      Dict FolderNode
      → Transfer
      → String
      → (String → Answer (Unit {0}))
      → Workspace
      → Option Workspace
  unfolding dropped_folders move_all drop_rest show_toast
  on_drop nodes transfer target answers w = elim (dropped_folders transfer w.dragged_folder) [
    | [] ↦ some (drop_rest transfer target w)
    | id ∷ ids ↦
        let w' = record w { dragged_folder = none } in
        let refused =
          any (λ source. is_invalid_folder_drop nodes (some source) (some target)) (id ∷ ids) in
        if refused
        then some
            (show_toast "Cannot move a folder into itself or one of its descendants." error w')
        else elim (move_all nodes (id ∷ ids) target answers w') [
          | none ↦ none
          | some w'' ↦ some (drop_rest transfer target w'')
        ]
  ]
