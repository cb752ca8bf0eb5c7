-- ===== src/Selection/Apply.antt =====
-- The selection of entries, `applySelection`, `clearSelection` and `handleEntrySelection` of
-- frontend/src/app/useDocumentSelection.ts. A call is made after the render of the one before it, so
-- that the hook's state and its references are one record.
pub mod Laws
use papercrate.Base.{
  ℕ, zero, suc, ◌+◌, ◌-◌, String, Bool, true, false, List, [], ◌∷◌, ◌++◌, Option, none, some, ◌==◌,
  ◌&&◌, ◌||◌, not, if◌then◌else◌, filter, contains, unique, leb, nat_eq, length, ltb,
}
use papercrate.EntryKey.{
  create_document_entry_key, create_folder_entry_key, is_document_entry, is_folder_entry,
  get_entry_id,
}
use papercrate.Selection.{SelectionOrder, update_selection_order}

pub record Selection : Type 0 where
  pub visible : List String
  pub navigable : List String
  pub selected : List String
  pub order : SelectionOrder
  pub anchor : Option String
  pub focused_document : Option String
  pub focused_entry : Option String

-- `id ? create(id) : null`
unfoldable pub key_of : (String → String) → String → Option String
key_of create id = if id == "" then none else some (create id)

unfoldable pub canonical_key : List String → String → Option String
unfolding key_of
canonical_key visible key =
    if contains key visible
    then some key
    else if is_document_entry key
    then key_of create_document_entry_key (get_entry_id key)
    else if is_folder_entry key
    then key_of create_folder_entry_key (get_entry_id key)
    else none

-- one round of the loop over the keys
unfoldable pub pick : List String → List String → Option String → List String
unfolding canonical_key
pick visible picked none = picked
pick visible picked (some key) = if key == "" then picked else elim (canonical_key visible key) [
  | none ↦ picked
  | some canonical ↦
      if not (contains canonical visible) || contains canonical picked
      then picked
      else picked ++ canonical ∷ []
]

unfoldable pub pick_all : List String → List String → List (Option String) → List String
pick_all visible picked [] = picked
pick_all visible picked (key ∷ keys) = pick_all visible (pick visible picked key) keys

-- the anchor, if it is one of the keys; an empty one counts as none
unfoldable pub resolve : Option String → List String → Option String
resolve none picked = none
resolve (some anchor) picked =
    if not (anchor == "") && contains anchor picked then some anchor else none

unfoldable pub last? : List String → Option String
last? [] = none
last? (x ∷ []) = some x
last? (x ∷ y ∷ xs) = last? (y ∷ xs)

-- the last statement of `applySelection`
unfoldable pub next_anchor : Option String → List String → Option String → Option String
unfolding last?
next_anchor (some anchor) picked old = some anchor
next_anchor none [] old = none
next_anchor none (x ∷ xs) none = last? (x ∷ xs)
next_anchor none (x ∷ xs) (some old) = if contains old (x ∷ xs) then some old else last? (x ∷ xs)

-- the last document among the keys
unfoldable pub last_document : List String → Option String
unfolding last?
last_document picked = elim (last? (filter is_document_entry picked)) [
  | none ↦ none
  | some key ↦ some (get_entry_id key)
]

-- the document that has the focus if the old one has lost it
unfoldable pub focus_of : Option String → List String → Option String
unfolding last_document
focus_of none picked = last_document picked
focus_of (some anchor) picked =
    if is_document_entry anchor then some (get_entry_id anchor) else last_document picked

unfoldable pub next_focus : Option String → Option String → List String → Option String
unfolding focus_of
next_focus none anchor picked = focus_of anchor picked
next_focus (some focused) anchor picked =
    if not (focused == "") && contains (create_document_entry_key focused) picked
    then some focused
    else focus_of anchor picked

unfoldable pub apply_selection :
    List (Option String) → Option String → List String → Selection → Selection
unfolding pick_all resolve next_anchor next_focus
apply_selection entry_keys anchor interacted_keys s =
    let picked = pick_all s.visible [] entry_keys in
    let resolved = resolve anchor picked in
    record s {
      selected = picked;
      order = update_selection_order picked interacted_keys s.order;
      anchor = next_anchor resolved picked s.anchor;
      focused_document = next_focus s.focused_document resolved picked;
    }

unfoldable pub clear_selection : Selection → Selection
unfolding apply_selection
clear_selection s = apply_selection [] none [] (record s { focused_entry = none })

-- `indexOf`, none for -1
unfoldable pub index_of : String → List String → Option ℕ
index_of k [] = none
index_of k (x ∷ xs) =
    let rest = index_of k xs in
    if x == k then some 0 else elim rest [ none ↦ none | some i ↦ some (suc i) ]

-- `slice(start, end + 1)`
unfoldable pub span : ℕ → ℕ → List String → List String
span start stop [] = []
span zero zero (x ∷ xs) = x ∷ []
span zero (suc stop) (x ∷ xs) = x ∷ span zero stop xs
span (suc start) zero (x ∷ xs) = []
span (suc start) (suc stop) (x ∷ xs) = span start stop xs

-- the keys from one index to the other, in either order
unfoldable pub range : ℕ → ℕ → List String → List String
unfolding span
range a b keys = if leb a b then span a b keys else span b a keys

-- What `handleEntrySelection` passes to `applySelection`.
pub record Request : Type 0 where
  pub next_keys : List String
  pub interacted_keys : List String
  pub anchor : Option String

-- a click with shift on one key
unfoldable pub shift_request : String → String → List String → List String → Request
unfolding index_of range
shift_request anchor key navigable selected =
    let only : Request = record {
      next_keys = key ∷ [];
      interacted_keys = key ∷ [];
      anchor = some anchor;
    } in
    elim (index_of anchor navigable) [
      | none ↦ only
      | some a ↦ elim (index_of key navigable) [
        | none ↦ only
        | some b ↦
            let keys = range a b navigable in
            let news = filter (λ k. k == key || not (contains k selected)) keys in
            record {
              next_keys = keys;
              interacted_keys = if contains key news then news else news ++ key ∷ [];
              anchor = some anchor;
            }
      ]
    ]

unfoldable pub additive_request : List String → Option String → List String → Request
additive_request (key ∷ []) last selected =
    if contains key selected
    then record {
      next_keys = filter (λ k. not (k == key)) selected;
      interacted_keys = [];
      anchor = last;
    }
    else record { next_keys = selected ++ key ∷ []; interacted_keys = key ∷ []; anchor = last }
additive_request keys last selected = record {
  next_keys = unique (unique [] selected) keys;
  interacted_keys = keys;
  anchor = last;
}

-- a key, if it is none of the falsy ones
unfoldable pub usable : Option String → Option String
usable none = none
usable (some a) = if a == "" then none else some a

-- the anchor that stands before the click; an empty one counts as none
unfoldable pub current_anchor : Bool → Option String → List String → String → String
unfolding last? usable
current_anchor shift anchor selected last = elim (usable anchor) [
  | some a ↦ a
  | none ↦ if shift then elim (usable (last? selected)) [ none ↦ last | some a ↦ a ] else last
]

unfoldable pub request_for : Bool → Bool → List String → String → Selection → Request
unfolding shift_request additive_request current_anchor
request_for shift additive keys last s =
    let plain =
      if additive
      then additive_request keys (some last) s.selected
      else record { next_keys = keys; interacted_keys = keys; anchor = some last } in
    if shift && nat_eq (length keys) 1
    then shift_request (current_anchor shift s.anchor s.selected last) last s.navigable s.selected
    else plain

unfoldable pub present : List String → List (Option String)
present [] = []
present (key ∷ keys) = some key ∷ present keys

unfoldable pub handle_entry_selection : List String → Bool → Bool → Selection → Selection
unfolding request_for apply_selection present last?
handle_entry_selection entry_keys shift additive s =
    let valid = filter (λ key. not (key == "") && contains key s.visible) entry_keys in
    elim (last? valid) [
      | none ↦ s
      | some last ↦
          let r = request_for shift additive valid last s in
          apply_selection (present r.next_keys) r.anchor r.interacted_keys
            (record s { focused_entry = some last })
    ]

unfoldable pub configure_selection_environment :
    Option (List String) → Option (List String) → Selection → Selection
configure_selection_environment visible navigable s = record s {
  visible = given visible s.visible;
  navigable = given navigable s.navigable;
}
  where
    given : Option (List String) → List String → List String
    given none old = old
    given (some new) old = new

-- `promoteSelectionOrder`
unfoldable pub promote_selection_order : Option String → Selection → Selection
promote_selection_order none s = s
promote_selection_order (some id) s =
    if id == ""
    then s
    else if contains (create_document_entry_key id) s.selected
    then record s {
      order = update_selection_order s.selected (create_document_entry_key id ∷ []) s.order;
    }
    else s
