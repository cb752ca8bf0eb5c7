-- ===== src/Selection/Navigation.antt =====
-- The keyboard on the list of entries: frontend/src/documents/logic/useDocumentsNavigation.ts. The
-- columns of the grid come from the style of the page; opening a folder or a document is a call. The
-- events are those that target the list itself; others are let pass.
pub mod Laws
pub mod Returning
mod Tests
use papercrate.Base.{
  ℕ, zero, suc, ◌+◌, ◌-◌, ◌≤◌, ◌<◌, ◌≡◌, refl, sym, ap, ◌∙◌, String, Bool, Bool-cases, Option-cases,
  true, false, List, [], ◌∷◌, ◌++◌, Option, none, some, ◌==◌, ◌&&◌, ◌||◌, not, if◌then◌else◌,
  contains, unique, leb, ltb, nat_eq, length, is_some, arith, eq_iff, eq_refl, inl, inr,
  contains-append, ◌⊎◌,
}
use papercrate.Selection.Apply.{
  Selection, index_of, last?, present, apply_selection, handle_entry_selection, usable,
}
use papercrate.Selection.Apply.Laws.{
  IsInOrder, apply_selection-IsInOrder, handle_entry_selection-IsInOrder,
}

pub data RowType : Type 0 where
  folder document : RowType

pub record Row : Type 0 where
  pub key : String
  pub kind : RowType
  pub id : String

pub data Key : Type 0 where
  arrow_up arrow_down arrow_left arrow_right home end_key enter space other : Key

-- What Enter and Space do besides: a folder is selected, a document is opened or previewed.
pub data Action : Type 0 where
  select_folder : String → Action
  inspect preview : String → Action

-- `navigableEntryKeys`
unfoldable pub keys_of : List Row → List String
keys_of [] = []
keys_of (row ∷ rows) = row.key ∷ keys_of rows

-- `rows[index]`
unfoldable pub row_at : ℕ → List Row → Option Row
row_at n [] = none
row_at zero (row ∷ rows) = some row
row_at (suc n) (row ∷ rows) = row_at n rows

-- the last of the selected entries that is navigable
unfoldable pub last_navigable : List String → List String → Option String
last_navigable navigable [] = none
last_navigable navigable (k ∷ ks) =
    let later = last_navigable navigable ks in
    if is_some later then later else if contains k navigable then some k else none

-- the focused entry, if it is navigable
unfoldable pub focused_navigable : List String → Option String → Option String
focused_navigable navigable none = none
focused_navigable navigable (some k) =
    if not (k == "") && contains k navigable then some k else none

abbrev pub head_key : List String → Option String
head_key [] = none
head_key (k ∷ ks) = some k

-- from which end a key starts where nothing is active
abbrev pub backward : Key → Bool
backward arrow_up = true
backward arrow_left = true
backward _ = false

abbrev pub or_else? {ℓ} : {A : Type ℓ} → Option A → Option A → Option A
or_else? none b = b
or_else? (some a) b = some a

unfoldable pub active_key : Key → List String → Selection → Option String
unfolding focused_navigable last_navigable last? usable
active_key key navigable s = or_else? (focused_navigable navigable s.focused_entry) (
    or_else? (usable (last_navigable navigable s.selected))
      (if backward key then last? navigable else head_key navigable))

-- `Math.min(i + 1, count - 1)`
abbrev pub forward_one : Option ℕ → ℕ → ℕ
forward_one none count = 0
forward_one (some i) count = if ltb (i + 1) count then i + 1 else count - 1

-- `Math.max(i - 1, 0)`
abbrev pub back_one : Option ℕ → ℕ
back_one none = 0
back_one (some i) = i - 1

-- `nextIndex`, none for -1; `columns` is none outside the grid
unfoldable pub next_index : Key → Option ℕ → ℕ → Option ℕ → Option ℕ
next_index arrow_down (some columns) count none =
    if ltb columns (suc count) && ltb 0 columns then some (columns - 1) else none
next_index arrow_down (some columns) count (some i) =
    if ltb (i + columns) count then some (i + columns) else some i
next_index arrow_down none count current = some (forward_one current count)
next_index arrow_up (some columns) count none = none
next_index arrow_up (some columns) count (some i) =
    if leb columns i then some (i - columns) else some i
next_index arrow_up none count none = some (count - 1)
next_index arrow_up none count (some i) = some (i - 1)
next_index arrow_left columns count current = some (back_one current)
next_index arrow_right columns count current = some (forward_one current count)
next_index home columns count current = some 0
next_index end_key columns count current = some (count - 1)
next_index _ columns count current = current

-- the move of the focus to a row, and of the selection with it
unfoldable pub move_to : Bool → String → Selection → Selection
move_to shift key s =
    let s' = record s { focused_entry = some key } in
    if shift
    then apply_selection (present (unique (unique [] s.selected) (key ∷ []))) (some key) (key ∷ [])
        s'
    else handle_entry_selection (key ∷ []) false false s'

abbrev pub opened : Key → Row → Option Action
opened key row = elim row.kind [
  | folder ↦ some (select_folder row.id)
  | document ↦ elim key [ space ↦ some (preview row.key) | _ ↦ some (inspect row.key) ]
]

abbrev pub is_opening : Key → Bool
is_opening enter = true
is_opening space = true
is_opening _ = false

abbrev pub is_other : Key → Bool
is_other other = true
is_other _ = false

abbrev pub index_of? : Option String → List String → Option ℕ
index_of? none keys = none
index_of? (some k) keys = index_of k keys

abbrev pub row_at? : Option ℕ → List Row → Option Row
row_at? none rows = none
row_at? (some i) rows = row_at i rows

-- `nextIndex === -1 || nextIndex >= rows.length || nextIndex === currentIndex`, denied, and the row
unfoldable pub target : Option ℕ → Option ℕ → List Row → Option Row
unfolding row_at
target current none rows = none
target none (some j) rows = row_at j rows
target (some i) (some j) rows = if nat_eq j i then none else row_at j rows

unfoldable pub handle_key_down :
    Key → Bool → Option ℕ → List Row → Selection → Selection × Option Action
unfolding keys_of active_key next_index move_to target
handle_key_down key shift columns rows s =
    let current = index_of? (active_key key (keys_of rows) s) (keys_of rows) in
    if is_other key || nat_eq (length rows) 0
    then (s, none)
    else if is_opening key
    then elim (row_at? current rows) [ none ↦ (s, none) | some row ↦ (s, opened key row) ]
    else elim (target current (next_index key columns (length rows) current) rows) [
      | none ↦ (s, none)
      | some row ↦ (move_to shift row.key s, none)
    ]

-- `handleFocus`
unfoldable pub handle_focus : List Row → Selection → Selection
unfolding keys_of focused_navigable last_navigable usable
handle_focus rows s =
    let resolved = or_else? (focused_navigable (keys_of rows) s.focused_entry) (
      or_else? (usable (last_navigable (keys_of rows) s.selected))
        (if nat_eq (length s.selected) 0 then none else usable (head_key (keys_of rows)))) in
    elim resolved [ none ↦ s | some key ↦ record s { focused_entry = some key } ]
