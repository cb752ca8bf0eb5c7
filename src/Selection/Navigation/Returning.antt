-- ===== src/Selection/Navigation/Returning.antt =====
-- An arrow and the arrow against it.
use papercrate.Base.{
  ℕ, zero, suc, ◌+◌, ◌<◌, ◌≡◌, refl, sym, ◌∙◌, String, Bool, Bool-cases, true, false, List, [], ◌∷◌,
  Option, none, some, ◌==◌, ◌&&◌, ◌||◌, not, contains, nat_eq, length, arith, eq_iff, eq_refl, inl,
  inr, Distinct,
}
use papercrate.Selection.Apply.{Selection, index_of, last?, apply_selection, handle_entry_selection}
use papercrate.Selection.Navigation.{
  Row, Key, arrow_up, arrow_down, is_other, is_opening, keys_of, row_at, focused_navigable,
  active_key, next_index, move_to, index_of?, handle_key_down,
}
use papercrate.Selection.Navigation.Laws.{key_moves_to_row}

row_at-contains :
    (i : ℕ) (rows : List Row) (row : Row)
    → row_at i rows ≡ some row
    → contains row.key (keys_of rows) ≡ true
unfolding row_at keys_of contains
row_at-contains i [] row h = absurd (cc h)
row_at-contains zero (r ∷ rows) row h = ground (arith, eq_refl row.key)
row_at-contains (suc i) (r ∷ rows) row h = ground (arith, row_at-contains i rows row h)

-- Where the keys are distinct, the index of a row's key is the row's own.
row_at-index_of :
    (i : ℕ) (rows : List Row) (row : Row)
    → Distinct (keys_of rows)
    → row_at i rows ≡ some row
    → index_of row.key (keys_of rows) ≡ some i
unfolding row_at keys_of index_of
row_at-index_of i [] row d h = absurd (cc h)
row_at-index_of zero (r ∷ rows) row d h = ground (arith, eq_refl row.key)
row_at-index_of (suc i) (r ∷ rows) row d h =
    ground
      (arith, row_at-index_of i rows row d.1 h, row_at-contains i rows row h, eq_iff r.key row.key)

row_at-bound : (i : ℕ) (rows : List Row) (row : Row) → row_at i rows ≡ some row → i < length rows
unfolding row_at
row_at-bound i [] row h = absurd (cc h)
row_at-bound zero (r ∷ rows) row h = omega arith
row_at-bound (suc i) (r ∷ rows) row h = omega (arith, row_at-bound i rows row h)

move_to-focus :
    (shift : Bool) (key : String) (s : Selection) → (move_to shift key s).focused_entry ≡ some key
unfolding move_to
move_to-focus true key s = unfold apply_selection in refl
move_to-focus false key s = elim (Bool-cases (not (key == "") && contains key s.visible)) [
  | inl seen ↦
      unfold handle_entry_selection apply_selection last? in rw (seen, handle_entry_selection) refl
  | inr unseen ↦ unfold handle_entry_selection last? in rw (unseen, handle_entry_selection) refl
]

-- The entry that has the focus is the active one.
focused-index_of :
    (key : Key) (i : ℕ) (rows : List Row) (row : Row) (s : Selection)
    → Distinct (keys_of rows)
    → contains "" (keys_of rows) ≡ false
    → row_at i rows ≡ some row
    → s.focused_entry ≡ some row.key
    → index_of? (active_key key (keys_of rows) s) (keys_of rows) ≡ some i
unfolding active_key focused_navigable
focused-index_of key i rows row s d full at focus =
    let there = row_at-contains i rows row at in
    let named : (row.key == "") ≡ false = ground (arith, eq_iff row.key "") in
    rw focus (rw (named, there) (row_at-index_of i rows row d at))

-- The focus after a key that moves, from a row that has it.
pub moved_focus :
    (key : Key) (shift : Bool) (columns : Option ℕ) (rows : List Row) (s : Selection) (i j : ℕ)
    (row : Row)
    → (is_other key || is_opening key) ≡ false
    → Distinct (keys_of rows)
    → contains "" (keys_of rows) ≡ false
    → row_at i rows ≡ some row
    → s.focused_entry ≡ some row.key
    → next_index key columns (length rows) (some i) ≡ some j
    → (next : Row) × (row_at j rows ≡ some next)
      × ((handle_key_down key shift columns rows s).0.focused_entry ≡ some next.key)
moved_focus key shift columns rows s i j row moving d full at focus goes =
    let bound = row_at-bound i rows row at in
    let (i', j', next, active, next_at, _, found, e) =
      key_moves_to_row key shift columns rows s (omega (arith, bound)) moving in
    let own = focused-index_of key i rows row s d full at focus in
    let same_i : some i' ≡ some i = sym active ∙ own in
    let same_j : some j' ≡ some j = sym next_at ∙ rw same_i goes in
    let there : row_at j rows ≡ some next = ground arith in
    (
      next,
      there,
      rw e (elim (Bool-cases (nat_eq j' i')) [
        | inl same ↦
            let here : some row ≡ some next = sym at ∙ ground (arith) in
            rw same (focus ∙ ground arith)
        | inr differs ↦ rw differs (move_to-focus shift next.key s)
      ]),
    )

-- How far a vertical arrow goes: a row of the grid, or one entry of the list.
abbrev pub stride : Option ℕ → ℕ
stride none = 1
stride (some columns) = columns

next_index-down :
    (columns : Option ℕ) (count i : ℕ)
    → i + stride columns < count
    → next_index arrow_down columns count (some i) ≡ some (i + stride columns)
unfolding next_index
next_index-down none count i h = ground arith
next_index-down (some c) count i h = ground arith

next_index-up :
    (columns : Option ℕ) (count i : ℕ)
    → next_index arrow_up columns count (some (i + stride columns)) ≡ some i
unfolding next_index
next_index-up none count i = ground arith
next_index-up (some c) count i = ground arith

-- In a list or a grid whose keys are distinct and not empty, down from a row that has the focus
-- takes it to the row below, if there is one, and up from there takes it back, with shift or
-- without, whatever is selected.
pub down_up_returns :
    (shift shift' : Bool) (columns : Option ℕ) (rows : List Row) (s : Selection) (i : ℕ) (row : Row)
    → Distinct (keys_of rows)
    → contains "" (keys_of rows) ≡ false
    → row_at i rows ≡ some row
    → s.focused_entry ≡ some row.key
    → i + stride columns < length rows
    → (let s' = (handle_key_down arrow_down shift columns rows s).0 in
        (below : Row) × (row_at (i + stride columns) rows ≡ some below)
        × (s'.focused_entry ≡ some below.key)
        × ((handle_key_down arrow_up shift' columns rows s').0.focused_entry ≡ some row.key))
down_up_returns shift shift' columns rows s i row d full at focus h =
    let s' = (handle_key_down arrow_down shift columns rows s).0 in
    let (below, there, lower) =
      moved_focus arrow_down shift columns rows s i (i + stride columns) row refl d full at focus
        (next_index-down columns (length rows) i h) in
    let (back, here, upper) =
      moved_focus arrow_up shift' columns rows s' (i + stride columns) i below refl d full there
        lower (next_index-up columns (length rows) i) in
    let same : some back ≡ some row = sym here ∙ at in (below, there, lower, ground arith)
