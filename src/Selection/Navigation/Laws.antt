-- ===== src/Selection/Navigation/Laws.antt =====
-- Where a key takes the focus, and what it leaves of the selection.
use papercrate.Base.{
  ℕ, zero, suc, ◌+◌, ◌-◌, ◌<◌, ◌≡◌, refl, ◌∙◌, String, Bool, Bool-cases, Option-cases, true, false,
  List, [], ◌∷◌, Option, none, some, ◌==◌, ◌||◌, if◌then◌else◌, contains, unique, leb, ltb, nat_eq,
  length, arith, eq_iff, eq_refl, inl, inr,
}
use papercrate.Selection.Apply.{Selection, index_of, present, usable}
use papercrate.Selection.Apply.Laws.{
  IsInOrder, apply_selection-IsInOrder, handle_entry_selection-IsInOrder, last?-contains,
}
use papercrate.Selection.Navigation.{
  Row, Key, arrow_up, arrow_down, arrow_left, arrow_right, home, end_key, enter, space, other,
  keys_of, row_at, last_navigable, focused_navigable, backward, active_key, forward_one, next_index,
  move_to, is_opening, is_other, index_of?, row_at?, target, handle_key_down,
}

index_of-contains :
    (k : String) (keys : List String)
    → contains k keys ≡ true
    → (i : ℕ) × (index_of k keys ≡ some i)
unfolding index_of contains
index_of-contains k [] h = absurd (cc h)
index_of-contains k (x ∷ xs) h = elim (Bool-cases (x == k)) [
  | inl same ↦ (0, rw same refl)
  | inr differs ↦
      let (i, found) = index_of-contains k xs (ground arith) in (suc i, rw differs (rw found refl))
]

index_of-row_at :
    (k : String) (rows : List Row) (i : ℕ)
    → index_of k (keys_of rows) ≡ some i
    → (row : Row) × (row_at i rows ≡ some row) × (row.key ≡ k) × (i < length rows)
unfolding index_of keys_of row_at
index_of-row_at k [] i h = absurd (cc h)
index_of-row_at k (row ∷ rows) i h = elim (Bool-cases (row.key == k)) [
  | inl same ↦
      let e : i ≡ 0 = ground arith in
      (row, rw e refl, ground (arith, eq_iff row.key k), rw e (omega arith))
  | inr differs ↦ elim (Option-cases (index_of k (keys_of rows))) [
    | inl missing ↦ absurd (ground arith)
    | inr (j, found) ↦
        let e : i ≡ suc j = ground arith in
        let (r, there, named, bound) = index_of-row_at k rows j found in
        (r, rw e there, named, rw e (omega (arith, bound)))
  ]
]

row_at-bound :
    (i : ℕ) (rows : List Row) → i < length rows → (row : Row) × (row_at i rows ≡ some row)
unfolding row_at
row_at-bound i [] h = absurd (omega (arith, h))
row_at-bound zero (row ∷ rows) h = (row, refl)
row_at-bound (suc i) (row ∷ rows) h = row_at-bound i rows (omega (arith, h))

focused_navigable-contains :
    (keys : List String) (focus : Option String) (k : String)
    → focused_navigable keys focus ≡ some k
    → contains k keys ≡ true
unfolding focused_navigable
focused_navigable-contains keys none k h = absurd (cc h)
focused_navigable-contains keys (some f) k h = ground (arith, eq_iff f k)

last_navigable-contains :
    (keys selected : List String) (k : String)
    → last_navigable keys selected ≡ some k
    → contains k keys ≡ true
unfolding last_navigable
last_navigable-contains keys [] k h = absurd (cc h)
last_navigable-contains keys (x ∷ xs) k h = elim (Option-cases (last_navigable keys xs)) [
  | inl none_later ↦ elim (Bool-cases (contains x keys)) [
    | inl there ↦ ground arith
    | inr gone ↦ absurd (ground arith)
  ]
  | inr (l, found) ↦ last_navigable-contains keys xs k (ground arith)
]

usable-some : (o : Option String) (k : String) → usable o ≡ some k → o ≡ some k
unfolding usable
usable-some none k h = absurd (cc h)
usable-some (some a) k h = ground arith

-- Some entry is active wherever there is one.
active_key-contains :
    (key : Key) (x : String) (xs : List String) (s : Selection)
    → (k : String) × (active_key key (x ∷ xs) s ≡ some k) × (contains k (x ∷ xs) ≡ true)
unfolding active_key
active_key-contains key x xs s = elim (Option-cases (focused_navigable (x ∷ xs) s.focused_entry)) [
  | inr (k, found) ↦ (k, rw found refl, focused_navigable-contains (x ∷ xs) s.focused_entry k found)
  | inl unfocused ↦ elim (Option-cases (usable (last_navigable (x ∷ xs) s.selected))) [
    | inr (k, found) ↦ (
      k,
      rw (unfocused, found) refl,
      last_navigable-contains (x ∷ xs) s.selected k
          (usable-some (last_navigable (x ∷ xs) s.selected) k found),
    )
    | inl unselected ↦ elim (Bool-cases (backward key)) [
      | inl back ↦
          let (l, found, there) = last?-contains x xs in
          (l, rw (unfocused, unselected, back) found, there)
      | inr forward ↦
          (x, rw (unfocused, unselected, forward) refl, unfold contains in rw (eq_refl x) refl)
    ]
  ]
]

active_key-row_at :
    (key : Key) (rows : List Row) (s : Selection)
    → 0 < length rows
    → (i : ℕ) × (index_of? (active_key key (keys_of rows) s) (keys_of rows) ≡ some i)
      × (i < length rows)
unfolding keys_of
active_key-row_at key [] s h = absurd (omega (arith, h))
active_key-row_at key (r ∷ rows) s h =
    let (k, active, there) = active_key-contains key r.key (keys_of rows) s in
    let (i, at_i) = index_of-contains k (keys_of (r ∷ rows)) there in
    let (_, _, _, below) = index_of-row_at k (r ∷ rows) i at_i in (i, rw active at_i, below)

next_index-bounds :
    (key : Key) (columns : Option ℕ) (count i : ℕ)
    → i < count
    → (j : ℕ) × (next_index key columns count (some i) ≡ some j) × (j < count)
unfolding next_index
next_index-bounds arrow_up none count i h = (i - 1, refl, omega (arith, h))
next_index-bounds arrow_up (some c) count i h = elim (Bool-cases (leb c i)) [
  | inl e ↦ (i - c, rw e refl, omega (arith, h))
  | inr e ↦ (i, rw e refl, h)
]
next_index-bounds arrow_down none count i h = (forward_one (some i) count, refl, ground arith)
next_index-bounds arrow_down (some c) count i h = elim (Bool-cases (ltb (i + c) count)) [
  | inl e ↦ (i + c, rw e refl, ground arith)
  | inr e ↦ (i, rw e refl, h)
]
next_index-bounds arrow_left columns count i h = (i - 1, refl, omega (arith, h))
next_index-bounds arrow_right columns count i h = (forward_one (some i) count, refl, ground arith)
next_index-bounds home columns count i h = (0, refl, omega (arith, h))
next_index-bounds end_key columns count i h = (count - 1, refl, omega (arith, h))
next_index-bounds enter columns count i h = (i, refl, h)
next_index-bounds space columns count i h = (i, refl, h)
next_index-bounds other columns count i h = (i, refl, h)

target-some :
    (i j : ℕ) (rows : List Row) (row : Row)
    → row_at j rows ≡ some row
    → target (some i) (some j) rows ≡ (if nat_eq j i then none else some row)
unfolding target
target-some i j rows row h = ground arith

-- In a list that is not empty a key that moves finds the row of the active entry, goes to an index
-- within the list, finds a row there, and moves the focus and the selection to that row if it is
-- another one than the active row; otherwise nothing changes. No action is asked for.
pub key_moves_to_row :
    (key : Key) (shift : Bool) (columns : Option ℕ) (rows : List Row) (s : Selection)
    → 0 < length rows
    → (is_other key || is_opening key) ≡ false
    → (i : ℕ) × (j : ℕ) × (row : Row) × (index_of? (active_key key (keys_of rows) s) (keys_of rows)
        ≡ some i)
      × (next_index key columns (length rows) (some i) ≡ some j)
      × (j < length rows)
      × (row_at j rows ≡ some row)
      × (handle_key_down key shift columns rows s
          ≡ ((if nat_eq j i then s else move_to shift row.key s), none))
unfolding handle_key_down
key_moves_to_row key shift columns rows s h moving =
    let (i, current, below) = active_key-row_at key rows s h in
    let (j, next, bound) = next_index-bounds key columns (length rows) i below in
    let (row, found) = row_at-bound j rows bound in
    let plain : is_other key ≡ false = ground arith in
    let moves : is_opening key ≡ false = ground arith in
    let full : nat_eq (length rows) 0 ≡ false = ground arith in
    let active : Option ℕ = index_of? (active_key key (keys_of rows) s) (keys_of rows) in
    let next_at : Option ℕ = next_index key columns (length rows) active in
    let goes_to : target active next_at rows ≡ (if nat_eq j i then none else some row) =
      rw (current, next) (target-some i j rows row found) in
    (
      i,
      j,
      row,
      current,
      next,
      bound,
      found,
      rw (plain, moves, full)
          (elim (Bool-cases (nat_eq j i)) [
            | inl e ↦
                let stays : target active next_at rows ≡ none = goes_to ∙ rw e refl in
                rw e (rw (stays, handle_key_down) refl)
            | inr e ↦
                let goes : target active next_at rows ≡ some row = goes_to ∙ rw e refl in
                rw e (rw (goes, handle_key_down) refl)
          ]),
    )

-- What has the focus is no part of the order.
refocus-IsInOrder :
    (s : Selection) (focus : Option String)
    → IsInOrder s
    → IsInOrder (record s { focused_entry = focus })
refocus-IsInOrder s focus v = record {
  distinct = v.distinct;
  visible = v.visible;
  anchored = v.anchored;
  ordered = v.ordered;
  same = v.same;
  shown = v.shown;
}

move_to-IsInOrder :
    (shift : Bool) (key : String) (s : Selection) → IsInOrder s → IsInOrder (move_to shift key s)
unfolding move_to
move_to-IsInOrder true key s v =
    apply_selection-IsInOrder (present (unique (unique [] s.selected) (key ∷ []))) (some key)
      (key ∷ []) (record s { focused_entry = some key }) v.ordered v.shown
move_to-IsInOrder false key s v =
    handle_entry_selection-IsInOrder (key ∷ []) false false (record s { focused_entry = some key })
      (refocus-IsInOrder s (some key) v)

-- Any key, in a list or a grid, with shift or without, leaves a selection in order that was in order.
pub handle_key_down-IsInOrder :
    (key : Key) (shift : Bool) (columns : Option ℕ) (rows : List Row) (s : Selection)
    → IsInOrder s
    → IsInOrder (handle_key_down key shift columns rows s).0
unfolding handle_key_down
handle_key_down-IsInOrder key shift columns rows s v =
    elim (Bool-cases (is_other key || nat_eq (length rows) 0)) [
      | inl nothing ↦ rw nothing v
      | inr some_row ↦ elim (Bool-cases (is_opening key)) [
        | inl opens ↦
            elim (Option-cases
              (row_at? (index_of? (active_key key (keys_of rows) s) (keys_of rows)) rows)) [
                | inl missing ↦ rw (some_row, opens) (rw (missing, handle_key_down) v)
                | inr (row, found) ↦ rw (some_row, opens) (rw (found, handle_key_down) v)
              ]
        | inr moves ↦
            let (i, j, row, _, _, _, _, e) =
              key_moves_to_row key shift columns rows s (ground arith) (ground arith) in
            rw e (elim (Bool-cases (nat_eq j i)) [
              | inl same ↦ rw same v
              | inr differs ↦ rw differs (move_to-IsInOrder shift row.key s v)
            ])
      ]
    ]
