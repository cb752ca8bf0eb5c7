-- ===== src/Selection/Tests.antt =====
-- An order of three keys, of which one is touched and one is dropped.
use papercrate.Base.{
  ◌≡◌, refl, String, true, false, List, [], ◌∷◌, ◌++◌, ◌||◌, contains, Distinct, some, none, arith,
}
use papercrate.Selection.{next_order, update_selection_order}
use papercrate.Selection.Apply.{Selection, handle_entry_selection, index_of, pick}
use papercrate.Selection.Apply.Laws.{IsInOrder, handle_entry_selection-IsInOrder}
use papercrate.Selection.Order.{untouched, touched, next_order_sorted, update_selection_order-shown}

abbrev previous : List String
previous = "document:a" ∷ "document:b" ∷ "document:c" ∷ []

abbrev next_selection : List String
next_selection = "folder:d" ∷ "document:c" ∷ "document:a" ∷ []

abbrev interacted_keys : List String
interacted_keys = "document:a" ∷ []

previous-Distinct : Distinct previous
unfolding contains
previous-Distinct = (refl, (refl, (refl, tt)))

next_order_sorted_example :
    Distinct (next_order previous next_selection interacted_keys)
    × ((k : String)
        → contains k (next_order previous next_selection interacted_keys)
          ≡ contains k next_selection)
    × ((new : List String) × (next_order previous next_selection interacted_keys
          ≡ (untouched previous next_selection interacted_keys
              ++ touched next_selection interacted_keys)
            ++ new)
        × ((k : String)
            → contains k new ≡ true
            → (contains k previous || contains k interacted_keys) ≡ false))
next_order_sorted_example =
    next_order_sorted previous next_selection interacted_keys previous-Distinct

update_selection_order-shown_example :
    (update_selection_order next_selection interacted_keys
      (record { current = previous; shown = previous })).shown
    ≡ (update_selection_order next_selection interacted_keys
        (record { current = previous; shown = previous })).current
update_selection_order-shown_example =
    update_selection_order-shown next_selection interacted_keys
      (record { current = previous; shown = previous }) refl

-- Three visible entries, of which one is selected.
abbrev begun : Selection
begun = record {
  visible = previous;
  navigable = previous;
  selected = "document:a" ∷ [];
  order = record { current = "document:a" ∷ []; shown = "document:a" ∷ [] };
  anchor = some "document:a";
  focused_document = some "a";
  focused_entry = none;
}

begun-IsInOrder : IsInOrder begun
unfolding contains
begun-IsInOrder = record {
  distinct = (refl, tt);
  visible = λ k h. ground arith;
  anchored = refl;
  ordered = (refl, tt);
  same = λ k. refl;
  shown = refl;
}

-- A click with shift on the third.
handle_entry_selection-IsInOrder_example :
    IsInOrder (handle_entry_selection ("document:c" ∷ []) true false begun)
handle_entry_selection-IsInOrder_example =
    handle_entry_selection-IsInOrder ("document:c" ∷ []) true false begun begun-IsInOrder

shift_click : (handle_entry_selection ("document:c" ∷ []) true false begun).selected ≡ previous
unfolding handle_entry_selection contains index_of pick
shift_click = refl
