-- ===== src/Selection/Navigation/Tests.antt =====
-- A list of three rows, of which the second has the focus.
use papercrate.Base.{
  ◌+◌, ◌≡◌, refl, String, true, false, List, [], ◌∷◌, none, some, contains, unique, arith,
}
use papercrate.Selection.Apply.{Selection, pick, index_of, present, apply_selection}
use papercrate.Selection.Apply.Laws.{IsInOrder}
use papercrate.Selection.Navigation.{
  Row, folder, document, arrow_down, arrow_up, space, keys_of, row_at, handle_key_down, preview,
}
use papercrate.Selection.Navigation.Returning.{down_up_returns, stride}

abbrev rows : List Row
rows =
    record { key = "folder:a"; kind = folder; id = "a" }
    ∷ record { key = "document:b"; kind = document; id = "b" }
    ∷ record { key = "document:c"; kind = document; id = "c" }
    ∷ []

abbrev visible : List String
visible = "folder:a" ∷ "document:b" ∷ "document:c" ∷ []

abbrev begun : Selection
begun = record {
  visible = visible;
  navigable = visible;
  selected = "document:b" ∷ [];
  order = record { current = "document:b" ∷ []; shown = "document:b" ∷ [] };
  anchor = some "document:b";
  focused_document = some "b";
  focused_entry = some "document:b";
}

begun-IsInOrder : IsInOrder begun
unfolding contains
begun-IsInOrder = record {
  distinct = (refl, tt);
  visible = λ k h. ground arith;
  anchored = refl;
  ordered = (refl, tt);
  same = λ k. refl;
  shown = refl;
}

extended :
    (handle_key_down arrow_down true none rows begun).0.selected ≡ "document:b" ∷ "document:c" ∷ []
unfolding handle_key_down contains index_of apply_selection present unique pick
extended = refl

previewed : (handle_key_down space false none rows begun).1 ≡ some (preview "document:b")
unfolding handle_key_down contains index_of
previewed = refl

down_up_returns_example :
    (let s' = (handle_key_down arrow_down true none rows begun).0 in
      (below : Row) × (row_at (1 + stride none) rows ≡ some below)
      × (s'.focused_entry ≡ some below.key)
      × ((handle_key_down arrow_up false none rows s').0.focused_entry ≡ some "document:b"))
unfolding contains keys_of row_at
down_up_returns_example =
    down_up_returns true false none rows begun 1
      (record { key = "document:b"; kind = document; id = "b" }) (refl, (refl, (refl, tt))) refl
      refl refl (omega arith)
