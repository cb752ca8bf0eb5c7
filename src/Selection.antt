-- ===== src/Selection.antt =====
-- The order of the selected entries, `updateSelectionOrder` of
-- frontend/src/app/useDocumentSelection.ts: the selected keys, those last touched at the end.
pub mod Order
pub mod Apply
pub mod Navigation
mod Tests
use papercrate.Base.{
  String, Bool, true, false, List, [], ◌∷◌, ◌++◌, ◌==◌, ◌&&◌, not, if◌then◌else◌, filter, contains,
  unique,
}

-- `selectionOrderRef`, and the state `selectionOrder` that is shown
pub record SelectionOrder : Type 0 where
  pub current : List String
  pub shown : List String

-- the loop over the touched keys
unfoldable pub push_selected : List String → List String → List String → List String
push_selected next result [] = result
push_selected next result (id ∷ ids) =
    push_selected next
      (if contains id next && not (contains id result) then result ++ id ∷ [] else result) ids

-- `result` of `updateSelectionOrder`; a filter by first index and a loop of pushes are both `unique`
unfoldable pub next_order : List String → List String → List String → List String
unfolding push_selected
next_order previous next_selection interacted_keys =
    let previous_order = filter (λ id. contains id next_selection) previous in
    let interacted = unique [] interacted_keys in
    let base = filter (λ id. not (contains id interacted)) previous_order in
    unique (push_selected next_selection base interacted) next_selection

-- `result.length !== order.length || result.some((id, i) => order[i] !== id)`, denied
unfoldable pub same_keys : List String → List String → Bool
same_keys [] [] = true
same_keys (a ∷ keys) (b ∷ bs) = a == b && same_keys keys bs
same_keys _ _ = false

unfoldable pub update_selection_order : List String → List String → SelectionOrder → SelectionOrder
unfolding next_order same_keys
update_selection_order next_selection interacted_keys s =
    let result = next_order s.current next_selection interacted_keys in
    record { current = result; shown = if same_keys result s.current then s.shown else result }
