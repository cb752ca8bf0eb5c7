-- ===== src/Desktop/Sync.antt =====
-- The cards follow the documents of the view: the effect of
-- frontend/src/desktop/components/DesktopWorkspace.tsx that unregisters and initializes cards.
pub mod Laws
use papercrate.Base.{
  Bool, Bool-cases, List, Option, Option-cases, String, [], ap, arith, contains, eq_iff, eq_refl,
  false, filter, if◌then◌else◌, inl, inr, is_some, length, map, nat_eq, none, not, refl, some, sym,
  true, ◌&&◌, ◌++◌, ◌==◌, ◌||◌, ◌∷◌, ◌≡◌, ◌∙◌, ℕ, suc,
}
use papercrate.Dict.{Dict, erase, has, insert, keys, lookup}
use papercrate.Dict.Laws.{contains-keys-erase, contains-keys-insert, has-lookup}
use papercrate.Desktop.Numbers.{Numbers}
use papercrate.Desktop.Cards.{Card}
use papercrate.Desktop.Store.{
  Config, LayoutStore, Position, Saved, has_saved_layout, initialize, initialize_again,
  initialize_new, initialize_saved, relayout, unregister,
}
use papercrate.Desktop.Store.Laws.{keys-map_cards, keys-modify}
use papercrate.Desktop.Store.Placing.{get_initial_position}
use papercrate.Desktop.Layout.{SaveRequest, save_requested}

-- A document with the size and the page count that its card gets, and the random numbers that
-- placing it would draw; an identifier that is missing is the empty one.
pub record Sheet (A : Type 0) : Type 0 where
  pub id : String
  pub config : Config A
  pub random : ℕ → A

-- `items.map((doc, index) => doc.id ? String(doc.id) : `temp-${index}`)`; how the index is printed
-- is a parameter
unfoldable pub current_ids : {A : Type 0} → (ℕ → String) → ℕ → List (Sheet A) → List String
current_ids temp i [] = []
current_ids temp i (d ∷ ds) = (if d.id == "" then temp i else d.id) ∷ current_ids temp (suc i) ds

module _ (n : Numbers) where
  open n use {Num}

  -- `if (!currentIds.has(id)) layoutStore.unregister(id)`
  unfoldable pub visit : List String → String → LayoutStore Num → LayoutStore Num
  unfolding unregister
  visit current id s = if contains id current then s else unregister n id s

  -- the loop over the keys of the cards
  unfoldable pub unregister_stale : List String → List String → LayoutStore Num → LayoutStore Num
  unfolding visit
  unregister_stale current [] s = s
  unregister_stale current (id ∷ ids) s = unregister_stale current ids (visit current id s)

  unfoldable pub initialize_all : List (Sheet Num) → LayoutStore Num → LayoutStore Num
  unfolding initialize
  initialize_all [] s = s
  initialize_all (d ∷ ds) s =
      initialize_all ds (initialize n (get_initial_position n d.random) d.id d.config s)

  -- `doc.id && layoutStore.hasSavedLayout(String(doc.id))`
  unfoldable pub is_saved : LayoutStore Num → Sheet Num → Bool
  unfolding has_saved_layout
  is_saved s d = not (d.id == "") && has_saved_layout n d.id s

  -- the effect: the store after it, and what `saveLayout` sends if it is called
  unfoldable pub synchronize :
      (ℕ → String)
      → ℕ
      → List (Sheet Num)
      → LayoutStore Num
      → LayoutStore Num × Option (SaveRequest Num)
  unfolding unregister_stale initialize_all is_saved current_ids
  synchronize temp now docs s =
      let cleaned = unregister_stale (current_ids temp 0 docs) (keys s.items) s in
      let saved = filter (is_saved cleaned) docs in
      let others = filter (λ d. not (is_saved cleaned d)) docs in
      let placed = initialize_all others (initialize_all saved cleaned) in
      (relayout n placed, if nat_eq (length others) 0 then none else save_requested n now placed)
