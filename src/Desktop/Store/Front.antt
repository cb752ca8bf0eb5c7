-- ===== src/Desktop/Store/Front.antt =====
-- Which card lies over which: the two `bringToFront`, of the store and of a card, and
-- `getStackBelow` (frontend/src/desktop/logic/LayoutSystem.ts).
use papercrate.Base.{
  List, String, [], filter, if◌then◌else◌, map, none, not, some, true, false, leb, ltb, ◌&&◌, ◌==◌,
  ◌∷◌, ℕ, suc,
}
use papercrate.Dict.{Dict, lookup, values}
use papercrate.Desktop.Numbers.{Numbers}
use papercrate.Desktop.Cards.{Card, no_changes, update}
use papercrate.Desktop.Store.{LayoutStore, modify}

module _ (n : Numbers) where
  open n use {Num, of, add, sub, mul, div, lt}

  -- `ids.map((id) => items.get(id)).filter((c) => !!c)`, each card with its key
  unfoldable pub cards_of : Dict (Card Num) → List String → List (String × Card Num)
  cards_of items [] = []
  cards_of items (id ∷ ids) =
      let rest = cards_of items ids in
      elim (lookup id items) [ some c ↦ (id, c) ∷ rest | none ↦ rest ]

  -- `cards.sort((a, b) => a.z - b.z)`, which is stable
  unfoldable pub insert_by_z :
      String × Card Num → List (String × Card Num) → List (String × Card Num)
  insert_by_z (id, c) [] = (id, c) ∷ []
  insert_by_z (id, c) ((jd, d) ∷ rest) =
      if leb c.z d.z then (id, c) ∷ (jd, d) ∷ rest else (jd, d) ∷ insert_by_z (id, c) rest

  unfoldable pub sort_by_z : List (String × Card Num) → List (String × Card Num)
  unfolding insert_by_z
  sort_by_z [] = []
  sort_by_z (p ∷ ps) = insert_by_z p (sort_by_z ps)

  -- `card.update({ z: this.zCounter++ }, { markDirty: true })`
  unfoldable pub raise_to : ℕ → String → Dict (Card Num) → Dict (Card Num)
  unfolding modify update
  raise_to z id items = modify id (update n (record no_changes { z = some z }) true false) items

  -- the loop of `bringToFront`
  unfoldable pub raise : List (String × Card Num) → LayoutStore Num → LayoutStore Num
  unfolding raise_to
  raise [] s = s
  raise ((id, c) ∷ rest) s =
      raise rest (record s { items = raise_to s.z_counter id s.items; z_counter = suc s.z_counter })

  -- `bringToFront` of the store
  unfoldable pub bring_to_front : List String → LayoutStore Num → LayoutStore Num
  unfolding cards_of sort_by_z raise
  bring_to_front ids s = raise (sort_by_z (cards_of s.items ids)) s

  -- `bringToFront` of a card
  unfoldable pub bring_card_to_front : String → LayoutStore Num → LayoutStore Num
  unfolding modify
  bring_card_to_front id s = record s {
    items = modify id (λ c. record c { z = s.z_counter }) s.items;
    z_counter = suc s.z_counter;
  }

  -- `getCardsInCircle`
  unfoldable pub get_cards_in_circle : LayoutStore Num → Num → Num → Num → List (Card Num)
  get_cards_in_circle s x y radius =
      filter
        (λ c.
          let dx = sub (add c.x (div c.width (of 2))) x in
          let dy = sub (add c.y (div c.height (of 2))) y in
          lt (add (mul dx dx) (mul dy dy)) (mul radius radius))
        (values s.items)

  -- `getStackBelow`
  unfoldable pub get_stack_below : LayoutStore Num → Card Num → List String
  unfolding get_cards_in_circle
  get_stack_below s top =
      map (λ c. c.id)
        (filter (λ other. not (other.id == top.id) && ltb other.z top.z)
          (get_cards_in_circle s (add top.x (div top.width (of 2)))
            (add top.y (div top.height (of 2))) top.inner_radius))
