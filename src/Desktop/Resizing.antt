-- ===== src/Desktop/Resizing.antt =====
-- `setContainerSize` and `relayout` of `LayoutStore` (frontend/src/desktop/logic/LayoutSystem.ts):
-- the positions depend on the intended ones and on the size of the container at the time.
use papercrate.Base.{
  Bool-cases, List, String, [], arith, inl, inr, refl, true, ◌∷◌, ◌≡◌, ap, sym, ◌∙◌,
}
use papercrate.Dict.{Dict}
use papercrate.Dict.Every.{EveryAt}
use papercrate.Desktop.Numbers.{IsExact, Numbers}
use papercrate.Desktop.Cards.{Card, assign, note_intended, recalculate_centers, refresh, update}
use papercrate.Desktop.Geometry.{
  get_constrained_position, least_x, least_y, most_x, most_y, rotated_height, rotated_width,
}
use papercrate.Desktop.Store.{
  LayoutStore, constrain, is_settled, map_cards, new, relayout, set_container_size,
}
use papercrate.Desktop.Kept.{IsFresh, constrain-IsFresh}
use papercrate.Desktop.Kept.Reached.{desktop-IsKept}
use papercrate.Desktop.Runs.{Event, run}

module _ (n : Numbers) where
  open n use {Num, of, add, div}

  -- the card at its constrained position
  settled : Num → Num → Card Num → Card Num
  settled w h c =
      let p = get_constrained_position n w h c c.intended_x c.intended_y in
      record c {
        x = p.x;
        y = p.y;
        center_x = add p.x (div c.width (of 2));
        center_y = add p.y (div c.height (of 2));
      }

  is_settled-eq :
      (laws : IsExact n) (w h : Num) (key : String) (c : Card Num)
      → IsFresh n key c
      → is_settled n w h c ≡ true
      → c ≡ settled w h c
  unfolding settled is_settled
  is_settled-eq laws w h key c f stays =
      let p = get_constrained_position n w h c c.intended_x c.intended_y in
      ground (arith, (laws.same_iff p.x c.x).0, (laws.same_iff p.y c.y).0, f.center_x, f.center_y)

  constrain-settled :
      (laws : IsExact n) (w h : Num) (key : String) (c : Card Num)
      → IsFresh n key c
      → constrain n w h c ≡ settled w h c
  unfolding constrain settled update assign note_intended refresh recalculate_centers
  constrain-settled laws w h key c f = elim (Bool-cases (is_settled n w h c)) [
    | inr moves ↦ rw moves refl
    | inl stays ↦ rw stays (is_settled-eq laws w h key c f stays)
  ]

  settled-settled : (w h w' h' : Num) (c : Card Num) → settled w h (settled w' h' c) ≡ settled w h c
  unfolding settled get_constrained_position least_x most_x least_y most_y rotated_width
      rotated_height
  settled-settled w h w' h' c = refl

  -- One card through two sizes of the container, and through the last alone.
  constrain-constrain :
      (laws : IsExact n) (w h w' h' : Num) (key : String) (c : Card Num)
      → IsFresh n key c
      → constrain n w h (constrain n w' h' c) ≡ constrain n w h c
  constrain-constrain laws w h w' h' key c f =
      constrain-settled laws w h key (constrain n w' h' c) (constrain-IsFresh n w' h' key c f)
      ∙ ap (settled w h) (constrain-settled laws w' h' key c f)
      ∙ settled-settled w h w' h' c
      ∙ sym (constrain-settled laws w h key c f)

  map_cards-constrain :
      (laws : IsExact n) (w h w' h' : Num) (items : Dict (Card Num))
      → EveryAt (IsFresh n) items
      → map_cards n (constrain n w h) (map_cards n (constrain n w' h') items)
        ≡ map_cards n (constrain n w h) items
  unfolding map_cards
  map_cards-constrain laws w h w' h' [] k = refl
  map_cards-constrain laws w h w' h' ((key, c) ∷ items) k = ground (
    arith,
    constrain-constrain laws w h w' h' key c k.0,
    map_cards-constrain laws w h w' h' items k.1,
  )

  -- In every run a change of the container's size undoes what the changes before it did to the
  -- cards: two changes leave the store that the second alone leaves.
  pub resize_twice :
      (laws : IsExact n) (es : List (Event Num)) (w h w' h' : Num)
      → set_container_size n w h (set_container_size n w' h' (run n es (new n)))
        ≡ set_container_size n w h (run n es (new n))
  unfolding set_container_size relayout
  resize_twice laws es w h w' h' =
      let s : LayoutStore Num = run n es (new n) in
      let cards = map_cards-constrain laws w h w' h' s.items (desktop-IsKept n es).fresh in
      ap
        (λ (items : Dict (Card Num)). record s {
          items = items;
          container_width = w;
          container_height = h;
        })
        cards
