-- ===== src/Desktop/Visible.antt =====
-- A card on top is seen: `bringToFront` of a card, and of the store with one card, together with
-- `isUnobstructed` and `getVisibleFraction` (frontend/src/desktop/logic/LayoutSystem.ts).
use papercrate.Base.{
  List, String, [], any, ap, arith, eq_refl, sym, false, not, refl, some, true, ltb, ◌&&◌, ◌==◌,
  ◌∷◌, ◌≡◌, ℕ, suc, ◌∙◌,
}
use papercrate.Dict.{Dict, lookup, values}
use papercrate.Desktop.Numbers.{Numbers}
use papercrate.Desktop.Cards.{Card}
use papercrate.Desktop.Geometry.{is_unobstructed, visible_samples}
use papercrate.Desktop.Geometry.Laws.{is_unobstructed_top}
use papercrate.Desktop.Store.{LayoutStore, new}
use papercrate.Desktop.Store.Front.{
  bring_to_front, cards_of, insert_by_z, raise, raise_to, sort_by_z,
}
use papercrate.Desktop.Store.Order.{z_at-raise_to}
use papercrate.Desktop.Stacking.{CardsBelow, IsStacked}
use papercrate.Desktop.Stacking.Reached.{desktop-IsStacked, step-IsStacked}
use papercrate.Desktop.Runs.{Event, run, step, fronted}

module _ (n : Numbers) where
  open n use {Num}

  none_higher :
      (c : Card Num) (bound : ℕ) (items : Dict (Card Num))
      → CardsBelow n bound items
      → bound ≡ suc c.z
      → any (λ other. not (other.id == c.id) && ltb c.z other.z) (values items) ≡ false
  unfolding values
  none_higher c bound [] k e = refl
  none_higher c bound ((id, d) ∷ items) k e = ground (arith, none_higher c bound items k.1 e)

  top_seen :
      (c : Card Num) (s : LayoutStore Num)
      → IsStacked n s
      → s.z_counter ≡ suc c.z
      → (is_unobstructed n s.items c ≡ true) × (visible_samples n s.items c ≡ 16)
  top_seen c s k e = is_unobstructed_top n s.items c (none_higher c s.z_counter s.items k.cards e)

  cards_of_one :
      (id : String) (items : Dict (Card Num)) (c : Card Num)
      → lookup id items ≡ some c
      → sort_by_z n (cards_of n items (id ∷ [])) ≡ (id, c) ∷ []
  unfolding cards_of sort_by_z insert_by_z
  cards_of_one id items c found = rw (found, cards_of) refl

  bring_to_front_one :
      (id : String) (s : LayoutStore Num) (c : Card Num)
      → lookup id s.items ≡ some c
      → bring_to_front n (id ∷ []) s
        ≡ record s { items = raise_to n s.z_counter id s.items; z_counter = suc s.z_counter }
  unfolding bring_to_front raise
  bring_to_front_one id s c found = rw (cards_of_one id s.items c found) refl

  raised_z :
      (id : String) (z : ℕ) (items : Dict (Card Num)) (old c : Card Num)
      → lookup id items ≡ some old
      → lookup id (raise_to n z id items) ≡ some c
      → c.z ≡ z
  raised_z id z items old c before after = ground (arith, z_at-raise_to n id id z items, eq_refl id)

  -- In every run, a card that is brought to the front alone and is then in the map is obstructed by
  -- no other and visible at all of its sixteen sample points.
  pub bring_to_front_seen :
      (es : List (Event Num)) (id : String) (old c : Card Num)
      → lookup id (run n es (new n)).items ≡ some old
      → lookup id (bring_to_front n (id ∷ []) (run n es (new n))).items ≡ some c
      → (is_unobstructed n (bring_to_front n (id ∷ []) (run n es (new n))).items c ≡ true)
        × (visible_samples n (bring_to_front n (id ∷ []) (run n es (new n))).items c ≡ 16)
  unfolding step
  bring_to_front_seen es id old c before after =
      let s : LayoutStore Num = run n es (new n) in
      let s' : LayoutStore Num = bring_to_front n (id ∷ []) s in
      let stacked : IsStacked n s' =
        step-IsStacked n (fronted (id ∷ [])) s (desktop-IsStacked n es) in
      let one = bring_to_front_one id s old before in
      let top : s'.z_counter ≡ suc c.z =
        ap (λ (t : LayoutStore Num). t.z_counter) one
        ∙ ap suc (
            sym (
              raised_z id s.z_counter s.items old c before
                (ap (λ (t : LayoutStore Num). lookup id t.items) (sym one) ∙ after))) in
      top_seen c s' stacked top
