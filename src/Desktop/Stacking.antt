-- ===== src/Desktop/Stacking.antt =====
-- No card and no saved layout has reached `zCounter`: what the operations on the cards keep.
pub mod Reached
use papercrate.Base.{
  All, Bool, Bool-cases, List, Option-cases, String, [], arith, if◌then◌else◌, inl, inr, none, refl,
  some, true, false, ◌∷◌, ◌≡◌, ◌<◌, ◌≤◌, ℕ, suc, is_some, leb, ◌||◌, not, ap, sym,
}
use papercrate.Dict.{Dict, erase, insert, lookup, values}
use papercrate.Dict.Every.{Every, Every-mono, erase-Every, insert-Every, lookup-Every}
use papercrate.Desktop.Numbers.{Numbers}
use papercrate.Desktop.Cards.{
  Card, CardData, Changes, assign, new_card, no_changes, note_intended, recalculate_centers,
  recalculate_radii, refresh, update,
}
use papercrate.Desktop.Geometry.{constrain_dimensions}
use papercrate.Desktop.Records.{LayoutRecord}
use papercrate.Desktop.Store.{
  Config, LayoutStore, Position, Saved, clear, constrain, initialize, initialize_again,
  initialize_new, initialize_saved, largest, map_cards, modify, new, relayout, set_container_size,
  temporary_card, unregister,
}
use papercrate.Desktop.Store.Laws.{map_cards-Every, modify-Every}
use papercrate.Desktop.Store.Front.{bring_card_to_front, bring_to_front, raise, raise_to}
use papercrate.Desktop.Layout.{
  apply_saved, is_complete, load_answered, load_records, load_requested, mark_clean, save_finished,
  saved_of, next_max,
}
use papercrate.Desktop.Runs.{
  Event, initialized, unregistered, cleared, relaid, resized, fronted, card_fronted, moved, turned,
  load_sent, load_done, save_done, move_card, run, step, turn_card,
}

module _ (n : Numbers) where
  open n use {Num}

  abbrev pub CardsBelow : ℕ → Dict (Card Num) → Type 0
  CardsBelow bound items = Every (λ c. c.z < bound) items

  abbrev pub SavedBelow : ℕ → Dict (Saved Num) → Type 0
  SavedBelow bound layouts = Every (λ l. l.z < bound) layouts

  -- Every card lies below the index that is given next, and so does every saved one.
  pub record IsStacked (s : LayoutStore Num) : Type 0 where
    pub cards : CardsBelow s.z_counter s.items
    pub saved : SavedBelow s.z_counter s.saved_layouts
    pub positive : 0 < s.z_counter

  -- An update sets the index if it has one, and else keeps it.
  pub update-z :
      (ch : Changes Num) (dirty constraint : Bool) (c : Card Num)
      → (update n ch dirty constraint c).z ≡ (assign n ch c).z
  unfolding update refresh note_intended recalculate_radii recalculate_centers
  update-z ch dirty constraint c = ground arith

  new_card-z : (id : String) (made : ℕ) (d : CardData Num) → (new_card n id made d).z ≡ d.z
  unfolding new_card recalculate_radii recalculate_centers
  new_card-z id made d = refl

  -- An update without an index keeps a card below any bound.
  pub keeps_below :
      (ch : Changes Num) (dirty constraint : Bool) (bound : ℕ) (c : Card Num)
      → ch.z ≡ none
      → c.z < bound
      → (update n ch dirty constraint c).z < bound
  unfolding assign
  keeps_below ch dirty constraint bound c e h = ground (arith, update-z ch dirty constraint c)

  pub higher : (a b : ℕ) (items : Dict (Card Num)) → a ≤ b → CardsBelow a items → CardsBelow b items
  higher a b items le h = Every-mono (λ c. c.z < a) (λ c. c.z < b) (λ c p. omega arith) items h

  pub higher_saved :
      (a b : ℕ) (layouts : Dict (Saved Num)) → a ≤ b → SavedBelow a layouts → SavedBelow b layouts
  higher_saved a b layouts le h =
      Every-mono (λ c. c.z < a) (λ c. c.z < b) (λ c p. omega arith) layouts h

  pub new-IsStacked : IsStacked (new n)
  unfolding new
  new-IsStacked = record { cards = tt; saved = tt; positive = omega arith }

  pub relayout-IsStacked : (s : LayoutStore Num) → IsStacked s → IsStacked (relayout n s)
  unfolding relayout constrain
  relayout-IsStacked s k = record {
    cards =
        map_cards-Every n (λ c. c.z < s.z_counter) _ s.items
          (λ c p. ground (arith, keeps_below _ false true s.z_counter c refl)) k.cards;
    saved = k.saved;
    positive = k.positive;
  }

  initialize_saved-IsStacked :
      (id : String) (w h : Num) (pages : ℕ) (l : Saved Num) (s : LayoutStore Num)
      → IsStacked s
      → IsStacked (initialize_saved n id w h pages l s)
  unfolding initialize_saved new_card recalculate_radii recalculate_centers
  initialize_saved-IsStacked id w h pages l s k =
      let bound : ℕ = if leb s.z_counter l.z then suc l.z else s.z_counter in
      let le : s.z_counter ≤ bound = ground arith in
      record {
        cards =
            insert-Every (λ c. c.z < bound) id _ s.items
              (higher s.z_counter bound s.items le k.cards) (ground arith);
        saved = higher_saved s.z_counter bound s.saved_layouts le k.saved;
        positive = ground (arith, k.positive);
      }

  temporary_card-z :
      (id : String) (w h : Num) (pages : ℕ) (s : LayoutStore Num)
      → (temporary_card n id w h pages s).z < suc s.z_counter
  unfolding temporary_card new_card recalculate_radii recalculate_centers
  temporary_card-z id w h pages s = omega arith

  initialize_new-IsStacked :
      (place : Num → Num → Card Num → List (Card Num) → Position Num) (id : String) (w h : Num)
      (pages : ℕ) (s : LayoutStore Num)
      → IsStacked s
      → IsStacked (initialize_new n place id w h pages s)
  unfolding initialize_new
  initialize_new-IsStacked place id w h pages s k =
      let card = temporary_card n id w h pages s in
      let p = place s.container_width s.container_height card (values s.items) in
      let ch : Changes Num = record no_changes {
        x = some p.x;
        y = some p.y;
        rotation = some p.rotation;
      } in
      record {
        cards =
            insert-Every (λ c. c.z < suc s.z_counter) id (update n ch true false card) s.items
              (higher s.z_counter (suc s.z_counter) s.items (omega arith) k.cards)
              (keeps_below ch true false (suc s.z_counter) card refl
                (temporary_card-z id w h pages s));
        saved = higher_saved s.z_counter (suc s.z_counter) s.saved_layouts (omega arith) k.saved;
        positive = omega arith;
      }

  -- A write to one card that keeps it below the counter.
  pub modify-IsStacked :
      (id : String) (f : Card Num → Card Num) (s : LayoutStore Num)
      → ((c : Card Num) → c.z < s.z_counter → (f c).z < s.z_counter)
      → IsStacked s
      → IsStacked (record s { items = modify id f s.items })
  modify-IsStacked id f s keep k = record {
    cards = modify-Every (λ c. c.z < s.z_counter) id f s.items keep k.cards;
    saved = k.saved;
    positive = k.positive;
  }

  initialize_again-IsStacked :
      (id : String) (w h : Num) (pages : ℕ) (s : LayoutStore Num)
      → IsStacked s
      → IsStacked (initialize_again n id w h pages s)
  unfolding initialize_again
  initialize_again-IsStacked id w h pages s k =
      let ch : Changes Num = record no_changes {
        width = some w;
        height = some h;
        page_count = some pages;
      } in
      modify-IsStacked id (update n ch false false) s
        (λ c p. keeps_below ch false false s.z_counter c refl p) k

  pub initialize-IsStacked :
      (place : Num → Num → Card Num → List (Card Num) → Position Num) (id : String)
      (config : Config Num) (s : LayoutStore Num)
      → IsStacked s
      → IsStacked (initialize n place id config s)
  unfolding initialize
  initialize-IsStacked place id config s k = elim (Option-cases (lookup id s.items)) [
    | inr (card, found) ↦ rw (found, initialize) (initialize_again-IsStacked id _ _ _ s k)
    | inl missing ↦
        rw (missing, initialize)
          (elim (Option-cases (lookup id s.saved_layouts)) [
            | inr (l, found) ↦ rw found (initialize_saved-IsStacked id _ _ _ l s k)
            | inl missing' ↦ rw missing' (initialize_new-IsStacked place id _ _ _ s k)
          ])
  ]

  -- One card takes the next index.
  raise_to-IsStacked :
      (id : String) (s : LayoutStore Num)
      → IsStacked s
      → IsStacked
          (record s { items = raise_to n s.z_counter id s.items; z_counter = suc s.z_counter })
  unfolding raise_to
  raise_to-IsStacked id s k = record {
    cards =
        modify-Every (λ c. c.z < suc s.z_counter) id _ s.items
          (λ c p.
            ground (arith, update-z (record no_changes { z = some s.z_counter }) true false c))
          (higher s.z_counter (suc s.z_counter) s.items (omega arith) k.cards);
    saved = higher_saved s.z_counter (suc s.z_counter) s.saved_layouts (omega arith) k.saved;
    positive = omega arith;
  }

  pub raise-IsStacked :
      (cards : List (String × Card Num)) (s : LayoutStore Num)
      → IsStacked s
      → IsStacked (raise n cards s)
  unfolding raise
  raise-IsStacked [] s k = k
  raise-IsStacked ((id, c) ∷ cards) s k = raise-IsStacked cards _ (raise_to-IsStacked id s k)
