-- ===== src/Desktop/Kept.antt =====
-- What every card of every run keeps: the map has it under its own identifier and once, and its
-- radii and its centre are those of its size and its position.
pub mod Reached
use papercrate.Base.{
  All, Bool, Bool-cases, List, Option-cases, String, [], arith, if◌then◌else◌, inl, inr, none, refl,
  some, true, false, ◌∷◌, ◌≡◌, ◌<◌, ◌≤◌, ℕ, suc, is_some, leb, ◌||◌, not, ap, sym, ◌==◌, Distinct,
}
use papercrate.Dict.{Dict, IsMap, erase, insert, keys, lookup, values}
use papercrate.Dict.Laws.{erase-IsMap, insert-IsMap}
use papercrate.Dict.Every.{EveryAt, erase-EveryAt, insert-EveryAt}
use papercrate.Desktop.Numbers.{Numbers}
use papercrate.Desktop.Cards.{
  Card, CardData, Changes, assign, new_card, no_changes, note_intended, recalculate_centers,
  recalculate_radii, refresh, update,
}
use papercrate.Desktop.Geometry.{get_constrained_position}
use papercrate.Desktop.Records.{LayoutRecord}
use papercrate.Desktop.Store.{
  Config, LayoutStore, Position, Saved, clear, constrain, initialize, initialize_again,
  initialize_new, initialize_saved, is_settled, map_cards, modify, new, relayout,
  set_container_size, temporary_card, unregister,
}
use papercrate.Desktop.Store.Laws.{keys-map_cards, keys-modify, map_cards-EveryAt, modify-EveryAt}
use papercrate.Desktop.Store.Front.{
  cards_of, sort_by_z, bring_card_to_front, bring_to_front, raise, raise_to,
}
use papercrate.Desktop.Layout.{
  apply_saved, is_complete, load_answered, load_records, load_requested, mark_clean, next_max,
  save_finished, saved_of,
}
use papercrate.Desktop.Runs.{
  Event, card_fronted, cleared, fronted, initialized, load_done, load_sent, move_card, moved,
  relaid, resized, run, save_done, step, turn_card, turned, unregistered,
}

module _ (n : Numbers) where
  open n use {Num, of, add, mul, div, sqrt, min}

  pub record IsFresh (key : String) (c : Card Num) : Type 0 where
    pub own : c.id ≡ key
    pub inner : c.inner_radius ≡ div (min c.width c.height) (of 2)
    pub outer :
        c.outer_radius ≡ div (sqrt (add (mul c.width c.width) (mul c.height c.height))) (of 2)
    pub center_x : c.center_x ≡ add c.x (div c.width (of 2))
    pub center_y : c.center_y ≡ add c.y (div c.height (of 2))

  pub record IsKept (items : Dict (Card Num)) : Type 0 where
    pub fresh : EveryAt IsFresh items
    pub single : IsMap items

  new_card-IsFresh : (id : String) (made : ℕ) (d : CardData Num) → IsFresh id (new_card n id made d)
  unfolding new_card recalculate_radii recalculate_centers
  new_card-IsFresh id made d = record {
    own = refl;
    inner = refl;
    outer = refl;
    center_x = refl;
    center_y = refl;
  }

  pub update-IsFresh :
      (ch : Changes Num) (dirty constraint : Bool) (key : String) (c : Card Num)
      → IsFresh key c
      → IsFresh key (update n ch dirty constraint c)
  unfolding update assign refresh note_intended recalculate_radii recalculate_centers
  update-IsFresh ch dirty constraint key c f = record {
    own = ground (arith, f.own);
    inner = ground (arith, f.inner);
    outer = ground (arith, f.outer);
    center_x = ground (arith, f.center_x);
    center_y = ground (arith, f.center_y);
  }

  pub insert-IsKept :
      (id : String) (c : Card Num) (items : Dict (Card Num))
      → IsKept items
      → IsFresh id c
      → IsKept (insert id c items)
  insert-IsKept id c items k f = record {
    fresh = insert-EveryAt IsFresh id c items k.fresh f;
    single = insert-IsMap id c items k.single;
  }

  pub modify-IsKept :
      (id : String) (f : Card Num → Card Num) (items : Dict (Card Num))
      → ((key : String) (c : Card Num) → IsFresh key c → IsFresh key (f c))
      → IsKept items
      → IsKept (modify id f items)
  modify-IsKept id f items keep k = record {
    fresh = modify-EveryAt IsFresh id f items keep k.fresh;
    single = rw (keys-modify id f items) k.single;
  }

  pub map_cards-IsKept :
      (f : Card Num → Card Num) (items : Dict (Card Num))
      → ((key : String) (c : Card Num) → IsFresh key c → IsFresh key (f c))
      → IsKept items
      → IsKept (map_cards n f items)
  map_cards-IsKept f items keep k = record {
    fresh = map_cards-EveryAt n IsFresh f items keep k.fresh;
    single = rw (keys-map_cards n f items) k.single;
  }

  pub constrain-IsFresh :
      (w h : Num) (key : String) (c : Card Num) → IsFresh key c → IsFresh key (constrain n w h c)
  unfolding constrain
  constrain-IsFresh w h key c f = elim (Bool-cases (is_settled n w h c)) [
    | inl stays ↦ rw stays f
    | inr moves ↦
        let p = get_constrained_position n w h c c.intended_x c.intended_y in
        let ch : Changes Num = record no_changes { x = some p.x; y = some p.y } in
        rw moves (update-IsFresh ch false true key c f)
  ]

  initialize_again-IsKept :
      (id : String) (w h : Num) (pages : ℕ) (s : LayoutStore Num)
      → IsKept s.items
      → IsKept (initialize_again n id w h pages s).items
  unfolding initialize_again
  initialize_again-IsKept id w h pages s k =
      let ch : Changes Num = record no_changes {
        width = some w;
        height = some h;
        page_count = some pages;
      } in
      modify-IsKept id (update n ch false false) s.items (update-IsFresh ch false false) k

  initialize_new-IsKept :
      (place : Num → Num → Card Num → List (Card Num) → Position Num) (id : String) (w h : Num)
      (pages : ℕ) (s : LayoutStore Num)
      → IsKept s.items
      → IsKept (initialize_new n place id w h pages s).items
  unfolding initialize_new temporary_card
  initialize_new-IsKept place id w h pages s k =
      let card = temporary_card n id w h pages s in
      let p = place s.container_width s.container_height card (values s.items) in
      let ch : Changes Num = record no_changes {
        x = some p.x;
        y = some p.y;
        rotation = some p.rotation;
      } in
      insert-IsKept id (update n ch true false card) s.items k
        (update-IsFresh ch true false id card (new_card-IsFresh id _ _))

  pub initialize-IsKept :
      (place : Num → Num → Card Num → List (Card Num) → Position Num) (id : String)
      (config : Config Num) (s : LayoutStore Num)
      → IsKept s.items
      → IsKept (initialize n place id config s).items
  unfolding initialize initialize_saved
  initialize-IsKept place id config s k = elim (Option-cases (lookup id s.items)) [
    | inr (card, found) ↦ rw (found, initialize) (initialize_again-IsKept id _ _ _ s k)
    | inl missing ↦
        rw (missing, initialize)
          (elim (Option-cases (lookup id s.saved_layouts)) [
            | inr (l, found) ↦ rw found (insert-IsKept id _ s.items k (new_card-IsFresh id _ _))
            | inl missing' ↦ rw missing' (initialize_new-IsKept place id _ _ _ s k)
          ])
  ]

  pub raise-IsKept :
      (cards : List (String × Card Num)) (s : LayoutStore Num)
      → IsKept s.items
      → IsKept (raise n cards s).items
  unfolding raise raise_to
  raise-IsKept [] s k = k
  raise-IsKept ((id, c) ∷ cards) s k =
      let ch : Changes Num = record no_changes { z = some s.z_counter } in
      raise-IsKept cards _
        (modify-IsKept id (update n ch true false) s.items (update-IsFresh ch true false) k)
