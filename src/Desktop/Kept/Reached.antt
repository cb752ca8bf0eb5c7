-- ===== src/Desktop/Kept/Reached.antt =====
-- What every card keeps, through what is loaded and saved, in every run.
use papercrate.Base.{
  List, Option-cases, [], arith, inl, inr, refl, some, true, false, ◌∷◌, ◌≡◌, ℕ, ap, ◌∙◌,
}
use papercrate.Dict.{Dict, keys, lookup}
use papercrate.Dict.Laws.{erase-IsMap}
use papercrate.Dict.Every.{EveryAt, erase-EveryAt}
use papercrate.Desktop.Numbers.{Numbers}
use papercrate.Desktop.Cards.{Card, Changes, no_changes, update}
use papercrate.Desktop.Records.{LayoutRecord}
use papercrate.Desktop.Store.{
  LayoutStore, Saved, clear, constrain, new, relayout, set_container_size, unregister,
}
use papercrate.Desktop.Store.Front.{cards_of, sort_by_z, bring_card_to_front, bring_to_front}
use papercrate.Desktop.Layout.{
  apply_saved, load_answered, load_records, load_record, load_requested, mark_clean, save_finished,
}
use papercrate.Desktop.Runs.{
  Event, card_fronted, cleared, fronted, initialized, load_done, load_sent, move_card, moved,
  relaid, resized, run, save_done, step, turn_card, turned, unregistered,
}
use papercrate.Desktop.Kept.{
  IsFresh, IsKept, constrain-IsFresh, initialize-IsKept, map_cards-IsKept, modify-IsKept,
  raise-IsKept, update-IsFresh,
}

module _ (n : Numbers) where
  open n use {Num}

  apply_saved-EveryAt :
      (layouts : Dict (Saved Num)) (items : Dict (Card Num))
      → EveryAt (IsFresh n) items
      → EveryAt (IsFresh n) (apply_saved n layouts items)
  unfolding apply_saved
  apply_saved-EveryAt layouts [] k = tt
  apply_saved-EveryAt layouts ((id, c) ∷ items) k = elim (Option-cases (lookup id layouts)) [
    | inl missing ↦ rw (missing, apply_saved) (k.0, apply_saved-EveryAt layouts items k.1)
    | inr (l, found) ↦
        let ch : Changes Num = record no_changes {
          x = some l.x;
          y = some l.y;
          rotation = some l.rotation;
          z = some l.z;
        } in
        rw (found, apply_saved)
          (update-IsFresh n ch false false id c k.0, apply_saved-EveryAt layouts items k.1)
  ]

  keys-apply_saved :
      (layouts : Dict (Saved Num)) (items : Dict (Card Num))
      → keys (apply_saved n layouts items) ≡ keys items
  unfolding apply_saved keys
  keys-apply_saved layouts [] = refl
  keys-apply_saved layouts ((id, c) ∷ items) = elim (Option-cases (lookup id layouts)) [
    | inl missing ↦ rw (missing, apply_saved) (ap (λ ks. id ∷ ks) (keys-apply_saved layouts items))
    | inr (l, found) ↦ rw (found, apply_saved) (ap (λ ks. id ∷ ks) (keys-apply_saved layouts items))
  ]

  items-load_record :
      (r : LayoutRecord Num) (s : LayoutStore Num) → (load_record n r s).items ≡ s.items
  unfolding load_record
  items-load_record r s = ground arith

  pub items-load_records :
      (records : List (LayoutRecord Num)) (s : LayoutStore Num)
      → (load_records n records s).items ≡ s.items
  unfolding load_records
  items-load_records [] s = refl
  items-load_records (r ∷ records) s =
      items-load_records records (load_record n r s) ∙ items-load_record r s

  relayout-IsKept : (s : LayoutStore Num) → IsKept n s.items → IsKept n (relayout n s).items
  unfolding relayout
  relayout-IsKept s k =
      map_cards-IsKept n (constrain n s.container_width s.container_height) s.items
        (constrain-IsFresh n s.container_width s.container_height) k

  load_answered-IsKept :
      (records : List (LayoutRecord Num)) (s : LayoutStore Num)
      → IsKept n s.items
      → IsKept n (load_answered n records s).items
  unfolding load_answered
  load_answered-IsKept records s k =
      let start : LayoutStore Num = record s { saved_layouts = [] } in
      let loaded : LayoutStore Num = load_records n records start in
      let k' : IsKept n loaded.items = rw (items-load_records records start) k in
      relayout-IsKept (record loaded { items = apply_saved n loaded.saved_layouts loaded.items })
        (record {
          fresh = apply_saved-EveryAt loaded.saved_layouts loaded.items k'.fresh;
          single = rw (keys-apply_saved loaded.saved_layouts loaded.items) k'.single;
        })

  mark_clean-EveryAt :
      (cards : List ℕ) (items : Dict (Card Num))
      → EveryAt (IsFresh n) items
      → EveryAt (IsFresh n) (mark_clean n cards items)
  unfolding mark_clean
  mark_clean-EveryAt cards [] k = tt
  mark_clean-EveryAt cards ((id, c) ∷ items) k = (
    record {
      own = ground (arith, k.0.own);
      inner = ground (arith, k.0.inner);
      outer = ground (arith, k.0.outer);
      center_x = ground (arith, k.0.center_x);
      center_y = ground (arith, k.0.center_y);
    },
    mark_clean-EveryAt cards items k.1,
  )

  keys-mark_clean :
      (cards : List ℕ) (items : Dict (Card Num)) → keys (mark_clean n cards items) ≡ keys items
  unfolding mark_clean keys
  keys-mark_clean cards [] = refl
  keys-mark_clean cards ((id, c) ∷ items) = ap (λ ks. id ∷ ks) (keys-mark_clean cards items)

  step-IsKept :
      (e : Event Num) (s : LayoutStore Num) → IsKept n s.items → IsKept n (step n e s).items
  unfolding step unregister clear set_container_size bring_to_front bring_card_to_front move_card
      turn_card load_requested save_finished keys
  step-IsKept (initialized random id config) s k = initialize-IsKept n _ id config s k
  step-IsKept (unregistered id) s k = record {
    fresh = erase-EveryAt (IsFresh n) id s.items k.fresh;
    single = erase-IsMap id s.items k.single;
  }
  step-IsKept cleared s k = record { fresh = tt; single = tt }
  step-IsKept relaid s k = relayout-IsKept s k
  step-IsKept (resized w h) s k =
      relayout-IsKept (record s { container_width = w; container_height = h }) k
  step-IsKept (fronted ids) s k = raise-IsKept n (sort_by_z n (cards_of n s.items ids)) s k
  step-IsKept (card_fronted id) s k =
      modify-IsKept n id _ s.items
        (λ key c f. record {
          own = f.own;
          inner = f.inner;
          outer = f.outer;
          center_x = f.center_x;
          center_y = f.center_y;
        })
        k
  step-IsKept (moved id x y) s k =
      let ch : Changes Num = record no_changes { x = some x; y = some y } in
      modify-IsKept n id (update n ch true false) s.items (update-IsFresh n ch true false) k
  step-IsKept (turned id rotation) s k =
      let ch : Changes Num = record no_changes { rotation = some rotation } in
      modify-IsKept n id (update n ch true false) s.items (update-IsFresh n ch true false) k
  step-IsKept (load_sent tenant view) s k = k
  step-IsKept (load_done records) s k = load_answered-IsKept records s k
  step-IsKept (save_done cards) s k = record {
    fresh = mark_clean-EveryAt cards s.items k.fresh;
    single = rw (keys-mark_clean cards s.items) k.single;
  }

  run-IsKept :
      (es : List (Event Num)) (s : LayoutStore Num) → IsKept n s.items → IsKept n (run n es s).items
  unfolding run
  run-IsKept [] s k = k
  run-IsKept (e ∷ es) s k = run-IsKept es (step n e s) (step-IsKept e s k)

  -- In every run from a new store the map has each card once, under its own identifier, and the
  -- radii and the centre of each are those of its size and its position.
  pub desktop-IsKept : (es : List (Event Num)) → IsKept n (run n es (new n)).items
  unfolding new keys
  desktop-IsKept es = run-IsKept es (new n) (record { fresh = tt; single = tt })
