-- ===== src/Desktop/Stacking/Reached.antt =====
-- The order of the cards in every run: what is loaded and saved keeps the cards below the counter.
use papercrate.Base.{
  Bool-cases, List, Option-cases, [], arith, inl, inr, refl, some, true, false, ◌∷◌, ◌<◌, ◌≤◌, ℕ,
  suc,
}
use papercrate.Dict.{Dict, lookup}
use papercrate.Dict.Every.{erase-Every, insert-Every, lookup-Every}
use papercrate.Desktop.Numbers.{Numbers}
use papercrate.Desktop.Cards.{Card, Changes, no_changes, update}
use papercrate.Desktop.Records.{LayoutRecord}
use papercrate.Desktop.Store.{LayoutStore, Saved, clear, new, set_container_size, unregister}
use papercrate.Desktop.Store.Laws.{modify-Every}
use papercrate.Desktop.Store.Front.{cards_of, sort_by_z, bring_card_to_front, bring_to_front}
use papercrate.Desktop.Layout.{
  apply_saved, is_complete, load_answered, load_record, load_records, load_requested, mark_clean,
  save_finished, saved_of, next_max,
}
use papercrate.Desktop.Runs.{
  Event, initialized, unregistered, cleared, relaid, resized, fronted, card_fronted, moved, turned,
  load_sent, load_done, save_done, move_card, run, step, turn_card,
}
use papercrate.Desktop.Stacking.{
  CardsBelow, IsStacked, SavedBelow, higher, higher_saved, initialize-IsStacked, keeps_below,
  modify-IsStacked, new-IsStacked, raise-IsStacked, relayout-IsStacked, update-z,
}

module _ (n : Numbers) where
  open n use {Num}

  load_record-IsStacked :
      (r : LayoutRecord Num) (s : LayoutStore Num) → IsStacked n s → IsStacked n (load_record n r s)
  unfolding load_record saved_of next_max
  load_record-IsStacked r s k = elim (Bool-cases (is_complete n r)) [
    | inr skipped ↦ rw skipped k
    | inl complete ↦
        let bound : ℕ = next_max n r s.z_counter in
        let le : s.z_counter ≤ bound = ground arith in
        rw complete (record {
          cards = higher n s.z_counter bound s.items le k.cards;
          saved =
              insert-Every (λ l. l.z < bound) r.document_id (saved_of n r) s.saved_layouts
                (higher_saved n s.z_counter bound s.saved_layouts le k.saved)
                (ground (arith, k.positive));
          positive = ground (arith, k.positive);
        })
  ]

  load_records-IsStacked :
      (records : List (LayoutRecord Num)) (s : LayoutStore Num)
      → IsStacked n s
      → IsStacked n (load_records n records s)
  unfolding load_records
  load_records-IsStacked [] s k = k
  load_records-IsStacked (r ∷ records) s k =
      load_records-IsStacked records (load_record n r s) (load_record-IsStacked r s k)

  apply_saved-CardsBelow :
      (bound : ℕ) (layouts : Dict (Saved Num)) (items : Dict (Card Num))
      → SavedBelow n bound layouts
      → CardsBelow n bound items
      → CardsBelow n bound (apply_saved n layouts items)
  unfolding apply_saved
  apply_saved-CardsBelow bound layouts [] h k = tt
  apply_saved-CardsBelow bound layouts ((id, c) ∷ items) h k =
      elim (Option-cases (lookup id layouts)) [
        | inl missing ↦
            rw (missing, apply_saved) (k.0, apply_saved-CardsBelow bound layouts items h k.1)
        | inr (l, found) ↦
            let ch : Changes Num = record no_changes {
              x = some l.x;
              y = some l.y;
              rotation = some l.rotation;
              z = some l.z;
            } in
            let below : l.z < bound = lookup-Every (λ l. l.z < bound) id layouts l h found in
            rw (found, apply_saved)
              (
                ground (arith, update-z n ch false false c),
                apply_saved-CardsBelow bound layouts items h k.1,
              )
      ]

  load_answered-IsStacked :
      (records : List (LayoutRecord Num)) (s : LayoutStore Num)
      → IsStacked n s
      → IsStacked n (load_answered n records s)
  unfolding load_answered
  load_answered-IsStacked records s k =
      let start : IsStacked n (record s { saved_layouts = [] }) = record {
        cards = k.cards;
        saved = tt;
        positive = k.positive;
      } in
      let loaded : LayoutStore Num = load_records n records (record s { saved_layouts = [] }) in
      let l : IsStacked n loaded =
        load_records-IsStacked records (record s { saved_layouts = [] }) start in
      relayout-IsStacked n _ (record {
        cards =
            apply_saved-CardsBelow loaded.z_counter loaded.saved_layouts loaded.items l.saved
              l.cards;
        saved = l.saved;
        positive = l.positive;
      })

  mark_clean-CardsBelow :
      (bound : ℕ) (cards : List ℕ) (items : Dict (Card Num))
      → CardsBelow n bound items
      → CardsBelow n bound (mark_clean n cards items)
  unfolding mark_clean
  mark_clean-CardsBelow bound cards [] k = tt
  mark_clean-CardsBelow bound cards ((id, c) ∷ items) k =
      (ground (arith, k.0), mark_clean-CardsBelow bound cards items k.1)

  pub step-IsStacked :
      (e : Event Num) (s : LayoutStore Num) → IsStacked n s → IsStacked n (step n e s)
  unfolding step unregister clear set_container_size bring_to_front bring_card_to_front move_card
      turn_card load_requested save_finished
  step-IsStacked (initialized random id config) s k = initialize-IsStacked n _ id config s k
  step-IsStacked (unregistered id) s k = record {
    cards = erase-Every (λ c. c.z < s.z_counter) id s.items k.cards;
    saved = k.saved;
    positive = k.positive;
  }
  step-IsStacked cleared s k = record { cards = tt; saved = tt; positive = omega arith }
  step-IsStacked relaid s k = relayout-IsStacked n s k
  step-IsStacked (resized w h) s k =
      relayout-IsStacked n _ (record { cards = k.cards; saved = k.saved; positive = k.positive })
  step-IsStacked (fronted ids) s k = raise-IsStacked n (sort_by_z n (cards_of n s.items ids)) s k
  step-IsStacked (card_fronted id) s k = record {
    cards =
        modify-Every (λ c. c.z < suc s.z_counter) id _ s.items (λ c p. omega arith)
          (higher n s.z_counter (suc s.z_counter) s.items (omega arith) k.cards);
    saved = higher_saved n s.z_counter (suc s.z_counter) s.saved_layouts (omega arith) k.saved;
    positive = omega arith;
  }
  step-IsStacked (moved id x y) s k =
      let ch : Changes Num = record no_changes { x = some x; y = some y } in
      modify-IsStacked n id (update n ch true false) s
        (λ c p. keeps_below n ch true false s.z_counter c refl p) k
  step-IsStacked (turned id rotation) s k =
      let ch : Changes Num = record no_changes { rotation = some rotation } in
      modify-IsStacked n id (update n ch true false) s
        (λ c p. keeps_below n ch true false s.z_counter c refl p) k
  step-IsStacked (load_sent tenant view) s k = record {
    cards = k.cards;
    saved = k.saved;
    positive = k.positive;
  }
  step-IsStacked (load_done records) s k = load_answered-IsStacked records s k
  step-IsStacked (save_done cards) s k = record {
    cards = mark_clean-CardsBelow s.z_counter cards s.items k.cards;
    saved = k.saved;
    positive = k.positive;
  }

  pub run-IsStacked :
      (es : List (Event Num)) (s : LayoutStore Num) → IsStacked n s → IsStacked n (run n es s)
  unfolding run
  run-IsStacked [] s k = k
  run-IsStacked (e ∷ es) s k = run-IsStacked es (step n e s) (step-IsStacked e s k)

  -- In every run from a new store every card and every saved layout is below the counter.
  pub desktop-IsStacked : (es : List (Event Num)) → IsStacked n (run n es (new n))
  desktop-IsStacked es = run-IsStacked es (new n) (new-IsStacked n)
