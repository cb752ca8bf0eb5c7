-- ===== src/Desktop/Saving/Flags.antt =====
-- The marks of changed cards around a save (`saveLayout`,
-- frontend/src/desktop/logic/LayoutSystem.ts, and `upsertLayoutRecords`, logic/db.ts).
use papercrate.Api.{ok}
use papercrate.Base.{
  Bool, Bool-cases, List, String, [], any, ap, arith, eq_refl, false, filter, if◌then◌else◌, inl,
  inr, map, nat_eq, none, refl, some, true, ◌==◌, ◌∷◌, ◌≡◌, ◌∙◌, ℕ,
}
use papercrate.Dict.{Dict, lookup, values}
use papercrate.Desktop.Numbers.{Numbers}
use papercrate.Desktop.Cards.{
  Card, Changes, assign, no_changes, note_intended, recalculate_centers, refresh, update,
}
use papercrate.Desktop.Records.{Database, upsert_layout_records}
use papercrate.Desktop.Store.{LayoutStore, modify}
use papercrate.Desktop.Store.Laws.{lookup-modify}
use papercrate.Desktop.Layout.{
  SaveRequest, dirty_cards, mark_clean, save_answered, save_finished, save_layout, save_requested,
}
use papercrate.Desktop.Runs.{move_card}

module _ (n : Numbers) where
  open n use {Num}

  abbrev made_of : List (Card Num) → List ℕ
  made_of cards = map (λ c. c.made) cards

  -- A list of card objects holds all of the others' numbers.
  abbrev Holds : List ℕ → List (Card Num) → Type 0
  Holds made [] = Unit
  Holds made (c ∷ cards) = (any (nat_eq c.made) made ≡ true) × Holds made cards

  Holds-cons :
      (m : ℕ) (made : List ℕ) (cards : List (Card Num)) → Holds made cards → Holds (m ∷ made) cards
  Holds-cons m made [] h = tt
  Holds-cons m made (c ∷ cards) h = (ground arith, Holds-cons m made cards h.1)

  Holds-made_of : (cards : List (Card Num)) → Holds (made_of cards) cards
  Holds-made_of [] = tt
  Holds-made_of (c ∷ cards) =
      (ground arith, Holds-cons c.made (made_of cards) cards (Holds-made_of cards))

  -- Once every changed card is marked, none is left to save.
  none_dirty :
      (made : List ℕ) (items : Dict (Card Num))
      → Holds made (filter (λ c. c.is_dirty) (values items))
      → filter (λ (c : Card Num). c.is_dirty) (values (mark_clean n made items)) ≡ []
  unfolding mark_clean values
  none_dirty made [] h = refl
  none_dirty made ((id, c) ∷ items) h = elim (Bool-cases c.is_dirty) [
    | inl dirty ↦
        let holds : Holds made (c ∷ filter (λ c. c.is_dirty) (values items)) = rw dirty at h in
        rw holds.0 (none_dirty made items holds.1)
    | inr clean ↦
        let rest : Holds made (filter (λ c. c.is_dirty) (values items)) = rw clean at h in
        let still : (if any (nat_eq c.made) made then record c { is_dirty = false } else c).is_dirty
            ≡ false =
          ground arith in
        rw still (none_dirty made items rest)
  ]

  lookup-mark_clean :
      (made : List ℕ) (id : String) (c : Card Num) (items : Dict (Card Num))
      → lookup id items ≡ some c
      → any (nat_eq c.made) made ≡ true
      → lookup id (mark_clean n made items) ≡ some (record c { is_dirty = false })
  unfolding mark_clean lookup
  lookup-mark_clean made id c [] found h = cc
  lookup-mark_clean made id c ((key, d) ∷ items) found h = elim (Bool-cases (key == id)) [
    | inl same ↦
        let this : d ≡ c = ground arith in
        let held : any (nat_eq d.made) made ≡ true = rw this h in rw (same, held) (rw this refl)
    | inr other ↦ rw other (lookup-mark_clean made id c items (ground arith) h)
  ]

  any-made_of :
      (id : String) (c : Card Num) (items : Dict (Card Num))
      → lookup id items ≡ some c
      → c.is_dirty ≡ true
      → any (nat_eq c.made) (made_of (filter (λ c. c.is_dirty) (values items))) ≡ true
  unfolding lookup values
  any-made_of id c [] found dirty = cc
  any-made_of id c ((key, d) ∷ items) found dirty = elim (Bool-cases (key == id)) [
    | inl same ↦
        let this : d ≡ c = ground arith in
        let is_dirty : d.is_dirty ≡ true = rw this dirty in rw is_dirty (rw this (ground arith))
    | inr other ↦
        let rest = any-made_of id c items (ground arith) dirty in
        elim (Bool-cases d.is_dirty) [
          | inl is_dirty ↦ rw is_dirty (ground arith)
          | inr is_clean ↦ rw is_clean rest
        ]
  ]

  moved_card :
      (x y : Num) (c : Card Num)
      → ((update n (record no_changes { x = some x; y = some y }) true false c).made ≡ c.made)
        × ((update n (record no_changes { x = some x; y = some y }) true false c).intended_x ≡ x)
        × ((update n (record no_changes { x = some x; y = some y }) true false c).intended_y ≡ y)
  unfolding update assign note_intended refresh recalculate_centers
  moved_card x y c = (refl, refl, refl)

  save_requested-cards :
      (now : ℕ) (s : LayoutStore Num) (req : SaveRequest Num)
      → save_requested n now s ≡ some req
      → req.cards ≡ made_of (dirty_cards n s)
  unfolding save_requested
  save_requested-cards now s req sent = ground arith

  -- `upsertLayoutRecords` never rejects, and a transaction that fails changes nothing.
  upsert_comes_back :
      (db : Database Num) (succeeds : Bool) (ts : ℕ) (req : SaveRequest Num) (st : db.State)
      → ((upsert_layout_records Num db succeeds ts req.tenant req.view req.entries st).1 ≡ ok tt)
        × (succeeds ≡ false
            → (upsert_layout_records Num db succeeds ts req.tenant req.view req.entries st).0 ≡ st)
  unfolding upsert_layout_records
  upsert_comes_back db succeeds ts req st = ground arith

  -- A save that is sent ends with the cards it took marked, however its transaction ends.
  save_layout-finished :
      (db : Database Num) (succeeds : Bool) (now ts : ℕ) (s : LayoutStore Num)
      (req : SaveRequest Num) (st : db.State)
      → save_requested n now s ≡ some req
      → save_layout n db succeeds now ts s st ≡ (
        save_finished n req.cards s,
        (upsert_layout_records Num db succeeds ts req.tenant req.view req.entries st).0,
      )
  unfolding save_layout save_answered
  save_layout-finished db succeeds now ts s req st sent =
      rw (sent, save_layout) (rw (upsert_comes_back db succeeds ts req st).0 refl)

  -- Where there is something to save, a save whose transaction fails, with no other operation while
  -- it waits, leaves the database as it was; and yet it leaves the store as a save that succeeds
  -- does, and a further save has nothing to send.
  pub failed_save_is_forgotten :
      (db : Database Num) (now later ts : ℕ) (s : LayoutStore Num) (req : SaveRequest Num)
      (st : db.State)
      → save_requested n now s ≡ some req
      → ((save_layout n db false now ts s st).1 ≡ st)
        × ((save_layout n db false now ts s st).0 ≡ (save_layout n db true now ts s st).0)
        × (save_requested n later (save_layout n db false now ts s st).0 ≡ none)
  failed_save_is_forgotten db now later ts s req st sent =
      let e : req.cards ≡ made_of (dirty_cards n s) = save_requested-cards now s req sent in
      let clean : filter (λ (c : Card Num). c.is_dirty) (values (mark_clean n req.cards s.items))
          ≡ [] =
        rw e (unfold dirty_cards in none_dirty _ s.items (Holds-made_of _)) in
      let failing = save_layout-finished db false now ts s req st sent in
      (
        ap (λ r. r.1) failing ∙ (upsert_comes_back db false ts req st).1 refl,
        rw (failing, save_layout-finished db true now ts s req st sent) refl,
        rw failing (unfold save_requested save_finished in rw clean (ground arith)),
      )

  -- A card that had been changed when a save was requested, and is moved while the save is in flight,
  -- is marked as unchanged when the save ends, with its new position.
  pub move_in_flight_is_forgotten :
      (now : ℕ) (s : LayoutStore Num) (req : SaveRequest Num) (id : String) (c : Card Num)
      (x y : Num)
      → save_requested n now s ≡ some req
      → lookup id s.items ≡ some c
      → c.is_dirty ≡ true
      → (c' : Card Num) × (lookup id (save_finished n req.cards (move_card n id x y s)).items
          ≡ some c')
        × (c'.is_dirty ≡ false)
        × (c'.intended_x ≡ x)
        × (c'.intended_y ≡ y)
  unfolding save_finished move_card
  move_in_flight_is_forgotten now s req id c x y sent found dirty =
      let ch : Changes Num = record no_changes { x = some x; y = some y } in
      let c' : Card Num = update n ch true false c in
      let (made, at_x, at_y) = moved_card x y c in
      let same : (id == id) ≡ true = eq_refl id in
      let held : any (nat_eq c'.made) req.cards ≡ true = rw made (
        rw (save_requested-cards now s req sent)
          (unfold dirty_cards in any-made_of id c s.items found dirty)) in
      let there : lookup id (modify id (update n ch true false) s.items) ≡ some c' =
        lookup-modify id id (update n ch true false) s.items ∙ rw (same, found) refl in
      (
        record c' { is_dirty = false },
        lookup-mark_clean req.cards id c' _ there held,
        refl,
        at_x,
        at_y,
      )
