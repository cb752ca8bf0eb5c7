-- ===== src/Desktop/Saving.antt =====
-- A layout that is saved and loaded again: `saveLayout` and `loadLayout` of `LayoutStore` together
-- with the records of the database (frontend/src/desktop/logic/LayoutSystem.ts and db.ts).
pub mod RoundTrip
pub mod Flags
use papercrate.Base.{
  Bool, Bool-cases, Distinct, List, Option, Option-cases, String, [], ap, any, arith, contains,
  eq_iff, eq_refl, false, filter, find?, if◌then◌else◌, inl, inr, is_some, length, list_cases, map,
  none, nat_eq, not, or_else, refl, some, sym, true, ◌&&◌, ◌==◌, ◌||◌, ◌∷◌, ◌≡◌, ◌∙◌, ℕ,
}
use papercrate.Dict.{Dict, IsMap, insert, keys, lookup, values}
use papercrate.Dict.Laws.{lookup-insert}
use papercrate.Dict.Every.{EveryAt}
use papercrate.Desktop.Numbers.{Numbers}
use papercrate.Desktop.Cards.{Card}
use papercrate.Desktop.Records.{
  Database, Entry, IsObjectStore, LayoutRecord, fetch_layout_records, of_document, put_all,
  record_of, upsert_layout_records,
}
use papercrate.Desktop.Records.Laws.{answered, documents_of, entry_for, of_document-put_all}
use papercrate.Desktop.Store.{
  Config, LayoutStore, Position, Saved, clear, initialize, map_cards, new, relayout,
}
use papercrate.Desktop.Layout.{
  SaveRequest, apply_saved, dirty_cards, entry_of, is_complete, load_answered, load_record,
  load_records, load_requested, save_requested, saved_of,
}
use papercrate.Desktop.Kept.{IsFresh, IsKept}
use papercrate.Desktop.Kept.Reached.{desktop-IsKept, items-load_records}
use papercrate.Desktop.Runs.{Event, run}

module _ (n : Numbers) where
  open n use {Num}

  abbrev pub entries_of : ℕ → Dict (Card Num) → List (Entry Num)
  entries_of now items = map (entry_of n now) (filter (λ c. c.is_dirty) (values items))

  -- The entries are of cards of the map, so each document has one at most.
  contains-entries_of :
      (now : ℕ) (id : String) (items : Dict (Card Num))
      → EveryAt (IsFresh n) items
      → contains id (keys items) ≡ false
      → contains id (documents_of (entries_of now items)) ≡ false
  unfolding contains keys values entry_of
  contains-entries_of now id [] k h = refl
  contains-entries_of now id ((key, c) ∷ items) k h =
      ground (arith, k.0.own, contains-entries_of now id items k.1)

  pub Distinct-entries_of :
      (now : ℕ) (items : Dict (Card Num))
      → EveryAt (IsFresh n) items
      → IsMap items
      → Distinct (documents_of (entries_of now items))
  unfolding keys values entry_of
  Distinct-entries_of now [] k d = tt
  Distinct-entries_of now ((key, c) ∷ items) k d = elim (Bool-cases c.is_dirty) [
    | inl dirty ↦
        let absent : contains c.id (documents_of (entries_of now items)) ≡ false =
          rw k.0.own (contains-entries_of now key items k.1 d.0) in
        rw dirty (absent, Distinct-entries_of now items k.1 d.1)
    | inr clean ↦ rw clean (Distinct-entries_of now items k.1 d.1)
  ]

  -- A card that is to be saved has its entry.
  pub entry_for-lookup :
      (now : ℕ) (id : String) (c : Card Num) (items : Dict (Card Num))
      → EveryAt (IsFresh n) items
      → IsMap items
      → lookup id items ≡ some c
      → c.is_dirty ≡ true
      → entry_for id (entries_of now items) ≡ some (entry_of n now c)
  unfolding lookup keys values entry_of
  entry_for-lookup now id c [] k d found dirty = cc
  entry_for-lookup now id c ((key, e) ∷ items) k d found dirty = elim (Bool-cases (key == id)) [
    | inl same ↦
        let this : e ≡ c = ground arith in
        let is_dirty : e.is_dirty ≡ true = rw this dirty in
        let at : (e.id == id) ≡ true = rw k.0.own same in rw (is_dirty, at) (rw this refl)
    | inr other ↦
        let rest : lookup id items ≡ some c = ground arith in
        let at : (e.id == id) ≡ false = rw k.0.own other in
        let tail = entry_for-lookup now id c items k.1 d.1 rest dirty in
        elim (Bool-cases e.is_dirty) [
          | inl is_dirty ↦ rw (is_dirty, at) tail
          | inr is_clean ↦ rw is_clean tail
        ]
  ]

  -- What the loop over the records leaves of a document.
  unfoldable pub kept_of : Option (LayoutRecord Num) → Option (Saved Num) → Option (Saved Num)
  kept_of none old = old
  kept_of (some r) old = if is_complete n r then some (saved_of n r) else old

  lookup-load_record :
      (id : String) (r : LayoutRecord Num) (s : LayoutStore Num)
      → lookup id (load_record n r s).saved_layouts ≡ (
          if r.document_id == id
          then kept_of (some r) (lookup id s.saved_layouts)
          else lookup id s.saved_layouts)
  unfolding load_record kept_of
  lookup-load_record id r s =
      ground (arith, lookup-insert r.document_id id (saved_of n r) s.saved_layouts)

  of_document_absent :
      (id : String) (rs : List (LayoutRecord Num))
      → contains id (map (λ r. r.document_id) rs) ≡ false
      → of_document id rs ≡ none
  unfolding contains
  of_document_absent id [] h = refl
  of_document_absent id (r ∷ rs) h = ground (arith, of_document_absent id rs)

  pub lookup-load_records :
      (id : String) (rs : List (LayoutRecord Num)) (s : LayoutStore Num)
      → Distinct (map (λ r. r.document_id) rs)
      → lookup id (load_records n rs s).saved_layouts
        ≡ kept_of (of_document id rs) (lookup id s.saved_layouts)
  unfolding load_records kept_of
  lookup-load_records id [] s d = refl
  lookup-load_records id (r ∷ rs) s d =
      lookup-load_records id rs (load_record n r s) d.1 ∙ elim (Bool-cases (r.document_id == id)) [
        | inl same ↦
            let at : r.document_id ≡ id = (eq_iff r.document_id id).0 same in
            let absent : of_document id rs ≡ none = of_document_absent id rs (rw (← at) d.0) in
            rw (absent, same) (lookup-load_record id r s ∙ rw same refl)
        | inr other ↦
            rw other (ap (kept_of (of_document id rs)) (lookup-load_record id r s ∙ rw other refl))
      ]
