-- ===== src/Desktop/Saving/RoundTrip.antt =====
-- A card that is saved comes back where it was meant to lie.
use papercrate.Base.{
  Distinct, List, Option-cases, String, [], ap, arith, eq_refl, false, filter, inl, inr, length,
  list_cases, map, none, nat_eq, refl, some, true, ◌==◌, ◌∷◌, ◌≡◌, ◌∙◌, ℕ,
}
use papercrate.Dict.{Dict, lookup, values}
use papercrate.Dict.Laws.{lookup-insert}
use papercrate.Dict.Every.{lookup-EveryAt}
use papercrate.Desktop.Numbers.{Numbers}
use papercrate.Desktop.Cards.{Card, new_card, recalculate_centers, recalculate_radii}
use papercrate.Desktop.Records.{
  Database, Entry, IsObjectStore, LayoutRecord, fetch_layout_records, of_document, put_all,
  record_of, upsert_layout_records,
}
use papercrate.Desktop.Records.Laws.{answered, entry_for, of_document-put_all}
use papercrate.Desktop.Store.{
  Config, LayoutStore, Position, Saved, clear, initialize, map_cards, new, initialize_saved,
  relayout,
}
use papercrate.Desktop.Layout.{
  apply_saved, dirty_cards, entry_of, is_complete, load_answered, load_requested, save_requested,
  saved_of,
}
use papercrate.Desktop.Kept.{IsFresh, IsKept}
use papercrate.Desktop.Kept.Reached.{desktop-IsKept, items-load_records}
use papercrate.Desktop.Runs.{Event, run}
use papercrate.Desktop.Saving.{
  Distinct-entries_of, entries_of, entry_for-lookup, kept_of, lookup-load_records,
}

module _ (n : Numbers) (db : Database n.Num) where
  open n use {Num}
  open db use {State}

  -- `saveLayout` on one store, with a database that takes the records, and what it answers then
  unfoldable pub reread :
      ℕ → ℕ → String → String → LayoutStore Num → State → List (LayoutRecord Num)
  reread now ts tenant view s st = elim (save_requested n now s) [
    | none ↦ fetch_layout_records Num db true tenant view st
    | some r ↦
        fetch_layout_records Num db true tenant view
          (upsert_layout_records Num db true ts r.tenant r.view r.entries st).0
  ]

  not_empty :
      (now : ℕ) (id : String) (cards : List (Card Num)) (e : Entry Num)
      → entry_for id (map (entry_of n now) cards) ≡ some e
      → nat_eq (length cards) 0 ≡ false
  not_empty now id [] e h = cc
  not_empty now id (c ∷ cards) e h = ground arith

  -- What `saveLayout` sends where it has something to save.
  save_requested-some :
      (now : ℕ) (tenant view id : String) (s : LayoutStore Num) (e : Entry Num)
      → s.tenant_id ≡ some tenant
      → s.view_id ≡ some view
      → (tenant == "") ≡ false
      → (view == "") ≡ false
      → entry_for id (entries_of n now s.items) ≡ some e
      → save_requested n now s
        ≡ some (record {
          tenant = tenant;
          view = view;
          entries = entries_of n now s.items;
          cards = map (λ c. c.made) (dirty_cards n s);
        })
  unfolding save_requested dirty_cards
  save_requested-some now tenant view id s e et ev nt nv mine =
      let some_dirty =
        not_empty now id (filter (λ (c : Card Num). c.is_dirty) (values s.items)) e mine in
      simp (et, ev, nt, nv, some_dirty)

  upsert_entries :
      (ts now : ℕ) (tenant view id : String) (items : Dict (Card Num)) (e : Entry Num) (st : State)
      → (tenant == "") ≡ false
      → (view == "") ≡ false
      → entry_for id (entries_of n now items) ≡ some e
      → (upsert_layout_records Num db true ts tenant view (entries_of n now items) st).0
        ≡ put_all Num db ts tenant view (entries_of n now items) st
  unfolding upsert_layout_records
  upsert_entries ts now tenant view id items e st nt nv mine =
      elim (list_cases (entries_of n now items)) [
        | inl empty ↦ absurd (ground (arith, ap (entry_for id) empty))
        | inr (f, fs, full) ↦ rw full (rw (nt, nv) (ground arith))
      ]

  -- The answer for a card that is to be saved.
  of_document-reread :
      (laws : IsObjectStore Num db) (now ts : ℕ) (tenant view id : String) (c : Card Num)
      (s : LayoutStore Num) (st : State)
      → IsKept n s.items
      → s.tenant_id ≡ some tenant
      → s.view_id ≡ some view
      → (tenant == "") ≡ false
      → (view == "") ≡ false
      → (id == "") ≡ false
      → lookup id s.items ≡ some c
      → c.is_dirty ≡ true
      → of_document id (reread now ts tenant view s st)
        ≡ some (record_of Num db ts tenant view (entry_of n now c))
  unfolding reread fetch_layout_records answered
  of_document-reread laws now ts tenant view id c s st k et ev nt nv ni found dirty =
      let entries : List (Entry Num) = entries_of n now s.items in
      let mine : entry_for id entries ≡ some (entry_of n now c) =
        entry_for-lookup n now id c s.items k.fresh k.single found dirty in
      let put =
        of_document-put_all Num db laws ts tenant view id entries st ni
          (Distinct-entries_of n now s.items k.fresh k.single) in
      rw (save_requested-some now tenant view id s _ et ev nt nv mine, reread)
        (rw (nt, nv)
          (rw (upsert_entries ts now tenant view id s.items _ st nt nv mine) (put ∙ rw mine refl)))

  fetch-Distinct :
      (laws : IsObjectStore Num db) (tenant view : String) (st : State)
      → (tenant == "") ≡ false
      → (view == "") ≡ false
      → Distinct (map (λ r. r.document_id) (fetch_layout_records Num db true tenant view st))
  unfolding fetch_layout_records
  fetch-Distinct laws tenant view st nt nv = rw (nt, nv) (laws.single tenant view st)

  reread-Distinct :
      (laws : IsObjectStore Num db) (now ts : ℕ) (tenant view : String) (s : LayoutStore Num)
      (st : State)
      → (tenant == "") ≡ false
      → (view == "") ≡ false
      → Distinct (map (λ r. r.document_id) (reread now ts tenant view s st))
  unfolding reread
  reread-Distinct laws now ts tenant view s st nt nv =
      elim (Option-cases (save_requested n now s)) [
        | inl nothing ↦ rw (nothing, reread) (fetch-Distinct laws tenant view st nt nv)
        | inr (r, sent) ↦ rw (sent, reread) (fetch-Distinct laws tenant view _ nt nv)
      ]

  initialize_saved_at :
      (l : Saved Num) (id : String) (w h : Num) (pages : ℕ) (s : LayoutStore Num)
      → (c : Card Num) × (lookup id (initialize_saved n id w h pages l s).items ≡ some c)
        × (c.intended_x ≡ l.x)
        × (c.intended_y ≡ l.y)
        × (c.rotation ≡ l.rotation)
        × (c.z ≡ l.z)
  unfolding initialize_saved new_card recalculate_radii recalculate_centers
  initialize_saved_at l id w h pages s =
      let card : Card Num = new_card n id s.next_card (record {
        x = l.x;
        y = l.y;
        z = l.z;
        rotation = l.rotation;
        width = w;
        height = h;
        page_count = pages;
      }) in
      let same : (id == id) ≡ true = eq_refl id in
      (card, lookup-insert id id card s.items ∙ rw same refl, refl, refl, refl, refl)

  -- A card that is made from a saved layout lies where the layout says.
  initialize_at :
      (l : Saved Num) (id : String) (s : LayoutStore Num)
      (place : Num → Num → Card Num → List (Card Num) → Position Num) (config : Config Num)
      → lookup id s.items ≡ none
      → lookup id s.saved_layouts ≡ some l
      → (c : Card Num) × (lookup id (initialize n place id config s).items ≡ some c)
        × (c.intended_x ≡ l.x)
        × (c.intended_y ≡ l.y)
        × (c.rotation ≡ l.rotation)
        × (c.z ≡ l.z)
  unfolding initialize
  initialize_at l id s place config missing found =
      rw (missing, initialize) (rw found (initialize_saved_at l id _ _ _ s))

  -- The store that is cleared and then loaded.
  abbrev pub reloaded :
      String → String → List (LayoutRecord Num) → LayoutStore Num → LayoutStore Num
  reloaded tenant view records other =
      load_answered n records (load_requested n tenant view (clear n other))

  reloaded-items :
      (id tenant view : String) (records : List (LayoutRecord Num)) (other : LayoutStore Num)
      → lookup id (reloaded tenant view records other).items ≡ none
  unfolding clear load_requested load_answered relayout
  reloaded-items id tenant view records other =
      let start : LayoutStore Num = record (load_requested n tenant view (clear n other)) {
        saved_layouts = [];
      } in
      rw (items-load_records n records start) (unfold lookup map_cards apply_saved in refl)

  reloaded-saved :
      (id tenant view : String) (records : List (LayoutRecord Num)) (r : LayoutRecord Num)
      (other : LayoutStore Num)
      → Distinct (map (λ r. r.document_id) records)
      → of_document id records ≡ some r
      → is_complete n r ≡ true
      → lookup id (reloaded tenant view records other).saved_layouts ≡ some (saved_of n r)
  unfolding clear load_requested load_answered relayout
  reloaded-saved id tenant view records r other d found complete =
      let start : LayoutStore Num = record (load_requested n tenant view (clear n other)) {
        saved_layouts = [];
      } in
      lookup-load_records n id records start d ∙ rw found (unfold kept_of in rw complete refl)

  -- In every run, where a tenant and a view are set and the database takes the records: a card
  -- that was changed since it was last saved, and whose document has an identifier, is saved, and
  -- a store that is cleared and then loads the view makes it anew at the position that was intended
  -- for it, with its rotation and its index.
  pub save_then_load :
      (laws : IsObjectStore Num db) (es : List (Event Num)) (now ts : ℕ) (tenant view id : String)
      (c : Card Num) (st : State) (other : LayoutStore Num)
      (place : Num → Num → Card Num → List (Card Num) → Position Num) (config : Config Num)
      → (run n es (new n)).tenant_id ≡ some tenant
      → (run n es (new n)).view_id ≡ some view
      → (tenant == "") ≡ false
      → (view == "") ≡ false
      → (id == "") ≡ false
      → lookup id (run n es (new n)).items ≡ some c
      → c.is_dirty ≡ true
      → (c' : Card Num) × (lookup id
            (initialize n place id config
              (reloaded tenant view (reread now ts tenant view (run n es (new n)) st) other)).items
          ≡ some c')
        × (c'.intended_x ≡ c.intended_x)
        × (c'.intended_y ≡ c.intended_y)
        × (c'.rotation ≡ c.rotation)
        × (c'.z ≡ c.z)
  unfolding entry_of record_of saved_of
  save_then_load laws es now ts tenant view id c st other place config et ev nt nv ni found dirty =
      let s : LayoutStore Num = run n es (new n) in
      let records : List (LayoutRecord Num) = reread now ts tenant view s st in
      let r : LayoutRecord Num = record_of Num db ts tenant view (entry_of n now c) in
      let answer : of_document id records ≡ some r =
        of_document-reread laws now ts tenant view id c s st (desktop-IsKept n es) et ev nt nv ni
          found dirty in
      let own : c.id ≡ id =
        (lookup-EveryAt (IsFresh n) id s.items c (desktop-IsKept n es).fresh found).own in
      let complete : is_complete n r ≡ true = unfold is_complete in rw own (rw ni refl) in
      let distinct : Distinct (map (λ (r : LayoutRecord Num). r.document_id) records) =
        reread-Distinct laws now ts tenant view s st nt nv in
      initialize_at (saved_of n r) id (reloaded tenant view records other) place config
        (reloaded-items id tenant view records other)
        (reloaded-saved id tenant view records r other distinct answer complete)
