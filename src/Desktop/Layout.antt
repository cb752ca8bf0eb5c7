-- ===== src/Desktop/Layout.antt =====
-- Loading and saving the layout of a view: `loadLayout` and `saveLayout` of `LayoutStore`
-- (frontend/src/desktop/logic/LayoutSystem.ts), each in the part before its request and the part
-- after the answer, between which other operations may run.
use papercrate.Api.{Reply, ok, failed}
use papercrate.Base.{
  Bool, List, Option, String, [], filter, if◌then◌else◌, is_some, leb, length, ltb, map, none, not,
  or_else, some, false, ◌&&◌, ◌==◌, ◌||◌, ◌∷◌, ℕ, suc, any, nat_eq,
}
use papercrate.Dict.{Dict, insert, lookup, values}
use papercrate.Desktop.Numbers.{Numbers}
use papercrate.Desktop.Cards.{Card, no_changes, update}
use papercrate.Desktop.Records.{Database, Entry, LayoutRecord, upsert_layout_records}
use papercrate.Desktop.Store.{LayoutStore, Saved, relayout}

-- what `saveLayout` sends, and the card objects that it marks as clean afterwards
pub record SaveRequest (A : Type 0) : Type 0 where
  pub tenant : String
  pub view : String
  pub entries : List (Entry A)
  pub cards : List ℕ

module _ (n : Numbers) where
  open n use {Num, of}

  -- `loadLayout` up to its request
  unfoldable pub load_requested : String → String → LayoutStore Num → LayoutStore Num
  load_requested tenant view s = record s { tenant_id = some tenant; view_id = some view }

  -- the condition on a record, and what is kept of it
  unfoldable pub is_complete : LayoutRecord Num → Bool
  is_complete r = not (r.document_id == "") && is_some r.center_x && is_some r.center_y

  unfoldable pub saved_of : LayoutRecord Num → Saved Num
  saved_of r = record {
    x = or_else r.center_x (of 0);
    y = or_else r.center_y (of 0);
    rotation = or_else r.rotation (of 0);
    z = or_else r.z_index 0;
  }

  -- `maxZ` after a record: an index that is missing or zero changes nothing
  unfoldable pub next_max : LayoutRecord Num → ℕ → ℕ
  next_max r max_z =
      let index = or_else r.z_index 0 in if ltb 0 index && leb max_z index then suc index else max_z

  -- the body of the loop over the records
  unfoldable pub load_record : LayoutRecord Num → LayoutStore Num → LayoutStore Num
  unfolding is_complete saved_of next_max
  load_record r s =
      if is_complete r
      then record s {
        saved_layouts = insert r.document_id (saved_of r) s.saved_layouts;
        z_counter = next_max r s.z_counter;
      }
      else s

  unfoldable pub load_records : List (LayoutRecord Num) → LayoutStore Num → LayoutStore Num
  unfolding load_record
  load_records [] s = s
  load_records (r ∷ rs) s = load_records rs (load_record r s)

  -- the cards that are there take what is saved of them
  unfoldable pub apply_saved : Dict (Saved Num) → Dict (Card Num) → Dict (Card Num)
  unfolding update
  apply_saved layouts [] = []
  apply_saved layouts ((id, c) ∷ items) = elim (lookup id layouts) [
    | none ↦ (id, c) ∷ apply_saved layouts items
    | some l ↦
        (
          id,
          update n
              (record no_changes {
                x = some l.x;
                y = some l.y;
                rotation = some l.rotation;
                z = some l.z;
              })
              false false c,
        )
        ∷ apply_saved layouts items
  ]

  -- `loadLayout` from the answer on
  unfoldable pub load_answered : List (LayoutRecord Num) → LayoutStore Num → LayoutStore Num
  unfolding load_records apply_saved relayout
  load_answered records s =
      let loaded = load_records records (record s { saved_layouts = [] }) in
      relayout n (record loaded { items = apply_saved loaded.saved_layouts loaded.items })

  -- `dirtyCards.map`
  unfoldable pub entry_of : ℕ → Card Num → Entry Num
  entry_of now c = record {
    document_id = c.id;
    center_x = c.intended_x;
    center_y = c.intended_y;
    rotation = c.rotation;
    z_index = c.z;
    updated_at = now;
  }

  unfoldable pub dirty_cards : LayoutStore Num → List (Card Num)
  dirty_cards s = filter (λ c. c.is_dirty) (values s.items)

  -- `saveLayout` up to its request; `none` where it returns early
  unfoldable pub save_requested : ℕ → LayoutStore Num → Option (SaveRequest Num)
  unfolding dirty_cards entry_of
  save_requested now s =
      let tenant = or_else s.tenant_id "" in
      let view = or_else s.view_id "" in
      if tenant == "" || view == "" || nat_eq (length (dirty_cards s)) 0
      then none
      else some (record {
        tenant = tenant;
        view = view;
        entries = map (entry_of now) (dirty_cards s);
        cards = map (λ c. c.made) (dirty_cards s);
      })

  unfoldable pub mark_clean : List ℕ → Dict (Card Num) → Dict (Card Num)
  mark_clean cards [] = []
  mark_clean cards ((id, c) ∷ items) =
      (id, if any (nat_eq c.made) cards then record c { is_dirty = false } else c)
      ∷ mark_clean cards items

  -- `saveLayout` after its request
  unfoldable pub save_finished : List ℕ → LayoutStore Num → LayoutStore Num
  unfolding mark_clean
  save_finished cards s = record s { items = mark_clean cards s.items }

  -- `saveLayout` goes on where the call returns, and rejects where it rejects
  unfoldable pub save_answered : Reply (Unit {0}) → List ℕ → LayoutStore Num → LayoutStore Num
  unfolding save_finished
  save_answered (ok _) cards s = save_finished cards s
  save_answered failed cards s = s

  -- `saveLayout` with no other operation while it waits: the store, and the database
  module _ (db : Database Num) where
    open db use {State}

    unfoldable pub save_layout : Bool → ℕ → ℕ → LayoutStore Num → State → LayoutStore Num × State
    unfolding save_requested upsert_layout_records save_answered
    save_layout succeeds now timestamp s st = elim (save_requested now s) [
      | none ↦ (s, st)
      | some r ↦
          let (st', done) =
            upsert_layout_records Num db succeeds timestamp r.tenant r.view r.entries st in
          (save_answered done r.cards s, st')
    ]
