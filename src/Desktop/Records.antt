-- ===== src/Desktop/Records.antt =====
-- The saved layouts in the browser's database: frontend/src/desktop/logic/db.ts. The database is
-- a parameter, an object store whose key is the tenant, the view and the document together. A
-- transaction that fails changes nothing, and `fetchLayoutRecords` and `upsertLayoutRecords` answer
-- such a failure with a warning.
pub mod Laws
use papercrate.Api.{Reply, ok, failed}
use papercrate.Base.{
  Bool, Distinct, List, Option, String, [], find?, if◌then◌else◌, length, map, nat_eq, some, ◌&&◌,
  ◌==◌, ◌||◌, ◌∷◌, ◌≡◌, ℕ,
}

pub record LayoutRecord (A : Type 0) : Type 0 where
  pub tenant_id : String
  pub view_id : String
  pub document_id : String
  pub center_x : Option A
  pub center_y : Option A
  pub rotation : Option A
  pub z_index : Option ℕ
  pub updated_at : ℕ

-- an entry of `upsertLayoutRecords`
pub record Entry (A : Type 0) : Type 0 where
  pub document_id : String
  pub center_x : A
  pub center_y : A
  pub rotation : A
  pub z_index : ℕ
  pub updated_at : ℕ

-- the object store: `put`, and `getAll` of the index on tenant and view
pub record Database (A : Type 0) : Type 1 where
  pub State : Type 0
  pub put : LayoutRecord A → State → State
  pub get_all : String → String → State → List (LayoutRecord A)

-- the record of a document among those of a view
abbrev pub of_document : {A : Type 0} → String → List (LayoutRecord A) → Option (LayoutRecord A)
of_document id records = find? (λ r. r.document_id == id) records

-- What an object store keeps: `put` replaces the record under its key and no other, and a view
-- has at most one record of a document.
pub record IsObjectStore (A : Type 0) (db : Database A) : Type 0 where
  pub get_all-put :
      (r : LayoutRecord A) (tenant view id : String) (s : db.State)
      → of_document id (db.get_all tenant view (db.put r s)) ≡ (
          if r.tenant_id == tenant && r.view_id == view && r.document_id == id
          then some r
          else of_document id (db.get_all tenant view s))
  pub single :
      (tenant view : String) (s : db.State)
      → Distinct (map (λ r. r.document_id) (db.get_all tenant view s))

module _ (A : Type 0) (db : Database A) where
  open db use {State, put, get_all}

  -- `fetchLayoutRecords`, and whether its transaction succeeds
  unfoldable pub fetch_layout_records : Bool → String → String → State → List (LayoutRecord A)
  fetch_layout_records succeeds tenant view s =
      if tenant == "" || view == "" then [] else if succeeds then get_all tenant view s else []

  -- the record that is put for an entry
  unfoldable pub record_of : ℕ → String → String → Entry A → LayoutRecord A
  record_of timestamp tenant view e = record {
    tenant_id = tenant;
    view_id = view;
    document_id = e.document_id;
    center_x = some e.center_x;
    center_y = some e.center_y;
    rotation = some e.rotation;
    z_index = some e.z_index;
    updated_at = if nat_eq e.updated_at 0 then timestamp else e.updated_at;
  }

  unfoldable pub put_all : ℕ → String → String → List (Entry A) → State → State
  unfolding record_of
  put_all timestamp tenant view [] s = s
  put_all timestamp tenant view (e ∷ es) s =
      put_all timestamp tenant view es
        (if e.document_id == "" then s else put (record_of timestamp tenant view e) s)

  -- `withStore('readwrite', …)` with the handler of `upsertLayoutRecords`: whether its transaction
  -- succeeds, and how the call comes back
  unfoldable pub put_transaction :
      Bool → ℕ → String → String → List (Entry A) → State → State × Reply (Unit {0})
  unfolding put_all
  put_transaction succeeds timestamp tenant view entries s =
      if succeeds then (put_all timestamp tenant view entries s, ok tt) else (s, failed)

  -- `upsertLayoutRecords`: it catches the failure of the transaction
  unfoldable pub upsert_layout_records :
      Bool → ℕ → String → String → List (Entry A) → State → State × Reply (Unit {0})
  unfolding put_transaction
  upsert_layout_records succeeds timestamp tenant view entries s =
      let (s', done) = put_transaction succeeds timestamp tenant view entries s in
      if tenant == "" || view == "" || nat_eq (length entries) 0
      then (s, ok tt)
      else elim done [ ok _ ↦ (s', ok tt) | failed ↦ (s', ok tt) ]
