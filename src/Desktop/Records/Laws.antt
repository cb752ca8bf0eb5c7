-- ===== src/Desktop/Records/Laws.antt =====
-- What the database answers after the entries of a save were put.
use papercrate.Base.{
  Bool-cases, Distinct, List, Option, String, [], ap, arith, contains, eq_iff, eq_refl, false,
  find?, if◌then◌else◌, inl, inr, map, none, refl, some, true, ◌==◌, ◌∷◌, ◌≡◌, ◌∙◌, ℕ,
}
use papercrate.Desktop.Records.{
  Database, Entry, IsObjectStore, LayoutRecord, of_document, put_all, record_of,
}

abbrev pub entry_for : {A : Type 0} → String → List (Entry A) → Option (Entry A)
entry_for id es = find? (λ e. e.document_id == id) es

abbrev pub documents_of : {A : Type 0} → List (Entry A) → List String
documents_of es = map (λ e. e.document_id) es

entry_for_absent :
    {A : Type 0} (id : String) (es : List (Entry A))
    → contains id (documents_of es) ≡ false
    → entry_for id es ≡ none
unfolding contains
entry_for_absent id [] h = refl
entry_for_absent id (e ∷ es) h = ground (arith, entry_for_absent id es)

module _ (A : Type 0) (db : Database A) (laws : IsObjectStore A db) where
  open db use {State, put, get_all}

  -- the record of a document after the puts, or the one before them
  unfoldable pub answered :
      ℕ → String → String → Option (Entry A) → Option (LayoutRecord A) → Option (LayoutRecord A)
  answered ts tenant view none old = old
  answered ts tenant view (some e) old = some (record_of A db ts tenant view e)

  of_document-put_one :
      (ts : ℕ) (tenant view id : String) (e : Entry A) (s : State)
      → (id == "") ≡ false
      → of_document id (
          get_all tenant view
            (if e.document_id == "" then s else put (record_of A db ts tenant view e) s))
        ≡ (if e.document_id == id
            then some (record_of A db ts tenant view e)
            else of_document id (get_all tenant view s))
  of_document-put_one ts tenant view id e s named = elim (Bool-cases (e.document_id == "")) [
    | inl empty ↦
        let other : (e.document_id == id) ≡ false =
          ground (arith, eq_iff e.document_id id, eq_iff e.document_id "", eq_iff id "") in
        rw (empty, other) refl
    | inr full ↦
        let same : (tenant == tenant) ≡ true = eq_refl tenant in
        let same' : (view == view) ≡ true = eq_refl view in
        rw full (
          laws.get_all-put (record_of A db ts tenant view e) tenant view id s
          ∙ unfold record_of in (rw (same, same') refl))
  ]

  pub of_document-put_all :
      (ts : ℕ) (tenant view id : String) (es : List (Entry A)) (s : State)
      → (id == "") ≡ false
      → Distinct (documents_of es)
      → of_document id (get_all tenant view (put_all A db ts tenant view es s))
        ≡ answered ts tenant view (entry_for id es) (of_document id (get_all tenant view s))
  unfolding put_all answered
  of_document-put_all ts tenant view id [] s named d = refl
  of_document-put_all ts tenant view id (e ∷ es) s named d =
      of_document-put_all ts tenant view id es _ named d.1
      ∙ elim (Bool-cases (e.document_id == id)) [
        | inl same ↦
            let at : e.document_id ≡ id = (eq_iff e.document_id id).0 same in
            let absent : entry_for id es ≡ none = entry_for_absent id es (rw (← at) d.0) in
            rw (absent, same) (of_document-put_one ts tenant view id e s named ∙ rw same refl)
        | inr other ↦ rw other (
            ap (answered ts tenant view (entry_for id es))
              (of_document-put_one ts tenant view id e s named ∙ rw other refl))
      ]
