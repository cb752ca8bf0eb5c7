-- ===== src/Documents/Bulk.antt =====
-- What `bulkTag` and `bulkCorrespondent` do to each stored document.
use papercrate.Base.{
  ℕ, suc, ◌≡◌, refl, sym, ◌∙◌, ap, Bool-cases, String, true, false, not, List, [], ◌∷◌, ◌++◌,
  Option, some, if◌then◌else◌, arith, inl, inr, ◌==◌, eq_refl, filter, contains, or_else, Distinct,
  unique-Distinct,
}
use papercrate.Api.{ok}
use papercrate.Dict.{Dict, lookup}
use papercrate.Js.{Fields, get, identifier, elements, from_texts, items_same}
use papercrate.Js.Laws.{IsObject, get-assign, copy-get}
use papercrate.Documents.{DocumentsManager, map_all, map_docs}
use papercrate.Documents.Ingest.{IsWired}
use papercrate.Documents.Mutations.{
  Action, add, remove, next_items, bulk_mapper, bulk_tag, bulk_correspondent, assigned, given,
  with_items,
}
use papercrate.Documents.Labels.{lacking, missing_from-from_texts}
use papercrate.Js.Arrays.{items_append-from_texts, items_without-from_texts, items_same→eq}

-- The identifiers that an action leaves.
abbrev pub after : Action → List String → List String → List String
after add ids current = current ++ lacking current ids
after remove ids current = filter (λ x. not (contains x ids)) current

map_all-lookup :
    (mapper : ℕ → Fields → Option Fields) (ref : ℕ) (m : Dict Fields) (k : String) (doc : Fields)
    → lookup k m ≡ some doc
    → (r : ℕ) × (lookup k (map_all mapper ref m).0 ≡ some (or_else (mapper r doc) doc))
unfolding map_all lookup
map_all-lookup mapper ref [] k doc h = absurd (cc h)
map_all-lookup mapper ref ((key, d) ∷ m) k doc h = elim (Bool-cases (key == k)) [
  | inl same ↦ (ref, ground arith)
  | inr other ↦
      let (r, e) = map_all-lookup mapper (suc ref) m k doc (ground arith) in (r, ground arith)
]

map_all_unchanged :
    (mapper : ℕ → Fields → Option Fields) (ref : ℕ) (m : Dict Fields)
    → (map_all mapper ref m).1 ≡ false
    → (map_all mapper ref m).0 ≡ m
unfolding map_all
map_all_unchanged mapper ref [] h = refl
map_all_unchanged mapper ref ((key, d) ∷ m) h = ground (arith, map_all_unchanged mapper (suc ref) m)

map_docs-by_id :
    (mapper : ℕ → Fields → Option Fields) (m : DocumentsManager)
    → (map_docs mapper m).0.by_id ≡ (map_all mapper m.next_ref m.by_id).0
unfolding map_docs
map_docs-by_id mapper m = elim (Bool-cases (map_all mapper m.next_ref m.by_id).1) [
  | inl h ↦ rw h
  | inr h ↦ rw (h) (sym (map_all_unchanged mapper m.next_ref m.by_id h))
]

next_items-from_texts :
    (action : Action) (ids current : List String)
    → next_items action ids (from_texts current) ≡ from_texts (after action ids current)
unfolding next_items
next_items-from_texts add ids current =
    rw (missing_from-from_texts current ids) (items_append-from_texts current (lacking current ids))
next_items-from_texts remove ids current = items_without-from_texts ids current

-- What a bulk action leaves for one document.
abbrev pub Bulked :
    String
    → List String
    → List String
    → Action
    → String
    → List String
    → Fields
    → Option Fields
    → Type 0
Bulked key document_ids ids action k current doc found =
    (kept : Fields) × (found ≡ some kept)
    × (elements (get key kept)
        ≡ from_texts (if contains k document_ids then after action ids current else current))
    × ((j : String) → (key == j) ≡ false → get j kept ≡ get j doc)

module _ (key : String) (document_ids ids : List String) (action : Action) (k : String)
    (doc : Fields) (current : List String) (keyed : identifier (get "id" doc) ≡ some k)
    (o : IsObject doc) (held : elements (get key doc) ≡ from_texts current) where
  mapped : ℕ → Option Fields
  mapped r = bulk_mapper key document_ids ids action r doc

  mapped-Bulked :
      (r : ℕ) → Bulked key document_ids ids action k current doc (some (or_else (mapped r) doc))
  unfolding mapped bulk_mapper
  mapped-Bulked r = elim (Bool-cases (contains k document_ids)) [
    | inr unlisted ↦ rw (keyed, bulk_mapper) (rw (unlisted) (doc, refl, held, λ j _. refl))
    | inl listed ↦
        rw (keyed, bulk_mapper)
          (rw (listed)
            (elim (Bool-cases (
              items_same (next_items action ids (elements (get key doc)))
                (elements (get key doc)))) [
                  | inl same ↦
                      rw (same) (doc, refl, held ∙ ap from_texts (sym (unmoved same)), λ j _. refl)
                  | inr moved ↦ rw (moved) (
                    with_items key r (next_items action ids (elements (get key doc))) doc,
                    refl,
                    rw (get-assign, eq_refl)
                        (unfold elements in rw (held) (next_items-from_texts action ids current)),
                    λ j other. rw (get-assign, other) (copy-get j doc o),
                  )
                ]))
  ]
    where
      unmoved :
          items_same (next_items action ids (elements (get key doc))) (elements (get key doc))
            ≡ true
          → after action ids current ≡ current
      unmoved same =
          items_same→eq (after action ids current) current
            (rw (held, next_items-from_texts action ids current) at same)

  bulk-Bulked :
      (m : DocumentsManager)
      → lookup k m.by_id ≡ some doc
      → Bulked key document_ids ids action k current doc
          (lookup k (map_docs (bulk_mapper key document_ids ids action) m).0.by_id)
  unfolding mapped
  bulk-Bulked m found =
      let (r, e) =
        map_all-lookup (bulk_mapper key document_ids ids action) m.next_ref m.by_id k doc found in
      rw (map_docs-by_id (bulk_mapper key document_ids ids action) m, e) (mapped-Bulked r)

-- When the API has taken a bulk action, every stored document whose tags are identifiers has the
-- missing ones appended, or the given ones taken away, if it is listed, and is as it was if not; its
-- other properties read as before.
pub bulk_tag_each :
    (m : DocumentsManager) (document_ids ids : List String) (action : Action) (k : String)
    (doc : Fields) (current : List String)
    → IsWired m
    → lookup k m.by_id ≡ some doc
    → elements (get "tags" doc) ≡ from_texts current
    → Bulked "tags" document_ids ids action k current doc
        (lookup k (bulk_tag document_ids ids action (ok tt) m).0.by_id)
unfolding bulk_tag
bulk_tag_each m document_ids ids action k doc current w found held =
    let s = w.stored k doc found in
    bulk-Bulked "tags" document_ids ids action k doc current s.keyed s.is_object held m found

-- `bulkCorrespondent` likewise, with the identifiers that the assignments give, each once.
pub bulk_correspondent_each :
    (m : DocumentsManager) (document_ids : List String) (assignments : List (Option String))
    (action : Action) (k : String) (doc : Fields) (current : List String)
    → IsWired m
    → lookup k m.by_id ≡ some doc
    → elements (get "correspondents" doc) ≡ from_texts current
    → Distinct (assigned assignments)
      × Bulked "correspondents" document_ids
          (assigned assignments)
          action
          k
          current
          doc
          (lookup k (bulk_correspondent document_ids assignments action (ok tt) m).0.by_id)
unfolding bulk_correspondent
bulk_correspondent_each m document_ids assignments action k doc current w found held =
    let s = w.stored k doc found in
    (
      unfold assigned in unique-Distinct [] (given assignments) tt,
      bulk-Bulked "correspondents" document_ids (assigned assignments) action k doc current s.keyed
          s.is_object held m found,
    )
