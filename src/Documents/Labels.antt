-- ===== src/Documents/Labels.antt =====
-- What adding and removing tags and correspondents does to the stored documents.
use papercrate.Base.{
  ◌≡◌, refl, ◌∙◌, Bool, Bool-cases, String, false, not, List, [], ◌∷◌, ◌++◌, Option, some,
  if◌then◌else◌, arith, inl, inr, ◌⊎◌, ◌==◌, ◌&&◌, ◌||◌, filter, contains, Distinct, length, nat_eq,
  length-filter, contains-append, contains-filter, Distinct-append, Distinct-filter,
}
use papercrate.Api.{ok}
use papercrate.Dict.{Dict, lookup}
use papercrate.Js.{Fields, get, elements, from_texts, item_has}
use papercrate.Js.Laws.{texts-from_texts}
use papercrate.Js.Arrays.{
  from_texts_plain, items_append-from_texts, items_without-from_texts, count_items-from_texts,
}
use papercrate.Documents.{DocumentsManager, update}
use papercrate.Documents.Mutations.{
  adding, missing_from, removing, adding_one, add_tags, remove_tag, with_items, allocate,
}
use papercrate.Documents.Ingest.{IsStored, IsWired}
use papercrate.Documents.Rewrite.{IsNew, Rewritten, update_items, update_same}

-- The identifiers of the second list that the first lacks, in order.
abbrev pub lacking : List String → List String → List String
lacking current ids = filter (λ id. not (contains id current)) ids

abbrev pub without : List String → String → List String
without current id = filter (λ x. not (contains x (id ∷ []))) current

pub missing_from-from_texts :
    (xs ids : List String) → missing_from (from_texts xs) ids ≡ lacking xs ids
unfolding missing_from item_has
missing_from-from_texts xs ids = rw (texts-from_texts xs)

-- A filter that drops nothing gives the list back.
filter_full :
    (p : String → Bool) (xs : List String) → length (filter p xs) ≡ length xs → filter p xs ≡ xs
filter_full p [] h = refl
filter_full p (x ∷ xs) h = ground (arith, length-filter p xs, filter_full p xs)

-- The stored document after a change of one array of identifiers: the array is `next`, every other
-- property reads as before, and so does every other document.
abbrev pub Relabelled : String → String → List String → Fields → Dict Fields → Dict Fields → Type 0
Relabelled key id next doc before after =
    (kept : Fields) × Rewritten id before after kept
    × (elements (get key kept) ≡ from_texts next)
    × ((j : String) → (key == j) ≡ false → get j kept ≡ get j doc)

module _ (m : DocumentsManager) (id : String) (doc : Fields) (key : String) (current : List String)
    (found : lookup id m.by_id ≡ some doc) (s : IsStored id doc)
    (held : elements (get key doc) ≡ from_texts current)
    (tracked : (key ≡ "tags") ⊎ (key ≡ "correspondents"))
    (fresh : IsNew m.next_ref (get key doc)) where
  relabel :
      (updater : Fields → Option Fields) (next : List String)
      → updater doc ≡ some (with_items key m.next_ref (from_texts next) doc)
      → Relabelled key id next doc m.by_id (update id updater (allocate m)).0.by_id
  relabel updater next e =
      let (kept, rewritten, items) =
        update_items (allocate m) id doc key (from_texts next) found s updater m.next_ref tracked e
          (from_texts_plain next) fresh in
      (kept, rewritten, items.at_key, items.others)

  stay :
      (updater : Fields → Option Fields)
      → updater doc ≡ some doc
      → Relabelled key id current doc m.by_id (update id updater (allocate m)).0.by_id
  stay updater e =
      let (kept, rewritten, same) =
        update_same (allocate m) id doc key (from_texts current) found s updater e in
      (kept, rewritten, rw (same key) held, λ j _. same j)

  adding-Relabelled :
      (ids : List String)
      → Relabelled key id
          (current ++ lacking current ids)
          doc
          m.by_id
          (update id (adding key ids m.next_ref) (allocate m)).0.by_id
  adding-Relabelled ids = relabel (adding key ids m.next_ref) (current ++ lacking current ids) (
      unfold adding in
      rw (
        held,
        missing_from-from_texts current ids,
        items_append-from_texts current (lacking current ids),
      ))

  removing-Relabelled :
      (gone : String)
      → Relabelled key id
          (without current gone)
          doc
          m.by_id
          (update id (removing key gone m.next_ref) (allocate m)).0.by_id
  removing-Relabelled gone =
      elim (Bool-cases (nat_eq (length (without current gone)) (length current))) [
        | inl same ↦ rw (filter_full (λ x. not (contains x (gone ∷ []))) current (ground arith)) (
            stay (removing key gone m.next_ref) (
              unfold removing in
              rw (
                held,
                items_without-from_texts (gone ∷ []) current,
                count_items-from_texts,
                count_items-from_texts,
                same,
              )))
        | inr fewer ↦ relabel (removing key gone m.next_ref) (without current gone) (
            unfold removing in
            rw (
              held,
              items_without-from_texts (gone ∷ []) current,
              count_items-from_texts,
              count_items-from_texts,
              fewer,
            ))
      ]

  adding_one-Relabelled :
      (added : String)
      → Relabelled key id
          (if contains added current then current else current ++ added ∷ [])
          doc
          m.by_id
          (update id (adding_one key added m.next_ref) (allocate m)).0.by_id
  adding_one-Relabelled added = elim (Bool-cases (contains added current)) [
    | inl there ↦ rw there (
        stay (adding_one key added m.next_ref)
          (unfold adding_one item_has in rw (held, texts-from_texts current, there)))
    | inr absent ↦ rw absent (
        relabel (adding_one key added m.next_ref) (current ++ added ∷ []) (
          unfold adding_one item_has in
          rw
            (held, texts-from_texts current, absent, items_append-from_texts current (added ∷ []))))
  ]

contains-lacking :
    (k : String) (current ids : List String)
    → contains k (lacking current ids) ≡ (not (contains k current) && contains k ids)
contains-lacking k current ids = contains-filter k (λ id. not (contains id current)) ids

-- In a well-formed store, where the tags of a stored document are identifiers, each once, in an array
-- that is not the next one made, the given ones are each once, and the API has taken the call, `addTags`
-- leaves them followed by those of the given ones that were missing: each tag once, and a tag is
-- there exactly where it was there or was given. Every other property of the document and every
-- other document reads as before.
pub add_tags_union :
    (m : DocumentsManager) (id : String) (doc : Fields) (current ids : List String)
    → IsWired m
    → lookup id m.by_id ≡ some doc
    → elements (get "tags" doc) ≡ from_texts current
    → IsNew m.next_ref (get "tags" doc)
    → Distinct current
    → Distinct ids
    → Relabelled "tags" id
        (current ++ lacking current ids)
        doc
        m.by_id
        (add_tags id ids (ok tt) m).0.by_id
      × Distinct (current ++ lacking current ids)
      × ((k : String)
          → contains k (current ++ lacking current ids) ≡ (contains k current || contains k ids))
unfolding add_tags
add_tags_union m id doc current ids w found held fresh d e = (
  adding-Relabelled m id doc "tags" current found (w.stored id doc found) held (inl refl) fresh ids,
  Distinct-append current (lacking current ids) d
      (Distinct-filter (λ id. not (contains id current)) ids e)
      (λ k h. contains-lacking k current ids ∙ rw h),
  λ k.
      contains-append k current (lacking current ids)
      ∙ ground (arith, contains-lacking k current ids),
)

contains-without :
    (k gone : String) (current : List String)
    → contains k (without current gone) ≡ (not (gone == k) && contains k current)
unfolding contains
contains-without k gone current =
    contains-filter k (λ x. not (contains x (gone ∷ []))) current ∙ unfold contains in ground arith

-- Likewise `removeTag` takes away the one tag and nothing else, whether the document had it or not.
pub remove_tag_difference :
    (m : DocumentsManager) (id : String) (doc : Fields) (current : List String) (gone : String)
    → IsWired m
    → lookup id m.by_id ≡ some doc
    → elements (get "tags" doc) ≡ from_texts current
    → IsNew m.next_ref (get "tags" doc)
    → Relabelled "tags" id (without current gone) doc m.by_id (remove_tag id gone (ok tt) m).0.by_id
      × ((k : String) → contains k (without current gone) ≡ (not (gone == k) && contains k current))
unfolding remove_tag
remove_tag_difference m id doc current gone w found held fresh = (
  removing-Relabelled m id doc "tags" current found (w.stored id doc found) held (inl refl) fresh
      gone,
  λ k. contains-without k gone current,
)
