-- ===== src/Documents/Mutations.antt =====
-- The mutations of `DocumentsManager` (frontend/src/documents/DocumentsManager.ts, from
-- `updateFields` on): each waits for the API and then changes the stored documents. `trash`,
-- `restore`, `purge`, `reanalyze`, `moveToFolder` and the like only pass the call on.
use papercrate.Base.{
  ℕ, suc, String, List, [], ◌∷◌, Option, none, some, if◌then◌else◌, not, contains, filter, unique,
  ◌==◌, nat_eq, head?,
}
use papercrate.Api.{Reply, ok, failed}
use papercrate.Dict.{lookup}
use papercrate.Js.{
  Value, Items, Fields, array, end, get, assign, spread, identifier, elements, items_append,
  items_without, items_same, item_has, count_items, fields_of, truthy,
}
use papercrate.Documents.{DocumentsManager, ingest, update, map_docs}

-- `tagIds.filter((id) => !currentSet.has(id))`
unfoldable pub missing_from : Items → List String → List String
missing_from current ids = filter (λ id. not (item_has id current)) ids

-- `{ ...doc, [key]: next }` with the new array `next`
abbrev pub with_items : String → ℕ → Items → Fields → Fields
with_items key ref next doc = assign key (array ref next) (spread end doc)

-- The next array's identity is used up.
abbrev pub allocate : DocumentsManager → DocumentsManager
allocate m = record m { next_ref = suc m.next_ref }

-- the updater of `addTags`
unfoldable pub adding : String → List String → ℕ → Fields → Option Fields
unfolding missing_from
adding key ids ref doc =
    let current = elements (get key doc) in
    some (with_items key ref (items_append current (missing_from current ids)) doc)

unfoldable pub add_tags :
    String → List String → Reply (Unit {0}) → DocumentsManager → DocumentsManager × Reply (Unit {0})
unfolding update adding
add_tags id tag_ids (ok _) m =
    ((update id (adding "tags" tag_ids m.next_ref) (allocate m)).0, ok tt)
add_tags id tag_ids failed m = (m, failed)

-- the updater of `removeTag` and of `removeCorrespondent`
unfoldable pub removing : String → String → ℕ → Fields → Option Fields
removing key id ref doc =
    let current = elements (get key doc) in
    let next = items_without (id ∷ []) current in
    some
      (if nat_eq (count_items next) (count_items current) then doc else with_items key ref next doc)

unfoldable pub remove_tag :
    String → String → Reply (Unit {0}) → DocumentsManager → DocumentsManager × Reply (Unit {0})
unfolding update removing
remove_tag id tag_id (ok _) m =
    ((update id (removing "tags" tag_id m.next_ref) (allocate m)).0, ok tt)
remove_tag id tag_id failed m = (m, failed)

-- the updater of `addCorrespondent`
unfoldable pub adding_one : String → String → ℕ → Fields → Option Fields
adding_one key id ref doc =
    let current = elements (get key doc) in
    some
      (if item_has id current then doc else with_items key ref (items_append current (id ∷ [])) doc)

unfoldable pub add_correspondent :
    String → String → Reply (Unit {0}) → DocumentsManager → DocumentsManager × Reply (Unit {0})
unfolding update adding_one
add_correspondent id correspondent_id (ok _) m =
    ((update id (adding_one "correspondents" correspondent_id m.next_ref) (allocate m)).0, ok tt)
add_correspondent id correspondent_id failed m = (m, failed)

unfoldable pub remove_correspondent :
    String → String → Reply (Unit {0}) → DocumentsManager → DocumentsManager × Reply (Unit {0})
unfolding update removing
remove_correspondent id correspondent_id (ok _) m =
    ((update id (removing "correspondents" correspondent_id m.next_ref) (allocate m)).0, ok tt)
remove_correspondent id correspondent_id failed m = (m, failed)

pub data Action : Type 0 where
  add remove : Action

-- the array that a bulk action makes of the current one
unfoldable pub next_items : Action → List String → Items → Items
unfolding missing_from
next_items add ids current = items_append current (missing_from current ids)
next_items remove ids current = items_without ids current

-- the mapper of `bulkTag` and of `bulkCorrespondent`
unfoldable pub bulk_mapper :
    String → List String → List String → Action → ℕ → Fields → Option Fields
unfolding next_items
bulk_mapper key document_ids ids action ref doc = elim (identifier (get "id" doc)) [
  | none ↦ none
  | some id ↦
      let current = elements (get key doc) in
      let next = next_items action ids current in
      if contains id document_ids
      then if items_same next current then none else some (with_items key ref next doc)
      else none
]

unfoldable pub bulk_tag :
    List String
    → List String
    → Action
    → Reply (Unit {0})
    → DocumentsManager
    → DocumentsManager × Reply (Unit {0})
unfolding map_docs bulk_mapper
bulk_tag document_ids tag_ids action (ok _) m =
    ((map_docs (bulk_mapper "tags" document_ids tag_ids action) m).0, ok tt)
bulk_tag document_ids tag_ids action failed m = (m, failed)

-- the identifiers given, less the empty ones
unfoldable pub given : List (Option String) → List String
given [] = []
given (none ∷ ids) = given ids
given (some id ∷ ids) = if id == "" then given ids else id ∷ given ids

-- `new Set(assignments.map((a) => a.correspondent_id).filter(Boolean))`, in order; the argument has
-- none for a missing identifier
unfoldable pub assigned : List (Option String) → List String
unfolding given
assigned ids = unique [] (given ids)

unfoldable pub bulk_correspondent :
    List String
    → List (Option String)
    → Action
    → Reply (Unit {0})
    → DocumentsManager
    → DocumentsManager × Reply (Unit {0})
unfolding map_docs bulk_mapper assigned
bulk_correspondent document_ids assignments action (ok _) m = (
  (map_docs (bulk_mapper "correspondents" document_ids (assigned assignments) action) m).0,
  ok tt,
)
bulk_correspondent document_ids assignments action failed m = (m, failed)

-- `extractDocumentFromResponse`: none where the payload is falsy
unfoldable pub extract_document : Value → Option Fields
extract_document payload =
    if truthy payload
    then some (
        if truthy (get "document" (fields_of payload))
        then fields_of (get "document" (fields_of payload))
        else fields_of payload)
    else none

unfoldable pub update_fields :
    String → Fields → Reply Value → DocumentsManager → DocumentsManager × Reply (Option Fields)
unfolding extract_document ingest update
update_fields id fields (ok response) m = elim (extract_document response) [
  | some doc ↦ let r = ingest m (some doc ∷ []) in (r.0, ok (head? r.1))
  | none ↦
      let m' = (update id (λ d. some (spread (spread end d) fields)) m).0 in
      (m', ok (lookup id m'.by_id))
]
update_fields id fields failed m = (m, failed)
