-- ===== src/Documents/Tests.antt =====
-- Runs of the store of documents, and its theorems at one of them.
use papercrate.Base.{
  ℕ, ◌≡◌, refl, Bool, String, true, false, List, All, [], ◌||◌, ◌∷◌, none, some, Distinct, contains,
}
use papercrate.Api.{ok, failed}
use papercrate.Dict.{insert, lookup, keys}
use papercrate.Js.Laws.{IsObject}
use papercrate.Documents.Rewrite.{IsNew}
use papercrate.Js.{
  truthy_identifier, fields_of, is_array, starts_with_object, spread, assign, has_own, Value,
  Fields, text, array, object, cons, nil, end, field, get, elements, identifier, from_texts,
  object_is,
}
use papercrate.Catalog
use papercrate.Documents.{DocumentsManager, new, ingest, present, ensure, joined, settle}
use papercrate.Documents.Mutations.{add_tags, bulk_tag, Action}
use papercrate.Documents.Ingest.{IsWired, ingest-IsWired}
use papercrate.Documents.Labels.{add_tags_union, Relabelled, lacking}
use papercrate.Documents.Bulk.{bulk_tag_each, Bulked}
use papercrate.Documents.Requests.{requests_single, settle_releases, begin, run, asked, answered}

-- A store with its managers set, as the workspace makes it.
abbrev base : DocumentsManager
base = record (new true) {
  tag_manager = some Catalog.new;
  correspondent_manager = some Catalog.new;
  next_ref = 9;
}

base-IsWired : IsWired base
base-IsWired = record {
  stored = λ id doc h. unfold lookup in absurd (cc h);
  tags = refl;
  correspondents = refl;
}

abbrev tag : String → String → Value
tag id label = object 1 (field "id" (text id) (field "label" (text label) end))

-- A document as the API sends it, with its tags embedded.
abbrev sent : Fields
sent = field "id" (text "d1") (
    field "title" (text "Tax 2024")
      (field "tags" (array 2 (cons (tag "t1" "tax") (cons (tag "t2" "paid") nil))) end))

abbrev store : DocumentsManager
store = (ingest base (some sent ∷ none ∷ [])).0

-- What the store keeps of it: the identifiers, in a new array.
abbrev kept : Fields
kept =
    field "id" (text "d1")
      (field "title" (text "Tax 2024") (field "tags" (array 9 (from_texts ("t1" ∷ "t2" ∷ []))) end))

store-kept : lookup "d1" store.by_id ≡ some kept
unfolding ingest lookup insert get identifier truthy_identifier fields_of elements is_array
    starts_with_object spread assign
store-kept = refl

sent-IsObject : All IsObject (present (some sent ∷ none ∷ []))
unfolding present has_own
sent-IsObject = ((refl, (refl, (refl, tt))), tt)

store-IsWired : IsWired store
store-IsWired = ingest-IsWired base (some sent ∷ none ∷ []) sent-IsObject base-IsWired

held : elements (get "tags" kept) ≡ from_texts ("t1" ∷ "t2" ∷ [])
unfolding get elements
held = refl

-- The store made one array, so the next one has another identity.
fresh : IsNew store.next_ref (get "tags" kept)
unfolding get object_is ingest identifier truthy_identifier fields_of elements is_array
    starts_with_object assign
fresh = λ xs. refl

add_tags_union_example :
    Relabelled "tags" "d1"
      ("t1" ∷ "t2" ∷ lacking ("t1" ∷ "t2" ∷ []) ("t2" ∷ "t3" ∷ []))
      kept
      store.by_id
      (add_tags "d1" ("t2" ∷ "t3" ∷ []) (ok tt) store).0.by_id
    × Distinct ("t1" ∷ "t2" ∷ lacking ("t1" ∷ "t2" ∷ []) ("t2" ∷ "t3" ∷ []))
    × ((k : String)
        → contains k ("t1" ∷ "t2" ∷ lacking ("t1" ∷ "t2" ∷ []) ("t2" ∷ "t3" ∷ []))
          ≡ (contains k ("t1" ∷ "t2" ∷ []) || contains k ("t2" ∷ "t3" ∷ [])))
unfolding contains
add_tags_union_example =
    add_tags_union store "d1" kept ("t1" ∷ "t2" ∷ []) ("t2" ∷ "t3" ∷ []) store-IsWired store-kept
      held fresh (refl, (refl, tt)) (refl, (refl, tt))

bulk_tag_each_example :
    Bulked "tags"
      ("d1" ∷ [])
      ("t3" ∷ [])
      Action.add
      "d1"
      ("t1" ∷ "t2" ∷ [])
      kept
      (lookup "d1" (bulk_tag ("d1" ∷ []) ("t3" ∷ []) Action.add (ok tt) store).0.by_id)
bulk_tag_each_example =
    bulk_tag_each store ("d1" ∷ []) ("t3" ∷ []) Action.add "d1" kept ("t1" ∷ "t2" ∷ [])
      store-IsWired store-kept held

ingest-IsWired_example : IsWired (ingest base (some sent ∷ none ∷ [])).0
ingest-IsWired_example = ingest-IsWired base (some sent ∷ none ∷ []) sent-IsObject base-IsWired

-- A document asked for twice, an answer that fails, and the document asked for again.
abbrev asks : List papercrate.Documents.Requests.Event
asks = asked false "d1" ∷ asked true "d1" ∷ answered 0 failed ∷ asked false "d1" ∷ []

requests_single_example :
    Distinct (keys (run (begin true) asks).pending)
    × ((override : Bool) (id : String) (n : ℕ)
        → lookup id (run (begin true) asks).pending ≡ some n
        → lookup id (run (begin true) asks).manager.by_id ≡ none
        → (override || (run (begin true) asks).manager.fetcher) ≡ true
        → ensure override id (run (begin true) asks).manager
          ≡ ((run (begin true) asks).manager, joined n))
requests_single_example = requests_single true asks

-- A document with the correspondent "c1".
abbrev letter : Fields
letter = field "id" (text "d2") (field "correspondents" (array 3 (from_texts ("c1" ∷ []))) end)

abbrev letters : DocumentsManager
letters = (ingest base (some letter ∷ [])).0

letter-IsObject : All IsObject (present (some letter ∷ []))
unfolding present has_own
letter-IsObject = ((refl, (refl, tt)), tt)

letters-IsWired : IsWired letters
letters-IsWired = ingest-IsWired base (some letter ∷ []) letter-IsObject base-IsWired

letters-kept : lookup "d2" letters.by_id ≡ some letter
unfolding ingest lookup insert get identifier elements is_array starts_with_object spread assign
    from_texts
letters-kept = refl

letter-held : elements (get "correspondents" letter) ≡ from_texts ("c1" ∷ [])
unfolding get elements
letter-held = refl
