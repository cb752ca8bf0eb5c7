-- ===== src/Documents.antt =====
-- The store of documents, class `DocumentsManager` of
-- frontend/src/documents/DocumentsManager.ts: the map of documents, the requests under way and the
-- reading of API answers. A document is the fields of its object. `next_ref` is the identity of the
-- next array that the code makes.
pub mod Mutations
pub mod Identity
pub mod Ingest
pub mod Rewrite
pub mod Requests
pub mod Labels
pub mod Bulk
mod Tests
use papercrate.Base.{
  ℕ, zero, suc, ◌+◌, Bool, String, true, false, List, [], ◌∷◌, ◌++◌, Option, none, some,
  if◌then◌else◌, ltb, ◌&&◌, ◌||◌, not, length, contains, head?, is_some, nat_eq,
}
use papercrate.Api.{Reply, ok, failed}
use papercrate.Dict.{Dict, lookup, insert, erase, has, values}
use papercrate.Js.{
  Value, Items, Fields, array, nil, cons, end, get, assign, spread, shallow_equal, identifier,
  truthy_identifier, fields_of, from_texts, starts_with_object, elements, is_array,
}
use papercrate.Emitter
use papercrate.Emitter.{Emitter}
use papercrate.Catalog
use papercrate.Catalog.{Catalog}

pub record DocumentsManager : Type 0 where
  pub by_id : Dict Fields
  -- a fetcher has been given
  pub fetcher : Bool
  -- the request under way for a document, by its number
  pub inflight : Dict ℕ
  pub emitter : Emitter
  pub tag_manager : Option Catalog
  pub correspondent_manager : Option Catalog
  pub next_ref : ℕ
  pub next_request : ℕ

-- the constructor
abbrev pub new : Bool → DocumentsManager
new fetcher = record {
  by_id = [];
  fetcher = fetcher;
  inflight = [];
  emitter = Emitter.new;
  tag_manager = none;
  correspondent_manager = none;
  next_ref = 0;
  next_request = 0;
}

-- the loop over `rawTags`: the entities with a truthy identifier
pub valid_entities : Items → List Fields
valid_entities nil = []
valid_entities (cons v vs) = elim (truthy_identifier (get "id" (fields_of v))) [
  | none ↦ valid_entities vs
  | some id ↦ fields_of v ∷ valid_entities vs
]

-- and their identifiers
pub valid_ids : Items → List String
valid_ids nil = []
valid_ids (cons v vs) = elim (truthy_identifier (get "id" (fields_of v))) [
  | none ↦ valid_ids vs
  | some id ↦ id ∷ valid_ids vs
]

-- What the extraction of embedded tags or correspondents changes.
pub record Extracted : Type 0 where
  pub catalog : Option Catalog
  pub doc : Fields
  pub next_ref : ℕ

-- An array of objects under `key` goes to the catalog, and the array of its identifiers, which is a
-- new one, takes its place. An array that begins with a plain identifier is left alone.
unfoldable pub extract : String → Option Catalog → Fields → ℕ → Extracted
unfolding valid_entities valid_ids
extract key none doc ref = record { catalog = none; doc = doc; next_ref = ref }
extract key (some catalog) doc ref =
    let raw = elements (get key doc) in
    if is_array (get key doc) && starts_with_object raw
    then record {
      catalog = some (
          if ltb 0 (length (valid_entities raw))
          then Catalog.ingest catalog (valid_entities raw)
          else catalog);
      doc = assign key (array ref (from_texts (valid_ids raw))) doc;
      next_ref = suc ref;
    }
    else record { catalog = some catalog; doc = doc; next_ref = ref }

-- The variables of the loop of `ingest`; `next` is `nextById`.
pub record Progress : Type 0 where
  pub next : Dict Fields
  pub changed : Bool
  pub canonical : List Fields
  pub tags : Option Catalog
  pub correspondents : Option Catalog
  pub next_ref : ℕ

-- `existing ? { ...existing, ...doc } : { ...doc }`
unfoldable pub merge : Option Fields → Fields → Fields
merge none doc = spread end doc
merge (some existing) doc = spread existing doc

-- `useExisting ? existing : merged`, and the write where it is not the existing one: the map, the
-- flag and what the map now holds
unfoldable pub place :
    String → Option Fields → Fields → Dict Fields × Bool → Dict Fields × Bool × Fields
place id none merged (next, changed) = (insert id merged next, true, merged)
place id (some existing) merged (next, changed) =
    if shallow_equal existing merged
    then (next, changed, existing)
    else (insert id merged next, true, merged)

unfoldable pub upsert : String → Fields → Dict Fields × Bool → Dict Fields × Bool × Fields
unfolding merge place
upsert id doc (next, changed) =
    place id (lookup id next) (merge (lookup id next) doc) (next, changed)

-- one round of the loop of `ingest`
unfoldable pub ingest_one : Progress → Fields → Progress
unfolding extract upsert
ingest_one p doc = elim (identifier (get "id" doc)) [
  | none ↦ record p { canonical = p.canonical ++ doc ∷ [] }
  | some id ↦
      let t = extract "tags" p.tags doc p.next_ref in
      let c = extract "correspondents" p.correspondents t.doc t.next_ref in
      let (next, changed, kept) = upsert id c.doc (p.next, p.changed) in
      record {
        next = next;
        changed = changed;
        canonical = p.canonical ++ kept ∷ [];
        tags = t.catalog;
        correspondents = c.catalog;
        next_ref = c.next_ref;
      }
]

unfoldable pub ingest_all : Progress → List Fields → Progress
ingest_all p [] = p
ingest_all p (doc ∷ docs) = ingest_all (ingest_one p doc) docs

-- `filter(Boolean)` over an answer: the entries that are null or undefined are dropped.
unfoldable pub present : List (Option Fields) → List Fields
present [] = []
present (none ∷ docs) = present docs
present (some doc ∷ docs) = doc ∷ present docs

abbrev pub start : DocumentsManager → Progress
start m = record {
  next = m.by_id;
  changed = false;
  canonical = [];
  tags = m.tag_manager;
  correspondents = m.correspondent_manager;
  next_ref = m.next_ref;
}

-- What `ingest` leaves, from what its loop leaves.
unfoldable pub commit : DocumentsManager → Progress → DocumentsManager
commit m p = record m {
  by_id = if p.changed then p.next else m.by_id;
  emitter = if p.changed then Emitter.emit m.emitter else m.emitter;
  tag_manager = p.tags;
  correspondent_manager = p.correspondents;
  next_ref = p.next_ref;
}

-- the new state, `canonical` and `changed`
unfoldable pub ingest :
    DocumentsManager → List (Option Fields) → DocumentsManager × List Fields × Bool
unfolding ingest_one ingest_all present commit
ingest m raw = let p = ingest_all (start m) (present raw) in (commit m p, p.canonical, p.changed)

-- What a call of `ensure` gives: a document at hand or none, the request that is under way, or a
-- new request.
pub data Ensured : Type 0 where
  resolved : Option Fields → Ensured
  joined requested : ℕ → Ensured

-- `override` tells whether a fetcher is given with the call
unfoldable pub ensure : Bool → String → DocumentsManager → DocumentsManager × Ensured
ensure override id m = elim (lookup id m.by_id) [
  | some cached ↦ (m, resolved (some cached))
  | none ↦ if not (override || m.fetcher) then (m, resolved none) else elim (lookup id m.inflight) [
    | some request ↦ (m, joined request)
    | none ↦ (
      record m {
        inflight = insert id m.next_request m.inflight;
        next_request = suc m.next_request;
      },
      requested m.next_request,
    )
  ]
]

-- The rest of a request when the fetcher has answered: what it resolves to, or its failure.
unfoldable pub settle :
    String → Reply (Option Fields) → DocumentsManager → DocumentsManager × Reply (Option Fields)
unfolding ingest
settle id (ok fetched) m =
    let (m', canonical, changed) = ingest m (fetched ∷ []) in
    (record m' { inflight = erase id m'.inflight }, ok (head? canonical))
settle id failed m = (record m { inflight = erase id m.inflight }, failed)

-- `updater` gives none where it returns undefined.
unfoldable pub update :
    String → (Fields → Option Fields) → DocumentsManager → DocumentsManager × Bool
unfolding ingest
update id updater m = elim (lookup id m.by_id) [
  | none ↦ (m, false)
  | some doc ↦ elim (updater doc) [
    | none ↦ (m, false)
    | some changes ↦ let r = ingest m (some (spread (spread end doc) changes) ∷ []) in (r.0, r.2)
  ]
]

-- the loop of `map`: the mapper gives none where it returns undefined or the document itself; each
-- call of it is given the identity of the array that it may make
unfoldable pub map_all : (ℕ → Fields → Option Fields) → ℕ → Dict Fields → Dict Fields × Bool
map_all mapper ref [] = ([], false)
map_all mapper ref ((key, doc) ∷ docs) =
    let (rest, changed) = map_all mapper (suc ref) docs in
    elim (mapper ref doc) [
      | none ↦ ((key, doc) ∷ rest, changed)
      | some next ↦ ((key, next) ∷ rest, true)
    ]

unfoldable pub map_docs : (ℕ → Fields → Option Fields) → DocumentsManager → DocumentsManager × Bool
unfolding map_all
map_docs mapper m =
    let (next, changed) = map_all mapper m.next_ref m.by_id in
    let m' = record m { next_ref = m.next_ref + length m.by_id } in
    if changed
    then (record m' { by_id = next; emitter = Emitter.emit m.emitter }, true)
    else (m', false)

-- the loop of `remove`
unfoldable pub remove_all : Dict Fields × Bool → List String → Dict Fields × Bool
remove_all acc [] = acc
remove_all (next, changed) (id ∷ ids) =
    remove_all (if has id next then (erase id next, true) else (next, changed)) ids

unfoldable pub remove : List String → DocumentsManager → DocumentsManager × Bool
unfolding remove_all
remove ids m =
    let (next, changed) = remove_all (m.by_id, false) ids in
    if changed
    then (record m { by_id = next; emitter = Emitter.emit m.emitter }, true)
    else (m, false)

unfoldable pub get_many : List String → DocumentsManager → List Fields
get_many [] m = []
get_many (id ∷ ids) m = elim (lookup id m.by_id) [
  | none ↦ get_many ids m
  | some doc ↦ doc ∷ get_many ids m
]

unfoldable pub ids_of : List Fields → List String
ids_of [] = []
ids_of (doc ∷ docs) = elim (identifier (get "id" doc)) [
  | none ↦ ids_of docs
  | some id ↦ id ∷ ids_of docs
]

-- `list` after the answer: the identifiers listed
unfoldable pub list :
    Reply (List (Option Fields)) → DocumentsManager → DocumentsManager × Reply (List String)
unfolding ingest ids_of
list (ok results) m = let (m', canonical, changed) = ingest m results in (m', ok (ids_of canonical))
list failed m = (m, failed)
