-- ===== src/Catalog.antt =====
-- The manager of tags, frontend/src/lib/assets/TagManager.ts, and that of correspondents,
-- CorrespondentManager.ts, which has the same code over another record. An entity is the fields of
-- its object. An asynchronous method is split where it waits: what it does when called, and what it
-- does with the answer of the API. `emit` calls the listeners at once.
pub mod Laws
pub mod Fetch
pub mod Payload
mod Tests
use papercrate.Base.{
  ℕ, zero, suc, ◌+◌, ◌-◌, Bool, String, true, false, List, [], ◌∷◌, ◌++◌, Option, none, some,
  if◌then◌else◌, ltb, ◌&&◌, ◌||◌, not, length,
}
use papercrate.Api.{Reply, ok, failed}
use papercrate.Dict.{Dict, lookup, insert, erase, has, values}
use papercrate.Js.{Fields, get, spread, truthy_identifier}
use papercrate.Json.{same_json}

pub record Catalog : Type 0 where
  pub by_id : Dict Fields
  pub listeners : List ℕ
  pub calls : List ℕ
  -- a request for the whole list is under way (`tagsPromise`, `correspondentsPromise`)
  pub promised : Bool
  pub loaded : Bool
  -- requests for the list that have been sent
  pub requests : ℕ

abbrev pub new : Catalog
new = record {
  by_id = [];
  listeners = [];
  calls = [];
  promised = false;
  loaded = false;
  requests = 0;
}

unfoldable pub emit : Catalog → Catalog
emit c = record c { calls = c.calls ++ c.listeners }

-- `tag.id` where the code asks for a truthy one
unfoldable pub id_of : Fields → Option String
id_of tag = truthy_identifier (get "id" tag)

-- `JSON.stringify(existing) === JSON.stringify(tag)`; a missing one prints as no text.
unfoldable pub prints_alike : Option Fields → Fields → Bool
prints_alike none tag = false
prints_alike (some existing) tag = same_json existing tag

-- one round of the loop of `ingest`: `old` is `this.byId`, `next` is `nextMap` or, before the
-- first change, what it will be a copy of
unfoldable pub ingest_one : Dict Fields → Dict Fields × Bool → Fields → Dict Fields × Bool
unfolding prints_alike id_of
ingest_one old (next, changed) tag = elim (id_of tag) [
  | none ↦ (next, changed)
  | some id ↦
      if prints_alike (lookup id old) tag then (next, changed) else (insert id tag next, true)
]

unfoldable pub ingest_all : Dict Fields → Dict Fields × Bool → List Fields → Dict Fields × Bool
ingest_all old acc [] = acc
ingest_all old acc (tag ∷ tags) = ingest_all old (ingest_one old acc tag) tags

unfoldable pub ingest : Catalog → List Fields → Catalog
unfolding ingest_one ingest_all emit
ingest c tags =
    let (next, changed) = ingest_all c.by_id (c.by_id, false) tags in
    if changed then emit (record c { by_id = next }) else c

remove_all : Dict Fields → Dict Fields × Bool → List String → Dict Fields × Bool
remove_all old acc [] = acc
remove_all old (next, changed) (id ∷ ids) =
    remove_all old (if has id old then (erase id next, true) else (next, changed)) ids

unfoldable pub remove : Catalog → List String → Catalog
unfolding remove_all emit
remove c ids =
    let (next, changed) = remove_all c.by_id (c.by_id, false) ids in
    if changed then emit (record c { by_id = next }) else c

-- What a call of `ensureAll` gives: the entities at hand, the promise that is under way, or the
-- promise of a new request.
pub data Ensured : Type 0 where
  at_hand : List Fields → Ensured
  joined requested : Ensured

unfoldable pub ensure_all : Bool → Catalog → Catalog × Ensured
ensure_all force c =
    if c.loaded && not force && ltb 0 (length c.by_id)
    then (c, at_hand (values c.by_id))
    else if c.promised && not force
    then (c, joined)
    else (record c { promised = true; requests = suc c.requests }, requested)

unfoldable pub fill_one : Dict Fields → Fields → Dict Fields
fill_one m tag = elim (id_of tag) [ none ↦ m | some id ↦ insert id tag m ]

unfoldable pub fill : Dict Fields → List Fields → Dict Fields
fill m [] = m
fill m (tag ∷ tags) = fill (fill_one m tag) tags

-- `fetchTagsInternal` after the answer: its state and the array it resolves to
unfoldable pub fetched : Reply (List Fields) → Catalog → Catalog × List Fields
unfolding fill fill_one id_of emit
fetched (ok tags) c =
    (record (emit (record c { by_id = fill [] tags })) { loaded = true; promised = false }, tags)
fetched failed c = (record c { promised = false }, [])

-- the methods that change one entity, after the answer of the API; a failure is thrown on
unfoldable pub create : Reply Fields → Catalog → Catalog × Reply Fields
unfolding ingest
create (ok tag) c = (ingest c (tag ∷ []), ok tag)
create failed c = (c, failed)

unfoldable pub update : String → Fields → Reply (Unit {0}) → Catalog → Catalog × Reply (Unit {0})
unfolding ingest ensure_all
update id changes (ok _) c = elim (lookup id c.by_id) [
  | none ↦ ((ensure_all true c).0, ok tt)
  | some existing ↦ (ingest c (spread (spread Fields.end existing) changes ∷ []), ok tt)
]
update id changes failed c = (c, failed)

unfoldable pub delete : String → Reply (Unit {0}) → Catalog → Catalog × Reply (Unit {0})
unfolding remove
delete id (ok _) c = (remove c (id ∷ []), ok tt)
delete id failed c = (c, failed)
