-- ===== src/Documents/Rewrite.antt =====
-- What `update` leaves when its updater puts a new array under one property, as those of tags and
-- correspondents do.
use papercrate.Base.{
  ℕ, ◌≡◌, refl, sym, ◌∙◌, Bool, Bool-cases, String, true, false, [], ◌∷◌, Option, none, some,
  if◌then◌else◌, arith, inl, inr, ◌⊎◌, ◌==◌, eq_refl, eq_iff,
}
use papercrate.Dict.{Dict, lookup}
use papercrate.Js.{
  Value, Items, Fields, array, end, get, has_own, spread, identifier, elements, starts_with_object,
  object_is, is_array,
}
use papercrate.Js.Laws.{
  IsObject, copy-get, get-spread_same, get-assign, has_own-assign, assign-IsObject, spread-IsObject,
}
use papercrate.Catalog.{Catalog}
use papercrate.Documents.{
  DocumentsManager, Progress, extract, upsert, merge, ingest_one, ingest_all, ingest, present,
  start, update,
}
use papercrate.Documents.Mutations.{with_items}
use mathlib.Core.Path.{subst}
use papercrate.Documents.Identity.{
  IsPlain, array_has_own, upsert-lookup, upsert_kept, upsert-Merged, merge-get,
}
use papercrate.Documents.Ingest.{IsStored, taken, ingest-by_id}

-- No array that is there has the identity of one that is made now.
abbrev pub IsNew : ℕ → Value → Type 0
IsNew ref v = (xs : Items) → object_is v (array ref xs) ≡ false

extract_plain :
    (key : String) (c : Option Catalog) (doc : Fields) (ref : ℕ)
    → IsPlain key doc
    → (extract key c doc ref).doc ≡ doc
unfolding extract
extract_plain key none doc ref h = refl
extract_plain key (some c) doc ref h = ground arith

taken-IsPlain :
    (p : Progress) (doc : Fields)
    → IsPlain "tags" doc
    → IsPlain "correspondents" doc
    → taken p doc ≡ doc
taken-IsPlain p doc t c =
    extract_plain "correspondents" p.correspondents _ _
      (rw (extract_plain "tags" p.tags doc p.next_ref t) c)
    ∙ extract_plain "tags" p.tags doc p.next_ref t

-- `ingest` of one document that holds plain identifiers.
ingest-lookup_one :
    (m : DocumentsManager) (id k : String) (doc : Fields)
    → identifier (get "id" doc) ≡ some id
    → IsPlain "tags" doc
    → IsPlain "correspondents" doc
    → lookup k (ingest m (some doc ∷ [])).0.by_id
      ≡ (if id == k then some (upsert id doc (m.by_id, false)).2 else lookup k m.by_id)
unfolding ingest_all present ingest_one
ingest-lookup_one m id k doc keyed t c =
    rw (ingest-by_id m (some doc ∷ []), keyed, ingest_one)
      (rw (taken-IsPlain (start m) doc t c) (upsert-lookup id k doc (m.by_id, false)))

-- A changed copy `{ ...doc, [key]: next }`, spread over a copy of the document.
abbrev revised : String → ℕ → Items → Fields → Fields
revised key ref next doc = spread (spread end doc) (with_items key ref next doc)

module _ (key : String) (ref : ℕ) (next : Items) (doc : Fields) (o : IsObject doc) where
  with_items-get :
      (j : String)
      → get j (with_items key ref next doc) ≡ (if key == j then array ref next else get j doc)
  with_items-get j = rw (get-assign, copy-get j doc o) refl

  with_items-IsObject : IsObject (with_items key ref next doc)
  with_items-IsObject =
      assign-IsObject key (array ref next) (spread end doc) (spread-IsObject end doc tt)

  revised-get :
      (j : String)
      → get j (revised key ref next doc) ≡ (if key == j then array ref next else get j doc)
  revised-get j =
      get-spread_same j (spread end doc) (with_items key ref next doc) with_items-IsObject (λ n.
        ground (
          arith,
          eq_refl key,
          eq_iff key j,
          has_own-assign key j (array ref next) (spread end doc),
          get-assign key j (array ref next) (spread end doc),
        ))
      ∙ with_items-get j

  revised-own : has_own key (revised key ref next doc) ≡ true
  revised-own =
      array_has_own key (revised key ref next doc)
        (unfold is_array in rw (revised-get key, eq_refl))

  revised-IsObject : IsObject (revised key ref next doc)
  revised-IsObject = spread-IsObject (spread end doc) _ (spread-IsObject end doc tt)

  -- Spread over the document itself it still reads as the changed copy.
  merge-revised-get :
      (j : String)
      → get j (merge (some doc) (revised key ref next doc))
        ≡ (if key == j then array ref next else get j doc)
  unfolding merge
  merge-revised-get j =
      get-spread_same j doc (revised key ref next doc) revised-IsObject (λ n.
        elim (Bool-cases (key == j)) [
          | inl same ↦
              let here : has_own j (revised key ref next doc) ≡ true =
                subst (λ x. has_own x (revised key ref next doc) ≡ true) ((eq_iff key j).0 same)
                  revised-own in
              cc
          | inr other ↦ sym (revised-get j ∙ rw other)
        ])
      ∙ revised-get j

-- One document is another now, and the rest of the map is as it was.
pub record Rewritten (id : String) (before after : Dict Fields) (kept : Fields) : Type 0 where
  pub here : lookup id after ≡ some kept
  pub elsewhere : (k : String) → (id == k) ≡ false → lookup k after ≡ lookup k before

-- A property has a new array, and the others read as before.
pub record HasItems (key : String) (next : Items) (doc kept : Fields) : Type 0 where
  pub at_key : elements (get key kept) ≡ next
  pub others : (j : String) → (key == j) ≡ false → get j kept ≡ get j doc

abbrev IsTracked : String → Type 0
IsTracked key = (key ≡ "tags") ⊎ (key ≡ "correspondents")

choice_plain :
    (b : Bool) (ref : ℕ) (next : Items) (v : Value)
    → starts_with_object next ≡ false
    → starts_with_object (elements v) ≡ false
    → starts_with_object (elements (if b then array ref next else v)) ≡ false
unfolding elements
choice_plain true ref next v h k = h
choice_plain false ref next v h k = k

if_same {ℓ} : {A : Type ℓ} (b : Bool) {x y z : A} → x ≡ z → y ≡ z → (if b then x else y) ≡ z
if_same true p q = p
if_same false p q = q

tracked-ne-id : (key : String) → IsTracked key → (key == "id") ≡ false
tracked-ne-id key (inl e) = rw e
tracked-ne-id key (inr e) = rw e

module _ (m : DocumentsManager) (id : String) (doc : Fields) (key : String) (next : Items)
    (found : lookup id m.by_id ≡ some doc) (s : IsStored id doc) where
  update-ingest :
      (updater : Fields → Option Fields) (changes : Fields)
      → updater doc ≡ some changes
      → (update id updater m).0 ≡ (ingest m (some (spread (spread end doc) changes) ∷ [])).0
  unfolding update
  update-ingest updater changes e = rw (found, update) (rw e)

  -- `update` comes to `ingest` of the changed copy.
  update-Rewritten :
      (updater : Fields → Option Fields) (changes : Fields)
      → updater doc ≡ some changes
      → identifier (get "id" (spread (spread end doc) changes)) ≡ some id
      → IsPlain "tags" (spread (spread end doc) changes)
      → IsPlain "correspondents" (spread (spread end doc) changes)
      → Rewritten id m.by_id
          (update id updater m).0.by_id
          (upsert id (spread (spread end doc) changes) (m.by_id, false)).2
  update-Rewritten updater changes e keyed t c =
      let at =
        λ (k : String). ingest-lookup_one m id k (spread (spread end doc) changes) keyed t c in
      rw (update-ingest updater changes e)
        (record { here = at id ∙ rw eq_refl; elsewhere = λ k other. at k ∙ rw other })

  abbrev result : ℕ → Fields
  result ref = (upsert id (revised key ref next doc) (m.by_id, false)).2

  -- The new array is kept: an existing document with another array is not taken for the same.
  revised_kept :
      (ref : ℕ) → IsNew ref (get key doc) → result ref ≡ merge (some doc) (revised key ref next doc)
  revised_kept ref fresh = elim (upsert_kept id (revised key ref next doc) (m.by_id, false)) [
    | inl old ↦
        let same : result ref ≡ doc = cc in
        let alike =
          (upsert-Merged id (revised key ref next doc) (m.by_id, false)
              (revised-IsObject key ref next doc s.is_object)).given
            key (revised-own key ref next doc s.is_object) in
        let now : object_is (get key doc) (array ref next) ≡ true =
          rw (same, revised-get key ref next doc s.is_object key, eq_refl) at alike in
        absurd (cc (fresh next))
    | inr merged ↦ rw (← found) merged
  ]

  revised-HasItems : (ref : ℕ) → IsNew ref (get key doc) → HasItems key next doc (result ref)
  revised-HasItems ref fresh = rw (revised_kept ref fresh) (record {
    at_key =
        rw (merge-revised-get key ref next doc s.is_object key, eq_refl) (unfold elements in refl);
    others = λ j other. rw (merge-revised-get key ref next doc s.is_object j, other) refl;
  })

  -- An updater that gives the copy with the new array.
  pub update_items :
      (updater : Fields → Option Fields) (ref : ℕ)
      → IsTracked key
      → updater doc ≡ some (with_items key ref next doc)
      → starts_with_object next ≡ false
      → IsNew ref (get key doc)
      → (kept : Fields) × Rewritten id m.by_id (update id updater m).0.by_id kept
        × HasItems key next doc kept
  update_items updater ref tracked e plain fresh = (
    result ref,
    update-Rewritten updater (with_items key ref next doc) e
        (rw (revised-get key ref next doc s.is_object "id", tracked-ne-id key tracked) s.keyed)
        (revised_plain "tags" s.tags) (revised_plain "correspondents" s.correspondents),
    revised-HasItems ref fresh,
  )
    where
      revised_plain : (j : String) → IsPlain j doc → IsPlain j (revised key ref next doc)
      revised_plain j h =
          rw (revised-get key ref next doc s.is_object j)
            (choice_plain (key == j) ref next (get j doc) plain h)

  -- An updater that gives the document itself leaves it as it reads.
  pub update_same :
      (updater : Fields → Option Fields)
      → updater doc ≡ some doc
      → (kept : Fields) × Rewritten id m.by_id (update id updater m).0.by_id kept
        × ((j : String) → get j kept ≡ get j doc)
  update_same updater e = (
    (upsert id copy (m.by_id, false)).2,
    update-Rewritten updater doc e (rw (copied "id") s.keyed) (rw (copied "tags") s.tags)
        (rw (copied "correspondents") s.correspondents),
    λ j. elim (upsert_kept id copy (m.by_id, false)) [
      | inl old ↦ let same : (upsert id copy (m.by_id, false)).2 ≡ doc = cc in rw same
      | inr merged ↦
          rw (merged, found)
            (merge-get j (some doc) copy
                (spread-IsObject (spread end doc) doc (spread-IsObject end doc tt))
              ∙ if_same (has_own j copy) (copied j) refl)
    ],
  )
    where
      copy : Fields
      copy = spread (spread end doc) doc

      copied : (j : String) → get j copy ≡ get j doc
      copied j =
          get-spread_same j (spread end doc) doc s.is_object (λ n. copy-get j doc s.is_object)
