-- ===== src/Documents/Ingest.antt =====
-- The invariant of the map of documents, and that `ingest` keeps it.
use papercrate.Base.{
  ◌≡◌, refl, sym, ◌∙◌, Bool, Bool-cases, String, true, false, List, [], ◌∷◌, Option, none, some,
  arith, inl, inr, ◌⊎◌, Option-cases, ◌==◌, eq_iff, is_some, All,
}
use papercrate.Dict.{Dict, lookup}
use papercrate.Js.{Value, Fields, text, get, has_own, identifier, elements, starts_with_object}
use papercrate.Js.Laws.{IsObject, has_own_of_get}
use mathlib.Core.Path.{subst}
use papercrate.Emitter
use papercrate.Documents.{
  DocumentsManager, Progress, extract, upsert, merge, ingest_one, ingest_all, ingest, present,
  start,
}
use papercrate.Documents.Identity.{
  get_of, IsPlain, upsert-lookup, upsert_unchanged, upsert_kept, merge-get, extract-IsPlain,
  extract-get, extract-has_own, extract-IsObject, extract-catalog, merge-IsObject,
}

-- A document as the map holds it: under its own identifier, an object, and neither its tags nor its
-- correspondents begin with an object. The code looks at the first element only.
pub record IsStored (id : String) (doc : Fields) : Type 0 where
  pub keyed : identifier (get "id" doc) ≡ some id
  pub is_object : IsObject doc
  pub tags : IsPlain "tags" doc
  pub correspondents : IsPlain "correspondents" doc

abbrev pub AllStored : Dict Fields → Type 0
AllStored m = (id : String) (doc : Fields) → lookup id m ≡ some doc → IsStored id doc

-- The managers of tags and correspondents have been set, and every document is well stored.
pub record IsWired (m : DocumentsManager) : Type 0 where
  pub stored : AllStored m.by_id
  pub tags : is_some m.tag_manager ≡ true
  pub correspondents : is_some m.correspondent_manager ≡ true

record InLoop (p : Progress) : Type 0 where
  stored : AllStored p.next
  tags : is_some p.tags ≡ true
  correspondents : is_some p.correspondents ≡ true

-- the document that a round of the loop takes in, after the extraction
abbrev pub taken : Progress → Fields → Fields
taken p doc =
    let t = extract "tags" p.tags doc p.next_ref in
    (extract "correspondents" p.correspondents t.doc t.next_ref).doc

module _ (p : Progress) (doc : Fields) where
  pub taken-get :
      (k : String)
      → ("tags" == k) ≡ false
      → ("correspondents" == k) ≡ false
      → get k (taken p doc) ≡ get k doc
  taken-get k t c =
      extract-get "correspondents" _ _ _ k c ∙ extract-get "tags" p.tags doc p.next_ref k t

  pub taken-has_own : (k : String) → has_own k (taken p doc) ≡ has_own k doc
  taken-has_own k =
      extract-has_own "correspondents" _ _ _ k ∙ extract-has_own "tags" p.tags doc p.next_ref k

  pub taken-IsObject : IsObject doc → IsObject (taken p doc)
  taken-IsObject h =
      extract-IsObject "correspondents" _ _ _ (extract-IsObject "tags" p.tags doc p.next_ref h)

some_of {ℓ} : {A : Type ℓ} (o : Option A) → is_some o ≡ true → (a : A) × (o ≡ some a)
some_of none h = cc
some_of (some a) h = (a, refl)

taken-IsPlain :
    (p : Progress) (doc : Fields)
    → InLoop p
    → IsPlain "tags" (taken p doc) × IsPlain "correspondents" (taken p doc)
taken-IsPlain p doc v =
    let (t, et) = some_of p.tags v.tags in
    let (c, ec) = some_of p.correspondents v.correspondents in
    let plain : IsPlain "tags" (extract "tags" p.tags doc p.next_ref).doc =
      rw et (extract-IsPlain "tags" t doc p.next_ref) in
    (
      rw
          (extract-get "correspondents" p.correspondents (extract "tags" p.tags doc p.next_ref).doc
            (extract "tags" p.tags doc p.next_ref).next_ref "tags" refl)
          plain,
      rw ec (extract-IsPlain "correspondents" c _ _),
    )

keyed_of_text : (v : Value) (id : String) → identifier v ≡ some id → v ≡ text id
unfolding identifier
keyed_of_text v id h = ground arith

abbrev ExistingStored : String → Option Fields → Type 0
ExistingStored id existing = (old : Fields) → existing ≡ some old → IsStored id old

get_of-IsPlain :
    (key : String) (existing : Option Fields)
    → ((old : Fields) → existing ≡ some old → IsPlain key old)
    → starts_with_object (elements (get_of key existing)) ≡ false
unfolding elements starts_with_object
get_of-IsPlain key none old = refl
get_of-IsPlain key (some o) old = old o refl

-- The merged document is well stored.
module _ (id : String) (doc : Fields) (is_object : IsObject doc)
    (keyed : get "id" doc ≡ text id) where
  merge-get-id :
      (existing : Option Fields)
      → ExistingStored id existing
      → identifier (get "id" (merge existing doc)) ≡ some id
  merge-get-id existing old =
      rw (merge-get "id" existing doc is_object, has_own_of_get "id" id doc keyed)
        (unfold identifier in rw keyed)

  merge-IsPlain :
      (key : String) (existing : Option Fields)
      → IsPlain key doc
      → ((old : Fields) → existing ≡ some old → IsPlain key old)
      → IsPlain key (merge existing doc)
  merge-IsPlain key existing plain old = elim (Bool-cases (has_own key doc)) [
    | inl own ↦ rw (merge-get key existing doc is_object, own) plain
    | inr not_own ↦
        rw (merge-get key existing doc is_object, not_own) (get_of-IsPlain key existing old)
  ]

  merge-IsStored :
      (existing : Option Fields)
      → IsPlain "tags" doc
      → IsPlain "correspondents" doc
      → ExistingStored id existing
      → IsStored id (merge existing doc)
  merge-IsStored existing t c old = record {
    keyed = merge-get-id existing old;
    is_object = merge-IsObject existing doc (λ o e. (old o e).is_object);
    tags = merge-IsPlain "tags" existing t (λ o e. (old o e).tags);
    correspondents = merge-IsPlain "correspondents" existing c (λ o e. (old o e).correspondents);
  }

upsert-AllStored :
    (id : String) (doc : Fields) (acc : Dict Fields × Bool)
    → IsStored id doc
    → AllStored acc.0
    → AllStored (upsert id doc acc).0
upsert-AllStored id doc acc s all k found e = elim (Bool-cases (id == k)) [
  | inr other ↦ all k found (ground (arith, upsert-lookup id k doc acc))
  | inl same ↦
      let kept : (upsert id doc acc).2 ≡ found = ground (arith, upsert-lookup id k doc acc) in
      subst (λ f. IsStored k f) kept
        (subst (λ j. IsStored j (upsert id doc acc).2) ((eq_iff id k).0 same)
          (elim (upsert_kept id doc acc) [
            | inl old ↦ all id _ old
            | inr merged ↦ rw merged (
                merge-IsStored id doc s.is_object (keyed_of_text _ id s.keyed) (lookup id acc.0)
                  s.tags s.correspondents (λ o h. all id o h))
          ]))
]

module _ (p : Progress) (doc : Fields) where
  -- What a round does with a document that has an identifier.
  ingest_one-next :
      (id : String)
      → identifier (get "id" doc) ≡ some id
      → (ingest_one p doc).next ≡ (upsert id (taken p doc) (p.next, p.changed)).0
  unfolding ingest_one
  ingest_one-next id h = rw (h, ingest_one)

  taken-IsStored :
      (id : String)
      → identifier (get "id" doc) ≡ some id
      → IsObject doc
      → InLoop p
      → IsStored id (taken p doc)
  taken-IsStored id h o v =
      let (t, c) = taken-IsPlain p doc v in
      record {
        keyed = rw (taken-get p doc "id" refl refl) h;
        is_object = taken-IsObject p doc o;
        tags = t;
        correspondents = c;
      }

  ingest_one-InLoop : IsObject doc → InLoop p → InLoop (ingest_one p doc)
  unfolding ingest_one
  ingest_one-InLoop o v = elim (Option-cases (identifier (get "id" doc))) [
    | inl missing ↦
        rw (missing, ingest_one)
          (record { stored = v.stored; tags = v.tags; correspondents = v.correspondents })
    | inr (id, found) ↦
        rw (found, ingest_one)
          (record {
            stored =
                upsert-AllStored id (taken p doc) (p.next, p.changed) (taken-IsStored id found o v)
                  v.stored;
            tags = extract-catalog "tags" p.tags doc p.next_ref ∙ v.tags;
            correspondents =
                extract-catalog "correspondents" p.correspondents _ _ ∙ v.correspondents;
          })
  ]

ingest_all-InLoop :
    (p : Progress) (docs : List Fields) → All IsObject docs → InLoop p → InLoop (ingest_all p docs)
unfolding ingest_all
ingest_all-InLoop p [] o v = v
ingest_all-InLoop p (doc ∷ docs) (o, os) v =
    ingest_all-InLoop (ingest_one p doc) docs os (ingest_one-InLoop p doc o v)

ingest_one_unchanged :
    (p : Progress) (doc : Fields)
    → (ingest_one p doc).changed ≡ false
    → (p.changed ≡ false) × ((ingest_one p doc).next ≡ p.next)
unfolding ingest_one
ingest_one_unchanged p doc h = elim (Option-cases (identifier (get "id" doc))) [
  | inl missing ↦ rw (missing, ingest_one) ((rw (missing, ingest_one) at h), refl)
  | inr (id, found) ↦
      rw (found, ingest_one)
        (upsert_unchanged id (taken p doc) (p.next, p.changed) (rw (found, ingest_one) at h))
]

ingest_all_unchanged :
    (p : Progress) (docs : List Fields)
    → (ingest_all p docs).changed ≡ false
    → (p.changed ≡ false) × ((ingest_all p docs).next ≡ p.next)
unfolding ingest_all
ingest_all_unchanged p [] h = (h, refl)
ingest_all_unchanged p (doc ∷ docs) h =
    let (one, same) = ingest_all_unchanged (ingest_one p doc) docs h in
    let (before, same') = ingest_one_unchanged p doc one in (before, same ∙ same')

-- The map that `ingest` leaves is the one of its loop, written back or not.
pub ingest-by_id :
    (m : DocumentsManager) (raw : List (Option Fields))
    → (ingest m raw).0.by_id ≡ (ingest_all (start m) (present raw)).next
unfolding ingest
ingest-by_id m raw = elim (Bool-cases (ingest_all (start m) (present raw)).changed) [
  | inl h ↦ rw h
  | inr h ↦ rw h (sym (ingest_all_unchanged (start m) (present raw) h).1)
]

-- Once the managers of tags and correspondents are set, `ingest` of objects keeps them set, and every
-- stored document an object under its own identifier whose tags and whose correspondents do not begin
-- with an object, as embedded entities would. Nothing is said of their further elements.
pub ingest-IsWired :
    (m : DocumentsManager) (raw : List (Option Fields))
    → All IsObject (present raw)
    → IsWired m
    → IsWired (ingest m raw).0
ingest-IsWired m raw o w =
    let v : InLoop (start m) = record {
      stored = w.stored;
      tags = w.tags;
      correspondents = w.correspondents;
    } in
    let v' = ingest_all-InLoop (start m) (present raw) o v in
    record {
      stored = rw (ingest-by_id m raw) v'.stored;
      tags = unfold ingest in v'.tags;
      correspondents = unfold ingest in v'.correspondents;
    }

-- `ingest` reports a change exactly where it schedules a notification, and otherwise leaves the map.
pub ingest_reports :
    (m : DocumentsManager) (raw : List (Option Fields))
    → (((ingest m raw).2 ≡ true) × ((ingest m raw).0.emitter ≡ Emitter.emit m.emitter))
      ⊎ (((ingest m raw).2 ≡ false)
          × ((ingest m raw).0.by_id ≡ m.by_id)
          × ((ingest m raw).0.emitter ≡ m.emitter))
unfolding ingest
ingest_reports m raw = elim (Bool-cases (ingest_all (start m) (present raw)).changed) [
  | inl h ↦ rw h (inl (refl, refl))
  | inr h ↦ rw h (inr (refl, refl, refl))
]
