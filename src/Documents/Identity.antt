-- ===== src/Documents/Identity.antt =====
-- What one round of `ingest` puts in the map: `extract` and `upsert`.
use papercrate.Base.{
  ℕ, ◌≡◌, refl, Bool, Bool-cases, String, true, false, List, [], ◌∷◌, Option, none, some, ◌⊎◌,
  if◌then◌else◌, arith, inl, inr, ◌==◌, eq_refl, eq_iff, is_some,
}
use papercrate.Dict.{Dict, lookup}
use papercrate.Dict.Laws.{lookup-insert}
use papercrate.Js.{
  Value, Items, Fields, array, end, nil, cons, get, has_own, spread, object_is, shallow_equal,
  undefined, starts_with_object, elements, is_array, from_texts, assign,
}
use papercrate.Js.Laws.{
  IsObject, get-spread, object_is_refl, shallow_equal-spread, get-assign, has_own-assign,
  assign-IsObject, spread-IsObject,
}
use papercrate.Catalog.{Catalog}
use papercrate.Documents.{extract, upsert, merge, place, valid_ids}

-- `existing?.[key]`
abbrev pub get_of : String → Option Fields → Value
get_of k none = undefined
get_of k (some f) = get k f

-- What stands for a document after it was taken in over an existing one: each property that it has
-- is the existing or the new value, which `Object.is` does not tell apart; the others are the
-- existing one's.
pub record Merged (existing : Option Fields) (doc kept : Fields) : Type 0 where
  pub given : (k : String) → has_own k doc ≡ true → object_is (get k kept) (get k doc) ≡ true
  pub others : (k : String) → has_own k doc ≡ false → get k kept ≡ get_of k existing

merge-Merged :
    (existing : Option Fields) (doc : Fields)
    → IsObject doc
    → Merged existing doc (merge existing doc)
unfolding merge
merge-Merged none doc h = record {
  given = λ k o. rw (get-spread k end doc h, o) (object_is_refl (get k doc));
  others = λ k o. rw (get-spread k end doc h, o) (unfold get in refl);
}
merge-Merged (some old) doc h = record {
  given = λ k o. rw (get-spread k old doc h, o) (object_is_refl (get k doc));
  others = λ k o. rw (get-spread k old doc h, o) refl;
}

place-Merged :
    (id : String) (existing : Option Fields) (doc : Fields) (acc : Dict Fields × Bool)
    → IsObject doc
    → Merged existing doc (place id existing (merge existing doc) acc).2
unfolding place
place-Merged id none doc acc h = merge-Merged none doc h
place-Merged id (some old) doc acc h =
    elim (Bool-cases (shallow_equal old (merge (some old) doc))) [
      | inl same ↦ rw same (record {
        given = λ k o. shallow_equal-spread k old doc (unfold merge in same) o h;
        others = λ k o. refl;
      })
      | inr other ↦ rw other (merge-Merged (some old) doc h)
    ]

pub upsert-Merged :
    (id : String) (doc : Fields) (acc : Dict Fields × Bool)
    → IsObject doc
    → Merged (lookup id acc.0) doc (upsert id doc acc).2
unfolding upsert
upsert-Merged id doc acc h = place-Merged id (lookup id acc.0) doc acc h

place-lookup :
    (id k : String) (existing : Option Fields) (merged : Fields) (acc : Dict Fields × Bool)
    → lookup id acc.0 ≡ existing
    → lookup k (place id existing merged acc).0
      ≡ (if id == k then some (place id existing merged acc).2 else lookup k acc.0)
unfolding place
place-lookup id k none merged acc e = lookup-insert id k merged acc.0
place-lookup id k (some old) merged acc e =
    ground (arith, lookup-insert id k merged acc.0, eq_iff id k)

pub upsert-lookup :
    (id k : String) (doc : Fields) (acc : Dict Fields × Bool)
    → lookup k (upsert id doc acc).0
      ≡ (if id == k then some (upsert id doc acc).2 else lookup k acc.0)
unfolding upsert
upsert-lookup id k doc acc = place-lookup id k (lookup id acc.0) _ acc refl

pub upsert_unchanged :
    (id : String) (doc : Fields) (acc : Dict Fields × Bool)
    → (upsert id doc acc).1 ≡ false
    → (acc.1 ≡ false) × ((upsert id doc acc).0 ≡ acc.0)
unfolding upsert
upsert_unchanged id doc acc h = ground arith

-- The array of an extracted property begins with no object.
from_texts_plain : (ids : List String) → starts_with_object (from_texts ids) ≡ false
unfolding from_texts starts_with_object
from_texts_plain [] = refl
from_texts_plain (id ∷ ids) = refl

abbrev pub IsPlain : String → Fields → Type 0
IsPlain key doc = starts_with_object (elements (get key doc)) ≡ false

not_array_plain : (v : Value) → is_array v ≡ false → starts_with_object (elements v) ≡ false
unfolding is_array elements starts_with_object
not_array_plain v h = ground arith

module _ (key : String) (catalog : Catalog) (doc : Fields) (ref : ℕ) where
  pub extract-IsPlain : IsPlain key (extract key (some catalog) doc ref).doc
  unfolding extract elements from_texts
  extract-IsPlain = elim (Bool-cases (is_array (get key doc))) [
    | inl isarray ↦ elim (Bool-cases (starts_with_object (elements (get key doc)))) [
      | inl objects ↦
          rw (isarray, objects, get-assign, eq_refl)
            (from_texts_plain (valid_ids (elements (get key doc))))
      | inr plain ↦ rw (isarray, plain) plain
    ]
    | inr other ↦ rw other (not_array_plain (get key doc) other)
  ]

pub array_has_own : (k : String) (f : Fields) → is_array (get k f) ≡ true → has_own k f ≡ true
unfolding is_array get has_own
array_has_own k end h = cc
array_has_own k (papercrate.Js.field j v f) h = ground (arith, array_has_own k f)

module _ (key : String) (catalog : Option Catalog) (doc : Fields) (ref : ℕ) where
  -- The other properties are left alone.
  pub extract-get :
      (k : String) → (key == k) ≡ false → get k (extract key catalog doc ref).doc ≡ get k doc
  unfolding extract
  extract-get k h =
      ground
        (arith, get-assign key k (array ref (from_texts (valid_ids (elements (get key doc))))) doc)

  pub extract-has_own : (k : String) → has_own k (extract key catalog doc ref).doc ≡ has_own k doc
  unfolding extract
  extract-has_own k = ground (
    arith,
    eq_iff key k,
    has_own-assign key k (array ref (from_texts (valid_ids (elements (get key doc))))) doc,
    array_has_own key doc,
  )

  pub extract-IsObject : IsObject doc → IsObject (extract key catalog doc ref).doc
  unfolding extract
  extract-IsObject h = ground (
    arith,
    assign-IsObject key (array ref (from_texts (valid_ids (elements (get key doc))))) doc h,
  )

place_kept :
    (id : String) (existing : Option Fields) (merged : Fields) (acc : Dict Fields × Bool)
    → (existing ≡ some (place id existing merged acc).2)
      ⊎ ((place id existing merged acc).2 ≡ merged)
unfolding place
place_kept id none merged acc = inr refl
place_kept id (some old) merged acc = elim (Bool-cases (shallow_equal old merged)) [
  | inl same ↦ rw same (inl refl)
  | inr other ↦ rw other (inr refl)
]

-- The map now holds the existing document or the merged one.
pub upsert_kept :
    (id : String) (doc : Fields) (acc : Dict Fields × Bool)
    → (lookup id acc.0 ≡ some (upsert id doc acc).2)
      ⊎ ((upsert id doc acc).2 ≡ merge (lookup id acc.0) doc)
unfolding upsert
upsert_kept id doc acc = place_kept id (lookup id acc.0) (merge (lookup id acc.0) doc) acc

pub merge-get :
    (k : String) (existing : Option Fields) (doc : Fields)
    → IsObject doc
    → get k (merge existing doc) ≡ (if has_own k doc then get k doc else get_of k existing)
unfolding merge
merge-get k none doc h = unfold get in get-spread k end doc h
merge-get k (some old) doc h = get-spread k old doc h

pub extract-catalog :
    (key : String) (catalog : Option Catalog) (doc : Fields) (ref : ℕ)
    → is_some (extract key catalog doc ref).catalog ≡ is_some catalog
unfolding extract
extract-catalog key none doc ref = refl
extract-catalog key (some c) doc ref = ground arith

pub merge-IsObject :
    (existing : Option Fields) (doc : Fields)
    → ((old : Fields) → existing ≡ some old → IsObject old)
    → IsObject (merge existing doc)
unfolding merge
merge-IsObject none doc h = spread-IsObject end doc tt
merge-IsObject (some old) doc h = spread-IsObject old doc (h old refl)
