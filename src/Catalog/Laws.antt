-- ===== src/Catalog/Laws.antt =====
-- What `ingest`, `remove` and the fetch leave in the map.
use papercrate.Base.{
  ◌≡◌, refl, Bool, String, true, false, List, [], ◌∷◌, Option, none, some, arith, contains,
  Distinct, eq_iff, eq_refl, Option-cases, Bool-cases, inl, inr, ◌∙◌, All, ap, sym,
}
use papercrate.Dict.{Dict, lookup}
use papercrate.Dict.Laws.{lookup-insert}
use papercrate.Js.{Fields}
use papercrate.Json.{same_json, tokens_of_fields, tokens_eq→eq, tokens_eq_refl}
use papercrate.Catalog.{Catalog, id_of, prints_alike, ingest_one, ingest_all, ingest}

-- The identifiers of the entities that have one.
unfoldable pub ids_of : List Fields → List String
ids_of [] = []
ids_of (tag ∷ tags) = elim (id_of tag) [ none ↦ ids_of tags | some id ↦ id ∷ ids_of tags ]

-- What an entity prints as.
abbrev pub printed : Option Fields → Option (List papercrate.Json.Token)
printed none = none
printed (some f) = some (tokens_of_fields f)

prints_alike→eq :
    (o : Option Fields) (f : Fields)
    → prints_alike o f ≡ true
    → printed o ≡ some (tokens_of_fields f)
unfolding prints_alike same_json
prints_alike→eq none f h = cc
prints_alike→eq (some e) f h = ap some (tokens_eq→eq (tokens_of_fields e) (tokens_of_fields f) h)

-- The map holds an entity that prints as this one under its identifier.
abbrev pub Stored : Dict Fields → Fields → Type 0
Stored m tag =
    (id : String) → id_of tag ≡ some id → printed (lookup id m) ≡ some (tokens_of_fields tag)

module _ (k : String) (old : Dict Fields) where
  ingest_one_absent :
      (acc : Dict Fields × Bool) (tag : Fields)
      → contains k (ids_of (tag ∷ [])) ≡ false
      → lookup k (ingest_one old acc tag).0 ≡ lookup k acc.0
  unfolding ingest_one ids_of contains
  ingest_one_absent acc tag h = elim (Option-cases (id_of tag)) [
    | inl missing ↦ ground arith
    | inr (id, found) ↦ ground (arith, lookup-insert id k tag acc.0)
  ]

  -- An identifier that the array does not have is left alone.
  ingest_all_absent :
      (acc : Dict Fields × Bool) (tags : List Fields)
      → contains k (ids_of tags) ≡ false
      → lookup k (ingest_all old acc tags).0 ≡ lookup k acc.0
  unfolding ingest_all ids_of contains
  ingest_all_absent acc [] h = refl
  ingest_all_absent acc (tag ∷ tags) h =
      ingest_all_absent (ingest_one old acc tag) tags (ground arith)
      ∙ ingest_one_absent acc tag (ground arith)

  ingest_one_stored :
      (acc : Dict Fields × Bool) (tag : Fields)
      → id_of tag ≡ some k
      → lookup k acc.0 ≡ lookup k old
      → printed (lookup k (ingest_one old acc tag).0) ≡ some (tokens_of_fields tag)
  unfolding ingest_one
  ingest_one_stored acc tag h same = elim (Bool-cases (prints_alike (lookup k old) tag)) [
    | inl alike ↦ rw (h, ingest_one) (rw (alike) (rw same (prints_alike→eq _ tag alike)))
    | inr differs ↦ rw (h, ingest_one) (rw (differs, lookup-insert, eq_refl) refl)
  ]

pub ids_of_found :
    (id : String) (tag : Fields) (tags : List Fields)
    → id_of tag ≡ some id
    → ids_of (tag ∷ tags) ≡ id ∷ ids_of tags
unfolding ids_of
ids_of_found id tag tags h = rw (h, ids_of)

pub ids_of_tail :
    (tag : Fields) (tags : List Fields) → Distinct (ids_of (tag ∷ tags)) → Distinct (ids_of tags)
unfolding ids_of
ids_of_tail tag tags d = elim (Option-cases (id_of tag)) [
  | inl missing ↦ rw (missing, ids_of) at d
  | inr (id, found) ↦ (rw (found, ids_of) at d).1
]

-- No identifier of the tail is that of the head.
apart :
    (k : String) (tag : Fields) (tags : List Fields)
    → Distinct (ids_of (tag ∷ tags))
    → contains k (ids_of tags) ≡ true
    → contains k (ids_of (tag ∷ [])) ≡ false
unfolding ids_of contains
apart k tag tags d m = elim (Option-cases (id_of tag)) [
  | inl missing ↦ rw (missing, ids_of)
  | inr (id, found) ↦
      let d' = rw (found, ids_of) at d in rw (found, ids_of) (ground (arith, eq_iff id k, d'.0))
]

contains-ids_of-cons :
    (k : String) (tag : Fields) (tags : List Fields)
    → contains k (ids_of tags) ≡ true
    → contains k (ids_of (tag ∷ tags)) ≡ true
unfolding ids_of contains
contains-ids_of-cons k tag tags m = ground arith

ingest_all-Stored :
    (old : Dict Fields) (acc : Dict Fields × Bool) (tags : List Fields)
    → ((k : String) → contains k (ids_of tags) ≡ true → lookup k acc.0 ≡ lookup k old)
    → Distinct (ids_of tags)
    → All (Stored (ingest_all old acc tags).0) tags
unfolding ingest_all
ingest_all-Stored old acc [] fresh d = tt
ingest_all-Stored old acc (tag ∷ tags) fresh d = (
  λ id e.
      let d' : Distinct (id ∷ ids_of tags) = rw (ids_of_found id tag tags e) at d in
      let m : contains id (ids_of (tag ∷ tags)) ≡ true =
        rw (ids_of_found id tag tags e) (unfold contains in ground (arith, eq_refl id)) in
      rw (ingest_all_absent id old (ingest_one old acc tag) tags d'.0)
        (ingest_one_stored id old acc tag e (fresh id m)),
  ingest_all-Stored old (ingest_one old acc tag) tags
      (λ k m.
        ingest_one_absent k old acc tag (apart k tag tags d m)
        ∙ fresh k (contains-ids_of-cons k tag tags m))
      (ids_of_tail tag tags d),
)

ingest_one_unchanged :
    (old : Dict Fields) (acc : Dict Fields × Bool) (tag : Fields)
    → (ingest_one old acc tag).1 ≡ false
    → (acc.1 ≡ false) × ((ingest_one old acc tag).0 ≡ acc.0)
unfolding ingest_one
ingest_one_unchanged old acc tag h = ground arith

ingest_all_unchanged :
    (old : Dict Fields) (acc : Dict Fields × Bool) (tags : List Fields)
    → (ingest_all old acc tags).1 ≡ false
    → (acc.1 ≡ false) × ((ingest_all old acc tags).0 ≡ acc.0)
unfolding ingest_all
ingest_all_unchanged old acc [] h = (h, refl)
ingest_all_unchanged old acc (tag ∷ tags) h =
    let (one, same) = ingest_all_unchanged old (ingest_one old acc tag) tags h in
    let (before, same') = ingest_one_unchanged old acc tag one in (before, same ∙ same')

ingest-by_id :
    (c : Catalog) (tags : List Fields)
    → (ingest c tags).by_id ≡ (ingest_all c.by_id (c.by_id, false) tags).0
unfolding ingest
ingest-by_id c tags = elim (Bool-cases (ingest_all c.by_id (c.by_id, false) tags).1) [
  | inl h ↦ rw h
  | inr h ↦ rw h (sym (ingest_all_unchanged c.by_id (c.by_id, false) tags h).1)
]

-- For entities with distinct identifiers `ingest` leaves under each identifier an entity that
-- prints as the one given, and every other entry as it was.
pub ingest_stores :
    (c : Catalog) (tags : List Fields)
    → Distinct (ids_of tags)
    → All (Stored (ingest c tags).by_id) tags
      × ((k : String)
          → contains k (ids_of tags) ≡ false
          → lookup k (ingest c tags).by_id ≡ lookup k c.by_id)
ingest_stores c tags d = rw (ingest-by_id c tags) (
  ingest_all-Stored c.by_id (c.by_id, false) tags (λ k m. refl) d,
  λ k h. ingest_all_absent k c.by_id (c.by_id, false) tags h,
)

prints_alike_of_printed :
    (o : Option Fields) (tag : Fields)
    → printed o ≡ some (tokens_of_fields tag)
    → prints_alike o tag ≡ true
unfolding prints_alike same_json
prints_alike_of_printed none tag h = cc
prints_alike_of_printed (some e) tag h =
    let same : tokens_of_fields e ≡ tokens_of_fields tag = cc in
    rw same (tokens_eq_refl (tokens_of_fields tag))

ingest_one_settled :
    (old : Dict Fields) (acc : Dict Fields × Bool) (tag : Fields)
    → Stored old tag
    → ingest_one old acc tag ≡ acc
unfolding ingest_one
ingest_one_settled old acc tag h = elim (Option-cases (id_of tag)) [
  | inl missing ↦ rw (missing, ingest_one)
  | inr (id, found) ↦
      rw (found, ingest_one) (rw (prints_alike_of_printed (lookup id old) tag (h id found)))
]

ingest_all_settled :
    (old : Dict Fields) (acc : Dict Fields × Bool) (tags : List Fields)
    → All (Stored old) tags
    → ingest_all old acc tags ≡ acc
unfolding ingest_all
ingest_all_settled old acc [] h = refl
ingest_all_settled old acc (tag ∷ tags) h =
    rw (ingest_one_settled old acc tag h.0) (ingest_all_settled old acc tags h.1)

ingest_settled : (c : Catalog) (tags : List Fields) → All (Stored c.by_id) tags → ingest c tags ≡ c
unfolding ingest
ingest_settled c tags h = rw (ingest_all_settled c.by_id (c.by_id, false) tags h)

-- Entities with distinct identifiers that have just been taken in change nothing when they come again: the map is the same
-- one and no listener is called.
pub ingest_idempotent :
    (c : Catalog) (tags : List Fields)
    → Distinct (ids_of tags)
    → ingest (ingest c tags) tags ≡ ingest c tags
ingest_idempotent c tags d =
    let stored = (ingest_stores c tags d).0 in rw (ingest_settled (ingest c tags) tags stored)

-- An array with two entities of one identifier: `ingest` compares the second with the map as it was
-- before the array, so a second one that prints as the old entry does not take back the first.
pub ingest_repeated :
    (c : Catalog) (first second existing : Fields) (id : String)
    → id_of first ≡ some id
    → id_of second ≡ some id
    → lookup id c.by_id ≡ some existing
    → same_json existing first ≡ false
    → same_json existing second ≡ true
    → lookup id (ingest c (first ∷ second ∷ [])).by_id ≡ some first
unfolding ingest_all ingest_one prints_alike
ingest_repeated c first second existing id f s e differs alike =
    rw (ingest-by_id c (first ∷ second ∷ []))
      (ground (arith, lookup-insert id id first c.by_id, eq_refl id))
