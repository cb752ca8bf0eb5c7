-- ===== src/Catalog/Fetch.antt =====
-- What a fetch of the whole list leaves, and what `ensureAll` does after it.
use papercrate.Base.{
  ◌≡◌, refl, String, true, false, List, [], ◌∷◌, ◌||◌, arith, contains, Distinct, All, Option-cases,
  inl, inr, ◌∙◌, eq_refl, ltb, length,
}
use papercrate.Dict.{Dict, lookup, insert, has, keys, values}
use papercrate.Dict.Laws.{lookup-insert, contains-keys-insert}
use papercrate.Js.{Fields}
use papercrate.Api.{ok}
use papercrate.Catalog.{Catalog, id_of, fill, fill_one, fetched, ensure_all, at_hand}
use papercrate.Catalog.Laws.{ids_of, Stored, ids_of_found, ids_of_tail}

module _ (k : String) where
  fill-absent :
      (m : Dict Fields) (tags : List Fields)
      → contains k (ids_of tags) ≡ false
      → lookup k (fill m tags) ≡ lookup k m
  unfolding fill fill_one ids_of contains
  fill-absent m [] h = refl
  fill-absent m (tag ∷ tags) h = elim (Option-cases (id_of tag)) [
    | inl missing ↦ rw (missing, fill_one) (fill-absent m tags (rw (missing, ids_of) at h))
    | inr (id, found) ↦
        let h' = rw (found, ids_of) at h in
        rw (found, fill_one)
          (fill-absent (insert id tag m) tags (ground arith)
            ∙ ground (arith, lookup-insert id k tag m))
  ]

  -- The new map has an identifier exactly where it had it or the answer has it.
  fill-has :
      (m : Dict Fields) (tags : List Fields)
      → contains k (keys (fill m tags)) ≡ (contains k (keys m) || contains k (ids_of tags))
  unfolding fill fill_one ids_of contains
  fill-has m [] = ground arith
  fill-has m (tag ∷ tags) = elim (Option-cases (id_of tag)) [
    | inl missing ↦ rw (missing, ids_of, fill_one) (fill-has m tags)
    | inr (id, found) ↦
        rw (found, ids_of, fill_one)
          (fill-has (insert id tag m) tags ∙ ground (arith, contains-keys-insert id k tag m))
  ]

fill_one-Stored : (m : Dict Fields) (tag : Fields) → Stored (fill_one m tag) tag
unfolding fill_one
fill_one-Stored m tag id found = rw (found, fill_one) (rw (lookup-insert, eq_refl) refl)

fill-Stored :
    (m : Dict Fields) (tags : List Fields)
    → Distinct (ids_of tags)
    → All (Stored (fill m tags)) tags
unfolding fill
fill-Stored m [] d = tt
fill-Stored m (tag ∷ tags) d = (
  λ id found.
      let d' = rw (ids_of_found id tag tags found) at d in
      rw (fill-absent id (fill_one m tag) tags d'.0) (fill_one-Stored m tag id found),
  fill-Stored (fill_one m tag) tags (ids_of_tail tag tags d),
)

-- After the answer of a fetch, of entities with distinct identifiers, the map holds just what the API listed, each entity under its
-- identifier; no fetch is under way, and `ensureAll()` gives the entities at hand, if there are any,
-- with no request sent.
pub fetched_replaces :
    (c : Catalog) (tags : List Fields)
    → Distinct (ids_of tags)
    → All (Stored (fetched (ok tags) c).0.by_id) tags
      × ((k : String) → has k (fetched (ok tags) c).0.by_id ≡ contains k (ids_of tags))
      × ((fetched (ok tags) c).0.promised ≡ false)
      × (ltb 0 (length (fetched (ok tags) c).0.by_id) ≡ true
          → ensure_all false (fetched (ok tags) c).0
            ≡ ((fetched (ok tags) c).0, at_hand (values (fetched (ok tags) c).0.by_id)))
unfolding fetched ensure_all has
fetched_replaces c tags d = (fill-Stored [] tags d, λ k. fill-has k [] tags, refl, λ h. rw h)
