-- ===== src/Desktop/Store/Order.antt =====
-- `bringToFront` of the store in terms of indices: where each card of the sorted list goes.
use papercrate.Base.{
  List, Option, Option-cases, String, [], arith, contains, eq_iff, if◌then◌else◌, inl, inr, is_some,
  none, refl, some, true, false, ◌==◌, ◌∷◌, ◌≡◌, ◌≤◌, ◌&&◌, ◌||◌, ℕ, suc, ◌∙◌,
}
use papercrate.Dict.{Dict, keys, lookup}
use papercrate.Desktop.Numbers.{Numbers}
use papercrate.Desktop.Cards.{Card, no_changes, update}
use papercrate.Desktop.Store.{LayoutStore}
use papercrate.Desktop.Store.Front.{cards_of, insert_by_z, raise, raise_to, sort_by_z}
use papercrate.Desktop.Store.Laws.{lookup-modify}
use papercrate.Desktop.Stacking.{update-z}

module _ (n : Numbers) where
  open n use {Num}

  -- the index of the card under a key
  abbrev pub z_at : String → Dict (Card Num) → Option ℕ
  z_at k items = elim (lookup k items) [ none ↦ none | some c ↦ some c.z ]

  -- the index that a list of cards gives a key, when the first takes the given one
  unfoldable pub place_of : String → Dict (Card Num) → ℕ → Option ℕ
  place_of k [] next = none
  place_of k ((id, c) ∷ cards) next =
      let rest = place_of k cards (suc next) in
      if is_some rest then rest else if id == k then some next else none

  abbrev pub placed : Option ℕ → Option ℕ → Option ℕ
  placed none old = old
  placed (some z) none = none
  placed (some z) (some _) = some z

  pub z_at-raise_to :
      (k id : String) (z : ℕ) (items : Dict (Card Num))
      → z_at k (raise_to n z id items)
        ≡ (if id == k then placed (some z) (z_at k items) else z_at k items)
  unfolding raise_to
  z_at-raise_to k id z items = elim (Option-cases (lookup k items)) [
    | inl missing ↦
        ground
          (arith, lookup-modify id k (update n (record no_changes { z = some z }) true false) items)
    | inr (c, found) ↦ ground (
      arith,
      lookup-modify id k (update n (record no_changes { z = some z }) true false) items,
      update-z n (record no_changes { z = some z }) true false c,
    )
  ]

  pub z_at-raise :
      (k : String) (cards : Dict (Card Num)) (s : LayoutStore Num)
      → z_at k (raise n cards s).items ≡ placed (place_of k cards s.z_counter) (z_at k s.items)
  unfolding raise place_of
  z_at-raise k [] s = refl
  z_at-raise k ((id, c) ∷ cards) s =
      z_at-raise k cards
        (record s { items = raise_to n s.z_counter id s.items; z_counter = suc s.z_counter })
      ∙ ground (arith, z_at-raise_to k id s.z_counter s.items)

  pub place_of-ge :
      (k : String) (cards : Dict (Card Num)) (next z : ℕ)
      → place_of k cards next ≡ some z
      → next ≤ z
  unfolding place_of
  place_of-ge k [] next z e = cc
  place_of-ge k ((id, c) ∷ cards) next z e = ground (arith, place_of-ge k cards (suc next) z)

  pub is_some-place_of :
      (k : String) (cards : Dict (Card Num)) (next : ℕ)
      → is_some (place_of k cards next) ≡ contains k (keys cards)
  unfolding place_of contains keys
  is_some-place_of k [] next = refl
  is_some-place_of k ((id, c) ∷ cards) next = ground (arith, is_some-place_of k cards (suc next))

  contains-insert_by_z :
      (k id : String) (c : Card Num) (cards : Dict (Card Num))
      → contains k (keys (insert_by_z n (id, c) cards)) ≡ (id == k || contains k (keys cards))
  unfolding insert_by_z contains keys
  contains-insert_by_z k id c [] = refl
  contains-insert_by_z k id c ((j, d) ∷ cards) = ground (arith, contains-insert_by_z k id c cards)

  pub contains-sort_by_z :
      (k : String) (cards : Dict (Card Num))
      → contains k (keys (sort_by_z n cards)) ≡ contains k (keys cards)
  unfolding sort_by_z contains keys
  contains-sort_by_z k [] = refl
  contains-sort_by_z k ((id, c) ∷ cards) =
      ground (arith, contains-sort_by_z k cards, contains-insert_by_z k id c (sort_by_z n cards))

  pub contains-cards_of :
      (k : String) (items : Dict (Card Num)) (ids : List String)
      → contains k (keys (cards_of n items ids)) ≡ (is_some (lookup k items) && contains k ids)
  unfolding cards_of contains keys
  contains-cards_of k items [] = ground arith
  contains-cards_of k items (id ∷ ids) = elim (Option-cases (lookup id items)) [
    | inl missing ↦
        rw (missing, cards_of) (ground (arith, contains-cards_of k items ids, eq_iff id k))
    | inr (c, found) ↦
        rw (found, cards_of) (ground (arith, contains-cards_of k items ids, eq_iff id k))
  ]
