-- ===== src/Desktop/Store/Fronting.antt =====
-- The cards that are brought to the front lie above all others, in the order that they had.
use papercrate.Base.{
  All, Bool-cases, List, Option-cases, String, [], arith, contains, eq_iff, inl, inr, leb, some,
  true, false, ◌∷◌, ◌≡◌, ◌<◌, ◌≤◌, ℕ, suc, ◌∙◌,
}
use papercrate.Dict.{Dict, lookup}
use papercrate.Dict.Every.{Every, Every-mono, lookup-Every}
use papercrate.Desktop.Numbers.{Numbers}
use papercrate.Desktop.Cards.{Card}
use papercrate.Desktop.Store.{LayoutStore}
use papercrate.Desktop.Store.Front.{bring_to_front, cards_of, insert_by_z, sort_by_z}
use papercrate.Desktop.Store.Order.{
  contains-cards_of, contains-sort_by_z, is_some-place_of, place_of, place_of-ge, z_at, z_at-raise,
}
use papercrate.Desktop.Stacking.{CardsBelow, IsStacked}

module _ (n : Numbers) where
  open n use {Num}

  abbrev IsSortedByZ : Dict (Card Num) → Type 0
  IsSortedByZ [] = Unit
  IsSortedByZ ((id, c) ∷ cards) = Every (λ d. c.z ≤ d.z) cards × IsSortedByZ cards

  -- Each entry is a card of the map, with its index.
  abbrev AreOf : Dict (Card Num) → Dict (Card Num) → Type 0
  AreOf items cards = All (λ e. z_at n e.0 items ≡ some e.1.z) cards

  insert_by_z-Every {κ} :
      (P : String × Card Num → Type κ) (e : String × Card Num) (cards : Dict (Card Num))
      → P e
      → All P cards
      → All P (insert_by_z n e cards)
  unfolding insert_by_z
  insert_by_z-Every P (id, c) [] p h = (p, tt)
  insert_by_z-Every P (id, c) ((j, d) ∷ cards) p h = elim (Bool-cases (leb c.z d.z)) [
    | inl before ↦ rw before (p, h)
    | inr after ↦ rw after (h.0, insert_by_z-Every P (id, c) cards p h.1)
  ]

  sort_by_z-Every {κ} :
      (P : String × Card Num → Type κ) (cards : Dict (Card Num))
      → All P cards
      → All P (sort_by_z n cards)
  unfolding sort_by_z
  sort_by_z-Every P [] h = tt
  sort_by_z-Every P (e ∷ cards) h = insert_by_z-Every P e _ h.0 (sort_by_z-Every P cards h.1)

  insert_by_z-IsSortedByZ :
      (id : String) (c : Card Num) (cards : Dict (Card Num))
      → IsSortedByZ cards
      → IsSortedByZ (insert_by_z n (id, c) cards)
  unfolding insert_by_z
  insert_by_z-IsSortedByZ id c [] h = (tt, tt)
  insert_by_z-IsSortedByZ id c ((j, d) ∷ cards) h = elim (Bool-cases (leb c.z d.z)) [
    | inl before ↦
        let le : c.z ≤ d.z = ground arith in
        rw before
          ((le, Every-mono (λ e. d.z ≤ e.z) (λ e. c.z ≤ e.z) (λ e p. omega arith) cards h.0), h)
    | inr after ↦
        let le : d.z ≤ c.z = ground arith in
        rw after (
          insert_by_z-Every (λ e. d.z ≤ e.1.z) (id, c) cards le h.0,
          insert_by_z-IsSortedByZ id c cards h.1,
        )
  ]

  sort_by_z-IsSortedByZ : (cards : Dict (Card Num)) → IsSortedByZ (sort_by_z n cards)
  unfolding sort_by_z
  sort_by_z-IsSortedByZ [] = tt
  sort_by_z-IsSortedByZ ((id, c) ∷ cards) =
      insert_by_z-IsSortedByZ id c (sort_by_z n cards) (sort_by_z-IsSortedByZ cards)

  cards_of-AreOf :
      (items : Dict (Card Num)) (ids : List String) → AreOf items (cards_of n items ids)
  unfolding cards_of
  cards_of-AreOf items [] = tt
  cards_of-AreOf items (id ∷ ids) = elim (Option-cases (lookup id items)) [
    | inl missing ↦ rw (missing, cards_of) (cards_of-AreOf items ids)
    | inr (c, found) ↦
        let at : z_at n id items ≡ some c.z = ground arith in
        rw (found, cards_of) (at, cards_of-AreOf items ids)
  ]

  -- A key that is placed by a list of cards of at least a given index has such an index.
  place_of-z_at :
      (k : String) (items cards : Dict (Card Num)) (next least z old : ℕ)
      → AreOf items cards
      → Every (λ c. least ≤ c.z) cards
      → place_of n k cards next ≡ some z
      → z_at n k items ≡ some old
      → least ≤ old
  unfolding place_of
  place_of-z_at k items [] next least z old o h e f = cc
  place_of-z_at k items ((id, c) ∷ cards) next least z old o h e f =
      elim (Option-cases (place_of n k cards (suc next))) [
        | inr (later, found) ↦
            place_of-z_at k items cards (suc next) least later old o.1 h.1 found f
        | inl missing ↦
            let same : id ≡ k = ground (arith, eq_iff id k) in
            let here : z_at n k items ≡ some c.z = rw (← same) o.0 in ground arith
      ]

  -- The placing of a sorted list keeps the order.
  place_of_mono :
      (a b : String) (items cards : Dict (Card Num)) (next za zb old_a old_b : ℕ)
      → IsSortedByZ cards
      → AreOf items cards
      → place_of n a cards next ≡ some za
      → place_of n b cards next ≡ some zb
      → z_at n a items ≡ some old_a
      → z_at n b items ≡ some old_b
      → old_a < old_b
      → za < zb
  unfolding place_of
  place_of_mono a b items [] next za zb old_a old_b sorted o pa pb fa fb lt = cc
  place_of_mono a b items ((id, c) ∷ cards) next za zb old_a old_b sorted o pa pb fa fb lt =
      elim (Option-cases (place_of n a cards (suc next))) [
        | inr (later_a, found_a) ↦ elim (Option-cases (place_of n b cards (suc next))) [
          | inr (later_b, found_b) ↦ ground (
            arith,
            place_of_mono a b items cards (suc next) later_a later_b old_a old_b sorted.1 o.1
                found_a found_b fa fb lt,
          )
          | inl missing_b ↦
              let same : id ≡ b = ground (arith, eq_iff id b) in
              let here : z_at n b items ≡ some c.z = rw (← same) o.0 in
              ground (
                arith,
                place_of-z_at a items cards (suc next) c.z later_a old_a o.1 sorted.0 found_a fa,
              )
        ]
        | inl missing_a ↦ elim (Option-cases (place_of n b cards (suc next))) [
          | inr (later_b, found_b) ↦ ground (arith, place_of-ge n b cards (suc next) later_b)
          | inl missing_b ↦
              let same_a : id ≡ a = ground (arith, eq_iff id a) in
              let same_b : id ≡ b = ground (arith, eq_iff id b) in
              let here_a : z_at n a items ≡ some c.z = rw (← same_a) o.0 in
              let here_b : z_at n b items ≡ some c.z = rw (← same_b) o.0 in ground arith
        ]
      ]

  -- Where a named card goes.
  named_at :
      (ids : List String) (s : LayoutStore Num) (k : String) (old : ℕ)
      → contains k ids ≡ true
      → z_at n k s.items ≡ some old
      → (z : ℕ) × (place_of n k (sort_by_z n (cards_of n s.items ids)) s.z_counter ≡ some z)
        × (z_at n k (bring_to_front n ids s).items ≡ some z)
        × (s.z_counter ≤ z)
  unfolding bring_to_front
  named_at ids s k old named f =
      let cards : Dict (Card Num) = sort_by_z n (cards_of n s.items ids) in
      elim (Option-cases (place_of n k cards s.z_counter)) [
        | inl missing ↦ absurd (
            ground (
              arith,
              is_some-place_of n k cards s.z_counter,
              contains-sort_by_z n k (cards_of n s.items ids),
              contains-cards_of n k s.items ids,
            ))
        | inr (z, found) ↦ (
          z,
          found,
          ground (arith, z_at-raise n k cards s),
          place_of-ge n k cards s.z_counter z found,
        )
      ]

  unnamed_at :
      (ids : List String) (s : LayoutStore Num) (k : String)
      → contains k ids ≡ false
      → z_at n k (bring_to_front n ids s).items ≡ z_at n k s.items
  unfolding bring_to_front
  unnamed_at ids s k unnamed =
      let cards : Dict (Card Num) = sort_by_z n (cards_of n s.items ids) in
      elim (Option-cases (place_of n k cards s.z_counter)) [
        | inl missing ↦ ground (arith, z_at-raise n k cards s)
        | inr (z, found) ↦ absurd (
            ground (
              arith,
              is_some-place_of n k cards s.z_counter,
              contains-sort_by_z n k (cards_of n s.items ids),
              contains-cards_of n k s.items ids,
            ))
      ]

  z_at-lt :
      (k : String) (items : Dict (Card Num)) (bound old : ℕ)
      → CardsBelow n bound items
      → z_at n k items ≡ some old
      → old < bound
  z_at-lt k items bound old below f = elim (Option-cases (lookup k items)) [
    | inl missing ↦ absurd (ground arith)
    | inr (c, found) ↦
        ground (arith, lookup-Every (λ (c : Card Num). c.z < bound) k items c below found)
  ]

  -- In a store whose cards are below its counter: after cards are brought to the front, one of them
  -- has an index, no card that was not named has another than before, and each of those is below
  -- each of the named ones.
  pub bring_to_front_above :
      (ids : List String) (s : LayoutStore Num) (a b : String) (old_a old_b : ℕ)
      → IsStacked n s
      → contains a ids ≡ true
      → contains b ids ≡ false
      → z_at n a s.items ≡ some old_a
      → z_at n b s.items ≡ some old_b
      → (z : ℕ) × (z_at n a (bring_to_front n ids s).items ≡ some z)
        × (z_at n b (bring_to_front n ids s).items ≡ some old_b)
        × (old_b < z)
  bring_to_front_above ids s a b old_a old_b k in_a in_b fa fb =
      let (z, place, at, ge) = named_at ids s a old_a in_a fa in
      let lt : old_b < s.z_counter = z_at-lt b s.items s.z_counter old_b k.cards fb in
      (z, at, unnamed_at ids s b in_b ∙ fb, omega arith)

  -- Two cards that are brought to the front together, one below the other, stay so.
  pub bring_to_front_keeps_order :
      (ids : List String) (s : LayoutStore Num) (a b : String) (old_a old_b : ℕ)
      → contains a ids ≡ true
      → contains b ids ≡ true
      → z_at n a s.items ≡ some old_a
      → z_at n b s.items ≡ some old_b
      → old_a < old_b
      → (za : ℕ) × (zb : ℕ) × (z_at n a (bring_to_front n ids s).items ≡ some za)
        × (z_at n b (bring_to_front n ids s).items ≡ some zb)
        × (za < zb)
  bring_to_front_keeps_order ids s a b old_a old_b in_a in_b fa fb lt =
      let cards : Dict (Card Num) = sort_by_z n (cards_of n s.items ids) in
      let (za, place_a, at_a, _) = named_at ids s a old_a in_a fa in
      let (zb, place_b, at_b, _) = named_at ids s b old_b in_b fb in
      let sorted = sort_by_z-IsSortedByZ (cards_of n s.items ids) in
      let of_items = sort_by_z-Every _ (cards_of n s.items ids) (cards_of-AreOf s.items ids) in
      (
        za,
        zb,
        at_a,
        at_b,
        place_of_mono a b s.items cards s.z_counter za zb old_a old_b sorted of_items place_a
            place_b fa fb lt,
      )
