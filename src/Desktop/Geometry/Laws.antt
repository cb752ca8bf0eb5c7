-- ===== src/Desktop/Geometry/Laws.antt =====
-- Which cards cover each other, and how much is seen of a card.
use papercrate.Base.{
  Bool, List, [], any, arith, false, filter, length-filter, ltb, not, refl, true, ◌&&◌, ◌++◌, ◌==◌,
  ◌||◌, ◌∷◌, ◌≡◌, ◌≤◌,
}
use papercrate.Dict.{Dict, values}
use papercrate.Desktop.Numbers.{Numbers}
use papercrate.Desktop.Cards.{Card}
use papercrate.Desktop.Geometry.{
  Point, contains_point, get_axes, has_gap, intersects, is_unobstructed, obstructs, occluders,
  samples, visible_among, visible_samples,
}

any-append {ℓ} :
    {A : Type ℓ} (p : A → Bool) (xs ys : List A) → any p (xs ++ ys) ≡ (any p xs || any p ys)
any-append p [] ys = refl
any-append p (x ∷ xs) ys = ground (arith, any-append p xs ys)

any-ext {ℓ} :
    {A : Type ℓ} (p q : A → Bool) → ((a : A) → p a ≡ q a) → (xs : List A) → any p xs ≡ any q xs
any-ext p q same [] = refl
any-ext p q same (x ∷ xs) = ground (arith, same x, any-ext p q same xs)

module _ (n : Numbers) where
  open n use {Num, lt}

  has_gap_comm : (a b : Card Num) (axis : Point Num) → has_gap n a b axis ≡ has_gap n b a axis
  unfolding has_gap
  has_gap_comm a b axis = ground arith

  -- Two cards intersect whichever of them is asked.
  pub intersects_comm : (a b : Card Num) → intersects n a b ≡ intersects n b a
  unfolding intersects
  intersects_comm a b = ground (
    arith,
    any-append (has_gap n a b) (get_axes n a) (get_axes n b),
    any-append (has_gap n b a) (get_axes n b) (get_axes n a),
    any-ext (has_gap n a b) (has_gap n b a) (has_gap_comm a b) (get_axes n a),
    any-ext (has_gap n a b) (has_gap n b a) (has_gap_comm a b) (get_axes n b),
  )

  any-obstructs :
      (c : Card Num) (others : List (Card Num))
      → any (λ other. not (other.id == c.id) && ltb c.z other.z) others ≡ false
      → any (obstructs n c) others ≡ false
  unfolding obstructs
  any-obstructs c [] top = refl
  any-obstructs c (other ∷ others) top = ground (arith, any-obstructs c others)

  none_above :
      (c : Card Num) (others : List (Card Num))
      → any (λ other. not (other.id == c.id) && ltb c.z other.z) others ≡ false
      → filter (λ other. not (other.id == c.id) && ltb c.z other.z) others ≡ []
  none_above c [] top = refl
  none_above c (other ∷ others) top = ground (arith, none_above c others)

  -- A card with no other above it is obstructed by none and visible in full.
  pub is_unobstructed_top :
      (items : Dict (Card Num)) (c : Card Num)
      → any (λ other. not (other.id == c.id) && ltb c.z other.z) (values items) ≡ false
      → (is_unobstructed n items c ≡ true) × (visible_samples n items c ≡ 16)
  unfolding is_unobstructed visible_samples visible_among occluders
  is_unobstructed_top items c top =
      (rw (any-obstructs c (values items) top), rw (none_above c (values items) top))

  visible_among_le : (c : Card Num) (others : List (Card Num)) → visible_among n c others ≤ 16
  unfolding visible_among samples
  visible_among_le c [] = omega arith
  visible_among_le c (o ∷ os) =
      length-filter (λ p. not (any (λ other. contains_point n other p) (o ∷ os))) (samples n c)

  pub visible_samples_le : (items : Dict (Card Num)) (c : Card Num) → visible_samples n items c ≤ 16
  unfolding visible_samples
  visible_samples_le items c = visible_among_le c (occluders n items c)
