-- ===== src/Desktop/Geometry.antt =====
-- Where a card may lie, and which cards cover which: the geometry of `LayoutCard`
-- (frontend/src/desktop/logic/LayoutSystem.ts) and frontend/src/desktop/utils/layoutUtils.ts.
pub mod Laws
use papercrate.Base.{
  Bool, List, Option, String, [], any, filter, if◌then◌else◌, length, ltb, map, none, not, some,
  ◌&&◌, ◌++◌, ◌==◌, ◌||◌, ◌∷◌, ℕ,
}
use papercrate.Dict.{Dict, values}
use papercrate.Desktop.Numbers.{Numbers}
use papercrate.Desktop.Cards.{Card}

-- a pair of coordinates, and the ends of a projection
pub record Point (A : Type 0) : Type 0 where
  pub x : A
  pub y : A

pub record Span (A : Type 0) : Type 0 where
  pub least : A
  pub most : A

pub record Size (A : Type 0) : Type 0 where
  pub width : A
  pub height : A

module _ (n : Numbers) where
  open n use {Num, of, add, sub, mul, div, neg, pi, infinity, sin, cos, abs, sqrt, min, max, lt}

  -- `a <= b` is `!(b < a)`: no number here is NaN
  unfoldable pub at_most : Num → Num → Bool
  at_most a b = not (lt b a)

  abbrev radians : Num → Num
  radians degrees = div (mul degrees pi) (of 180)

  -- `CONTAINER_PADDING`
  abbrev pub padding : Num
  padding = of 18

  -- `constrainDimensions`
  unfoldable pub constrain_dimensions : Num → Num → Num → Size Num
  unfolding at_most
  constrain_dimensions width height largest =
      if at_most width largest && at_most height largest
      then record { width = width; height = height }
      else if lt height width
      then record { width = largest; height = div largest (div width height) }
      else record { width = mul largest (div width height); height = largest }

  -- the width and the height of the box around the rotated card
  unfoldable pub rotated_width : Card Num → Num
  rotated_width c =
      add (mul c.width (abs (cos (radians c.rotation))))
        (mul c.height (abs (sin (radians c.rotation))))

  unfoldable pub rotated_height : Card Num → Num
  rotated_height c =
      add (mul c.width (abs (sin (radians c.rotation))))
        (mul c.height (abs (cos (radians c.rotation))))

  -- `minX` and `maxX`, `minY` and `maxY`
  unfoldable pub least_x : Card Num → Num
  least_x c = add padding (div (sub (rotated_width c) c.width) (of 2))

  unfoldable pub most_x : Num → Card Num → Num
  most_x container_width c =
      sub (sub (sub container_width padding) c.width) (div (sub (rotated_width c) c.width) (of 2))

  unfoldable pub least_y : Card Num → Num
  least_y c = add padding (div (sub (rotated_height c) c.height) (of 2))

  unfoldable pub most_y : Num → Card Num → Num
  most_y container_height c =
      sub (sub (sub container_height padding) c.height)
        (div (sub (rotated_height c) c.height) (of 2))

  -- `getConstrainedPosition`, in a container of a width and a height
  unfoldable pub get_constrained_position : Num → Num → Card Num → Num → Num → Point Num
  get_constrained_position container_width container_height c x y = record {
    x = max (least_x c) (min x (most_x container_width c));
    y = max (least_y c) (min y (most_y container_height c));
  }

  unfoldable pub rotate_corner : Card Num → Num → Num → Point Num
  rotate_corner c px py = record {
    x =
        add (sub (mul px (cos (radians c.rotation))) (mul py (sin (radians c.rotation))))
          c.center_x;
    y =
        add (add (mul px (sin (radians c.rotation))) (mul py (cos (radians c.rotation))))
          c.center_y;
  }

  -- `getVertices`
  unfoldable pub get_vertices : Card Num → List (Point Num)
  get_vertices c =
      let hw = div c.width (of 2) in
      let hh = div c.height (of 2) in
      rotate_corner c (neg hw) (neg hh)
      ∷ rotate_corner c hw (neg hh)
      ∷ rotate_corner c hw hh
      ∷ rotate_corner c (neg hw) hh
      ∷ []

  -- `getAxes`
  unfoldable pub get_axes : Card Num → List (Point Num)
  get_axes c =
      record { x = cos (radians c.rotation); y = sin (radians c.rotation) }
      ∷ record { x = neg (sin (radians c.rotation)); y = cos (radians c.rotation) }
      ∷ []

  abbrev widen : Span Num → Num → Span Num
  widen s dot = record {
    least = if lt dot s.least then dot else s.least;
    most = if lt s.most dot then dot else s.most;
  }

  -- the loop of `project`
  unfoldable pub project_from : Span Num → List (Point Num) → Point Num → Span Num
  project_from s [] axis = s
  project_from s (v ∷ vs) axis =
      project_from (widen s (add (mul v.x axis.x) (mul v.y axis.y))) vs axis

  unfoldable pub project : List (Point Num) → Point Num → Span Num
  project vertices axis =
      project_from (record { least = infinity; most = neg infinity }) vertices axis

  -- the gap that the loop of `intersects` looks for on an axis
  unfoldable pub has_gap : Card Num → Card Num → Point Num → Bool
  unfolding project
  has_gap a b axis =
      let p = project (get_vertices a) axis in
      let q = project (get_vertices b) axis in lt p.most q.least || lt q.most p.least

  -- `intersects`
  unfoldable pub intersects : Card Num → Card Num → Bool
  unfolding has_gap get_axes
  intersects a b = not (any (has_gap a b) (get_axes a ++ get_axes b))

  -- the body of the loop of `isUnobstructed`: does the other card stop it
  unfoldable pub obstructs : Card Num → Card Num → Bool
  unfolding intersects
  obstructs c other =
      let dx = sub other.x c.x in
      let dy = sub other.y c.y in
      let distance = sqrt (add (mul dx dx) (mul dy dy)) in
      not (other.id == c.id)
      && ltb c.z other.z
      && lt distance (add c.outer_radius other.outer_radius)
      && intersects c other

  -- `isUnobstructed`
  unfoldable pub is_unobstructed : Dict (Card Num) → Card Num → Bool
  unfolding obstructs
  is_unobstructed items c = not (any (obstructs c) (values items))

  -- `containsPoint`
  unfoldable pub contains_point : Card Num → Point Num → Bool
  unfolding at_most
  contains_point c p =
      let dx = sub p.x c.center_x in
      let dy = sub p.y c.center_y in
      let rad = div (mul (neg c.rotation) pi) (of 180) in
      let local_x = sub (mul dx (cos rad)) (mul dy (sin rad)) in
      let local_y = add (mul dx (sin rad)) (mul dy (cos rad)) in
      let hw = div c.width (of 2) in
      let hh = div c.height (of 2) in
      at_most (neg hw) local_x
      && at_most local_x hw
      && at_most (neg hh) local_y
      && at_most local_y hh

  -- the occluders of `getVisibleFraction`
  unfoldable pub occluders : Dict (Card Num) → Card Num → List (Card Num)
  occluders items c = filter (λ other. not (other.id == c.id) && ltb c.z other.z) (values items)

  -- the sample point in column `i` and row `j`
  unfoldable pub sample : Card Num → ℕ → ℕ → Point Num
  sample c i j =
      let nx = sub (mul (div (of i) (of 3)) (of 2)) (of 1) in
      let ny = sub (mul (div (of j) (of 3)) (of 2)) (of 1) in
      let lx = mul (mul nx (div c.width (of 2))) (div (of 9) (of 10)) in
      let ly = mul (mul ny (div c.height (of 2))) (div (of 9) (of 10)) in rotate_corner c lx ly

  -- the sixteen samples in the order of the loops
  abbrev columns : List ℕ
  columns = 0 ∷ 1 ∷ 2 ∷ 3 ∷ []

  unfoldable pub samples : Card Num → List (Point Num)
  unfolding sample
  samples c =
      map (sample c 0) columns
      ++ map (sample c 1) columns
      ++ map (sample c 2) columns
      ++ map (sample c 3) columns

  -- how many samples none of the occluders contains
  unfoldable pub visible_among : Card Num → List (Card Num) → ℕ
  unfolding samples contains_point
  visible_among c [] = 16
  visible_among c (o ∷ os) =
      length (filter (λ p. not (any (λ other. contains_point other p) (o ∷ os))) (samples c))

  -- `getVisibleFraction`, in sixteenths
  unfoldable pub visible_samples : Dict (Card Num) → Card Num → ℕ
  unfolding occluders visible_among
  visible_samples items c = visible_among c (occluders items c)
