-- ===== src/Desktop/Store/Placing.antt =====
-- `getInitialPosition` (frontend/src/desktop/utils/layoutUtils.ts): the best of twenty random places.
use papercrate.Base.{List, [], ◌∷◌, ℕ, zero, suc, if◌then◌else◌}
use papercrate.Desktop.Numbers.{Numbers}
use papercrate.Desktop.Cards.{Card}
use papercrate.Desktop.Geometry.{padding}
use papercrate.Desktop.Store.{Position}

-- the candidate so far, its score, and how many random numbers were drawn
pub record Search (A : Type 0) : Type 0 where
  pub best : Position A
  pub score : A
  pub drawn : ℕ

module _ (n : Numbers) where
  open n use {Num, of, add, sub, mul, div, neg, infinity, min, max, lt}

  -- the loop over the neighbours
  unfoldable pub neighbour_dist : Num → Num → Num → Num → List (Card Num) → Num
  neighbour_dist cx cy radius least [] = least
  neighbour_dist cx cy radius least (other ∷ others) =
      let dx = sub cx other.center_x in
      let dy = sub cy other.center_y in
      let radii = add radius other.outer_radius in
      let to_edge = sub (add (mul dx dx) (mul dy dy)) (mul radii radii) in
      neighbour_dist cx cy radius (if lt to_edge least then to_edge else least) others

  -- `minX + Math.random() * (maxX - minX)` of a container's extent and a card's
  unfoldable pub random_between : Num → Num → Num → Num
  random_between extent side random =
      let most = max (padding n) (sub (sub extent side) (padding n)) in
      add (padding n) (mul random (sub most (padding n)))

  -- the score of a candidate
  unfoldable pub score_of : Num → Num → Card Num → List (Card Num) → Num → Num → Num
  unfolding neighbour_dist
  score_of width height card others x y =
      min (min (min x (sub width (add x card.width))) (min y (sub height (add y card.height)))) (
        neighbour_dist (add x (div card.width (of 2))) (add y (div card.height (of 2)))
          card.outer_radius infinity others)

  -- the body of the loop
  unfoldable pub try_place :
      (ℕ → Num) → Num → Num → Card Num → List (Card Num) → Search Num → Search Num
  unfolding random_between score_of
  try_place random width height card others t =
      let x = random_between width card.width (random t.drawn) in
      let y = random_between height card.height (random (suc t.drawn)) in
      let score = score_of width height card others x y in
      if lt t.score score
      then record {
        best = record {
          x = x;
          y = y;
          rotation = sub (mul (random (suc (suc t.drawn))) (of 10)) (of 5);
        };
        score = score;
        drawn = suc (suc (suc t.drawn));
      }
      else record t { drawn = suc (suc t.drawn) }

  unfoldable pub try_places :
      ℕ → (ℕ → Num) → Num → Num → Card Num → List (Card Num) → Search Num → Search Num
  unfolding try_place
  try_places zero random width height card others t = t
  try_places (suc k) random width height card others t =
      try_places k random width height card others (try_place random width height card others t)

  unfoldable pub get_initial_position :
      (ℕ → Num) → Num → Num → Card Num → List (Card Num) → Position Num
  unfolding try_places
  get_initial_position random width height card others =
      let start : Search Num = record {
        best = record { x = of 0; y = of 0; rotation = of 0 };
        score = neg infinity;
        drawn = 0;
      } in
      (try_places 20 random width height card others start).best
