-- ===== src/Desktop/Numbers.antt =====
-- The numbers that the desktop computes coordinates, sizes and angles with: the floating point
-- numbers of the language, of which this library has none, and the `Math` functions. Every
-- definition of the desktop takes them as a parameter. The laws that a theorem needs are those of
-- numbers that are no NaN, with the two zeros one number, as `===` has it.
use papercrate.Base.{◌≡◌, ◌↔◌, Bool, ℕ, true}

pub record Numbers : Type 1 where
  pub Num : Type 0
  -- an integer literal
  pub of : ℕ → Num
  pub add : Num → Num → Num
  pub sub : Num → Num → Num
  pub mul : Num → Num → Num
  pub div : Num → Num → Num
  pub neg : Num → Num
  -- `Math.PI`, `Infinity` and the functions of `Math`
  pub pi : Num
  pub infinity : Num
  pub sin : Num → Num
  pub cos : Num → Num
  pub abs : Num → Num
  pub sqrt : Num → Num
  pub min : Num → Num → Num
  pub max : Num → Num → Num
  -- `<` and `===`
  pub lt : Num → Num → Bool
  pub same : Num → Num → Bool

-- What the theorems rely on: `===` is equality.
pub record IsExact (n : Numbers) : Type 0 where
  pub same_iff : (a b : n.Num) → (n.same a b ≡ true) ↔ (a ≡ b)
