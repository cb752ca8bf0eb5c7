-- ===== src/Base/Keys.antt =====
-- Lists of identifiers, read as the sets and arrays of identifiers of the program.
use Prim.Native.String.{String}
use Prim.Native.Nat.{ℕ, suc, ◌+◌, ◌≤◌}
use mathlib.Core.Path.{◌≡◌, refl, ◌∙◌}
use mathlib.Core.Logic.{inl, inr}
use mathlib.Core.Bool.{Bool, true, false, ◌&&◌, ◌||◌}
use mathlib.Core.List.{List, [], ◌∷◌, ◌++◌}
use native.Mathlib.Omega.{arith}
use text.Mathlib.Text.{◌==◌}
use text.Mathlib.TextEquality.{eq_iff}
use text.Mathlib.TextPositions.{eq_refl}
use papercrate.Base.Tests.{ltb, Bool-cases, if◌then◌else◌}
use papercrate.Base.Lists.{filter}

-- `Array.prototype.includes`, and `Set.prototype.has` of the set made from the array.
unfoldable pub contains : String → List String → Bool
contains k [] = false
contains k (x ∷ xs) = x == k || contains k xs

-- `new Set([...seen, ...ids])` as an array: each identifier at its first place.
unfoldable pub unique : List String → List String → List String
unique seen [] = seen
unique seen (x ∷ xs) = unique (if contains x seen then seen else seen ++ x ∷ []) xs

-- No identifier twice.
abbrev pub Distinct : List String → Type 0
Distinct [] = Unit
Distinct (x ∷ xs) = (contains x xs ≡ false) × Distinct xs

pub contains-append :
    (k : String) (xs ys : List String) → contains k (xs ++ ys) ≡ (contains k xs || contains k ys)
unfolding contains
contains-append k [] ys = refl
contains-append k (x ∷ xs) ys = ground (arith, contains-append k xs ys)

pub contains-filter :
    (k : String) (p : String → Bool) (xs : List String)
    → contains k (filter p xs) ≡ (p k && contains k xs)
unfolding contains
contains-filter k p [] = ground arith
contains-filter k p (x ∷ xs) = elim (Bool-cases (x == k)) [
  | inl same ↦ rw ((eq_iff x k).0 same) (ground (arith, contains-filter k p xs))
  | inr other ↦ ground (arith, contains-filter k p xs)
]

pub Distinct-filter : (p : String → Bool) (xs : List String) → Distinct xs → Distinct (filter p xs)
Distinct-filter p [] d = tt
Distinct-filter p (x ∷ xs) d = ground (arith, Distinct-filter p xs, contains-filter x p xs)

-- Two lists without repetition and with no common member.
pub Distinct-append :
    (xs ys : List String)
    → Distinct xs
    → Distinct ys
    → ((k : String) → contains k xs ≡ true → contains k ys ≡ false)
    → Distinct (xs ++ ys)
unfolding contains
Distinct-append [] ys d e apart = e
Distinct-append (x ∷ xs) ys d e apart =
    let here : contains x ys ≡ false = apart x (ground (arith, eq_refl x)) in
    let rest = Distinct-append xs ys d.1 e (λ k m. apart k (ground arith)) in
    (ground (arith, contains-append x xs ys), rest)

pub unique-Distinct : (seen xs : List String) → Distinct seen → Distinct (unique seen xs)
unfolding unique contains
unique-Distinct seen [] d = d
unique-Distinct seen (x ∷ xs) d = elim (Bool-cases (contains x seen)) [
  | inl there ↦ rw there (unique-Distinct seen xs d)
  | inr absent ↦ rw absent (
      unique-Distinct (seen ++ x ∷ []) xs
        (Distinct-append seen (x ∷ []) d (refl, tt) (λ k h. ground (arith, eq_iff x k))))
]

pub contains-unique :
    (k : String) (seen xs : List String)
    → contains k (unique seen xs) ≡ (contains k seen || contains k xs)
unfolding unique contains
contains-unique k seen [] = ground arith
contains-unique k seen (x ∷ xs) = elim (Bool-cases (contains x seen)) [
  | inl there ↦ rw there (contains-unique k seen xs ∙ ground (arith, eq_iff x k))
  | inr absent ↦
      rw absent
        (contains-unique k (seen ++ x ∷ []) xs ∙ ground (arith, contains-append k seen (x ∷ [])))
]

-- How often an identifier stands in an array.
unfoldable pub count : String → List String → ℕ
count k [] = 0
count k (x ∷ xs) = if x == k then suc (count k xs) else count k xs

pub count-append : (k : String) (xs ys : List String) → count k (xs ++ ys) ≡ count k xs + count k ys
unfolding count
count-append k [] ys = omega arith
count-append k (x ∷ xs) ys = ground (arith, count-append k xs ys)

pub contains-count : (k : String) (xs : List String) → contains k xs ≡ ltb 0 (count k xs)
unfolding count contains
contains-count k [] = refl
contains-count k (x ∷ xs) = ground (arith, contains-count k xs)

pub count-cons :
    (k x : String) (xs : List String) → count k (x ∷ xs) ≡ (if x == k then 1 else 0) + count k xs
unfolding count
count-cons k x xs = ground arith

-- Distinct keys stand at most once each.
pub count-Distinct : (l : List String) → Distinct l → (k : String) → count k l ≤ 1
unfolding count
count-Distinct [] d k = ground arith
count-Distinct (x ∷ l) d k = ground (arith, count-Distinct l d.1 k, contains-count k l, eq_iff x k)
