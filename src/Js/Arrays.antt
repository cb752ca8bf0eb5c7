-- ===== src/Js/Arrays.antt =====
-- Arrays of identifiers under the Array methods that the stores use.
use papercrate.Base.{
  suc, ◌≡◌, refl, ap, String, true, false, not, List, [], ◌∷◌, ◌++◌, arith, filter, contains,
  length, eq_iff,
}
use papercrate.Js.{
  starts_with_object, from_texts, items_append, items_without, items_same, count_items, object_is,
}

pub from_texts_plain : (ids : List String) → starts_with_object (from_texts ids) ≡ false
unfolding from_texts starts_with_object
from_texts_plain [] = refl
from_texts_plain (id ∷ ids) = refl

pub items_append-from_texts :
    (xs ids : List String) → items_append (from_texts xs) ids ≡ from_texts (xs ++ ids)
unfolding items_append from_texts
items_append-from_texts [] ids = refl
items_append-from_texts (x ∷ xs) ids = cc (items_append-from_texts xs ids)

pub items_without-from_texts :
    (ids xs : List String)
    → items_without ids (from_texts xs) ≡ from_texts (filter (λ x. not (contains x ids)) xs)
unfolding items_without from_texts
items_without-from_texts ids [] = refl
items_without-from_texts ids (x ∷ xs) = ground (arith, items_without-from_texts ids xs)

pub count_items-from_texts : (xs : List String) → count_items (from_texts xs) ≡ length xs
unfolding count_items from_texts
count_items-from_texts [] = refl
count_items-from_texts (x ∷ xs) = ap suc (count_items-from_texts xs)

-- Two such arrays that agree in length and at each index are the same.
pub items_same→eq :
    (xs ys : List String) → items_same (from_texts xs) (from_texts ys) ≡ true → xs ≡ ys
unfolding items_same from_texts object_is
items_same→eq [] [] h = refl
items_same→eq (x ∷ xs) (y ∷ ys) h =
    cc ((eq_iff x y).0 (ground arith), items_same→eq xs ys (ground arith))
items_same→eq [] (y ∷ ys) h = absurd (cc h)
items_same→eq (x ∷ xs) [] h = absurd (cc h)
