-- ===== src/Js.antt =====
-- Values of the running program: fields of documents and folders, and what the API answers.
-- `Object.is`, truthiness, spread and utils/shallowEqual.ts (frontend/src/utils/shallowEqual.ts).
-- A number stands as the bit pattern of its double, NaN as the canonical one, so that `Object.is`
-- is equality of patterns. An array or object carries the identity that `Object.is` compares.
pub mod Laws
pub mod Arrays
use papercrate.Base.{
  contains, ℕ, zero, suc, ◌+◌, Bool, String, true, false, not, ◌&&◌, ◌||◌, ◌==◌, nat_eq,
  if◌then◌else◌, Option, none, some, List, [], ◌∷◌,
}

mutual
  pub data Value : Type 0 where
    undefined null : Value
    boolean : Bool → Value
    number : ℕ → Value
    text : String → Value
    array : ℕ → Items → Value
    object : ℕ → Fields → Value

  -- The own properties of an object, in their order.
  pub data Fields : Type 0 where
    end : Fields
    field : String → Value → Fields → Fields

  pub data Items : Type 0 where
    nil : Items
    cons : Value → Items → Items

abbrev bool_eq : Bool → Bool → Bool
bool_eq true b = b
bool_eq false b = not b

-- `Object.is`
unfoldable pub object_is : Value → Value → Bool
object_is undefined undefined = true
object_is null null = true
object_is (boolean a) (boolean b) = bool_eq a b
object_is (number a) (number b) = nat_eq a b
object_is (text a) (text b) = a == b
object_is (array i _) (array j _) = nat_eq i j
object_is (object i _) (object j _) = nat_eq i j
object_is _ _ = false

-- `v == null`
unfoldable pub is_nullish : Value → Bool
is_nullish undefined = true
is_nullish null = true
is_nullish _ = false

-- `Boolean(v)`: the falsy numbers are the two zeros and NaN.
unfoldable pub truthy : Value → Bool
truthy undefined = false
truthy null = false
truthy (boolean b) = b
truthy (number n) = not (nat_eq n 0 || nat_eq n 0x8000000000000000 || nat_eq n 0x7ff8000000000000)
truthy (text s) = not (s == "")
truthy _ = true

-- `o[key]`, undefined where the object has no such property
unfoldable pub get : String → Fields → Value
get k end = undefined
get k (field j v f) = if j == k then v else get k f

-- `Object.prototype.hasOwnProperty.call(o, key)`
unfoldable pub has_own : String → Fields → Bool
has_own k end = false
has_own k (field j v f) = j == k || has_own k f

unfoldable pub assign : String → Value → Fields → Fields
assign k v end = field k v end
assign k v (field j w f) = if j == k then field j v f else field j w (assign k v f)

-- `{ ...a, ...b }`
unfoldable pub spread : Fields → Fields → Fields
spread a end = a
spread a (field k v f) = spread (assign k v a) f

-- `Object.keys(o).length`
unfoldable pub count_keys : Fields → ℕ
count_keys end = 0
count_keys (field k v f) = suc (count_keys f)

-- the loop of `shallowEqual` over the keys of `a`
unfoldable pub agrees : Fields → Fields → Bool
agrees end b = true
agrees (field k v f) b = (has_own k b && object_is v (get k b)) && agrees f b

-- `shallowEqual` of two objects that are not the same one
unfoldable pub shallow_equal : Fields → Fields → Bool
unfolding agrees count_keys
shallow_equal a b = nat_eq (count_keys a) (count_keys b) && agrees a b

-- The texts among the elements, in order: an array of identifiers.
unfoldable pub texts : Items → List String
texts nil = []
texts (cons (text s) vs) = s ∷ texts vs
texts (cons _ vs) = texts vs

unfoldable pub from_texts : List String → Items
from_texts [] = nil
from_texts (s ∷ ss) = cons (text s) (from_texts ss)

-- An identifier: identifiers are strings by types/identifiers.ts. `none` is null or undefined.
unfoldable pub identifier : Value → Option String
identifier (text s) = some s
identifier _ = none

-- The same where the code tests `if (x.id)`, which the empty string fails too.
unfoldable pub truthy_identifier : Value → Option String
truthy_identifier (text s) = if s == "" then none else some s
truthy_identifier _ = none

-- The own properties of a value that is used as an object.
unfoldable pub fields_of : Value → Fields
fields_of (object i f) = f
fields_of _ = end

-- The elements of an array value; `doc.tags ?? []` of a missing one.
unfoldable pub elements : Value → Items
elements (array i xs) = xs
elements _ = nil

unfoldable pub is_array : Value → Bool
is_array (array i xs) = true
is_array _ = false

-- `rawTags.length > 0 && typeof rawTags[0] === 'object'`
unfoldable pub starts_with_object : Items → Bool
starts_with_object (cons null xs) = true
starts_with_object (cons (array i ys) xs) = true
starts_with_object (cons (object i f) xs) = true
starts_with_object _ = false

-- `new Set(xs).has(id)`
unfoldable pub item_has : String → Items → Bool
item_has k xs = contains k (texts xs)

-- `[...xs, ...ids]`
unfoldable pub items_append : Items → List String → Items
items_append nil ids = from_texts ids
items_append (cons v xs) ids = cons v (items_append xs ids)

-- `v === id`
unfoldable pub is_text : String → Value → Bool
is_text k (text s) = s == k
is_text k _ = false

-- `xs.filter((x) => !set.has(x))`, for a set of identifiers
unfoldable pub items_without : List String → Items → Items
items_without ids nil = nil
items_without ids (cons (text s) xs) =
    if contains s ids then items_without ids xs else cons (text s) (items_without ids xs)
items_without ids (cons v xs) = cons v (items_without ids xs)

unfoldable pub count_items : Items → ℕ
count_items nil = 0
count_items (cons v xs) = suc (count_items xs)

-- `next.length === current.length && next.every((x, i) => x === current[i])`
unfoldable pub items_same : Items → Items → Bool
items_same nil nil = true
items_same (cons v xs) (cons w ys) = object_is v w && items_same xs ys
items_same _ _ = false
