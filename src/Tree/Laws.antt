-- ===== src/Tree/Laws.antt =====
-- What finding, removing and attaching a node does to the identifiers of a tree, each counted as
-- often as it stands there.
use papercrate.Base.{
  ◌+◌, ◌≤◌, ◌<◌, ◌≡◌, refl, sym, ◌∙◌, Bool-cases, String, true, false, ◌∷◌, ◌++◌, none, some,
  if◌then◌else◌, ◌==◌, arith, inl, inr, eq_iff, count, count-append, count-cons, is_some, contains,
  contains-count, ltb,
}
use papercrate.Js.{Fields}
use papercrate.Tree.{
  Forest, empty, tree, ids, append, find_node, Node, has_sibling, drop_sibling, emptied,
  remove_node_from_parent,
}
use mathlib.Core.List.{append_assoc}

-- What a tree of folders is: no identifier stands in it twice.
abbrev pub IsTree : Forest → Type 0
IsTree t = (k : String) → count k (ids t) ≤ 1

pub ids-append : (a b : Forest) → ids (append a b) ≡ ids a ++ ids b
unfolding ids append
ids-append empty b = refl
ids-append (tree id f kids rest) b = rw (ids-append rest b, append_assoc) refl

pub count-tree :
    (j id : String) (f : Fields) (kids rest : Forest)
    → count j (ids (tree id f kids rest))
      ≡ (if id == j then 1 else 0) + count j (ids kids) + count j (ids rest)
unfolding ids count
count-tree j id f kids rest = ground (arith, count-append j (ids kids) (ids rest))

-- `findNode` finds nothing exactly where the tree does not have the identifier.
pub find_node-count : (k : String) (t : Forest) → is_some (find_node k t) ≡ ltb 0 (count k (ids t))
unfolding find_node
find_node-count k empty = unfold ids count in refl
find_node-count k (tree id f kids rest) =
    ground (arith, find_node-count k kids, find_node-count k rest, count-tree k id f kids rest)

pub find_node-contains : (k : String) (t : Forest) → is_some (find_node k t) ≡ contains k (ids t)
find_node-contains k t = find_node-count k t ∙ sym (contains-count k (ids t))

find_node-none : (k : String) (t : Forest) → count k (ids t) ≡ 0 → find_node k t ≡ none
find_node-none k t h = ground (arith, find_node-count k t)

has_sibling-count : (k : String) (t : Forest) → has_sibling k t ≡ true → 0 < count k (ids t)
unfolding has_sibling
has_sibling-count k empty h = absurd (cc h)
has_sibling-count k (tree id f kids rest) h =
    ground (arith, has_sibling-count k rest, count-tree k id f kids rest)

-- A node was found, and what is left together with it and the nodes below it is the tree.
abbrev pub Removed : String → Forest → Forest → Type 0
Removed k before after =
    (node : Node) × (find_node k before ≡ some node)
    × ((j : String) → count j (ids before) ≡ count j (k ∷ ids node.1) + count j (ids after))

drop_sibling-Removed :
    (k : String) (t : Forest)
    → count k (ids t) ≤ 1
    → has_sibling k t ≡ true
    → Removed k t (drop_sibling k t)
unfolding has_sibling drop_sibling find_node
drop_sibling-Removed k empty c h = absurd (cc h)
drop_sibling-Removed k (tree id f kids rest) c h = elim (Bool-cases (id == k)) [
  | inl same ↦ rw same (
    (f, kids),
    refl,
    λ j. ground (arith, count-tree j id f kids rest, count-cons j k (ids kids), eq_iff id k),
  )
  | inr other ↦
      let (node, found, counts) =
        drop_sibling-Removed k rest (ground (arith, count-tree k id f kids rest)) (ground arith) in
      let above : find_node k kids ≡ none =
        find_node-none k kids
          (ground (arith, count-tree k id f kids rest, has_sibling-count k rest)) in
      rw other (
        node,
        rw above found,
        λ j. ground (
          arith,
          counts j,
          count-tree j id f kids rest,
          count-tree j id f kids (drop_sibling k rest),
        ),
      )
]

-- An occurrence below the node leaves the node itself and the rest of the array without one.
below_only :
    (k id : String) (f : Fields) (kids rest : Forest)
    → count k (ids (tree id f kids rest)) ≤ 1
    → 0 < count k (ids kids)
    → ((id == k) ≡ false) × (count k (ids kids) ≤ 1)
below_only k id f kids rest c h =
    (ground (arith, count-tree k id f kids rest), ground (arith, count-tree k id f kids rest))

beside_only :
    (k id : String) (f : Fields) (kids rest : Forest)
    → count k (ids (tree id f kids rest)) ≤ 1
    → 0 < count k (ids rest)
    → ((id == k) ≡ false) × (find_node k kids ≡ none) × (count k (ids rest) ≤ 1)
beside_only k id f kids rest c h = (
  ground (arith, count-tree k id f kids rest),
  find_node-none k kids (ground (arith, count-tree k id f kids rest)),
  ground (arith, count-tree k id f kids rest),
)

found-count :
    (k : String) (t : Forest) {node : Node} → find_node k t ≡ some node → 0 < count k (ids t)
found-count k t e = ground (arith, find_node-count k t)

-- A removal among or below the children of the first node.
Removed-below :
    (k id : String) (f f' : Fields) (kids kids' rest : Forest)
    → count k (ids (tree id f kids rest)) ≤ 1
    → Removed k kids kids'
    → Removed k (tree id f kids rest) (tree id f' kids' rest)
unfolding find_node
Removed-below k id f f' kids kids' rest c (node, found, counts) =
    let (other, _) = below_only k id f kids rest c (found-count k kids found) in
    (
      node,
      rw (other, found) refl,
      λ j. ground (arith, counts j, count-tree j id f kids rest, count-tree j id f' kids' rest),
    )

Removed-beside :
    (k id : String) (f : Fields) (kids rest rest' : Forest)
    → count k (ids (tree id f kids rest)) ≤ 1
    → Removed k rest rest'
    → Removed k (tree id f kids rest) (tree id f kids rest')
unfolding find_node
Removed-beside k id f kids rest rest' c (node, found, counts) =
    let (other, above, _) = beside_only k id f kids rest c (found-count k rest found) in
    (
      node,
      rw (other, above, found) refl,
      λ j. ground (arith, counts j, count-tree j id f kids rest, count-tree j id f kids rest'),
    )

-- `removeNodeFromParent` takes out the node that `findNode` finds, with all below it, and no other.
pub remove-Removed :
    (k : String) (t : Forest)
    → count k (ids t) ≤ 1
    → (remove_node_from_parent k t).1 ≡ true
    → Removed k t (remove_node_from_parent k t).0
unfolding remove_node_from_parent
remove-Removed k empty c h = absurd (cc h)
remove-Removed k (tree id f kids rest) c h = elim (Bool-cases (has_sibling k kids)) [
  | inl there ↦ rw there (
      Removed-below k id f (emptied (drop_sibling k kids) f) kids (drop_sibling k kids) rest c
        (drop_sibling-Removed k kids (ground (arith, count-tree k id f kids rest)) there))
  | inr missing ↦ elim (Bool-cases (remove_node_from_parent k kids).1) [
    | inl deeper ↦
        rw (missing, deeper)
          (Removed-below k id f f kids (remove_node_from_parent k kids).0 rest c
            (remove-Removed k kids (ground (arith, count-tree k id f kids rest)) deeper))
    | inr shallow ↦
        rw (missing, shallow)
          (Removed-beside k id f kids rest (remove_node_from_parent k rest).0 c
            (remove-Removed k rest (ground (arith, count-tree k id f kids rest)) (ground arith)))
  ]
]

pub count-empty : (k : String) → count k (ids empty) ≡ 0
unfolding ids count
count-empty k = refl

-- A node that stands in the tree, but not among its first array of nodes, is removed.
pub remove_flag :
    (k : String) (t : Forest)
    → 0 < count k (ids t)
    → has_sibling k t ≡ false
    → (remove_node_from_parent k t).1 ≡ true
unfolding remove_node_from_parent has_sibling
remove_flag k empty h apart = ground (arith, count-empty k)
remove_flag k (tree id f kids rest) h apart =
    ground (arith, remove_flag k kids, remove_flag k rest, count-tree k id f kids rest)
