-- ===== src/Drops/View.antt =====
-- The nodes that are shown, against the tree that they are made of.
use papercrate.Base.{
  ◌≡◌, refl, sym, ap, ◌∙◌, String, Bool-cases, Option-cases, true, false, List, [], ◌∷◌, Option,
  some, ◌==◌, contains, contains-append, contains-count, arith, eq_iff, eq_refl, inl, inr,
}
use mathlib.Core.Path.{subst}
use papercrate.Dict.{Dict, lookup, insert}
use papercrate.Dict.Laws.{lookup-insert}
use papercrate.Js.{Fields}
use papercrate.Tree.{Forest, empty, tree, ids, find_node, Node}
use papercrate.Tree.Laws.{IsTree, count-tree, find_node-contains}
use papercrate.Drops.{FolderNode, parent_or_root, node_of, place, folder_nodes_raw, parent_of}
use papercrate.Drops.Walk.{IsInner, IsBelow, here, up}

-- Every node names the one above it as its parent.
abbrev pub IsParented : String → Forest → Type 0
IsParented p empty = Unit
IsParented p (tree id f kids rest) = (parent_or_root f ≡ p) × IsParented id kids × IsParented p rest

-- The map has every node of the tree below the one above it.
abbrev Holds : Dict FolderNode → String → Forest → Type 0
Holds nodes p empty = Unit
Holds nodes p (tree id f kids rest) =
    ((node : FolderNode) × (lookup id nodes ≡ some node) × (parent_of node ≡ p))
    × Holds nodes id kids
    × Holds nodes p rest

module _ (expanded : List String) (by_id : Dict Fields) where
  place-other :
      (k : String) (nodes : Dict FolderNode) (t : Forest)
      → contains k (ids t) ≡ false
      → lookup k (place expanded by_id nodes t) ≡ lookup k nodes
  unfolding place ids contains
  place-other k nodes empty h = refl
  place-other k nodes (tree id f kids rest) h =
      let apart = contains-append k (ids kids) (ids rest) in
      let with_node = insert id (node_of expanded by_id id f kids) nodes in
      place-other k (place expanded by_id with_node kids) rest (ground (arith, apart))
      ∙ place-other k with_node kids (ground (arith, apart))
      ∙ lookup-insert id k (node_of expanded by_id id f kids) nodes
      ∙ ground arith

  Holds-place :
      (nodes : Dict FolderNode) (p : String) (s t : Forest)
      → ((k : String) → contains k (ids s) ≡ true → contains k (ids t) ≡ false)
      → Holds nodes p s
      → Holds (place expanded by_id nodes t) p s
  unfolding ids contains
  Holds-place nodes p empty t apart h = tt
  Holds-place nodes p (tree id f kids rest) t apart ((node, found, parent), below, beside) =
      let in_kids = λ (k : String). contains-append k (ids kids) (ids rest) in
      (
        (node, place-other id nodes t (apart id (ground (arith, eq_refl id))) ∙ found, parent),
        Holds-place nodes id kids t (λ k there. apart k (ground (arith, in_kids k))) below,
        Holds-place nodes p rest t (λ k there. apart k (ground (arith, in_kids k))) beside,
      )

  place-Holds :
      (nodes : Dict FolderNode) (p : String) (t : Forest)
      → IsTree t
      → IsParented p t
      → Holds (place expanded by_id nodes t) p t
  unfolding place node_of
  place-Holds nodes p empty is_tree parented = tt
  place-Holds nodes p (tree id f kids rest) is_tree (own, below, beside) =
      let node = node_of expanded by_id id f kids in
      let with_node = insert id node nodes in
      let with_kids = place expanded by_id with_node kids in
      let counts = λ (k : String). count-tree k id f kids rest in
      let out_kids : contains id (ids kids) ≡ false =
        ground (arith, is_tree id, counts id, contains-count id (ids kids), eq_refl id) in
      let out_rest : contains id (ids rest) ≡ false =
        ground (arith, is_tree id, counts id, contains-count id (ids rest), eq_refl id) in
      (
        (
          node,
          place-other id with_kids rest out_rest
              ∙ place-other id with_node kids out_kids
              ∙ lookup-insert id id node nodes
              ∙ ground (arith, eq_refl id),
          own,
        ),
        Holds-place with_kids id kids rest
            (λ k there. ground (
              arith,
              is_tree k,
              counts k,
              contains-count k (ids kids),
              contains-count k (ids rest),
            ))
            (place-Holds with_node id kids (λ k. omega (arith, is_tree k, counts k)) below),
        place-Holds with_kids p rest (λ k. omega (arith, is_tree k, counts k)) beside,
      )

-- What stands below the source in the tree is met below it in the map.
Holds-IsBelow :
    (nodes : Dict FolderNode) (source p : String) (t : Forest) (x : String)
    → Holds nodes p t
    → IsBelow nodes source p
    → ((k : String) → contains k (ids t) ≡ true → IsInner k)
    → contains x (ids t) ≡ true
    → IsBelow nodes source x
unfolding ids contains
Holds-IsBelow nodes source p empty x h below inner there = absurd (cc there)
Holds-IsBelow nodes source p (tree id f kids rest) x ((node, found, parent), kept, beside) below
      inner there =
    let apart = λ (k : String). contains-append k (ids kids) (ids rest) in
    let here_below : IsBelow nodes source id =
      up id node found (inner id (ground (arith, eq_refl id)))
        (subst (λ q. IsBelow nodes source q) (sym parent) below) in
    elim (Bool-cases (id == x)) [
      | inl same ↦ subst (λ q. IsBelow nodes source q) ((eq_iff id x).0 same) here_below
      | inr differs ↦ elim (Bool-cases (contains x (ids kids))) [
        | inl lower ↦
            Holds-IsBelow nodes source id kids x kept here_below
              (λ k in_kids. inner k (ground (arith, apart k))) lower
        | inr outside ↦
            Holds-IsBelow nodes source p rest x beside below
              (λ k in_rest. inner k (ground (arith, apart k))) (ground (arith, apart x))
      ]
    ]

Holds-lookup :
    (nodes : Dict FolderNode) (p x : String) (t : Forest)
    → Holds nodes p t
    → contains x (ids t) ≡ true
    → (n : FolderNode) × (lookup x nodes ≡ some n)
unfolding ids contains
Holds-lookup nodes p x empty h there = absurd (cc there)
Holds-lookup nodes p x (tree id f kids rest) ((n, found, _), kept, beside) there =
    elim (Bool-cases (id == x)) [
      | inl same ↦ (n, subst (λ q. lookup q nodes ≡ some n) ((eq_iff id x).0 same) found)
      | inr differs ↦ elim (Bool-cases (contains x (ids kids))) [
        | inl lower ↦ Holds-lookup nodes id x kids kept lower
        | inr outside ↦
            Holds-lookup nodes p x rest beside
              (ground (arith, there, differs, outside, contains-append x (ids kids) (ids rest)))
      ]
    ]

found_kids :
    (f : Fields) (kids : Forest) (node : Node)
    → ◌≡◌ {A = Option Node} (some (f, kids)) (some node)
    → kids ≡ node.1
found_kids f kids node e =
    let same : ◌≡◌ {A = Node} (f, kids) node = cc e in ap (λ (n : Node). n.1) same

-- The node that is found, with what is below it in the map.
find_node-Holds :
    (nodes : Dict FolderNode) (k p : String) (t : Forest) (node : Node)
    → find_node k t ≡ some node
    → Holds nodes p t
    → Holds nodes k node.1
unfolding find_node
find_node-Holds nodes k p empty node found h = absurd (cc found)
find_node-Holds nodes k p (tree id f kids rest) node found (_, kept, beside) =
    elim (Bool-cases (id == k)) [
      | inl same ↦
          let e : id ≡ k = (eq_iff id k).0 same in
          let own : kids ≡ node.1 = found_kids f kids node (ground (arith, found, same)) in
          subst (λ q. Holds nodes q node.1) e (subst (λ s. Holds nodes id s) own kept)
      | inr differs ↦ elim (Option-cases (find_node k kids)) [
        | inl out ↦ find_node-Holds nodes k p rest node (ground (arith, found, differs, out)) beside
        | inr (n, inside) ↦
            find_node-Holds nodes k id kids node (ground (arith, found, differs, inside)) kept
      ]
    ]

find_node-below :
    (k x : String) (t : Forest) (node : Node)
    → find_node k t ≡ some node
    → contains x (ids node.1) ≡ true
    → contains x (ids t) ≡ true
unfolding find_node ids contains
find_node-below k x empty node found there = absurd (cc found)
find_node-below k x (tree id f kids rest) node found there =
    let apart = contains-append x (ids kids) (ids rest) in
    elim (Bool-cases (id == k)) [
      | inl same ↦
          let own : kids ≡ node.1 = found_kids f kids node (ground (arith, found, same)) in
          ground (arith, apart, subst (λ s. contains x (ids s) ≡ true) (sym own) there)
      | inr differs ↦ elim (Option-cases (find_node k kids)) [
        | inl out ↦ ground (
          arith,
          apart,
          find_node-below k x rest node (ground (arith, found, differs, out)) there,
        )
        | inr (n, inside) ↦ ground (
          arith,
          apart,
          find_node-below k x kids node (ground (arith, found, differs, inside)) there,
        )
      ]
    ]

-- The folders that the store has, below their root, as `fetchTreeInternal` builds the tree.
abbrev pub snapshot : Fields → Forest → Forest
snapshot f raw = tree "root" f raw empty

find_node-raw :
    (k : String) (f : Fields) (raw : Forest) (node : Node)
    → find_node k (snapshot f raw) ≡ some node
    → (k == "root") ≡ false
    → find_node k raw ≡ some node
unfolding find_node
find_node-raw k f raw node found inner = elim (Option-cases (find_node k raw)) [
  | inl out ↦ absurd (ground (arith, found, inner, out, eq_iff "root" k, eq_refl k))
  | inr (n, inside) ↦ ground (arith, found, inner, inside, eq_iff "root" k, eq_refl k)
]

-- The folders below the root are named, and none has the root's name.
raw-IsInner :
    (f : Fields) (raw : Forest) (k : String)
    → IsTree (snapshot f raw)
    → contains "" (ids (snapshot f raw)) ≡ false
    → contains k (ids raw) ≡ true
    → IsInner k
raw-IsInner f raw k is_tree named there = ground (
  arith,
  is_tree "root",
  count-tree "root" "root" f raw empty,
  count-tree "" "root" f raw empty,
  contains-count k (ids raw),
  contains-count "" (ids (snapshot f raw)),
  eq_iff k "root",
  eq_iff k "",
  eq_refl "root",
)

-- A folder that stands below another in the tree, or is it, is met below it in the map.
pub below-IsBelow :
    (expanded : List String) (by_id : Dict Fields) (f : Fields) (raw : Forest) (source x : String)
    (node : Node)
    → IsTree (snapshot f raw)
    → IsParented "root" (snapshot f raw)
    → contains "" (ids (snapshot f raw)) ≡ false
    → find_node source (snapshot f raw) ≡ some node
    → (source == "root") ≡ false
    → contains x (source ∷ ids node.1) ≡ true
    → IsBelow (folder_nodes_raw expanded by_id (snapshot f raw)) source x
unfolding folder_nodes_raw
below-IsBelow expanded by_id f raw source x node is_tree parented named found inner there =
    let nodes = folder_nodes_raw expanded by_id (snapshot f raw) in
    let held = place-Holds expanded by_id [] "root" (snapshot f raw) is_tree parented in
    let in_raw = find_node-raw source f raw node found inner in
    let source_inner : IsInner source =
      raw-IsInner f raw source is_tree named
        (ground (arith, find_node-contains source raw, in_raw)) in
    let own : IsBelow nodes source source = here source (eq_refl source) source_inner in
    elim (Bool-cases (source == x)) [
      | inl same ↦ subst (λ q. IsBelow nodes source q) ((eq_iff source x).0 same) own
      | inr differs ↦
          Holds-IsBelow nodes source source node.1 x
            (find_node-Holds nodes source "root" (snapshot f raw) node found held) own
            (λ k lower.
              raw-IsInner f raw k is_tree named (find_node-below source k raw node in_raw lower))
            (unfold contains in ground (arith, there, differs))
    ]

-- Every folder of the tree has a node in the map.
pub shown-lookup :
    (expanded : List String) (by_id : Dict Fields) (f : Fields) (raw : Forest) (x : String)
    → IsTree (snapshot f raw)
    → IsParented "root" (snapshot f raw)
    → contains x (ids (snapshot f raw)) ≡ true
    → (n : FolderNode) × (lookup x (folder_nodes_raw expanded by_id (snapshot f raw)) ≡ some n)
unfolding folder_nodes_raw
shown-lookup expanded by_id f raw x is_tree parented there =
    Holds-lookup (folder_nodes_raw expanded by_id (snapshot f raw)) "root" x (snapshot f raw)
      (place-Holds expanded by_id [] "root" (snapshot f raw) is_tree parented) there
