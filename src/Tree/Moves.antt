-- ===== src/Tree/Moves.antt =====
-- What attaching a node to another one, or to the root, does to the identifiers of a tree.
use papercrate.Base.{
  ◌+◌, ◌≡◌, refl, ap, Bool-cases, String, if◌then◌else◌, ◌==◌, arith, inl, inr, count, count-append,
  is_some,
}
use papercrate.Js.{Fields}
use papercrate.Tree.{
  Forest, empty, tree, ids, append, find_node, Node, modify, adopt, attach_to_root, attach_to,
}
use papercrate.Tree.Laws.{count-tree, ids-append}

modify-found :
    (k : String) (g : Node → Node) (t : Forest) → (modify k g t).1 ≡ is_some (find_node k t)
unfolding modify find_node
modify-found k g empty = refl
modify-found k g (tree id f kids rest) =
    ground (arith, modify-found k g kids, modify-found k g rest)

-- Attaching adds the identifiers of the attached node to the tree, if the parent is found.
pub modify-count :
    (j p : String) (child t : Forest)
    → count j (ids (modify p (adopt child) t).0)
      ≡ count j (ids t) + (if is_some (find_node p t) then count j (ids child) else 0)
unfolding modify find_node adopt
modify-count j p child empty = unfold ids count in refl
modify-count j p child (tree id f kids rest) = elim (Bool-cases (id == p)) [
  | inl same ↦ rw same (
      ground (
        arith,
        count-tree j id f kids rest,
        count-tree j id (adopt child (f, kids)).0 (append kids child) rest,
        ap (count j) (ids-append kids child),
        count-append j (ids kids) (ids child),
      ))
  | inr other ↦ elim (Bool-cases (modify p (adopt child) kids).1) [
    | inl below ↦
        rw (other, below)
          (ground (
            arith,
            modify-found p (adopt child) kids,
            modify-count j p child kids,
            count-tree j id f kids rest,
            count-tree j id f (modify p (adopt child) kids).0 rest,
          ))
    | inr beside ↦
        rw (other, beside)
          (ground (
            arith,
            modify-found p (adopt child) kids,
            modify-count j p child rest,
            count-tree j id f kids rest,
            count-tree j id f kids (modify p (adopt child) rest).0,
          ))
  ]
]

pub attach_to-count :
    (j p : String) (child t : Forest)
    → count j (ids (attach_to p child t))
      ≡ count j (ids t) + (if is_some (find_node p t) then count j (ids child) else 0)
unfolding attach_to
attach_to-count j p child t = modify-count j p child t

pub attach_to_root-count :
    (j : String) (child : Forest) (id : String) (f : Fields) (kids rest : Forest)
    → count j (ids (attach_to_root child (tree id f kids rest)))
      ≡ count j (ids (tree id f kids rest)) + count j (ids child)
unfolding attach_to_root adopt
attach_to_root-count j child id f kids rest = ground (
  arith,
  count-tree j id f kids rest,
  count-tree j id (adopt child (f, kids)).0 (append kids child) rest,
  ap (count j) (ids-append kids child),
  count-append j (ids kids) (ids child),
)
