-- ===== src/Breadcrumbs.antt =====
-- The trail of folders above a folder, frontend/src/documents/logic/breadcrumbs.ts. The 64 rounds that
-- its loop is held to are the fuel here.
pub mod Laws
mod Tests
use papercrate.Base.{
  ℕ, zero, suc, String, Bool, List, [], ◌∷◌, ◌++◌, Option, none, some, ◌==◌, ◌||◌, if◌then◌else◌,
  contains,
}
use papercrate.Dict.{Dict, lookup}

pub record BreadcrumbNode : Type 0 where
  pub id : String
  pub name : String
  -- `parentId` and `parent_id`, none for undefined and for null
  pub tree_parent : Option String
  pub parent_id : Option String

pub record BreadcrumbEntry : Type 0 where
  pub id : String
  pub name : String

abbrev pub entry_of : BreadcrumbNode → BreadcrumbEntry
entry_of node = record { id = node.id; name = node.name }

-- `node.parentId ?? node.parent_id ?? null`
unfoldable pub parent_of : BreadcrumbNode → Option String
parent_of node = elim node.tree_parent [ some id ↦ some id | none ↦ node.parent_id ]

-- The loop: the rounds left, `seen`, `currentId`, and the nodes; it gives `chain`.
unfoldable pub climb : ℕ → List String → Option String → Dict BreadcrumbNode → List BreadcrumbEntry
climb zero seen current nodes = []
climb (suc guard) seen none nodes = []
climb (suc guard) seen (some id) nodes = elim (lookup id nodes) [
  | none ↦ []
  | some node ↦
      let rest = climb guard (id ∷ seen) (parent_of node) nodes in
      if id == "" || contains id seen then [] else entry_of node ∷ rest
]

-- the order of the second loop, from the last index to the first
unfoldable pub backwards {ℓ} : {A : Type ℓ} → List A → List A
backwards [] = []
backwards (x ∷ xs) = backwards xs ++ x ∷ []

-- the second loop: `seenOrdered`, and the entries in its order
unfoldable pub keep_first : List String → List BreadcrumbEntry → List BreadcrumbEntry
keep_first seen [] = []
keep_first seen (crumb ∷ crumbs) =
    let skipped = keep_first seen crumbs in
    let kept = keep_first (crumb.id ∷ seen) crumbs in
    if contains crumb.id seen then skipped else crumb ∷ kept

unfoldable pub resolve_breadcrumbs : String → Dict BreadcrumbNode → List BreadcrumbEntry
unfolding climb backwards keep_first
resolve_breadcrumbs start_folder_id nodes =
    keep_first [] (backwards (climb 64 [] (some start_folder_id) nodes))
