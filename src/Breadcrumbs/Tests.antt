-- ===== src/Breadcrumbs/Tests.antt =====
-- Trails in a map of two folders and a root, and in one where two folders are each other's parent.
use papercrate.Base.{◌≤◌, ◌≡◌, refl, [], ◌∷◌, some, none, length, map, contains, Distinct, arith}
use papercrate.Dict.{Dict, lookup}
use papercrate.Breadcrumbs.{BreadcrumbNode, entry_of, backwards, resolve_breadcrumbs}
use papercrate.Breadcrumbs.Laws.{
  ids_of, IsAscent, resolve_breadcrumbs-Distinct, resolve_breadcrumbs-path,
}

abbrev root : BreadcrumbNode
root = record { id = "root"; name = "Documents"; tree_parent = none; parent_id = none }

abbrev a : BreadcrumbNode
a = record { id = "a"; name = "Taxes"; tree_parent = some "root"; parent_id = none }

abbrev b : BreadcrumbNode
b = record { id = "b"; name = "2024"; tree_parent = none; parent_id = some "a" }

abbrev nodes : Dict BreadcrumbNode
nodes = ("root", root) ∷ ("a", a) ∷ ("b", b) ∷ []

path-IsAscent : IsAscent nodes (some "b") (b ∷ a ∷ root ∷ [])
unfolding IsAscent lookup papercrate.Breadcrumbs.parent_of
path-IsAscent = (refl, refl, refl, (refl, refl, refl, (refl, refl, refl, tt)))

path-Distinct : Distinct (ids_of (map entry_of (b ∷ a ∷ root ∷ [])))
unfolding ids_of contains
path-Distinct = (refl, (refl, (refl, tt)))

resolve_breadcrumbs-path_example :
    resolve_breadcrumbs "b" nodes ≡ backwards (map entry_of (b ∷ a ∷ root ∷ []))
resolve_breadcrumbs-path_example =
    resolve_breadcrumbs-path "b" nodes (b ∷ a ∷ root ∷ []) path-IsAscent path-Distinct (omega arith)

abbrev cycle : Dict BreadcrumbNode
cycle =
    ("a", record { id = "a"; name = "Taxes"; tree_parent = some "b"; parent_id = none })
    ∷ ("b", b)
    ∷ []

resolve_breadcrumbs-Distinct_example :
    (length (resolve_breadcrumbs "a" cycle) ≤ 64)
    × Distinct (ids_of (resolve_breadcrumbs "a" cycle))
resolve_breadcrumbs-Distinct_example = resolve_breadcrumbs-Distinct "a" cycle
