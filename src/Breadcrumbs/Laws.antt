-- ===== src/Breadcrumbs/Laws.antt =====
-- The trail is bounded and without repetition, and it is the path from the root where there is one.
use papercrate.Base.{
  ℕ, zero, suc, ◌≤◌, ◌≡◌, refl, ap, ◌∙◌, String, true, false, Bool-cases, Option-cases, List, [],
  ◌∷◌, ◌++◌, Option, none, some, ◌==◌, length, length-append, map, contains, contains-append,
  Distinct, Distinct-append, arith, eq_iff, eq_refl, inl, inr,
}
use papercrate.Dict.{Dict, lookup}
use papercrate.Breadcrumbs.{
  BreadcrumbNode, BreadcrumbEntry, entry_of, parent_of, climb, backwards, keep_first,
  resolve_breadcrumbs,
}

unfoldable pub ids_of : List BreadcrumbEntry → List String
ids_of [] = []
ids_of (crumb ∷ crumbs) = crumb.id ∷ ids_of crumbs

climb_bound :
    (guard : ℕ) (seen : List String) (current : Option String) (nodes : Dict BreadcrumbNode)
    → length (climb guard seen current nodes) ≤ guard
unfolding climb
climb_bound zero seen current nodes = omega arith
climb_bound (suc guard) seen none nodes = omega arith
climb_bound (suc guard) seen (some id) nodes = elim (Option-cases (lookup id nodes)) [
  | inl missing ↦ rw (missing, climb) (omega arith)
  | inr (node, found) ↦
      rw (found, climb) (ground (arith, climb_bound guard (id ∷ seen) (parent_of node) nodes))
]

length-backwards {ℓ} : {A : Type ℓ} (xs : List A) → length (backwards xs) ≡ length xs
unfolding backwards
length-backwards [] = refl
length-backwards (x ∷ xs) =
    omega (arith, length-append (backwards xs) (x ∷ []), length-backwards xs)

keep_first_bound :
    (seen : List String) (crumbs : List BreadcrumbEntry)
    → length (keep_first seen crumbs) ≤ length crumbs
unfolding keep_first
keep_first_bound seen [] = omega arith
keep_first_bound seen (crumb ∷ crumbs) =
    ground (arith, keep_first_bound seen crumbs, keep_first_bound (crumb.id ∷ seen) crumbs)

keep_first-Distinct :
    (seen : List String) (crumbs : List BreadcrumbEntry)
    → Distinct (ids_of (keep_first seen crumbs))
      × ((k : String)
          → contains k (ids_of (keep_first seen crumbs)) ≡ true
          → contains k seen ≡ false)
unfolding keep_first ids_of contains
keep_first-Distinct seen [] = (tt, λ k h. absurd (cc h))
keep_first-Distinct seen (crumb ∷ crumbs) = elim (Bool-cases (contains crumb.id seen)) [
  | inl there ↦ rw there (keep_first-Distinct seen crumbs)
  | inr new ↦
      let (distinct, apart) = keep_first-Distinct (crumb.id ∷ seen) crumbs in
      rw new (
        (ground (arith, apart crumb.id, eq_refl crumb.id), distinct),
        λ k h. ground (arith, apart k, eq_iff crumb.id k),
      )
]

-- Whatever the nodes are, cycles of parents included, the trail has at most 64 folders, each once.
pub resolve_breadcrumbs-Distinct :
    (start_folder_id : String) (nodes : Dict BreadcrumbNode)
    → (length (resolve_breadcrumbs start_folder_id nodes) ≤ 64)
      × Distinct (ids_of (resolve_breadcrumbs start_folder_id nodes))
unfolding resolve_breadcrumbs
resolve_breadcrumbs-Distinct start_folder_id nodes =
    let chain = climb 64 [] (some start_folder_id) nodes in
    (
      omega (
        arith,
        keep_first_bound [] (backwards chain),
        length-backwards chain,
        climb_bound 64 [] (some start_folder_id) nodes,
      ),
      (keep_first-Distinct [] (backwards chain)).0,
    )

-- Nodes that lead from an identifier up to a root: each stands under its own identifier, and is the
-- parent of the one before.
unfoldable pub IsAscent : Dict BreadcrumbNode → Option String → List BreadcrumbNode → Type 0
IsAscent nodes none [] = Unit
IsAscent nodes none (node ∷ above) = ⊥
IsAscent nodes (some id) [] = ⊥
IsAscent nodes (some id) (node ∷ above) =
    ((id == "") ≡ false)
    × (lookup id nodes ≡ some node)
    × (node.id ≡ id)
    × IsAscent nodes (parent_of node) above

climb_ascent :
    (guard : ℕ) (seen : List String) (current : Option String) (nodes : Dict BreadcrumbNode)
    (path : List BreadcrumbNode)
    → IsAscent nodes current path
    → Distinct (ids_of (map entry_of path))
    → ((k : String) → contains k (ids_of (map entry_of path)) ≡ true → contains k seen ≡ false)
    → length path ≤ guard
    → climb guard seen current nodes ≡ map entry_of path
unfolding climb IsAscent ids_of contains
climb_ascent zero seen none nodes [] a d apart bound = refl
climb_ascent (suc guard) seen none nodes [] a d apart bound = refl
climb_ascent guard seen none nodes (node ∷ above) a d apart bound = absurd a
climb_ascent guard seen (some id) nodes [] a d apart bound = absurd a
climb_ascent zero seen (some id) nodes (node ∷ above) a d apart bound = absurd (omega arith)
climb_ascent (suc guard) seen (some id) nodes (node ∷ above) (full, found, own, higher) d apart
      bound =
    let new : contains id seen ≡ false = apart id (ground (arith, eq_iff node.id id)) in
    rw (found, climb)
      (rw (full, new)
        (ap (λ l. entry_of node ∷ l)
          (climb_ascent guard (id ∷ seen) (parent_of node) nodes above higher d.1
            (λ k h. ground (arith, apart k, d.0, own, eq_iff id k)) (omega arith))))

ids_of-append : (a b : List BreadcrumbEntry) → ids_of (a ++ b) ≡ ids_of a ++ ids_of b
unfolding ids_of
ids_of-append [] b = refl
ids_of-append (crumb ∷ a) b = ap (λ l. crumb.id ∷ l) (ids_of-append a b)

backwards-contains :
    (k : String) (crumbs : List BreadcrumbEntry)
    → contains k (ids_of (backwards crumbs)) ≡ contains k (ids_of crumbs)
unfolding backwards ids_of contains
backwards-contains k [] = refl
backwards-contains k (crumb ∷ crumbs) = rw (ids_of-append (backwards crumbs) (crumb ∷ [])) (
    contains-append k (ids_of (backwards crumbs)) (crumb.id ∷ [])
    ∙ ground (arith, backwards-contains k crumbs))

backwards-Distinct :
    (crumbs : List BreadcrumbEntry)
    → Distinct (ids_of crumbs)
    → Distinct (ids_of (backwards crumbs))
unfolding backwards ids_of contains
backwards-Distinct [] d = tt
backwards-Distinct (crumb ∷ crumbs) d = rw (ids_of-append (backwards crumbs) (crumb ∷ [])) (
    Distinct-append (ids_of (backwards crumbs)) (crumb.id ∷ []) (backwards-Distinct crumbs d.1)
      (refl, tt) (λ k h. ground (arith, backwards-contains k crumbs, eq_iff crumb.id k, d.0)))

keep_first_all :
    (seen : List String) (crumbs : List BreadcrumbEntry)
    → Distinct (ids_of crumbs)
    → ((k : String) → contains k (ids_of crumbs) ≡ true → contains k seen ≡ false)
    → keep_first seen crumbs ≡ crumbs
unfolding keep_first ids_of contains
keep_first_all seen [] d apart = refl
keep_first_all seen (crumb ∷ crumbs) d apart =
    let new : contains crumb.id seen ≡ false = apart crumb.id (ground (arith, eq_refl crumb.id)) in
    rw new (
      ap (λ l. crumb ∷ l)
        (keep_first_all (crumb.id ∷ seen) crumbs d.1
          (λ k h. ground (arith, apart k, eq_iff crumb.id k, d.0))))

-- Where the nodes lead from a folder up to a root, by at most 64 folders and through none twice, the
-- trail is that path, from the root down.
pub resolve_breadcrumbs-path :
    (start_folder_id : String) (nodes : Dict BreadcrumbNode) (path : List BreadcrumbNode)
    → IsAscent nodes (some start_folder_id) path
    → Distinct (ids_of (map entry_of path))
    → length path ≤ 64
    → resolve_breadcrumbs start_folder_id nodes ≡ backwards (map entry_of path)
unfolding resolve_breadcrumbs
resolve_breadcrumbs-path start_folder_id nodes path a d bound =
    rw
      (climb_ascent 64 [] (some start_folder_id) nodes path a d (λ k h. unfold contains in refl)
        bound)
      (keep_first_all [] (backwards (map entry_of path)) (backwards-Distinct (map entry_of path) d)
        (λ k h. unfold contains in refl))
