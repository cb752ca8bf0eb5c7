-- ===== src/Drops/Walk.antt =====
-- The loop that climbs from the target of a drop: that it ends, and what it answers.
use papercrate.Base.{
  ℕ, zero, suc, ◌+◌, ◌≤◌, ◌<◌, ◌≡◌, refl, sym, ap, ◌∙◌, ◌↔◌, String, Bool-cases, Option-cases, true,
  false, List, [], ◌∷◌, some, ◌==◌, ◌||◌, not, contains, contains-filter, filter, length,
  length-filter, Distinct, arith, eq_iff, eq_refl, inl, inr, is_some,
}
use papercrate.Dict.{Dict, lookup, keys}
use papercrate.Drops.{FolderNode, parent_of, climb, is_invalid_folder_drop}

length-filter_present :
    (x : String) (ys : List String)
    → contains x ys ≡ true
    → length (filter (λ k. not (k == x)) ys) < length ys
unfolding contains
length-filter_present x [] h = absurd (cc h)
length-filter_present x (y ∷ ys) h =
    ground (arith, length-filter (λ k. not (k == x)) ys, length-filter_present x ys, eq_iff y x)

-- Distinct keys that are all among others are no more than these.
pub Distinct-length :
    (xs ys : List String)
    → Distinct xs
    → ((k : String) → contains k xs ≡ true → contains k ys ≡ true)
    → length xs ≤ length ys
unfolding contains
Distinct-length [] ys d h = omega arith
Distinct-length (x ∷ xs) ys d h =
    let fewer = length-filter_present x ys (h x (ground (arith, eq_refl x))) in
    let rest : length xs ≤ length (filter (λ k. not (k == x)) ys) =
      Distinct-length xs (filter (λ k. not (k == x)) ys) d.1 (λ k there.
        ground (arith, contains-filter k (λ j. not (j == x)) ys, h k, eq_iff k x, eq_iff x k)) in
    omega (arith, fewer, rest)

length-keys : (nodes : Dict FolderNode) → length (keys nodes) ≡ length nodes
unfolding keys
length-keys [] = refl
length-keys ((k, node) ∷ nodes) = ap suc (length-keys nodes)

lookup-contains :
    (k : String) (nodes : Dict FolderNode) (node : FolderNode)
    → lookup k nodes ≡ some node
    → contains k (keys nodes) ≡ true
unfolding lookup keys contains
lookup-contains k [] node h = absurd (cc h)
lookup-contains k ((j, n) ∷ nodes) node h = ground (arith, lookup-contains k nodes node)

-- The loop ends: with a round for each node that was not visited, and one more.
climb_ends :
    (fuel : ℕ) (nodes : Dict FolderNode) (source current : String) (visited : List String)
    → Distinct visited
    → ((k : String) → contains k visited ≡ true → contains k (keys nodes) ≡ true)
    → length nodes < fuel + length visited
    → is_some (climb fuel nodes source current visited) ≡ true
unfolding climb
climb_ends zero nodes source current visited d known enough =
    absurd (omega (arith, enough, Distinct-length visited (keys nodes) d known, length-keys nodes))
climb_ends (suc fuel) nodes source current visited d known enough =
    elim (Bool-cases (current == "" || current == "root" || contains current visited)) [
      | inl stops ↦ rw (stops, climb) refl
      | inr goes_on ↦ elim (Bool-cases (current == source)) [
        | inl met ↦ rw (goes_on, climb) (rw (met, climb) refl)
        | inr other ↦ elim (Option-cases (lookup current nodes)) [
          | inl missing ↦ rw (goes_on, climb) (rw (other, climb) (rw (missing, climb) refl))
          | inr (node, found) ↦
              rw (goes_on, climb)
                (rw (other, climb)
                  (rw (found, climb)
                    (climb_ends fuel nodes source (parent_of node) (current ∷ visited)
                      (ground arith, d)
                      (λ k there.
                        unfold contains in
                        ground (
                          arith,
                          known k,
                          lookup-contains current nodes node found,
                          eq_iff current k,
                        ))
                      (omega (arith, enough)))))
        ]
      ]
    ]

-- The loop of `isInvalidFolderDrop` ends whatever the nodes are, also where their parents form a
-- cycle: a round more than there are nodes is enough.
pub climb_terminates :
    (nodes : Dict FolderNode) (source target : String)
    → is_some (climb (suc (length nodes)) nodes source target []) ≡ true
climb_terminates nodes source target =
    climb_ends (suc (length nodes)) nodes source target [] tt
      (λ k h. unfold contains in absurd (cc h)) (omega arith)

-- Not the end of a climb.
abbrev pub IsInner : String → Type 0
IsInner c = (c == "" || c == "root") ≡ false

-- The source is met on the way up from a folder, the folder itself included.
pub data IsBelow (nodes : Dict FolderNode) (source : String) : String → Type 0 where
  here : (c : String) → (c == source) ≡ true → IsInner c → IsBelow nodes source c
  up :
      (c : String) (node : FolderNode)
      → lookup c nodes ≡ some node
      → IsInner c
      → IsBelow nodes source (parent_of node)
      → IsBelow nodes source c

climb-IsBelow :
    (fuel : ℕ) (nodes : Dict FolderNode) (source current : String) (visited : List String)
    → climb fuel nodes source current visited ≡ some true
    → IsBelow nodes source current
unfolding climb
climb-IsBelow zero nodes source current visited h = absurd (cc h)
climb-IsBelow (suc fuel) nodes source current visited h =
    elim (Bool-cases (current == "" || current == "root" || contains current visited)) [
      | inl stops ↦ absurd (ground (arith, h, stops))
      | inr goes_on ↦ elim (Bool-cases (current == source)) [
        | inl met ↦ here current met (ground arith)
        | inr other ↦ elim (Option-cases (lookup current nodes)) [
          | inl missing ↦ absurd (ground (arith, h, goes_on, other, missing))
          | inr (node, found) ↦ up current node found (ground arith) (
              climb-IsBelow fuel nodes source (parent_of node) (current ∷ visited)
                (ground (arith, h, goes_on, other, found)))
        ]
      ]
    ]

-- The folders visited are not the source, and their parents are visited, or the one reached.
abbrev IsTrail : Dict FolderNode → String → List String → String → Type 0
IsTrail nodes source visited current =
    (v : String)
    → contains v visited ≡ true
    → ((v == source) ≡ false)
      × ((node : FolderNode)
          → lookup v nodes ≡ some node
          → (contains (parent_of node) visited || (parent_of node == current)) ≡ true)

-- A trail that has closed never meets the source.
closed_trail :
    (nodes : Dict FolderNode) (source current c : String) (visited : List String)
    → IsTrail nodes source visited current
    → contains current visited ≡ true
    → contains c visited ≡ true
    → IsBelow nodes source c
    → false ≡ true
closed_trail nodes source current _ visited trail closed there (here c met inner) =
    absurd (ground (arith, (trail c there).0))
closed_trail nodes source current _ visited trail closed there (up c node found inner below) =
    closed_trail nodes source current (parent_of node) visited trail closed
      (ground (arith, (trail c there).1 node found, eq_iff (parent_of node) current)) below

IsBelow-IsInner : (nodes : Dict FolderNode) (source c : String) → IsBelow nodes source c → IsInner c
IsBelow-IsInner nodes source _ (here c met inner) = inner
IsBelow-IsInner nodes source _ (up c node found inner below) = inner

IsBelow-step :
    (nodes : Dict FolderNode) (source c : String)
    → IsBelow nodes source c
    → (c == source) ≡ false
    → (node : FolderNode) × (lookup c nodes ≡ some node) × IsBelow nodes source (parent_of node)
IsBelow-step nodes source _ (here c met inner) other = absurd (cc (met, other))
IsBelow-step nodes source _ (up c node found inner below) other = (node, found, below)

longer-IsTrail :
    (nodes : Dict FolderNode) (source current : String) (visited : List String) (node : FolderNode)
    → IsTrail nodes source visited current
    → (current == source) ≡ false
    → lookup current nodes ≡ some node
    → IsTrail nodes source (current ∷ visited) (parent_of node)
unfolding contains
longer-IsTrail nodes source current visited node trail other found v there =
    elim (Bool-cases (current == v)) [
      | inl same ↦
          let e : current ≡ v = (eq_iff current v).0 same in
          (
            rw (sym e) other,
            λ node' found'.
                let own : some node' ≡ some node = sym found' ∙ rw (sym e) found in
                ground (arith, eq_refl (parent_of node)),
          )
      | inr differs ↦
          let old : contains v visited ≡ true = ground arith in
          (
            (trail v old).0,
            λ node' found'. ground (
              arith,
              (trail v old).1 node' found',
              eq_iff (parent_of node') current,
              eq_iff current (parent_of node'),
            ),
          )
    ]

climb_meets :
    (fuel : ℕ) (nodes : Dict FolderNode) (source current : String) (visited : List String)
    → IsTrail nodes source visited current
    → IsBelow nodes source current
    → is_some (climb fuel nodes source current visited) ≡ true
    → climb fuel nodes source current visited ≡ some true
unfolding climb
climb_meets zero nodes source current visited trail below ends = absurd (cc ends)
climb_meets (suc fuel) nodes source current visited trail below ends =
    elim (Bool-cases (contains current visited)) [
      | inl closed ↦
          absurd (cc (closed_trail nodes source current current visited trail closed closed below))
      | inr new ↦
          let inner = IsBelow-IsInner nodes source current below in
          let goes_on : (current == "" || current == "root" || contains current visited) ≡ false =
            ground arith in
          elim (Bool-cases (current == source)) [
            | inl met ↦ rw (goes_on, climb) (rw (met, climb) refl)
            | inr other ↦
                let (node, found, above) = IsBelow-step nodes source current below other in
                rw (goes_on, climb)
                  (rw (other, climb)
                    (rw (found, climb)
                      (climb_meets fuel nodes source (parent_of node) (current ∷ visited)
                        (longer-IsTrail nodes source current visited node trail other found) above
                        (ground (arith, ends, goes_on, other, found)))))
          ]
    ]

IsBelow-source :
    (nodes : Dict FolderNode) (source c : String) → IsBelow nodes source c → (source == "") ≡ false
IsBelow-source nodes source _ (here c met inner) = ground (arith, eq_iff c source)
IsBelow-source nodes source _ (up c node found inner below) =
    IsBelow-source nodes source (parent_of node) below

refused-IsBelow :
    (nodes : Dict FolderNode) (source target : String)
    → is_invalid_folder_drop nodes (some source) (some target) ≡ true
    → IsBelow nodes source target
unfolding is_invalid_folder_drop
refused-IsBelow nodes source target h =
    elim (Bool-cases (source == "" || target == "" || target == "root")) [
      | inl skipped ↦ absurd (ground (arith, h, skipped))
      | inr asked ↦ elim (Bool-cases (source == target)) [
        | inl same ↦
            here target (ground (arith, eq_iff source target, eq_refl target)) (ground arith)
        | inr other ↦
            climb-IsBelow (suc (length nodes)) nodes source target []
              (elim (Option-cases (climb (suc (length nodes)) nodes source target [])) [
                | inl out ↦ absurd (cc (out, climb_terminates nodes source target))
                | inr (b, e) ↦
                    let b_true : b ≡ true = ground (arith, h, asked, other, e) in e ∙ ap some b_true
              ])
      ]
    ]

-- A drop of a folder is refused exactly where the folder is met on the way up from the target of the
-- drop, the target itself included: a folder is not moved into itself or one of its descendants.
pub is_invalid_folder_drop_exactly :
    (nodes : Dict FolderNode) (source target : String)
    → (is_invalid_folder_drop nodes (some source) (some target) ≡ true)
      ↔ IsBelow nodes source target
unfolding is_invalid_folder_drop
is_invalid_folder_drop_exactly nodes source target = (
  refused-IsBelow nodes source target,
  λ below.
      let inner = IsBelow-IsInner nodes source target below in
      let given = IsBelow-source nodes source target below in
      let meets =
        climb_meets (suc (length nodes)) nodes source target []
          (λ v h. unfold contains in absurd (cc h)) below (climb_terminates nodes source target) in
      let asked : (source == "" || target == "" || target == "root") ≡ false = ground arith in
      rw asked (elim (Bool-cases (source == target)) [
        | inl same ↦ rw same refl
        | inr other ↦ rw other (rw meets refl)
      ]),
)
