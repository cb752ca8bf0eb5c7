-- ===== src/Selection/Order.antt =====
-- What the order of the selection is after an update.
use papercrate.Base.{
  ◌≡◌, refl, sym, ap, ◌∙◌, String, Bool-cases, true, false, List, [], ◌∷◌, ◌++◌, ◌&&◌, ◌||◌, not,
  filter, contains, unique, Distinct, arith, eq_iff, inl, inr, contains-append, contains-filter,
  contains-unique, unique-Distinct, Distinct-filter, Distinct-append,
}
use mathlib.Core.List.{append_assoc}
use papercrate.Selection.{
  SelectionOrder, push_selected, next_order, same_keys, update_selection_order,
}

append_nil : (l : List String) → l ++ [] ≡ l
append_nil [] = refl
append_nil (x ∷ l) = ap (λ k. x ∷ k) (append_nil l)

-- The loops of pushes only append.
unique-append :
    (seen xs : List String)
    → (rest : List String) × (unique seen xs ≡ seen ++ rest)
      × ((k : String) → contains k rest ≡ true → contains k seen ≡ false)
unfolding unique contains
unique-append seen [] = ([], sym (append_nil seen), λ k h. absurd (cc h))
unique-append seen (x ∷ xs) = elim (Bool-cases (contains x seen)) [
  | inl there ↦ rw there (unique-append seen xs)
  | inr absent ↦
      let (rest, same, new) = unique-append (seen ++ x ∷ []) xs in
      rw absent (
        x ∷ rest,
        rw same (append_assoc seen (x ∷ []) rest),
        λ k h. ground (arith, new k, contains-append k seen (x ∷ []), eq_iff x k),
      )
]

push_selected-filter :
    (next result ids : List String)
    → Distinct ids
    → ((k : String) → contains k ids ≡ true → contains k result ≡ false)
    → push_selected next result ids ≡ result ++ filter (λ id. contains id next) ids
unfolding push_selected contains
push_selected-filter next result [] d new = sym (append_nil result)
push_selected-filter next result (x ∷ ids) d new = elim (Bool-cases (contains x next)) [
  | inr other ↦ rw other (push_selected-filter next result ids d.1 (λ k h. new k (ground arith)))
  | inl selected ↦
      let fresh : contains x result ≡ false = new x (ground (arith, eq_iff x x)) in
      rw (selected, fresh)
        (push_selected-filter next (result ++ x ∷ []) ids d.1
            (λ k h. ground (arith, new k, contains-append k result (x ∷ []), eq_iff x k, d.0))
          ∙ append_assoc result (x ∷ []) (filter (λ id. contains id next) ids))
]

contains_nil : (k : String) → contains k [] ≡ false
unfolding contains
contains_nil k = refl

-- The keys of the old order that are selected and not touched, and the touched ones that are
-- selected, each once.
abbrev pub untouched : List String → List String → List String → List String
untouched previous next_selection interacted_keys =
    filter (λ id. not (contains id (unique [] interacted_keys)))
      (filter (λ id. contains id next_selection) previous)

abbrev pub touched : List String → List String → List String
touched next_selection interacted_keys =
    filter (λ id. contains id next_selection) (unique [] interacted_keys)

contains-untouched :
    (k : String) (previous next_selection interacted_keys : List String)
    → contains k (untouched previous next_selection interacted_keys)
      ≡ (not (contains k interacted_keys) && (contains k next_selection && contains k previous))
contains-untouched k previous next_selection interacted_keys =
    contains-filter k (λ id. not (contains id (unique [] interacted_keys)))
      (filter (λ id. contains id next_selection) previous)
    ∙ rw
        (
          contains-filter k (λ id. contains id next_selection) previous,
          contains-unique k [] interacted_keys,
        )
        (unfold contains in refl)

contains-touched :
    (k : String) (next_selection interacted_keys : List String)
    → contains k (touched next_selection interacted_keys)
      ≡ (contains k next_selection && contains k interacted_keys)
contains-touched k next_selection interacted_keys =
    contains-filter k (λ id. contains id next_selection) (unique [] interacted_keys)
    ∙ rw (contains-unique k [] interacted_keys) (unfold contains in refl)

next_order-unique :
    (previous next_selection interacted_keys : List String)
    → next_order previous next_selection interacted_keys
      ≡ unique
          (untouched previous next_selection interacted_keys
            ++ touched next_selection interacted_keys)
          next_selection
unfolding next_order
next_order-unique previous next_selection interacted_keys =
    ap (λ l. unique l next_selection)
      (push_selected-filter next_selection (untouched previous next_selection interacted_keys)
        (unique [] interacted_keys) (unique-Distinct [] interacted_keys tt)
        (λ k h. ground (
          arith,
          contains-unique k [] interacted_keys,
          contains_nil k,
          contains-untouched k previous next_selection interacted_keys,
        )))

untouched-touched-Distinct :
    (previous next_selection interacted_keys : List String)
    → Distinct previous
    → Distinct (
        untouched previous next_selection interacted_keys ++ touched next_selection interacted_keys)
untouched-touched-Distinct previous next_selection interacted_keys d =
    Distinct-append _ _
      (Distinct-filter _ _ (Distinct-filter (λ id. contains id next_selection) previous d))
      (Distinct-filter _ _ (unique-Distinct [] interacted_keys tt))
      (λ k h. ground (
        arith,
        contains-untouched k previous next_selection interacted_keys,
        contains-touched k next_selection interacted_keys,
      ))

-- From an old order without repetition, the new order has just the selected keys, each once: first those of the old order that were not
-- touched, as they stood, then the touched ones, then those that are neither in the old order nor
-- touched.
pub next_order_sorted :
    (previous next_selection interacted_keys : List String)
    → Distinct previous
    → Distinct (next_order previous next_selection interacted_keys)
      × ((k : String)
          → contains k (next_order previous next_selection interacted_keys)
            ≡ contains k next_selection)
      × ((new : List String) × (next_order previous next_selection interacted_keys
            ≡ (untouched previous next_selection interacted_keys
                ++ touched next_selection interacted_keys)
              ++ new)
          × ((k : String)
              → contains k new ≡ true
              → (contains k previous || contains k interacted_keys) ≡ false))
next_order_sorted previous next_selection interacted_keys d =
    let shown =
      untouched previous next_selection interacted_keys ++ touched next_selection interacted_keys in
    let member : (k : String)
        → contains k shown
          ≡ (contains k next_selection && (contains k previous || contains k interacted_keys)) =
      λ k. ground (
        arith,
        contains-append k (untouched previous next_selection interacted_keys)
            (touched next_selection interacted_keys),
        contains-untouched k previous next_selection interacted_keys,
        contains-touched k next_selection interacted_keys,
      ) in
    let (new, same, fresh) = unique-append shown next_selection in
    rw (next_order-unique previous next_selection interacted_keys) (
      unique-Distinct shown next_selection
          (untouched-touched-Distinct previous next_selection interacted_keys d),
      λ k. ground (arith, contains-unique k shown next_selection, member k),
      (
        new,
        same,
        λ k h. ground (
          arith,
          fresh k,
          member k,
          contains-unique k shown next_selection,
          ap (contains k) same,
          contains-append k shown new,
        ),
      ),
    )

same_keys→eq : (a b : List String) → same_keys a b ≡ true → a ≡ b
unfolding same_keys
same_keys→eq [] [] h = refl
same_keys→eq (x ∷ a) (y ∷ b) h = ground (arith, eq_iff x y, same_keys→eq a b)
same_keys→eq [] (y ∷ b) h = absurd (cc h)
same_keys→eq (x ∷ a) [] h = absurd (cc h)

-- What is shown stays the same as the order kept for later updates.
pub update_selection_order-shown :
    (next_selection interacted_keys : List String) (s : SelectionOrder)
    → s.shown ≡ s.current
    → (update_selection_order next_selection interacted_keys s).shown
      ≡ (update_selection_order next_selection interacted_keys s).current
unfolding update_selection_order
update_selection_order-shown next_selection interacted_keys s h =
    elim (Bool-cases (same_keys (next_order s.current next_selection interacted_keys) s.current)) [
      | inl same ↦ rw same (h ∙ sym (same_keys→eq _ _ same))
      | inr other ↦ rw other refl
    ]
