-- ===== src/NewDocuments/Laws.antt =====
-- The store of new documents implements a set of identifiers.
use papercrate.Base.{
  any, nat_eq, ◌≡◌, refl, sym, ap, ◌∙◌, String, Bool, Bool-cases, true, false, List, [], ◌∷◌,
  Option, some, ◌==◌, ◌&&◌, ◌||◌, not, contains, contains-filter, contains-unique, unique, filter,
  arith, inl, inr, eq_iff,
}
use papercrate.NewDocuments.{
  Event, mark_new, clear_new, clear_all, subscribed, unsubscribed, Store, read_ids, write_ids,
  notify, initial, step, run, is_new,
}

-- The set that the events make of a set, told by its members.
abbrev pub after : Event → (String → Bool) → String → Bool
after (mark_new ids) new k = new k || contains k ids
after (clear_new id) new k = not (k == id) && new k
after clear_all new k = false
after (subscribed l) new k = new k
after (unsubscribed l) new k = new k

abbrev pub after_all : List Event → (String → Bool) → String → Bool
after_all [] new = new
after_all (e ∷ es) new = after_all es (after e new)

-- JSON reads the texts that it makes, and none of them is blank.
module _ {Text : Type 0} (stringify : List String → Text) (parse : Text → Option (List String))
    (is_blank : Text → Bool)
    (reads : (ids : List String)
      → (parse (stringify ids) ≡ some ids) × (is_blank (stringify ids) ≡ false)) where
  -- The storage and the snapshot have the members of the set.
  abbrev Implements : Store stringify parse is_blank → (String → Bool) → Type 0
  Implements s new =
      (s.available ≡ true)
      × ((k : String) → contains k (read_ids stringify parse is_blank s.available s.item) ≡ new k)
      × ((k : String) → contains k s.snapshot ≡ new k)

  read-stringify :
      (k : String) (ids : List String)
      → contains k (read_ids stringify parse is_blank true (some (stringify ids))) ≡ contains k ids
  unfolding read_ids
  read-stringify k ids =
      rw ((reads ids).1, (reads ids).0) (contains-unique k [] ids ∙ unfold contains in refl)

  -- What is written is there, and the components see it.
  written-Implements :
      (ids : List String) (s : Store stringify parse is_blank) (new : String → Bool)
      → s.available ≡ true
      → ((k : String) → contains k ids ≡ new k)
      → Implements (notify stringify parse is_blank (write_ids stringify parse is_blank ids s)) new
  unfolding notify write_ids
  written-Implements [] s new on same =
      rw on (refl, (λ k. unfold read_ids in same k), (λ k. unfold read_ids in same k))
  written-Implements (id ∷ ids) s new on same = rw on (
    refl,
    (λ k. read-stringify k (id ∷ ids) ∙ same k),
    (λ k. read-stringify k (id ∷ ids) ∙ same k),
  )

  step-Implements :
      (e : Event) (s : Store stringify parse is_blank) (new : String → Bool)
      → Implements s new
      → Implements (step stringify parse is_blank e s) (after e new)
  unfolding step
  step-Implements (mark_new []) s new (on, stored, seen) = (
    on,
    (λ k. stored k ∙ unfold contains in ground arith),
    (λ k. seen k ∙ unfold contains in ground arith),
  )
  step-Implements (mark_new (id ∷ ids)) s new (on, stored, seen) =
      let current = read_ids stringify parse is_blank s.available s.item in
      written-Implements (unique current (id ∷ ids)) s (after (mark_new (id ∷ ids)) new) on
        (λ k. contains-unique k current (id ∷ ids) ∙ ground (arith, stored k))
  step-Implements (clear_new id) s new (on, stored, seen) =
      let current = read_ids stringify parse is_blank s.available s.item in
      elim (Bool-cases (contains id current)) [
        | inl there ↦ rw there (
            written-Implements (filter (λ k. not (k == id)) current) s (after (clear_new id) new) on
              (λ k. contains-filter k (λ j. not (j == id)) current ∙ ground (arith, stored k)))
        | inr out ↦ rw out (
          on,
          (λ k. stored k ∙ ground (arith, eq_iff k id, stored k, stored id)),
          (λ k. seen k ∙ ground (arith, eq_iff k id, stored k, stored id)),
        )
      ]
  step-Implements clear_all s new (on, stored, seen) =
      written-Implements [] s (after clear_all new) on (λ k. unfold contains in refl)
  step-Implements (subscribed l) s new h = elim (Bool-cases (any (nat_eq l) s.listeners)) [
    | inl known ↦ rw known h
    | inr fresh ↦ rw fresh h
  ]
  step-Implements (unsubscribed l) s new h = h

  run-Implements :
      (es : List Event) (s : Store stringify parse is_blank) (new : String → Bool)
      → Implements s new
      → Implements (run stringify parse is_blank es s) (after_all es new)
  unfolding run
  run-Implements [] s new h = h
  run-Implements (e ∷ es) s new h =
      run-Implements es (step stringify parse is_blank e s) (after e new)
        (step-Implements e s new h)

  -- Where the storage is available and JSON reads what it makes, whatever is marked and cleared, in any order, a document is new
  -- for the components exactly if it is in the set that the same events make of the documents that
  -- the storage held at first, and the storage holds that set for the next load.
  pub new_documents_refine :
      (item : Option Text) (es : List Event) (k : String)
      → (let s = run stringify parse is_blank es (initial stringify parse is_blank true item) in
          let first = λ (j : String). contains j (read_ids stringify parse is_blank true item) in
          (is_new stringify parse is_blank k s ≡ after_all es first k)
          × (is_new stringify parse is_blank k (initial stringify parse is_blank true s.item)
              ≡ after_all es first k))
  unfolding initial is_new
  new_documents_refine item es k =
      let (on, stored, seen) =
        run-Implements es (initial stringify parse is_blank true item)
          (λ j. contains j (read_ids stringify parse is_blank true item))
          (refl, (λ j. refl), (λ j. refl)) in
      let s = run stringify parse is_blank es (initial stringify parse is_blank true item) in
      (
        seen k,
        ap (λ (b : Bool). contains k (read_ids stringify parse is_blank b s.item)) (sym on)
            ∙ stored k,
      )
