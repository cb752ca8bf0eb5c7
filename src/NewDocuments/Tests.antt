-- ===== src/NewDocuments/Tests.antt =====
-- Two documents are marked and one of them is cleared, with lists for the texts of the storage.
use papercrate.Base.{
  ◌≡◌, refl, String, Bool, true, false, List, [], ◌∷◌, Option, none, some, contains, unique,
}
use papercrate.NewDocuments.{
  Event, mark_new, clear_new, subscribed, read_ids, initial, step, run, is_new,
}
use papercrate.NewDocuments.Laws.{after_all, new_documents_refine}

abbrev stringify : List String → List String
stringify ids = ids

abbrev parse : List String → Option (List String)
parse text = some text

abbrev is_blank : List String → Bool
is_blank text = false

abbrev events : List Event
events = subscribed 1 ∷ mark_new ("a" ∷ "b" ∷ "a" ∷ []) ∷ clear_new "a" ∷ []

new_documents_refine_example :
    (let s = run stringify parse is_blank events (initial stringify parse is_blank true none) in
      let first = λ (j : String). contains j (read_ids stringify parse is_blank true none) in
      (is_new stringify parse is_blank "b" s ≡ after_all events first "b")
      × (is_new stringify parse is_blank "b" (initial stringify parse is_blank true s.item)
          ≡ after_all events first "b"))
new_documents_refine_example =
    new_documents_refine stringify parse is_blank (λ ids. (refl, refl)) none events "b"

called :
    (run stringify parse is_blank events (initial stringify parse is_blank true none)).calls
    ≡ 1 ∷ 1 ∷ []
unfolding run step initial contains unique
called = refl
