-- ===== src/Selection/Apply/Laws.antt =====
-- What holds of a selection however it was made.
use papercrate.Base.{
  ◌≡◌, refl, ◌∙◌, String, Bool, Bool-cases, Option-cases, true, false, List, [], ◌∷◌, Option, none,
  some, ◌==◌, ◌&&◌, ◌||◌, not, filter, contains, Distinct, Distinct-append, contains-append,
  contains-filter, arith, eq_iff, eq_refl, inl, inr,
}
use papercrate.Selection.{update_selection_order}
use papercrate.Selection.Order.{next_order_sorted, update_selection_order-shown}
use papercrate.Selection.Apply.{
  Selection, canonical_key, pick, pick_all, resolve, last?, next_anchor, apply_selection,
  request_for, present, handle_entry_selection,
}

-- Keys picked: visible, and each once.
abbrev IsPicked : List String → List String → Type 0
IsPicked visible picked =
    Distinct picked × ((k : String) → contains k picked ≡ true → contains k visible ≡ true)

pick-IsPicked :
    (visible picked : List String) (key : Option String)
    → IsPicked visible picked
    → IsPicked visible (pick visible picked key)
unfolding pick
pick-IsPicked visible picked none p = p
pick-IsPicked visible picked (some key) p = elim (Bool-cases (key == "")) [
  | inl empty ↦ rw empty p
  | inr full ↦ elim (Option-cases (canonical_key visible key)) [
    | inl missing ↦ rw full (rw (missing, pick) p)
    | inr (canonical, found) ↦
        elim (Bool-cases (not (contains canonical visible) || contains canonical picked)) [
          | inl skipped ↦ rw full (rw (found, pick) (rw skipped p))
          | inr taken ↦ rw full (
              rw (found, pick)
                (rw taken (
                  Distinct-append picked (canonical ∷ []) p.0 (unfold contains in refl, tt)
                      (λ k h. unfold contains in ground (arith, eq_iff canonical k)),
                  λ k h.
                      unfold contains in
                      ground (
                        arith,
                        p.1 k,
                        contains-append k picked (canonical ∷ []),
                        eq_iff canonical k,
                      ),
                )))
        ]
  ]
]

pick_all-IsPicked :
    (visible picked : List String) (keys : List (Option String))
    → IsPicked visible picked
    → IsPicked visible (pick_all visible picked keys)
unfolding pick_all
pick_all-IsPicked visible picked [] p = p
pick_all-IsPicked visible picked (key ∷ keys) p =
    pick_all-IsPicked visible (pick visible picked key) keys (pick-IsPicked visible picked key p)

-- A visible key is picked as it is.
pick-visible :
    (k key : String) (visible picked : List String)
    → (key == "") ≡ false
    → contains key visible ≡ true
    → contains k (pick visible picked (some key)) ≡ (contains k picked || (key == k))
unfolding pick canonical_key
pick-visible k key visible picked full seen =
    rw (full, seen)
      (elim (Bool-cases (contains key picked)) [
        | inl there ↦ rw (there, seen) (ground (arith, eq_iff key k))
        | inr new ↦
            rw (new, seen) (contains-append k picked (key ∷ []) ∙ unfold contains in ground arith)
      ])

pick_all-visible :
    (k : String) (visible picked : List String) (keys : List String)
    → ((j : String) → contains j keys ≡ true → ((j == "") ≡ false) × (contains j visible ≡ true))
    → contains k (pick_all visible picked (present keys)) ≡ (contains k picked || contains k keys)
unfolding pick_all present contains
pick_all-visible k visible picked [] valid = ground arith
pick_all-visible k visible picked (key ∷ keys) valid =
    let (full, seen) = valid key (ground (arith, eq_refl key)) in
    pick_all-visible k visible (pick visible picked (some key)) keys (λ j h. valid j (ground arith))
    ∙ ground (arith, pick-visible k key visible picked full seen)

pub last?-contains :
    (x : String) (xs : List String)
    → (l : String) × (last? (x ∷ xs) ≡ some l) × (contains l (x ∷ xs) ≡ true)
unfolding last? contains
last?-contains x [] = (x, refl, ground (arith, eq_refl x))
last?-contains x (y ∷ xs) = let (l, found, there) = last?-contains y xs in (l, found, ground arith)

-- The anchor is one of the keys, and there is none only where there is no key.
abbrev pub IsAnchored : Option String → List String → Type 0
IsAnchored none picked = picked ≡ []
IsAnchored (some anchor) picked = contains anchor picked ≡ true

IsAnchored-last : (x : String) (xs : List String) → IsAnchored (last? (x ∷ xs)) (x ∷ xs)
IsAnchored-last x xs = let (l, found, there) = last?-contains x xs in rw found there

resolve-contains :
    (anchor : Option String) (picked : List String) (a : String)
    → resolve anchor picked ≡ some a
    → contains a picked ≡ true
unfolding resolve
resolve-contains none picked a h = absurd (cc h)
resolve-contains (some anchor) picked a h = ground (arith, eq_iff anchor a)

next_anchor-IsAnchored :
    (resolved : Option String) (picked : List String) (old : Option String)
    → ((a : String) → resolved ≡ some a → contains a picked ≡ true)
    → IsAnchored (next_anchor resolved picked old) picked
unfolding next_anchor
next_anchor-IsAnchored (some anchor) picked old h = h anchor refl
next_anchor-IsAnchored none [] old h = refl
next_anchor-IsAnchored none (x ∷ xs) none h = IsAnchored-last x xs
next_anchor-IsAnchored none (x ∷ xs) (some old) h = elim (Bool-cases (contains old (x ∷ xs))) [
  | inl kept ↦ rw kept kept
  | inr lost ↦ rw lost (IsAnchored-last x xs)
]

-- A selection that is in order: its keys are visible, each once; the anchor is one of them, or there
-- are none; and the order has the same keys, each once, and is the one shown.
pub record IsInOrder (s : Selection) : Type 0 where
  pub distinct : Distinct s.selected
  pub visible : (k : String) → contains k s.selected ≡ true → contains k s.visible ≡ true
  pub anchored : IsAnchored s.anchor s.selected
  pub ordered : Distinct s.order.current
  pub same : (k : String) → contains k s.order.current ≡ contains k s.selected
  pub shown : s.order.shown ≡ s.order.current

-- `applySelection` leaves the selection in order, whatever keys, anchor and touched keys it is given
-- and whatever was selected, if the order before it was one without repetition and was shown.
pub apply_selection-IsInOrder :
    (entry_keys : List (Option String)) (anchor : Option String) (interacted_keys : List String)
    (s : Selection)
    → Distinct s.order.current
    → s.order.shown ≡ s.order.current
    → IsInOrder (apply_selection entry_keys anchor interacted_keys s)
unfolding apply_selection
apply_selection-IsInOrder entry_keys anchor interacted_keys s d shown =
    let picked = pick_all s.visible [] entry_keys in
    let p : IsPicked s.visible picked =
      pick_all-IsPicked s.visible [] entry_keys (tt, λ k h. unfold contains in absurd (cc h)) in
    let sorted = next_order_sorted s.order.current picked interacted_keys d in
    record {
      distinct = p.0;
      visible = p.1;
      anchored =
          next_anchor-IsAnchored (resolve anchor picked) picked s.anchor
            (resolve-contains anchor picked);
      ordered = unfold update_selection_order in sorted.0;
      same = unfold update_selection_order in sorted.1;
      shown = update_selection_order-shown picked interacted_keys s.order shown;
    }

-- A click keeps the selection in order, whatever keys it is on and whatever modifiers it comes with.
pub handle_entry_selection-IsInOrder :
    (entry_keys : List String) (shift additive : Bool) (s : Selection)
    → IsInOrder s
    → IsInOrder (handle_entry_selection entry_keys shift additive s)
unfolding handle_entry_selection
handle_entry_selection-IsInOrder entry_keys shift additive s v =
    elim (Option-cases
      (last? (filter (λ key. not (key == "") && contains key s.visible) entry_keys))) [
        | inl nothing ↦ rw (nothing, handle_entry_selection) v
        | inr (last, found) ↦
            let valid = filter (λ key. not (key == "") && contains key s.visible) entry_keys in
            let r = request_for shift additive valid last s in
            rw (found, handle_entry_selection)
              (apply_selection-IsInOrder (present r.next_keys) r.anchor r.interacted_keys
                (record s { focused_entry = some last }) v.ordered v.shown)
      ]

last?-none : (k : String) (xs : List String) → last? xs ≡ none → contains k xs ≡ false
unfolding contains
last?-none k [] h = refl
last?-none k (x ∷ xs) h = let (l, found, _) = last?-contains x xs in absurd (cc (h, found))

-- A plain click on keys of which some, not the empty one, are visible selects just these.
pub plain_click_selects :
    (entry_keys : List String) (s : Selection) (key k : String)
    → contains key entry_keys ≡ true
    → (key == "") ≡ false
    → contains key s.visible ≡ true
    → contains k (handle_entry_selection entry_keys false false s).selected
      ≡ ((not (k == "") && contains k s.visible) && contains k entry_keys)
unfolding handle_entry_selection
plain_click_selects entry_keys s key k there full seen =
    let test : String → Bool = λ key. not (key == "") && contains key s.visible in
    elim (Option-cases (last? (filter test entry_keys))) [
      | inl nothing ↦ absurd (
          ground
            (arith, contains-filter key test entry_keys, last?-none key (filter test entry_keys)))
      | inr (last, found) ↦
          rw (found, handle_entry_selection)
            (unfold apply_selection request_for in
              pick_all-visible k s.visible [] (filter test entry_keys)
                (λ j h. ground (arith, contains-filter j test entry_keys))
              ∙ unfold contains in contains-filter k test entry_keys)
    ]
