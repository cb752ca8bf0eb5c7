-- ===== src/Uploads/Settling.antt =====
-- Every item of a batch comes to an end, and the queue shows it.
use papercrate.Base.{
  ℕ, suc, ◌+◌, ◌≤◌, ◌<◌, ◌≡◌, refl, ap, ◌∙◌, Bool, true, false, List, [], ◌∷◌, ◌++◌, if◌then◌else◌,
  ◌&&◌, length, arith,
}
use papercrate.Uploads.{
  QueueId, QueueItem, Batch, same_id, update_queue_item, patch_item, is_settled,
}

-- Every item has come to an end.
unfoldable pub all_settled : List QueueItem → Bool
all_settled [] = true
all_settled (item ∷ items) = is_settled item.status && all_settled items

-- Items numbered one after the other, from the number after `n`.
abbrev pub IsNumbered : ℕ → List QueueItem → Type 0
IsNumbered n [] = Unit
IsNumbered n (item ∷ items) = (item.id.number ≡ suc n) × IsNumbered (suc n) items

-- Items with numbers of at most `n`.
abbrev pub IsBelow : ℕ → List QueueItem → Type 0
IsBelow n [] = Unit
IsBelow n (item ∷ items) = (item.id.number ≤ n) × IsBelow n items

numbered_above :
    (n : ℕ) (front : List QueueItem) (item : QueueItem) (rest : List QueueItem)
    → IsNumbered n (front ++ item ∷ rest)
    → n < item.id.number
numbered_above n [] item rest (h, _) = omega (arith, h)
numbered_above n (x ∷ front) item rest (_, h) =
    omega (arith, numbered_above (suc n) front item rest h)

IsNumbered-patch :
    (n : ℕ) (front : List QueueItem) (item item' : QueueItem) (rest : List QueueItem)
    → item'.id ≡ item.id
    → IsNumbered n (front ++ item ∷ rest)
    → IsNumbered n (front ++ item' ∷ rest)
IsNumbered-patch n [] item item' rest same (h, hs) = (ap QueueId.number same ∙ h, hs)
IsNumbered-patch n (x ∷ front) item item' rest same (h, hs) =
    (h, IsNumbered-patch (suc n) front item item' rest same hs)

pub IsBelow-append : (n : ℕ) (a b : List QueueItem) → IsBelow n a → IsBelow n b → IsBelow n (a ++ b)
IsBelow-append n [] b h k = k
IsBelow-append n (x ∷ a) b (h, hs) k = (h, IsBelow-append n a b hs k)

pub IsBelow-weaken : (n m : ℕ) (a : List QueueItem) → n ≤ m → IsBelow n a → IsBelow m a
IsBelow-weaken n m [] le h = tt
IsBelow-weaken n m (x ∷ a) le (h, hs) = (omega arith, IsBelow-weaken n m a le hs)

pub IsNumbered-IsBelow :
    (n : ℕ) (items : List QueueItem) → IsNumbered n items → IsBelow (n + length items) items
IsNumbered-IsBelow n [] h = tt
IsNumbered-IsBelow n (x ∷ items) (h, hs) =
    (omega (arith, h), IsBelow-weaken _ _ items (omega arith) (IsNumbered-IsBelow (suc n) items hs))

module _ (id : QueueId) (patch : QueueItem → QueueItem) where
  update-append :
      (a b : List QueueItem)
      → update_queue_item id patch (a ++ b)
        ≡ update_queue_item id patch a ++ update_queue_item id patch b
  unfolding update_queue_item
  update-append [] b = refl
  update-append (x ∷ a) b =
      ap (λ l. (if same_id x.id id then patch x else x) ∷ l) (update-append a b)

  update_below :
      (n : ℕ) (items : List QueueItem)
      → n < id.number
      → IsBelow n items
      → update_queue_item id patch items ≡ items
  unfolding update_queue_item
  update_below n [] lt h = refl
  update_below n (x ∷ items) lt (h, hs) =
      let other : same_id x.id id ≡ false = ground arith in
      rw other (ap (λ l. x ∷ l) (update_below n items lt hs))

  update_above :
      (n : ℕ) (items : List QueueItem)
      → id.number ≤ n
      → IsNumbered n items
      → update_queue_item id patch items ≡ items
  unfolding update_queue_item
  update_above n [] le h = refl
  update_above n (x ∷ items) le (h, hs) =
      let other : same_id x.id id ≡ false = ground arith in
      rw other (ap (λ l. x ∷ l) (update_above (suc n) items (omega arith) hs))

-- A patch changes the one item.
update_here :
    (patch : QueueItem → QueueItem) (n : ℕ) (front : List QueueItem) (item : QueueItem)
    (rest : List QueueItem)
    → IsNumbered n (front ++ item ∷ rest)
    → update_queue_item item.id patch (front ++ item ∷ rest) ≡ front ++ patch item ∷ rest
unfolding update_queue_item
update_here patch n [] item rest (h, hs) =
    let here : same_id item.id item.id ≡ true = ground arith in
    rw here
      (ap (λ l. patch item ∷ l) (update_above item.id patch (suc n) rest (omega (arith, h)) hs))
update_here patch n (x ∷ front) item rest (h, hs) =
    let above = numbered_above (suc n) front item rest hs in
    let other : same_id x.id item.id ≡ false = ground (arith, above, h) in
    rw other (ap (λ l. x ∷ l) (update_here patch (suc n) front item rest hs))

-- The queue is the old one and the items of the batch, of which `front` have been processed.
pub record IsAt (n : ℕ) (old front rest : List QueueItem) (b : Batch) : Type 0 where
  pub queue : b.queue ≡ old ++ (front ++ rest)
  pub items : b.items ≡ front ++ rest
  pub numbered : IsNumbered n (front ++ rest)
  pub below : IsBelow n old

pub patch_item-IsAt :
    (patch : QueueItem → QueueItem) (n : ℕ) (old front : List QueueItem) (item : QueueItem)
    (rest : List QueueItem) (b : Batch)
    → (patch item).id ≡ item.id
    → IsAt n old front (item ∷ rest) b
    → IsAt n old front (patch item ∷ rest) (patch_item item.id patch b)
unfolding patch_item
patch_item-IsAt patch n old front item rest b same at = record {
  queue =
      ap (update_queue_item item.id patch) at.queue
      ∙ update-append item.id patch old (front ++ item ∷ rest)
      ∙ (λ i.
          (update_below item.id patch n old (numbered_above n front item rest at.numbered) at.below
            i)
          ++ (update_here patch n front item rest at.numbered i));
  items =
      ap (update_queue_item item.id patch) at.items
      ∙ update_here patch n front item rest at.numbered;
  numbered = IsNumbered-patch n front item (patch item) rest same at.numbered;
  below = at.below;
}
