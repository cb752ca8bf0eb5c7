-- ===== src/Uploads/Steps.antt =====
-- One round of a batch: where it stands in the queue after each step.
use papercrate.Base.{
  ℕ, ◌≡◌, refl, sym, ap, ◌∙◌, true, List, [], ◌∷◌, ◌++◌, Option, Option-cases, none, some, ◌&&◌,
  arith, inl, inr, ◌⊎◌, String,
}
use papercrate.Api.{Reply, ok, failed}
use papercrate.Dict.{lookup}
use mathlib.Core.List.{append_assoc}
use papercrate.Uploads.{
  File, QueueItem, Batch, Attempt, Outcome, done, thrown, Failure, patch_item, begun, finished,
  broken, settle, send, ensure_folder_path, cache_key, or_keep, destination, process_one,
  is_settled, trimmed, upload_file,
}
use papercrate.Uploads.Settling.{all_settled, IsAt, patch_item-IsAt}

module _ (n : ℕ) (old : List QueueItem) where
  pub moved-IsAt :
      (front rest : List QueueItem) (b b' : Batch)
      → b'.queue ≡ b.queue
      → b'.items ≡ b.items
      → IsAt n old front rest b
      → IsAt n old front rest b'
  moved-IsAt front rest b b' q i at = record {
    queue = q ∙ at.queue;
    items = i ∙ at.items;
    numbered = at.numbered;
    below = at.below;
  }

  pub shift-IsAt :
      (front : List QueueItem) (item : QueueItem) (rest : List QueueItem) (b : Batch)
      → IsAt n old front (item ∷ rest) b
      → IsAt n old (front ++ item ∷ []) rest b
  shift-IsAt front item rest b at =
      let e = append_assoc front (item ∷ []) rest in
      record {
        queue = at.queue ∙ ap (λ l. old ++ l) (sym e);
        items = at.items ∙ sym e;
        numbered = rw e at.numbered;
        below = at.below;
      }

  -- An outcome ends an item.
  pub settle-IsAt :
      (front : List QueueItem) (item : QueueItem) (rest : List QueueItem) (o : Outcome) (b : Batch)
      → IsAt n old front (item ∷ rest) b
      → (item' : QueueItem) × (is_settled item'.status ≡ true)
        × IsAt n old front (item' ∷ rest) (settle item.id o b)
  unfolding settle is_settled finished broken
  settle-IsAt front item rest (done r) b at =
      (finished r item, ground arith, patch_item-IsAt (finished r) n old front item rest b refl at)
  settle-IsAt front item rest (thrown f) b at =
      (broken f item, refl, patch_item-IsAt (broken f) n old front item rest b refl at)

pub ensure_folder_path-lists :
    (base : Option String) (segments : List String) (answer : Reply (Option String)) (b : Batch)
    → ((ensure_folder_path base segments answer b).0.queue ≡ b.queue)
      × ((ensure_folder_path base segments answer b).0.items ≡ b.items)
unfolding ensure_folder_path
ensure_folder_path-lists base [] answer b = (refl, refl)
ensure_folder_path-lists base (s ∷ segments) answer b =
    elim (Option-cases (lookup (cache_key base (s ∷ segments)) b.cache)) [
      | inl missing ↦ rw (missing, ensure_folder_path) (ground arith)
      | inr (id, found) ↦ rw (found, ensure_folder_path) (refl, refl)
    ]

pub destination-lists :
    (base : Option String) (segments : List String) (answer : Reply (Option String)) (b : Batch)
    → ((destination base segments answer b).0.queue ≡ b.queue)
      × ((destination base segments answer b).0.items ≡ b.items)
unfolding destination
destination-lists base [] answer b = (refl, refl)
destination-lists base (s ∷ segments) answer b =
    ensure_folder_path-lists base (trimmed (s ∷ segments)) answer b

pub reply_cases {ℓ} : {A : Type ℓ} (r : Reply A) → (r ≡ failed) ⊎ ((a : A) × (r ≡ ok a))
reply_cases failed = inl refl
reply_cases (ok a) = inr (a, refl)

pub send-lists :
    (file : File) (target : Option String) (b : Batch)
    → ((send file target b).queue ≡ b.queue) × ((send file target b).items ≡ b.items)
unfolding send
send-lists file target b = ground arith

-- A round ends its item, or the batch with a failure.
abbrev pub After :
    ℕ → List QueueItem → List QueueItem → List QueueItem → Batch × Option Failure → Type 0
After n old front rest result =
    ((item' : QueueItem) × (result.1 ≡ none)
      × (is_settled item'.status ≡ true)
      × IsAt n old front (item' ∷ rest) result.0)
    ⊎ ((item' : QueueItem) × (f : Failure) × (result.1 ≡ some f)
        × IsAt n old front (item' ∷ rest) result.0)

pub process_one-After :
    (n : ℕ) (old front : List QueueItem) (item : QueueItem) (rest : List QueueItem)
    (base : Option String) (a : Attempt) (b : Batch)
    → IsAt n old front (item ∷ rest) b
    → After n old front rest (process_one base a item.id b)
unfolding process_one begun
process_one-After n old front item rest base a b at =
    let b' = patch_item item.id begun b in
    let at' = patch_item-IsAt begun n old front item rest b refl at in
    let found = destination base a.entry.segments a.folder_answer b' in
    let (q, i) = destination-lists base a.entry.segments a.folder_answer b' in
    let at'' = moved-IsAt n old front (begun item ∷ rest) b' found.0 q i at' in
    elim (reply_cases found.1) [
      | inl lost ↦ rw (lost, process_one) (inr (begun item, a.folder_failure, refl, at''))
      | inr (folder, there) ↦
          let sent = send a.entry.file (or_keep folder base) found.0 in
          let (q', i') = send-lists a.entry.file (or_keep folder base) found.0 in
          let (item', settled, end) =
            settle-IsAt n old front (begun item) rest (upload_file a.entry.file a.answer) sent
              (moved-IsAt n old front (begun item ∷ rest) found.0 sent q' i' at'') in
          rw (there, process_one) (inl (item', refl, settled, end))
    ]

pub all_settled-append :
    (a b : List QueueItem) → all_settled (a ++ b) ≡ (all_settled a && all_settled b)
unfolding all_settled
all_settled-append [] b = ground arith
all_settled-append (x ∷ a) b = ground (arith, all_settled-append a b)

pub front_settled :
    (front : List QueueItem) (item : QueueItem)
    → all_settled front ≡ true
    → is_settled item.status ≡ true
    → all_settled (front ++ item ∷ []) ≡ true
front_settled front item h k =
    all_settled-append front (item ∷ []) ∙ unfold all_settled in ground arith
