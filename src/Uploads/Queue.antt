-- ===== src/Uploads/Queue.antt =====
-- Every item of a batch comes to an end, whatever the API answers, and the queue shows it.
use papercrate.Base.{
  ℕ, suc, ◌+◌, ◌≡◌, refl, sym, ap, ◌∙◌, Bool-cases, true, List, [], ◌∷◌, ◌++◌, Option, Option-cases,
  none, some, length, length-append, arith, inl, inr, String, or_else,
}
use papercrate.Uploads.{
  QueueItem, Batch, Attempt, Failure, Uploads, Report, patch_item, broken, process_one, process_all,
  is_settled, fail_rest, new_items, ids_of, start_batch, upload_file_entries, proper_folder,
}
use papercrate.Uploads.Settling.{
  all_settled, IsNumbered, IsBelow, IsAt, patch_item-IsAt, IsNumbered-IsBelow, IsBelow-append,
  IsBelow-weaken,
}
use papercrate.Uploads.Steps.{front_settled, process_one-After, shift-IsAt}

-- What the loop leaves: the items processed have come to an end, and all have been if nothing failed.
record Stopped (n : ℕ) (old : List QueueItem) (count : ℕ) (result : Batch × Option Failure)
    : Type 0 where
  front : List QueueItem
  rest : List QueueItem
  at : IsAt n old front rest result.0
  settled : all_settled front ≡ true
  whole : result.1 ≡ none → rest ≡ []
  counted : length front + length rest ≡ count

process_all-Stopped :
    (n : ℕ) (old front rest : List QueueItem) (base : Option String) (attempts : List Attempt)
    (b : Batch)
    → length attempts ≡ length rest
    → all_settled front ≡ true
    → IsAt n old front rest b
    → Stopped n old (length front + length rest) (process_all base attempts (ids_of rest) b)
unfolding process_all ids_of
process_all-Stopped n old front [] base [] b len settled at = record {
  front = front;
  rest = [];
  at = at;
  settled = settled;
  whole = λ _. refl;
  counted = refl;
}
process_all-Stopped n old front (item ∷ rest) base [] b len settled at = absurd (omega (arith, len))
process_all-Stopped n old front [] base (a ∷ attempts) b len settled at =
    absurd (omega (arith, len))
process_all-Stopped n old front (item ∷ rest) base (a ∷ attempts) b len settled at =
    elim (process_one-After n old front item rest base a b at) [
      | inr (item', f, failure, stop) ↦
          rw (failure, process_all)
            (record {
              front = front;
              rest = item' ∷ rest;
              at = stop;
              settled = settled;
              whole = λ h. absurd (cc h);
              counted = refl;
            })
      | inl (item', fine, ended, go) ↦
          let next =
            process_all-Stopped n old (front ++ item' ∷ []) rest base attempts
              (process_one base a item.id b).0 (omega (arith, len))
              (front_settled front item' settled ended)
              (shift-IsAt n old front item' rest (process_one base a item.id b).0 go) in
          let count : length (front ++ item' ∷ []) + length rest
              ≡ length front + length (item ∷ rest) =
            omega (arith, length-append {0} front (item' ∷ [])) in
          rw (fine, process_all) (rw (← count) next)
    ]

-- The items that the failure of the batch leaves have come to an end.
fail_rest-IsAt :
    (n : ℕ) (old front rest : List QueueItem) (f : Failure) (b : Batch)
    → all_settled front ≡ true
    → IsAt n old front rest b
    → (items : List QueueItem) × IsAt n old items [] (fail_rest f rest b)
      × (all_settled items ≡ true)
      × (length items ≡ length front + length rest)
unfolding fail_rest
fail_rest-IsAt n old front [] f b settled at = (front, at, settled, omega arith)
fail_rest-IsAt n old front (item ∷ rest) f b settled at =
    elim (Bool-cases (is_settled item.status)) [
      | inl ended ↦
          let (items, at', all, count) =
            fail_rest-IsAt n old (front ++ item ∷ []) rest f b
              (front_settled front item settled ended) (shift-IsAt n old front item rest b at) in
          rw ended (items, at', all, count ∙ omega (arith, length-append {0} front (item ∷ [])))
      | inr waiting ↦
          let at' = patch_item-IsAt (broken f) n old front item rest b (unfold broken in refl) at in
          let (items, at'', all, count) =
            fail_rest-IsAt n old (front ++ broken f item ∷ []) rest f
              (patch_item item.id (broken f) b)
              (front_settled front (broken f item) settled (unfold broken is_settled in refl))
              (shift-IsAt n old front (broken f item) rest (patch_item item.id (broken f) b) at') in
          rw waiting
            (items, at'', all, count ∙ omega (arith, length-append {0} front (broken f item ∷ [])))
    ]

new_items-IsNumbered :
    (now count : ℕ) (folder : Option String) (attempts : List Attempt)
    → IsNumbered count (new_items now count folder attempts)
      × (length (new_items now count folder attempts) ≡ length attempts)
unfolding new_items
new_items-IsNumbered now count folder [] = (tt, refl)
new_items-IsNumbered now count folder (a ∷ attempts) =
    let (numbered, same) = new_items-IsNumbered now (suc count) folder attempts in
    ((refl, numbered), ap suc same)

-- What a batch comes to: the old queue is left as it was, the items of the batch, as many as there are
-- files, follow it, and each has come to an end; all have numbers that were given.
pub record IsReported (old : List QueueItem) (count : ℕ) (r : Report) : Type 0 where
  pub queue : r.state.queue ≡ old ++ r.batch.items
  pub settled : all_settled r.batch.items ≡ true
  pub counted : length r.batch.items ≡ count
  pub below : IsBelow r.state.queue_id r.state.queue

reported :
    (n : ℕ) (old items : List QueueItem) (count : ℕ) (b : Batch) (marked : List String)
    → IsAt n old items [] b
    → all_settled items ≡ true
    → length items ≡ count
    → IsReported old count (record {
      state = record { queue = b.queue; queue_id = n + count };
      batch = b;
      marked = marked;
    })
reported n old items count b marked at settled counted =
    let all : b.items ≡ items = at.items ∙ append_nil items in
    record {
      queue = at.queue ∙ ap (λ l. old ++ l) (sym at.items);
      settled = ap all_settled all ∙ settled;
      counted = ap length all ∙ counted;
      below =
          rw (at.queue, append_nil items)
            (IsBelow-append (n + count) old items
              (IsBelow-weaken n (n + count) old (omega arith) at.below)
              (rw (← counted) (IsNumbered-IsBelow n items (rw (append_nil items) at at.numbered))));
    }
  where
    append_nil : (l : List QueueItem) → l ++ [] ≡ l
    append_nil [] = refl
    append_nil (x ∷ l) = ap (λ k. x ∷ k) (append_nil l)

-- However the API answers, a batch leaves the old queue as it was and each of its files with an item
-- that has come to an end (uploaded, a duplicate, or failed), also where the resolution of a folder
-- ends the batch early, if the old items have numbers that were given before. No other operation on
-- the queue comes between the steps of the batch.
pub upload_file_entries_settle :
    (now : ℕ) (target selected : Option String) (attempts : List Attempt) (s : Uploads)
    → IsBelow s.queue_id s.queue
    → IsReported s.queue (length attempts) (upload_file_entries now target selected attempts s)
unfolding upload_file_entries start_batch
upload_file_entries_settle now target selected attempts s below =
    let base = proper_folder target in
    let items =
      new_items now s.queue_id (some (or_else target (or_else selected "root"))) attempts in
    let (numbered, count) =
      new_items-IsNumbered now s.queue_id (some (or_else target (or_else selected "root")))
        attempts in
    let at : IsAt s.queue_id s.queue [] items (start_batch s items) = record {
      queue = refl;
      items = refl;
      numbered = numbered;
      below = below;
    } in
    let stop =
      process_all-Stopped s.queue_id s.queue [] items base attempts (start_batch s items)
        (sym count) (unfold all_settled in refl) at in
    let result = process_all base attempts (ids_of items) (start_batch s items) in
    elim (Option-cases result.1) [
      | inl fine ↦
          let at' : IsAt s.queue_id s.queue stop.front [] result.0 =
            rw (stop.whole fine) at stop.at in
          let counted : length stop.front ≡ length attempts =
            omega (arith, stop.counted, ap length (stop.whole fine), count) in
          rw (fine, upload_file_entries)
            (reported s.queue_id s.queue stop.front (length attempts) result.0 _ at' stop.settled
              counted)
      | inr (f, failure) ↦
          let whole : IsAt s.queue_id s.queue [] result.0.items result.0 = record {
            queue = stop.at.queue ∙ ap (λ l. s.queue ++ l) (sym stop.at.items);
            items = refl;
            numbered = rw stop.at.items stop.at.numbered;
            below = below;
          } in
          let (ended, at', settled, same) =
            fail_rest-IsAt s.queue_id s.queue [] result.0.items f result.0
              (unfold all_settled in refl) whole in
          let counted : length ended ≡ length attempts = omega (
            arith,
            same,
            ap length stop.at.items,
            length-append {0} stop.front stop.rest,
            stop.counted,
            count,
          ) in
          rw (failure, upload_file_entries)
            (reported s.queue_id s.queue ended (length attempts)
              (fail_rest f result.0.items result.0) [] at' settled counted)
    ]
