-- ===== src/Uploads/Paths.antt =====
-- The calls of a batch: a folder path is resolved once, and an empty file is not sent.
use papercrate.Base.{
  ℕ, ◌≡◌, refl, sym, ap, ◌∙◌, Bool-cases, true, false, List, [], ◌∷◌, Option, Option-cases, none,
  some, String, eq_iff, contains, Distinct, is_some, arith, inl, inr, ◌⊎◌, or_else,
}
use papercrate.Api.{Reply, ok, failed}
use papercrate.Dict.{lookup, insert}
use papercrate.Dict.Laws.{lookup-insert}
use papercrate.Uploads.{
  File, QueueId, QueueItem, Batch, Attempt, Outcome, Uploaded, Failure, Uploads, UploadStatus,
  success, patch_item, begun, update_queue_item, finished, same_id, settle, send,
  ensure_folder_path, cache_key, or_keep, destination, process_one, process_all, fail_rest,
  new_items, ids_of, start_batch, upload_file_entries, proper_folder, trimmed, upload_file,
}

-- What has been asked was asked once and is in the cache.
record IsAsked (b : Batch) : Type 0 where
  once : Distinct b.asked
  cached : (k : String) → contains k b.asked ≡ true → is_some (lookup k b.cache) ≡ true

-- The calls made stay without repetition; and what was asked is in the cache if the call went well.
abbrev Asks : Batch × Reply (Option String) → Type 0
Asks (b, answer) = Distinct b.asked × ((id : Option String) → answer ≡ ok id → IsAsked b)

ensure_folder_path-Asks :
    (base : Option String) (segments : List String) (answer : Reply (Option String)) (b : Batch)
    → IsAsked b
    → Asks (ensure_folder_path base segments answer b)
unfolding ensure_folder_path
ensure_folder_path-Asks base [] answer b v = (v.once, λ id h. v)
ensure_folder_path-Asks base (s ∷ segments) answer b v =
    elim (Option-cases (lookup (cache_key base (s ∷ segments)) b.cache)) [
      | inr (id, found) ↦ rw (found, ensure_folder_path) (v.once, λ _ h. v)
      | inl missing ↦
          let key = cache_key base (s ∷ segments) in
          let new : contains key b.asked ≡ false = elim (Bool-cases (contains key b.asked)) [
            | inr absent ↦ absent
            | inl there ↦ absurd (cc (v.cached key there, missing))
          ] in
          rw (missing, ensure_folder_path) (asked key new answer)
    ]
  where
    asked :
        (key : String)
        → contains key b.asked ≡ false
        → (answer : Reply (Option String))
        → Asks (elim answer as (λ _. Batch × Reply (Option String)) [
          | ok id ↦ (record b { cache = insert key id b.cache; asked = key ∷ b.asked }, ok id)
          | failed ↦ (record b { asked = key ∷ b.asked }, failed)
        ])
    asked key new failed = ((new, v.once), λ id h. absurd (cc h))
    asked key new (ok found) = (
      (new, v.once),
      λ id h. record {
        once = (new, v.once);
        cached = λ k there.
            unfold contains in
            ground (arith, lookup-insert key k found b.cache, v.cached k, eq_iff key k);
      },
    )

destination-Asks :
    (base : Option String) (segments : List String) (answer : Reply (Option String)) (b : Batch)
    → IsAsked b
    → Asks (destination base segments answer b)
unfolding destination
destination-Asks base [] answer b v = (v.once, λ id h. v)
destination-Asks base (s ∷ segments) answer b v =
    ensure_folder_path-Asks base (trimmed (s ∷ segments)) answer b v

same_calls : (b b' : Batch) → b'.asked ≡ b.asked → b'.cache ≡ b.cache → IsAsked b → IsAsked b'
same_calls b b' a c v = record {
  once = rw a v.once;
  cached = λ k there. rw c (v.cached k (ap (contains k) (sym a) ∙ there));
}

settle-calls :
    (id : QueueId) (o : Outcome) (b : Batch)
    → ((settle id o b).asked ≡ b.asked) × ((settle id o b).cache ≡ b.cache)
unfolding settle
settle-calls id (Outcome.done r) b = (refl, refl)
settle-calls id (Outcome.thrown f) b = (refl, refl)

send-calls :
    (file : File) (target : Option String) (b : Batch)
    → ((send file target b).asked ≡ b.asked) × ((send file target b).cache ≡ b.cache)
unfolding send
send-calls file target b = ground arith

process_one-IsAsked :
    (base : Option String) (a : Attempt) (id : QueueId) (b : Batch)
    → IsAsked b
    → Distinct (process_one base a id b).0.asked
      × ((process_one base a id b).1 ≡ none → IsAsked (process_one base a id b).0)
unfolding process_one
process_one-IsAsked base a id b v =
    let begun_batch = patch_item id begun b in
    let found = destination base a.entry.segments a.folder_answer begun_batch in
    let (once, asked) =
      destination-Asks base a.entry.segments a.folder_answer begun_batch
        (same_calls b begun_batch refl refl v) in
    elim (reply_cases found.1) [
      | inl lost ↦ rw (lost, process_one) (once, λ h. absurd (cc h))
      | inr (folder, there) ↦
          let sent = send a.entry.file (or_keep folder base) found.0 in
          let o = upload_file a.entry.file a.answer in
          let (s1, s2) = send-calls a.entry.file (or_keep folder base) found.0 in
          let (t1, t2) = settle-calls id o sent in
          let v' = same_calls found.0 (settle id o sent) (t1 ∙ s1) (t2 ∙ s2) (asked folder there) in
          rw (there, process_one) (v'.once, λ h. v')
    ]
  where
    reply_cases : (r : Reply (Option String)) → (r ≡ failed) ⊎ ((f : Option String) × (r ≡ ok f))
    reply_cases failed = inl refl
    reply_cases (ok f) = inr (f, refl)

process_all-once :
    (base : Option String) (attempts : List Attempt) (ids : List QueueId) (b : Batch)
    → IsAsked b
    → Distinct (process_all base attempts ids b).0.asked
unfolding process_all
process_all-once base [] ids b v = v.once
process_all-once base (a ∷ attempts) [] b v = v.once
process_all-once base (a ∷ attempts) (id ∷ ids) b v =
    let (once, asked) = process_one-IsAsked base a id b v in
    elim (Option-cases (process_one base a id b).1) [
      | inr (f, failure) ↦ rw (failure, process_all) once
      | inl fine ↦
          rw (fine, process_all)
            (process_all-once base attempts ids (process_one base a id b).0 (asked fine))
    ]

fail_rest-asked :
    (f : Failure) (items : List QueueItem) (b : Batch) → (fail_rest f items b).asked ≡ b.asked
unfolding fail_rest patch_item
fail_rest-asked f [] b = refl
fail_rest-asked f (item ∷ items) b = fail_rest-asked f items _ ∙ ground arith

-- A batch asks the API for no folder path twice, however it answers.
pub paths_once :
    (now : ℕ) (target selected : Option String) (attempts : List Attempt) (s : Uploads)
    → Distinct (upload_file_entries now target selected attempts s).batch.asked
unfolding upload_file_entries start_batch
paths_once now target selected attempts s =
    let items =
      new_items now s.queue_id (some (or_else target (or_else selected "root"))) attempts in
    let start = start_batch s items in
    let once =
      process_all-once (proper_folder target) attempts (ids_of items) start
        (record { once = tt; cached = λ k h. unfold contains in absurd (cc h) }) in
    elim (Option-cases (process_all (proper_folder target) attempts (ids_of items) start).1) [
      | inl fine ↦ rw (fine, upload_file_entries) once
      | inr (f, failure) ↦ rw (failure, upload_file_entries) (rw (fail_rest-asked f) once)
    ]

abbrev pub statuses : List QueueItem → List UploadStatus
statuses [] = []
statuses (item ∷ items) = item.status ∷ statuses items

update_only :
    (patch : QueueItem → QueueItem) (item : QueueItem)
    → update_queue_item item.id patch (item ∷ []) ≡ patch item ∷ []
unfolding update_queue_item
update_only patch item = let here : same_id item.id item.id ≡ true = ground arith in rw here refl

-- What `uploadFile` returns without a call.
abbrev blank : Uploaded
blank = record {
  document = none;
  duplicate = false;
  status_code = none;
  conflict_document_id = none;
}

-- The round of such a file.
empty_round :
    (base : Option String) (a : Attempt) (item : QueueItem) (b : Batch)
    → a.entry.file.size ≡ 0
    → a.entry.segments ≡ []
    → b.items ≡ item ∷ []
    → ((process_one base a item.id b).1 ≡ none)
      × ((process_one base a item.id b).0.sent ≡ b.sent)
      × (statuses (process_one base a item.id b).0.items ≡ success ∷ [])
unfolding process_one destination send upload_file settle finished patch_item begun
empty_round base a item b size path items = rw path (
    rw size (
      refl,
      refl,
      ap
            (λ l.
              statuses
                (update_queue_item item.id (finished blank) (update_queue_item item.id begun l)))
            items
          ∙ ap (λ l. statuses (update_queue_item item.id (finished blank) l))
              (update_only begun item)
          ∙ ap statuses (update_only (finished blank) (begun item)),
    ))

-- A file without contents, dropped alone and by no path, is never sent, and its item ends as a
-- success, whatever the API would answer.
pub empty_file_succeeds :
    (now : ℕ) (target selected : Option String) (a : Attempt) (s : Uploads)
    → a.entry.file.size ≡ 0
    → a.entry.segments ≡ []
    → ((upload_file_entries now target selected (a ∷ []) s).batch.sent ≡ [])
      × (statuses (upload_file_entries now target selected (a ∷ []) s).batch.items ≡ success ∷ [])
unfolding upload_file_entries new_items ids_of start_batch process_all
empty_file_succeeds now target selected a s size path =
    let items =
      new_items now s.queue_id (some (or_else target (or_else selected "root"))) (a ∷ []) in
    let (fine, sent, ended) =
      empty_round (proper_folder target) a _ (start_batch s items) size path refl in
    rw (fine, upload_file_entries) (rw (fine, process_all) (sent, ended))
