-- ===== src/Uploads.antt =====
-- The upload of files, the hook of
-- frontend/src/documents/features/upload/useDocumentUploads.ts: the queue that is shown, the folders
-- that the paths of the files name, and the upload of one file after the other. The answers of the API
-- are part of each attempt; `sent` and `asked` record the calls made. A batch is one step, from its
-- start to its last answer: no other operation on the queue, such as another batch or clearing it,
-- comes between, though the source lets one in wherever it waits.
mod Items
unfoldable pub use Items.*
pub mod Files
pub mod Settling
mod Steps
pub mod Queue
pub mod Paths
pub mod Overlay
mod Tests
use Prim.Native.String.{◌++◌ as ◌+++◌}
use papercrate.Base.{
  ℕ, zero, suc, ◌+◌, Bool, String, true, false, List, [], ◌∷◌, ◌++◌, Option, none, some,
  if◌then◌else◌, ◌&&◌, ◌||◌, not, nat_eq, ◌==◌, length, or_else, filter, map,
}
use papercrate.Api.{Reply, ok, failed}
use papercrate.Dict.{Dict, lookup, insert}
use papercrate.Text.{join, nonempty, trim}
use papercrate.Js.{Fields, get, truthy_identifier}
use papercrate.Uploads.Items.{
  File, FileEntry, UploadStatus, QueueId, QueueItem, Answer, Uploaded, Failure, Outcome,
  conflict_document, message_or, upload_file, begun, or_keep, finished, broken, same_id,
  update_queue_item, pending, uploading, success, duplicate, error, accepted, conflicted, refused,
  done, thrown,
}

-- What a batch has done: the queue shown, its own items, the paths resolved in it, and the calls made.
pub record Batch : Type 0 where
  pub queue : List QueueItem
  pub items : List QueueItem
  pub cache : Dict (Option String)
  pub asked : List String
  pub sent : List (String × Option String)

-- the patch of an item, in the queue and in the batch's own array
unfoldable pub patch_item : QueueId → (QueueItem → QueueItem) → Batch → Batch
unfolding update_queue_item
patch_item id patch b = record b {
  queue = update_queue_item id patch b.queue;
  items = update_queue_item id patch b.items;
}

abbrev pub cache_key : Option String → List String → String
cache_key base segments = or_else base "ROOT" +++ (":" +++ join "/" segments)

-- `ensureFolderPathOnServer`, of segments that have been trimmed, less the empty ones: the batch
-- after it, and the folder, or the failure of the call
unfoldable pub ensure_folder_path :
    Option String → List String → Reply (Option String) → Batch → Batch × Reply (Option String)
ensure_folder_path base [] answer b = (b, ok base)
ensure_folder_path base (s ∷ segments) answer b =
    let key = cache_key base (s ∷ segments) in
    elim (lookup key b.cache) [
      | some id ↦ (b, ok id)
      | none ↦ elim answer [
        | ok id ↦ (record b { cache = insert key id b.cache; asked = key ∷ b.asked }, ok id)
        | failed ↦ (record b { asked = key ∷ b.asked }, failed)
      ]
    ]

-- `segments.map((s) => s.trim()).filter(Boolean)`
abbrev pub trimmed : List String → List String
trimmed segments = nonempty (map trim segments)

-- One entry of a batch, with the answers to the calls that it may make; `folder_failure` is that of a
-- `resolveFolderPath` that fails.
pub record Attempt : Type 0 where
  pub entry : FileEntry
  pub folder_answer : Reply (Option String)
  pub folder_failure : Failure
  pub answer : Answer

-- `segments.length ? await ensureFolderPathOnServer(base, segments) : base`
unfoldable pub destination :
    Option String → List String → Reply (Option String) → Batch → Batch × Reply (Option String)
unfolding ensure_folder_path
destination base [] answer b = (b, ok base)
destination base (s ∷ segments) answer b = ensure_folder_path base (trimmed (s ∷ segments)) answer b

-- `targetFolderId && targetFolderId !== 'root' ? targetFolderId : null`
unfoldable pub proper_folder : Option String → Option String
proper_folder none = none
proper_folder (some id) = if id == "" || (id == "root") then none else some id

-- the end of a round: the patch that the outcome asks for
unfoldable pub settle : QueueId → Outcome → Batch → Batch
unfolding patch_item finished broken
settle id (done r) b = patch_item id (finished r) b
settle id (thrown f) b = patch_item id (broken f) b

-- the upload of the file itself, which is not sent if it is empty
unfoldable pub send : File → Option String → Batch → Batch
send file target b =
    if nat_eq file.size 0 then b else record b { sent = (file.name, target) ∷ b.sent }

-- a round of the loop; the failure of `ensureFolderPathOnServer` ends it
unfoldable pub process_one : Option String → Attempt → QueueId → Batch → Batch × Option Failure
unfolding patch_item begun destination settle send upload_file
process_one base a id b =
    let b' = patch_item id begun b in
    let located = destination base a.entry.segments a.folder_answer b' in
    elim located.1 [
      | failed ↦ (located.0, some a.folder_failure)
      | ok destination ↦
          let target = or_keep destination base in
          (settle id (upload_file a.entry.file a.answer) (send a.entry.file target located.0), none)
    ]

unfoldable pub process_all :
    Option String → List Attempt → List QueueId → Batch → Batch × Option Failure
process_all base [] ids b = (b, none)
process_all base (a ∷ attempts) [] b = (b, none)
process_all base (a ∷ attempts) (id ∷ ids) b =
    let (b', failure) = process_one base a id b in
    let rest = process_all base attempts ids b' in
    elim failure [ none ↦ rest | some f ↦ (b', some f) ]

unfoldable pub is_settled : UploadStatus → Bool
is_settled pending = false
is_settled uploading = false
is_settled success = true
is_settled duplicate = true
is_settled error = true

-- the outer `catch`: the items of the batch that have not come to an end fail
unfoldable pub fail_rest : Failure → List QueueItem → Batch → Batch
unfolding is_settled patch_item broken
fail_rest f [] b = b
fail_rest f (item ∷ items) b =
    fail_rest f items (if is_settled item.status then b else patch_item item.id (broken f) b)

-- The state of the hook.
pub record Uploads : Type 0 where
  pub queue : List QueueItem
  -- `queueIdRef`
  pub queue_id : ℕ

-- the items of `appendQueueItems`, at the time `now`
unfoldable pub new_items : ℕ → ℕ → Option String → List Attempt → List QueueItem
new_items now count folder [] = []
new_items now count folder (a ∷ attempts) =
    record {
      id = record { base = now; number = suc count };
      name = if a.entry.file.name == "" then "Unnamed file" else a.entry.file.name;
      size = some a.entry.file.size;
      folder_id = folder;
      status = pending;
      error = none;
      code = none;
      document = none;
      conflict_document_id = none;
    }
    ∷ new_items now (suc count) folder attempts

unfoldable pub ids_of : List QueueItem → List QueueId
ids_of [] = []
ids_of (item ∷ items) = item.id ∷ ids_of items

-- the documents that are marked as new
unfoldable pub new_documents : List QueueItem → List String
new_documents [] = []
new_documents (item ∷ items) = elim item.document [
  | none ↦ new_documents items
  | some doc ↦ elim (truthy_identifier (get "id" doc)) [
    | none ↦ new_documents items
    | some id ↦ elim item.status [ success ↦ id ∷ new_documents items | _ ↦ new_documents items ]
  ]
]

-- What a batch leaves: the state, its own items and calls, and the documents that it marks as new.
pub record Report : Type 0 where
  pub state : Uploads
  pub batch : Batch
  pub marked : List String

unfoldable pub start_batch : Uploads → List QueueItem → Batch
start_batch s items = record {
  queue = s.queue ++ items;
  items = items;
  cache = [];
  asked = [];
  sent = [];
}

-- `uploadFileEntries`; an empty array is refused with a warning
unfoldable pub upload_file_entries :
    ℕ → Option String → Option String → List Attempt → Uploads → Report
unfolding new_items ids_of start_batch process_all fail_rest new_documents proper_folder
upload_file_entries now target selected attempts s =
    let folder = some (or_else target (or_else selected "root")) in
    let items = new_items now s.queue_id folder attempts in
    let result = process_all (proper_folder target) attempts (ids_of items) (start_batch s items) in
    let count = s.queue_id + length attempts in
    elim result.1 [
      | none ↦ record {
        state = record { queue = result.0.queue; queue_id = count };
        batch = result.0;
        marked = new_documents result.0.items;
      }
      | some f ↦
          let b = fail_rest f result.0.items result.0 in
          record { state = record { queue = b.queue; queue_id = count }; batch = b; marked = [] }
    ]

unfoldable pub clear_upload_queue : Uploads → Uploads
clear_upload_queue s = record s { queue = [] }
