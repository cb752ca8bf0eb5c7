-- ===== src/Uploads/Items.antt =====
-- Files, the items of the queue, and the upload of one file: `uploadFile` and `updateQueueItem` of
-- frontend/src/documents/features/upload/useDocumentUploads.ts.
use Prim.Native.String.{◌++◌ as ◌+++◌}
use papercrate.Base.{
  ℕ, Bool, String, true, false, List, [], ◌∷◌, Option, none, some, if◌then◌else◌, ◌&&◌, ◌||◌,
  nat_eq, ◌==◌, or_else,
}
use papercrate.Api.{Reply, ok, failed}
use papercrate.Js.{Fields}

-- A file: its name, its size, and its `webkitRelativePath`.
pub record File : Type 0 where
  pub name : String
  pub size : ℕ
  pub relative_path : String

pub record FileEntry : Type 0 where
  pub file : File
  pub segments : List String

pub data UploadStatus : Type 0 where
  pending uploading success duplicate error : UploadStatus

-- The text `upload-${base}-${number}` of an item's identifier.
pub record QueueId : Type 0 where
  pub base : ℕ
  pub number : ℕ

pub record QueueItem : Type 0 where
  pub id : QueueId
  pub name : String
  pub size : Option ℕ
  pub folder_id : Option String
  pub status : UploadStatus
  pub error : Option String
  pub code : Option ℕ
  pub document : Option Fields
  pub conflict_document_id : Option String

-- How `uploadDocument` comes back: with a document, with the status 409 (the document in conflict and
-- what its fetch gives), or with another failure (the message of the response, and its status).
pub data Answer : Type 0 where
  accepted : Bool → Option Fields → Option ℕ → Answer
  conflicted : Option String → Reply (Option Fields) → Answer
  refused : Option String → Option ℕ → Answer

-- What `uploadFile` returns.
pub record Uploaded : Type 0 where
  pub document : Option Fields
  pub duplicate : Bool
  pub status_code : Option ℕ
  pub conflict_document_id : Option String

pub record Failure : Type 0 where
  pub message : String
  pub code : Option ℕ

pub data Outcome : Type 0 where
  done : Uploaded → Outcome
  thrown : Failure → Outcome

abbrev is_200 : Option ℕ → Bool
is_200 none = false
is_200 (some status) = nat_eq status 200

-- the document in conflict, none if it is not named or its fetch fails
unfoldable pub conflict_document : Option String → Reply (Option Fields) → Option Fields
conflict_document none reply = none
conflict_document (some id) (ok doc) = if id == "" then none else doc
conflict_document (some id) failed = none

-- `error.response?.data?.error || ...`, of a message that is there or empty
unfoldable pub message_or : Option String → String → String
message_or none text = text
message_or (some message) text = if message == "" then text else message

unfoldable pub upload_file : File → Answer → Outcome
unfolding conflict_document message_or
upload_file file answer =
    if nat_eq file.size 0
    then done (record {
      document = none;
      duplicate = false;
      status_code = none;
      conflict_document_id = none;
    })
    else elim answer [
      | accepted reused document status ↦
          let duplicate = reused || is_200 status in
          done (record {
            document = document;
            duplicate = duplicate;
            status_code = some (or_else status (if duplicate then 200 else 201));
            conflict_document_id = none;
          })
      | conflicted id reply ↦ done (record {
        document = conflict_document id reply;
        duplicate = true;
        status_code = some 409;
        conflict_document_id = id;
      })
      | refused message status ↦ thrown (record {
        message = message_or message ("Failed to upload " +++ (file.name +++ "."));
        code = status;
      })
    ]

-- `{ ...item, ...patch }` for the patches of the loop
unfoldable pub begun : QueueItem → QueueItem
begun item = record item { status = uploading; error = none; code = none }

abbrev pub or_keep {ℓ} : {A : Type ℓ} → Option A → Option A → Option A
or_keep none old = old
or_keep (some new) old = some new

unfoldable pub finished : Uploaded → QueueItem → QueueItem
finished r item = record item {
  status = if r.duplicate then duplicate else success;
  code = r.status_code;
  document = or_keep r.document item.document;
  conflict_document_id = or_keep r.conflict_document_id item.conflict_document_id;
}

unfoldable pub broken : Failure → QueueItem → QueueItem
broken f item = record item { status = error; error = some f.message; code = f.code }

abbrev pub same_id : QueueId → QueueId → Bool
same_id a b = nat_eq a.base b.base && nat_eq a.number b.number

-- `updateQueueItem`
unfoldable pub update_queue_item :
    QueueId → (QueueItem → QueueItem) → List QueueItem → List QueueItem
update_queue_item id patch [] = []
update_queue_item id patch (item ∷ items) =
    (if same_id item.id id then patch item else item) ∷ update_queue_item id patch items
