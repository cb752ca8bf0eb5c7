-- ===== src/Uploads/Tests.antt =====
-- A drop of a directory, and a batch of three files.
use papercrate.Base.{ℕ, ◌≡◌, refl, false, String, List, [], ◌∷◌, none, some}
use papercrate.Api.{ok, failed}
use papercrate.Js.{end, field, text}
use papercrate.Uploads.{
  File, Answer, accepted, conflicted, refused, Attempt, Uploads, success, duplicate, error,
  process_one, upload_file_entries,
}
use papercrate.Text.{join, but_last, split, trim}
use papercrate.Dict.{lookup, insert}
use papercrate.Uploads.Files.{
  Item, readable, directory, cons, nil, batch, finished, key_of, keys_of, pushed,
}
use papercrate.Uploads.Queue.{IsReported, upload_file_entries_settle}
use papercrate.Uploads.Paths.{statuses}

abbrev file : String → ℕ → File
file name size = record { name = name; size = size; relative_path = "" }

-- A directory "tax" with two files, of which the file list has one again.
abbrev dropped : List Item
dropped =
    record {
      as_file = none;
      as_entry = some (
          directory "tax" (
            batch (cons (readable (file "a.pdf" 12)) (cons (readable (file "b.pdf" 7)) nil))
              finished));
    }
    ∷ []

abbrev listed : List File
listed = record { name = "a.pdf"; size = 12; relative_path = "tax/a.pdf" } ∷ []

pushed_keys : keys_of (pushed dropped listed) ≡ "tax/a.pdf:12" ∷ "tax/b.pdf:7" ∷ "tax/a.pdf:12" ∷ []
unfolding keys_of pushed key_of join but_last split
pushed_keys = refl

abbrev attempt : String → ℕ → List String → Answer → Attempt
attempt name size segments answer = record {
  entry = record { file = file name size; segments = segments };
  folder_answer = ok (some "f1");
  folder_failure = record { message = "offline"; code = none };
  answer = answer;
}

abbrev attempts : List Attempt
attempts =
    attempt "a.pdf" 12 (" tax " ∷ [])
      (accepted false (some (field "id" (text "d1") end)) (some 201))
    ∷ attempt "b.pdf" 7 ("tax" ∷ []) (conflicted (some "d0") failed)
    ∷ attempt "c.pdf" 9 [] (refused none (some 500))
    ∷ []

abbrev idle : Uploads
idle = record { queue = []; queue_id = 0 }

upload_file_entries_settle_example :
    IsReported [] 3 (upload_file_entries 1000 none none attempts idle)
upload_file_entries_settle_example = upload_file_entries_settle 1000 none none attempts idle tt

three_statuses :
    statuses (upload_file_entries 1000 none none attempts idle).batch.items
    ≡ success ∷ duplicate ∷ error ∷ []
unfolding upload_file_entries process_one trim lookup insert join
three_statuses = refl
