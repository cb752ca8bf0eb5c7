-- ===== src/EntryKey.antt =====
-- The keys of entries, "document:id" and "folder:id": frontend/src/app/entryKey.ts.
use Prim.Native.String.{◌++◌, len, slice}
use papercrate.Base.{String, Bool, none, some, ◌+◌, ◌==◌}
use text.Mathlib.Text.{find?}

-- `ENTRY_KEY_SEPARATOR` of frontend/src/constants/app.ts
abbrev pub separator : String
separator = ":"

unfoldable pub create_document_entry_key : String → String
create_document_entry_key document_id = "document" ++ separator ++ document_id

unfoldable pub create_folder_entry_key : String → String
create_folder_entry_key folder_id = "folder" ++ separator ++ folder_id

-- `key.split(ENTRY_KEY_SEPARATOR, 1)[0]`
unfoldable pub kind_of : String → String
kind_of key = elim (find? key separator) [ none ↦ key | some i ↦ slice key 0 i ]

unfoldable pub is_document_entry : String → Bool
unfolding kind_of
is_document_entry key = kind_of key == "document"

unfoldable pub is_folder_entry : String → Bool
unfolding kind_of
is_folder_entry key = kind_of key == "folder"

-- The parts after the first, joined again: what comes after the first separator.
unfoldable pub get_entry_id : String → String
get_entry_id key = elim (find? key separator) [ none ↦ "" | some i ↦ slice key (i + 1) (len key) ]
