-- ===== src/Uploads/Files.antt =====
-- The files of a selection and of a drop: `mapFilesToEntries` and `extractFilesFromDataTransfer` of
-- frontend/src/documents/features/upload/useDocumentUploads.ts. The walks of the dropped items are
-- taken one after the other (the program lets them wait for each other's reads).
use Prim.Native.Nat.{◌/◌, ◌%◌}
use Prim.Native.String.{slice, ◌++◌ as ◌+++◌}
use papercrate.Base.{
  list_cases, ℕ, zero, suc, ◌+◌, ◌≡◌, refl, sym, ap, ◌∙◌, Bool, Bool-cases, true, false, String,
  List, [], ◌∷◌, ◌++◌, Option, none, some, if◌then◌else◌, ◌||◌, leb, ◌==◌, contains,
  contains-append, Distinct, Distinct-append, arith, eq_iff, inl, inr, ◌⊎◌,
}
use papercrate.Api.{Reply, ok, failed}
use papercrate.Text.{split, join, but_last, nonempty}
use papercrate.Uploads.{File, FileEntry}

-- The folders in the relative path of a file.
unfoldable pub path_segments : File → List String
path_segments file =
    if file.relative_path == "" then [] else nonempty (but_last (split 47 file.relative_path))

unfoldable pub map_files_to_entries : List File → List FileEntry
unfolding path_segments
map_files_to_entries [] = []
map_files_to_entries (file ∷ files) =
    record { file = file; segments = path_segments file } ∷ map_files_to_entries files

-- A number in decimal, as a template prints it.
unfoldable pub digits : ℕ → ℕ → String → String
digits zero n rest = rest
digits (suc fuel) n rest =
    let digit = slice "0123456789" (n % 10) (n % 10 + 1) in
    elim (leb 10 n) [ true ↦ digits fuel (n / 10) (digit +++ rest) | false ↦ digit +++ rest ]

-- `${segments.join('/')}/${file.name}:${file.size}`
unfoldable pub key_of : FileEntry → String
unfolding digits
key_of e =
    join "/" e.segments
    +++ ("/" +++ (e.file.name +++ (":" +++ digits (suc e.file.size) e.file.size "")))

-- What the file system gives of a dropped item: a file, a file that cannot be read, a directory with
-- the batches of its reader, or neither.
mutual
  pub data Entry : Type 0 where
    readable : File → Entry
    unreadable other : Entry
    directory : String → Batches → Entry

  pub data Entries : Type 0 where
    nil : Entries
    cons : Entry → Entries → Entries

  -- the batches of a reader, up to where it has no more or fails
  pub data Batches : Type 0 where
    finished broken : Batches
    batch : Entries → Batches → Batches

-- the folders of an entry in a directory
abbrev pub below : String → List String → List String
below name ancestors = if name == "" then ancestors else ancestors ++ name ∷ []

-- whether `readAllEntries` comes to its end; an empty batch ends it
unfoldable pub reads_all : Batches → Bool
reads_all finished = true
reads_all broken = false
reads_all (batch nil batches) = true
reads_all (batch (cons entry entries) batches) = reads_all batches

-- `walkEntry`: the files it pushes, and whether it came to its end. A file or a directory that cannot
-- be read ends the walk.
unfoldable mutual
  unfolding reads_all

  pub walk_entry : Entry → List String → List FileEntry × Bool
  walk_entry (readable file) ancestors =
      (record { file = file; segments = nonempty ancestors } ∷ [], true)
  walk_entry unreadable ancestors = ([], false)
  walk_entry other ancestors = ([], true)
  walk_entry (directory name batches) ancestors =
      let walked = walk_batches batches (below name ancestors) in
      if reads_all batches then walked else ([], false)

  pub walk_entries : Entries → List String → List FileEntry × Bool
  walk_entries nil ancestors = ([], true)
  walk_entries (cons entry entries) ancestors =
      let (files, ended) = walk_entry entry ancestors in
      let (more, ended') = walk_entries entries ancestors in
      if ended then (files ++ more, ended') else (files, false)

  pub walk_batches : Batches → List String → List FileEntry × Bool
  walk_batches finished ancestors = ([], true)
  walk_batches broken ancestors = ([], true)
  walk_batches (batch nil batches) ancestors = ([], true)
  walk_batches (batch (cons entry entries) batches) ancestors =
      let (files, ended) = walk_entries (cons entry entries) ancestors in
      let (more, ended') = walk_batches batches ancestors in
      if ended then (files ++ more, ended') else (files, false)

-- A dropped item of kind `file`: what `getAsFile` and `webkitGetAsEntry` give.
pub record Item : Type 0 where
  pub as_file : Option File
  pub as_entry : Option Entry

-- the files that an item pushes
unfoldable pub item_files : Item → List FileEntry
unfolding walk_entry map_files_to_entries
item_files item = from_file item.as_file ++ from_entry item.as_entry
  where
    from_file : Option File → List FileEntry
    from_file none = []
    from_file (some file) = map_files_to_entries (file ∷ [])

    from_entry : Option Entry → List FileEntry
    from_entry none = []
    from_entry (some entry) = (walk_entry entry []).0

-- `pushFile`: the keys seen and the results
unfoldable pub push_file : FileEntry → List String × List FileEntry → List String × List FileEntry
unfolding key_of
push_file e (seen, results) =
    if contains (key_of e) seen then (seen, results) else (key_of e ∷ seen, results ++ e ∷ [])

unfoldable pub push_all :
    List FileEntry → List String × List FileEntry → List String × List FileEntry
push_all [] acc = acc
push_all (e ∷ es) acc = push_all es (push_file e acc)

unfoldable pub pushed : List Item → List File → List FileEntry
unfolding item_files
pushed [] files = map_files_to_entries files
pushed (item ∷ items) files = item_files item ++ pushed items files

-- A drop without files is thrown.
unfoldable pub extract_files : List Item → List File → Reply (List FileEntry)
unfolding push_all pushed
extract_files items files = elim (push_all (pushed items files) ([], [])).1 [
  | [] ↦ failed
  | e ∷ es ↦ ok (e ∷ es)
]

unfoldable pub keys_of : List FileEntry → List String
keys_of [] = []
keys_of (e ∷ es) = key_of e ∷ keys_of es

keys_of-append : (a b : List FileEntry) → keys_of (a ++ b) ≡ keys_of a ++ keys_of b
unfolding keys_of
keys_of-append [] b = refl
keys_of-append (e ∷ a) b = ap (λ l. key_of e ∷ l) (keys_of-append a b)

-- The keys seen are those of the results.
abbrev IsTracked : List String × List FileEntry → Type 0
IsTracked (seen, results) =
    Distinct (keys_of results) × ((k : String) → contains k (keys_of results) ≡ contains k seen)

push_file-IsTracked :
    (e : FileEntry) (acc : List String × List FileEntry)
    → IsTracked acc
    → IsTracked (push_file e acc)
unfolding push_file
push_file-IsTracked e (seen, results) (d, same) = elim (Bool-cases (contains (key_of e) seen)) [
  | inl there ↦ rw there (d, same)
  | inr new ↦ rw new (
    rw (keys_of-append results (e ∷ [])) (
        Distinct-append (keys_of results) (keys_of (e ∷ [])) d
          (unfold keys_of contains in (refl, tt))
          (λ k h. unfold keys_of contains in ground (arith, same k, eq_iff (key_of e) k))),
    λ k.
        ap (contains k) (keys_of-append results (e ∷ []))
        ∙ contains-append k (keys_of results) (keys_of (e ∷ []))
        ∙ unfold keys_of contains in ground (arith, same k),
  )
]

push_file-contains :
    (e : FileEntry) (acc : List String × List FileEntry) (k : String)
    → contains k (push_file e acc).0 ≡ (contains k acc.0 || (key_of e == k))
unfolding push_file
push_file-contains e (seen, results) k = elim (Bool-cases (contains (key_of e) seen)) [
  | inl there ↦ rw there (ground (arith, eq_iff (key_of e) k))
  | inr new ↦ rw new (unfold contains in ground arith)
]

push_all-IsTracked :
    (es : List FileEntry) (acc : List String × List FileEntry)
    → IsTracked acc
    → IsTracked (push_all es acc)
      × ((k : String)
          → contains k (push_all es acc).0 ≡ (contains k acc.0 || contains k (keys_of es)))
unfolding push_all
push_all-IsTracked [] acc t = (t, λ k. unfold keys_of contains in ground arith)
push_all-IsTracked (e ∷ es) acc t =
    let (t', same) = push_all-IsTracked es (push_file e acc) (push_file-IsTracked e acc t) in
    (t', λ k. same k ∙ unfold keys_of contains in ground (arith, push_file-contains e acc k))

no_keys : (es : List FileEntry) → ((k : String) → contains k (keys_of es) ≡ false) → es ≡ []
unfolding contains keys_of
no_keys [] h = refl
no_keys (e ∷ es) h = absurd (ground (arith, h (key_of e), eq_iff (key_of e) (key_of e)))

-- What a drop gives: each file by its key once, and just the files that the items and the file list
-- push; it fails just where they push none.
pub extract_files_unique :
    (items : List Item) (files : List File)
    → ((extract_files items files ≡ failed) × (pushed items files ≡ []))
      ⊎ ((results : List FileEntry) × (extract_files items files ≡ ok results)
          × Distinct (keys_of results)
          × ((k : String)
              → contains k (keys_of results) ≡ contains k (keys_of (pushed items files))))
unfolding extract_files
extract_files_unique items files =
    let es = pushed items files in
    let (tracked, seen) =
      push_all-IsTracked es ([], []) (unfold keys_of contains in (tt, λ k. refl)) in
    let same : (k : String)
        → contains k (keys_of (push_all es ([], [])).1) ≡ contains k (keys_of es) =
      λ k. tracked.1 k ∙ seen k ∙ unfold contains in refl in
    elim (list_cases (push_all es ([], [])).1) [
      | inl nothing ↦ inl (
        rw (nothing, extract_files) refl,
        no_keys es (λ k. sym (same k) ∙ rw nothing (unfold keys_of contains in refl)),
      )
      | inr (e, rest, some_files) ↦
          inr ((push_all es ([], [])).1, rw (some_files, extract_files) refl, tracked.0, same)
    ]
