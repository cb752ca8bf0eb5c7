-- ===== src/Uploads/Overlay.antt =====
-- The overlay that is shown while files are dragged over the workspace:
-- frontend/src/documents/features/upload/useFileDrop.ts, and the state that
-- frontend/src/documents/features/upload/useDocumentUploads.ts keeps for it.
use papercrate.Base.{
  ℕ, ◌+◌, ◌-◌, ◌≡◌, refl, String, Bool, true, false, List, [], ◌∷◌, Option, none, some, ◌==◌,
  if◌then◌else◌, ltb, nat_eq, arith,
}

pub record Overlay : Type 0 where
  pub drag_counter : ℕ
  pub active : Bool
  pub folder_name : Option String

-- What the listeners hear: whether the event has files comes with it. `unmounted` is the cleanup of
-- the effect, which also runs before it is set up anew; `reset` is `resetUploadsState`, which empties
-- the queue too, as `clear_upload_queue` does.
pub data Event : Type 0 where
  drag_enter : Bool → Option String → Event
  drag_over drag_leave dropped : Bool → Event
  unmounted reset : Event

-- `currentFolderName || DEFAULT_FOLDER_NAME`
unfoldable pub initial : Option String → Overlay
initial name = record {
  drag_counter = 0;
  active = false;
  folder_name = elim name [
    | none ↦ some "Documents"
    | some n ↦ some (if n == "" then "Documents" else n)
  ];
}

unfoldable pub listen : Event → Overlay → Overlay
listen (drag_enter false name) s = s
listen (drag_enter true name) s = record {
  drag_counter = s.drag_counter + 1;
  active = true;
  folder_name = name;
}
listen (drag_over files) s = s
listen (drag_leave false) s = s
listen (drag_leave true) s = record s {
  drag_counter = s.drag_counter - 1;
  active = if nat_eq (s.drag_counter - 1) 0 then false else s.active;
}
listen (dropped false) s = s
listen (dropped true) s = record s { drag_counter = 0; active = false }
listen unmounted s = record s { drag_counter = 0; active = false }
listen reset s = record { drag_counter = 0; active = false; folder_name = some "Documents" }

unfoldable pub run : List Event → Overlay → Overlay
unfolding listen
run [] s = s
run (e ∷ es) s = run es (listen e s)

listen_keeps :
    (e : Event) (s : Overlay)
    → s.active ≡ ltb 0 s.drag_counter
    → (listen e s).active ≡ ltb 0 (listen e s).drag_counter
unfolding listen
listen_keeps (drag_enter false name) s h = h
listen_keeps (drag_enter true name) s h = ground arith
listen_keeps (drag_over files) s h = h
listen_keeps (drag_leave false) s h = h
listen_keeps (drag_leave true) s h = ground arith
listen_keeps (dropped false) s h = h
listen_keeps (dropped true) s h = refl
listen_keeps unmounted s h = refl
listen_keeps reset s h = refl

run_keeps :
    (es : List Event) (s : Overlay)
    → s.active ≡ ltb 0 s.drag_counter
    → (run es s).active ≡ ltb 0 (run es s).drag_counter
unfolding run
run_keeps [] s h = h
run_keeps (e ∷ es) s h = run_keeps es (listen e s) (listen_keeps e s h)

-- Whatever events come in whatever order, the overlay is shown exactly while more files were dragged
-- in than out, as the counter has it.
overlay_follows_counter :
    (name : Option String) (es : List Event)
    → (run es (initial name)).active ≡ ltb 0 (run es (initial name)).drag_counter
overlay_follows_counter name es = run_keeps es (initial name) (unfold initial in refl)
