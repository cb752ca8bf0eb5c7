-- ===== src/TagTransfer.antt =====
-- The tags that are dragged: frontend/src/documents/features/tagging/tagTransfer.ts. The first part is
-- the message that a number of actions gets together; the second is what a drag carries and what the
-- module keeps of it. JSON is a parameter; the data of a drag are a map from types to texts, which can
-- be written.
pub mod Laws
mod Tests
use papercrate.Base.{
  ℕ, zero, suc, ◌-◌, String, Bool, true, false, List, [], ◌∷◌, ◌++◌, Option, none, some, ◌==◌, ◌&&◌,
  ◌||◌, not, if◌then◌else◌, any, filter, ltb, nat_eq, or_else, contains,
}
use papercrate.Dict.{Dict, lookup, insert, keys}

pub data ActionType : Type 0 where
  attach detach : ActionType

pub record ActionResult : Type 0 where
  pub kind : ActionType
  pub success : Bool

pub data Message : Type 0 where
  tag_moved tag_assigned tag_removed action_failed : Message

-- How many actions were begun and finished: `pendingActions` is the difference. The timers are those
-- of `setTimeout(processResults, 50)` that have not fired.
pub record Batch : Type 0 where
  pub begun : ℕ
  pub finished : ℕ
  pub results : List ActionResult
  pub timers : ℕ
  pub toast_listener : Option ℕ
  -- the calls of the listener, oldest first
  pub toasts : List (ℕ × Message)

abbrev pub is_attach : ActionType → Bool
is_attach attach = true
is_attach detach = false

-- the message of the results, if there is one
unfoldable pub summary : List ActionResult → Option Message
summary results =
    let attached = any (λ (r : ActionResult). r.success && is_attach r.kind) results in
    let detached = any (λ (r : ActionResult). r.success && not (is_attach r.kind)) results in
    if attached && detached
    then some tag_moved
    else if attached
    then some tag_assigned
    else if detached
    then some tag_removed
    else if any (λ (r : ActionResult). not r.success) results
    then some action_failed
    else none

abbrev pub told : Option ℕ → Option Message → List (ℕ × Message)
told none message = []
told (some l) none = []
told (some l) (some message) = (l, message) ∷ []

abbrev pub is_nil {ℓ} : {A : Type ℓ} → List A → Bool
is_nil [] = true
is_nil (x ∷ xs) = false

unfoldable pub process_results : Batch → Batch
unfolding summary
process_results b =
    if ltb b.finished b.begun || is_nil b.results
    then b
    else record b { results = []; toasts = b.toasts ++ told b.toast_listener (summary b.results) }

pub data Event : Type 0 where
  action_begun : Event
  action_finished : ActionResult → Event
  timer_fired : Event
  toast_subscribed : ℕ → Event
  toast_unsubscribed : Event

-- A timer fires only where one is set.
unfoldable pub step : Event → Batch → Batch
unfolding process_results
step action_begun b = record b { begun = suc b.begun }
step (action_finished r) b = record b {
  results = b.results ++ r ∷ [];
  finished = suc b.finished;
  timers = suc b.timers;
}
step timer_fired b =
    if nat_eq b.timers 0 then b else process_results (record b { timers = b.timers - 1 })
step (toast_subscribed l) b = record b { toast_listener = some l }
step toast_unsubscribed b = record b { toast_listener = none }

unfoldable pub run : List Event → Batch → Batch
unfolding step
run [] b = b
run (e ∷ es) b = run es (step e b)

pub record TagPayload : Type 0 where
  pub id : String
  pub label : String
  pub source_doc_id : Option String

-- `{ id?, label? }`
pub record TagLike : Type 0 where
  pub id : Option String
  pub label : Option String

pub record ActiveDragState : Type 0 where
  pub tag_id : Option String
  pub source_doc_id : Option String

pub record Drag : Type 0 where
  pub active : ActiveDragState
  pub listeners : List ℕ
  -- the listeners called, with the state that they were given
  pub calls : List (ℕ × ActiveDragState)

abbrev pub tag_mime_types : List String
tag_mime_types = "application/x-papercrate-tag" ∷ "text/papercrate-tag" ∷ []

abbrev pub tag_text_mime_type : String
tag_text_mime_type = "text/plain"

abbrev called_with : ActiveDragState → List ℕ → List (ℕ × ActiveDragState)
called_with state [] = []
called_with state (l ∷ ls) = (l, state) ∷ called_with state ls

unfoldable pub set_active : ActiveDragState → Drag → Drag
set_active state d = record d { active = state; calls = d.calls ++ called_with state d.listeners }

unfoldable pub clear_tag_transfer_data : Drag → Drag
unfolding set_active
clear_tag_transfer_data d = set_active (record { tag_id = none; source_doc_id = none }) d

unfoldable pub subscribe_to_tag_drag : ℕ → Drag → Drag
subscribe_to_tag_drag l d =
    if any (nat_eq l) d.listeners then d else record d { listeners = d.listeners ++ l ∷ [] }

unfoldable pub unsubscribe_from_tag_drag : ℕ → Drag → Drag
unsubscribe_from_tag_drag l d = record d { listeners = filter (λ k. not (nat_eq k l)) d.listeners }

unfoldable pub create_tag_transfer_payload : TagLike → Option String → Option TagPayload
create_tag_transfer_payload tag source = elim tag.id [
  | none ↦ none
  | some id ↦ some (record { id = id; label = or_else tag.label ""; source_doc_id = source })
]

-- `x || null`
abbrev pub or_null : Option String → Option String
or_null none = none
or_null (some s) = if s == "" then none else some s

unfoldable pub set_all : List String → String → Dict String → Dict String
set_all [] text transfer = transfer
set_all (mime ∷ mimes) text transfer = set_all mimes text (insert mime text transfer)

-- `getData`, which gives "" where there is nothing, of the first type that has a text
unfoldable pub read_first : List String → Dict String → Option String
read_first [] transfer = none
read_first (mime ∷ mimes) transfer =
    let later = read_first mimes transfer in
    elim (lookup mime transfer) [ none ↦ later | some raw ↦ if raw == "" then later else some raw ]

-- `TAG_MIME_TYPES.some((type) => typeList.includes(type))`
unfoldable pub is_tag_transfer_event : Option (Dict String) → Bool
is_tag_transfer_event none = false
is_tag_transfer_event (some transfer) = any (λ mime. contains mime (keys transfer)) tag_mime_types

-- `JSON.stringify`, none where it throws, and `JSON.parse` likewise
module _ (stringify : TagPayload → Option String) (parse : String → Option TagPayload) where
  unfoldable pub write_payload : TagPayload → Dict String → Dict String
  unfolding set_all
  write_payload payload transfer = elim (stringify payload) [
    | none ↦ transfer
    | some text ↦
        let written = set_all tag_mime_types text transfer in
        if text == ""
        then transfer
        else if payload.label == ""
        then written
        else insert tag_text_mime_type payload.label written
  ]

  -- The module's state and the data of the drag, if there is a drag.
  unfoldable pub write_tag_transfer_data :
      Option (Dict String) → TagLike → Option String → Drag → Drag × Option (Dict String)
  unfolding set_active create_tag_transfer_payload write_payload
  write_tag_transfer_data transfer tag source d = (
    set_active (record { tag_id = or_null tag.id; source_doc_id = or_null source }) d,
    elim transfer [
      | none ↦ none
      | some entries ↦ elim (create_tag_transfer_payload tag source) [
        | none ↦ some entries
        | some payload ↦ some (write_payload payload entries)
      ]
    ],
  )

  unfoldable pub parse_tag_transfer_payload : Option (Dict String) → Option TagPayload
  unfolding read_first
  parse_tag_transfer_payload none = none
  parse_tag_transfer_payload (some transfer) = elim (read_first tag_mime_types transfer) [
    | none ↦ none
    | some raw ↦ parse raw
  ]
