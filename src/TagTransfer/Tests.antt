-- ===== src/TagTransfer/Tests.antt =====
-- A tag that is taken from one document and put on another, while a timer fires between.
use papercrate.Base.{◌≡◌, refl, ◌++◌, String, true, List, [], ◌∷◌, Option, none, some, arith}
use papercrate.TagTransfer.{
  ActionResult, attach, detach, Message, tag_moved, Batch, summary, Event, action_begun,
  action_finished, timer_fired, toast_subscribed, step, run, TagPayload, TagLike, Drag,
  write_tag_transfer_data, parse_tag_transfer_payload, is_tag_transfer_event,
}
use papercrate.TagTransfer.Laws.{fires, batch_told_once, written_payload_reads}

abbrev attached : ActionResult
attached = record { kind = attach; success = true }

abbrev detached : ActionResult
detached = record { kind = detach; success = true }

abbrev idle : Batch
idle = record {
  begun = 0;
  finished = 0;
  results = [];
  timers = 0;
  toast_listener = none;
  toasts = [];
}

abbrev events : List Event
events =
    toast_subscribed 7
    ∷ action_begun
    ∷ action_begun
    ∷ action_finished attached
    ∷ timer_fired
    ∷ action_finished detached
    ∷ []

batch_told_once_example :
    (m : Message) × (summary (attached ∷ detached ∷ []) ≡ some m)
    × ((run (fires 3) (run events idle)).toasts ≡ [] ++ (7, m) ∷ [])
unfolding run step
batch_told_once_example =
    batch_told_once events idle 7 2 attached (detached ∷ []) refl (omega arith, tt) refl refl
      (omega arith) refl

moved : summary (attached ∷ detached ∷ []) ≡ some tag_moved
unfolding summary
moved = refl

abbrev tag : TagLike
tag = record { id = some "t"; label = some "news" }

abbrev payload : TagPayload
payload = record { id = "t"; label = "news"; source_doc_id = none }

abbrev stringify : TagPayload → Option String
stringify p = some "{}"

abbrev parse : String → Option TagPayload
parse text = some payload

abbrev nowhere : Drag
nowhere = record {
  active = record { tag_id = none; source_doc_id = none };
  listeners = 1 ∷ [];
  calls = [];
}

written_payload_reads_example :
    (let written = (write_tag_transfer_data stringify parse (some []) tag none nowhere).1 in
      (parse_tag_transfer_payload stringify parse written ≡ some payload)
      × (is_tag_transfer_event written ≡ true))
written_payload_reads_example =
    written_payload_reads stringify parse [] tag none nowhere "t" "{}" refl refl refl refl
