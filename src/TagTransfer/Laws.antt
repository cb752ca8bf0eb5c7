-- ===== src/TagTransfer/Laws.antt =====
-- One message for actions that overlap, and a payload that is read as it was written.
use papercrate.Base.{
  ℕ, zero, suc, ◌<◌, ◌≡◌, refl, sym, ◌∙◌, String, Bool-cases, true, false, List, [], ◌∷◌, ◌++◌,
  Option, some, ◌==◌, ◌&&◌, ◌||◌, not, any, ltb, nat_eq, or_else, contains, arith, inl, inr,
}
use mathlib.Core.List.{append_assoc, append-nil}
use papercrate.Dict.{Dict, lookup, insert, keys}
use papercrate.Dict.Laws.{lookup-insert, contains-keys-insert}
use papercrate.TagTransfer.{
  ActionResult, is_attach, Message, tag_moved, tag_assigned, tag_removed, action_failed, Batch,
  summary, is_nil, process_results, Event, action_begun, action_finished, timer_fired,
  toast_subscribed, toast_unsubscribed, step, run, TagPayload, TagLike, Drag, tag_mime_types,
  tag_text_mime_type, create_tag_transfer_payload, set_all, read_first, write_payload,
  write_tag_transfer_data, parse_tag_transfer_payload, is_tag_transfer_event,
}

-- the results that the events bring
abbrev pub results_of : List Event → List ActionResult
results_of [] = []
results_of (action_begun ∷ es) = results_of es
results_of (action_finished r ∷ es) = r ∷ results_of es
results_of (timer_fired ∷ es) = results_of es
results_of (toast_subscribed l ∷ es) = results_of es
results_of (toast_unsubscribed ∷ es) = results_of es

-- Wherever a timer fires, an action is under way.
abbrev pub IsBusy : List Event → Batch → Type 0
IsBusy [] b = Unit
IsBusy (action_begun ∷ es) b = IsBusy es (step action_begun b)
IsBusy (action_finished r ∷ es) b = IsBusy es (step (action_finished r) b)
IsBusy (timer_fired ∷ es) b = (b.finished < b.begun) × IsBusy es (step timer_fired b)
IsBusy (toast_subscribed l ∷ es) b = IsBusy es (step (toast_subscribed l) b)
IsBusy (toast_unsubscribed ∷ es) b = IsBusy es (step toast_unsubscribed b)

fired_busy :
    (b : Batch)
    → b.finished < b.begun
    → ((step timer_fired b).results ≡ b.results) × ((step timer_fired b).toasts ≡ b.toasts)
unfolding step process_results
fired_busy b h = elim (Bool-cases (nat_eq b.timers 0)) [
  | inl still ↦ rw still (refl, refl)
  | inr set ↦
      let busy : (ltb b.finished b.begun || is_nil b.results) ≡ true = ground arith in
      rw set (rw busy (refl, refl))
]

run_busy :
    (es : List Event) (b : Batch)
    → IsBusy es b
    → ((run es b).results ≡ b.results ++ results_of es) × ((run es b).toasts ≡ b.toasts)
unfolding run
run_busy [] b h = (sym (append-nil b.results), refl)
run_busy (action_begun ∷ es) b h = unfold step in run_busy es (step action_begun b) h
run_busy (action_finished r ∷ es) b h =
    let (results, toasts) = run_busy es (step (action_finished r) b) h in
    (
      results ∙ unfold step in append_assoc b.results (r ∷ []) (results_of es),
      toasts ∙ unfold step in refl,
    )
run_busy (timer_fired ∷ es) b (busy, h) =
    let (same, quiet) = fired_busy b busy in
    let (results, toasts) = run_busy es (step timer_fired b) h in
    (results ∙ rw same refl, toasts ∙ quiet)
run_busy (toast_subscribed l ∷ es) b h = unfold step in run_busy es (step (toast_subscribed l) b) h
run_busy (toast_unsubscribed ∷ es) b h = unfold step in run_busy es (step toast_unsubscribed b) h

-- Every result has its part in the message.
summary-some :
    (r : ActionResult) (rs : List ActionResult) → (m : Message) × (summary (r ∷ rs) ≡ some m)
unfolding summary
summary-some r rs =
    let all = r ∷ rs in
    let attached = any (λ (q : ActionResult). q.success && is_attach q.kind) all in
    let detached = any (λ (q : ActionResult). q.success && not (is_attach q.kind)) all in
    elim (Bool-cases attached) [
      | inl a ↦ elim (Bool-cases detached) [
        | inl d ↦ (tag_moved, rw (a, d) refl)
        | inr d ↦ (tag_assigned, rw (a, d) refl)
      ]
      | inr a ↦ elim (Bool-cases detached) [
        | inl d ↦ (tag_removed, rw (a, d) refl)
        | inr d ↦
            let some_failed : any (λ (q : ActionResult). not q.success) all ≡ true = ground arith in
            (action_failed, rw (a, d, some_failed) refl)
      ]
    ]

abbrev pub fires : ℕ → List Event
fires zero = []
fires (suc n) = timer_fired ∷ fires n

fired_quiet :
    (b : Batch)
    → b.results ≡ []
    → ((step timer_fired b).results ≡ []) × ((step timer_fired b).toasts ≡ b.toasts)
unfolding step process_results
fired_quiet b h = elim (Bool-cases (nat_eq b.timers 0)) [
  | inl still ↦ rw still (h, refl)
  | inr set ↦
      let quiet : (ltb b.finished b.begun || is_nil b.results) ≡ true = rw h (ground arith) in
      rw set (rw quiet (h, refl))
]

fires_quiet : (n : ℕ) (b : Batch) → b.results ≡ [] → (run (fires n) b).toasts ≡ b.toasts
unfolding run
fires_quiet zero b h = refl
fires_quiet (suc n) b h =
    let (clean, same) = fired_quiet b h in fires_quiet n (step timer_fired b) clean ∙ same

-- The timer that fires when nothing is under way any more.
fired_told :
    (b : Batch) (l : ℕ) (r : ActionResult) (rs : List ActionResult) (m : Message)
    → b.results ≡ r ∷ rs
    → b.finished ≡ b.begun
    → 0 < b.timers
    → b.toast_listener ≡ some l
    → summary (r ∷ rs) ≡ some m
    → ((step timer_fired b).results ≡ []) × ((step timer_fired b).toasts ≡ b.toasts ++ (l, m) ∷ [])
unfolding step process_results
fired_told b l r rs m brought ended set listens means =
    let pending : nat_eq b.timers 0 ≡ false = ground arith in
    let idle : (ltb b.finished b.begun || is_nil b.results) ≡ false = rw brought (ground arith) in
    rw pending (rw idle (refl, rw (listens, brought, means) refl))

-- Actions that begin and end in any order, one of them being under way wherever a timer fires, and
-- then all ended, are told in one message, of all their results: when the next timer fires the
-- listener of that moment is called once, and however many timers fire after it, none calls it
-- again. It is supposed that no results are left from before, that there are some now, that a timer
-- is set, and that there is a listener.
pub batch_told_once :
    (es : List Event) (b : Batch) (l n : ℕ) (r : ActionResult) (rs : List ActionResult)
    → b.results ≡ []
    → IsBusy es b
    → results_of es ≡ r ∷ rs
    → (run es b).finished ≡ (run es b).begun
    → 0 < (run es b).timers
    → (run es b).toast_listener ≡ some l
    → (m : Message) × (summary (r ∷ rs) ≡ some m)
      × ((run (fires (suc n)) (run es b)).toasts ≡ b.toasts ++ (l, m) ∷ [])
unfolding run
batch_told_once es b l n r rs clean busy brought ended set listens =
    let t = run es b in
    let (collected, quiet) = run_busy es b busy in
    let (m, means) = summary-some r rs in
    let results : t.results ≡ r ∷ rs = collected ∙ rw (clean, brought) refl in
    let (empty, told_it) = fired_told t l r rs m results ended set listens means in
    (m, means, fires_quiet n (step timer_fired t) empty ∙ told_it ∙ rw quiet refl)

-- A drag that carries the text of a payload for both types, and perhaps a label.
written_first :
    (text label : String) (transfer : Dict String)
    → (text == "") ≡ false
    → (read_first tag_mime_types (set_all tag_mime_types text transfer) ≡ some text)
      × (read_first tag_mime_types
            (insert tag_text_mime_type label (set_all tag_mime_types text transfer))
          ≡ some text)
unfolding read_first set_all
written_first text label transfer full =
    let first : String = "application/x-papercrate-tag" in
    let one = insert first text transfer in
    let both = insert "text/papercrate-tag" text one in
    let found : lookup first both ≡ some text =
      lookup-insert "text/papercrate-tag" first text one
      ∙ lookup-insert first first text transfer in
    let found' : lookup first (insert tag_text_mime_type label both) ≡ some text =
      lookup-insert tag_text_mime_type first label both ∙ found in
    (rw (found, read_first) (rw full refl), rw (found', read_first) (rw full refl))

written_seen :
    (text label : String) (transfer : Dict String)
    → (contains "application/x-papercrate-tag" (keys (set_all tag_mime_types text transfer)) ≡ true)
      × (contains "application/x-papercrate-tag"
            (keys (insert tag_text_mime_type label (set_all tag_mime_types text transfer)))
          ≡ true)
unfolding set_all
written_seen text label transfer =
    let first : String = "application/x-papercrate-tag" in
    let one = insert first text transfer in
    let both = insert "text/papercrate-tag" text one in
    let seen : contains first (keys both) ≡ true =
      contains-keys-insert "text/papercrate-tag" first text one
      ∙ contains-keys-insert first first text transfer in
    (seen, contains-keys-insert tag_text_mime_type first label both ∙ seen)

-- A tag that has an identifier is written to a drag, whatever else the drag carries, and JSON reads
-- the text that it makes of the tag's payload, which is not empty: the drag is one of a tag, and its
-- payload is read as it was written, the label being empty where the tag has none.
pub written_payload_reads :
    (stringify : TagPayload → Option String) (parse : String → Option TagPayload)
    (transfer : Dict String) (tag : TagLike) (source : Option String) (d : Drag) (id text : String)
    → tag.id ≡ some id
    → (text == "") ≡ false
    → stringify (record { id = id; label = or_else tag.label ""; source_doc_id = source })
      ≡ some text
    → parse text ≡ some (record { id = id; label = or_else tag.label ""; source_doc_id = source })
    → (let written = (write_tag_transfer_data stringify parse (some transfer) tag source d).1 in
        (parse_tag_transfer_payload stringify parse written
          ≡ some (record { id = id; label = or_else tag.label ""; source_doc_id = source }))
        × (is_tag_transfer_event written ≡ true))
written_payload_reads stringify parse transfer tag source d id text named full prints reads =
    let label = or_else tag.label "" in
    let p : TagPayload = record { id = id; label = label; source_doc_id = source } in
    let made : create_tag_transfer_payload tag source ≡ some p =
      unfold create_tag_transfer_payload in rw (named, create_tag_transfer_payload) refl in
    let given : (write_tag_transfer_data stringify parse (some transfer) tag source d).1
        ≡ some (write_payload stringify parse p transfer) =
      unfold write_tag_transfer_data in rw (made, write_tag_transfer_data) refl in
    let (plain, labelled) = written_first text label transfer full in
    let (seen, seen') = written_seen text label transfer in
    rw given (elim (Bool-cases (label == "")) [
      | inl blank ↦
          let e : write_payload stringify parse p transfer ≡ set_all tag_mime_types text transfer =
            unfold write_payload in rw (prints, write_payload) (rw (full, blank) refl) in
          rw e (
            unfold parse_tag_transfer_payload is_tag_transfer_event in
            (rw (plain, parse_tag_transfer_payload) reads, rw seen refl))
      | inr kept ↦
          let e : write_payload stringify parse p transfer
              ≡ insert tag_text_mime_type label (set_all tag_mime_types text transfer) =
            unfold write_payload in rw (prints, write_payload) (rw (full, kept) refl) in
          rw e (
            unfold parse_tag_transfer_payload is_tag_transfer_event in
            (rw (labelled, parse_tag_transfer_payload) reads, rw seen' refl))
    ])
