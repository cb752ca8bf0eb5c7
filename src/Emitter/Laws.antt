-- ===== src/Emitter/Laws.antt =====
-- Notifications are coalesced and never lost.
use papercrate.Base.{◌≡◌, refl, true, false, List, [], ◌∷◌, ◌++◌, arith, All, ◌∙◌}
use papercrate.Emitter.{
  Emitter, Event, changed, fired, subscribed, unsubscribed, new, emit, step, run,
}

-- A timeout is set exactly while the flag says so, and never two.
pub record IsSound (e : Emitter) : Type 0 where
  pub on : e.emit_scheduled ≡ true → e.timers ≡ 1
  pub off : e.emit_scheduled ≡ false → e.timers ≡ 0

pub new-IsSound : IsSound new
new-IsSound = record { on = λ h. cc; off = λ h. refl }

pub emit-IsSound : (e : Emitter) → IsSound e → IsSound (emit e)
unfolding emit
emit-IsSound e s = ground arith

pub step-IsSound : (e : Emitter) (v : Event) → IsSound e → IsSound (step e v)
unfolding step
step-IsSound e changed s = ground arith
step-IsSound e fired s = ground arith
step-IsSound e (subscribed l) s = ground arith
step-IsSound e (unsubscribed l) s = ground arith

pub run-IsSound : (vs : List Event) (e : Emitter) → IsSound e → IsSound (run e vs)
unfolding run
run-IsSound [] e s = s
run-IsSound (v ∷ vs) e s = run-IsSound vs (step e v) (step-IsSound e v s)

-- Everything but the run of a timeout.
abbrev pub IsQuiet : Event → Type 0
IsQuiet fired = ⊥
IsQuiet _ = Unit

-- A notification is under way.
abbrev IsDue : Emitter → Type 0
IsDue e = (e.emit_scheduled ≡ true) × (e.timers ≡ 1)

step_quiet :
    (e : Emitter) (v : Event)
    → IsQuiet v
    → IsDue e
    → IsDue (step e v) × ((step e v).calls ≡ e.calls)
unfolding step
step_quiet e changed q d = ground arith
step_quiet e fired q d = absurd q
step_quiet e (subscribed l) q d = ground arith
step_quiet e (unsubscribed l) q d = ground arith

run_quiet :
    (vs : List Event) (e : Emitter)
    → All IsQuiet vs
    → IsDue e
    → IsDue (run e vs) × ((run e vs).calls ≡ e.calls)
unfolding run
run_quiet [] e q d = (d, refl)
run_quiet (v ∷ vs) e q d =
    let (due, same) = step_quiet e v q.0 d in
    let (due', same') = run_quiet vs (step e v) q.1 due in (due', same' ∙ same)

-- From an emitter with a timeout set just while its flag says so: however many changes and subscriptions come between a change and the run of its timeout, the
-- timeout calls each listener of that moment once, and no second timeout is left behind.
pub notified_once :
    (e : Emitter) (vs : List Event)
    → IsSound e
    → All IsQuiet vs
    → ((step (run e (changed ∷ vs)) fired).calls ≡ e.calls ++ (run e (changed ∷ vs)).listeners)
      × ((step (run e (changed ∷ vs)) fired).timers ≡ 0)
unfolding run step
notified_once e vs s q =
    let due : IsDue (emit e) = unfold emit in ground arith in
    let same_calls : (emit e).calls ≡ e.calls = unfold emit in ground arith in
    let (due', same) = run_quiet vs (emit e) q due in ground arith
