-- ===== src/Emitter.antt =====
-- How the managers of documents and folders tell their listeners of a change: the private `emit`,
-- `subscribe` and the timer of frontend/src/documents/DocumentsManager.ts (FoldersManager.ts has the
-- same code). A listener is known by a number; `calls` records the calls made, in order.
pub mod Laws
mod Tests
use papercrate.Base.{
  ℕ, zero, suc, ◌-◌, Bool, true, false, List, [], ◌∷◌, ◌++◌, if◌then◌else◌, any, filter, not,
  nat_eq,
}

pub record Emitter : Type 0 where
  pub listeners : List ℕ
  pub emit_scheduled : Bool
  -- timeouts that have been set and have not run
  pub timers : ℕ
  pub calls : List ℕ

abbrev pub new : Emitter
new = record { listeners = []; emit_scheduled = false; timers = 0; calls = [] }

unfoldable pub emit : Emitter → Emitter
emit e = if e.emit_scheduled then e else record e { emit_scheduled = true; timers = suc e.timers }

-- the callback of the timeout
unfoldable pub fire : Emitter → Emitter
fire e = record e { emit_scheduled = false; timers = e.timers - 1; calls = e.calls ++ e.listeners }

-- `listeners` is a `Set`: a listener that is there is not added again.
unfoldable pub subscribe : ℕ → Emitter → Emitter
subscribe l e =
    if any (λ j. nat_eq j l) e.listeners then e else record e { listeners = e.listeners ++ l ∷ [] }

-- the function that `subscribe` returns
unfoldable pub unsubscribe : ℕ → Emitter → Emitter
unsubscribe l e = record e { listeners = filter (λ j. not (nat_eq j l)) e.listeners }

-- What can happen to an emitter; a timeout runs only if one has been set.
pub data Event : Type 0 where
  changed fired : Event
  subscribed unsubscribed : ℕ → Event

unfoldable pub step : Emitter → Event → Emitter
unfolding emit fire subscribe unsubscribe
step e changed = emit e
step e fired = if nat_eq e.timers 0 then e else fire e
step e (subscribed l) = subscribe l e
step e (unsubscribed l) = unsubscribe l e

unfoldable pub run : Emitter → List Event → Emitter
unfolding step
run e [] = e
run e (v ∷ vs) = run (step e v) vs
