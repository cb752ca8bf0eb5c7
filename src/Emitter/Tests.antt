-- ===== src/Emitter/Tests.antt =====
-- The notification of one listener.
use papercrate.Base.{◌≡◌, [], ◌∷◌, ◌++◌}
use papercrate.Emitter.{changed, fired, subscribed, new, step, run}
use papercrate.Emitter.Laws.{new-IsSound, notified_once}

-- A listener subscribes between two changes.
notified_once_example :
    ((step (run new (changed ∷ subscribed 7 ∷ changed ∷ [])) fired).calls
      ≡ new.calls ++ (run new (changed ∷ subscribed 7 ∷ changed ∷ [])).listeners)
    × ((step (run new (changed ∷ subscribed 7 ∷ changed ∷ [])) fired).timers ≡ 0)
notified_once_example = notified_once new (subscribed 7 ∷ changed ∷ []) new-IsSound (tt, (tt, tt))
