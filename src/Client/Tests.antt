-- ===== src/Client/Tests.antt =====
-- The client at concrete runs: three requests of which two are answered with 401 before a token
-- comes, and a refresh that is refused.
use papercrate.Base.{List, [], ◌∷◌, ◌≡◌, refl, true, false, ℕ, map}
use papercrate.Client.{
  Answer, Event, RefreshAnswer, answer, answer_refresh, came, send, failure, granted, refreshed,
  refused, run, sent, start, token_set,
}
use papercrate.Client.Accounts.{IsSound, client-IsSound}
use papercrate.Client.Progress.{everywhere, everywhere-sends_of, sends_of, times_ended}
use papercrate.Client.Draining.{drain, every_request_ends, work}

abbrev expired : List Event
expired =
    token_set "old"
    ∷ sent 1 false
    ∷ sent 2 false
    ∷ sent 3 true
    ∷ came 1 (failure 401)
    ∷ came 2 (failure 401)
    ∷ came 3 (failure 401)
    ∷ []

-- both wait for one refresh, and the third is rejected at once
one_refresh : (run expired start).refresh_requests ≡ 1
unfolding run start send answer answer_refresh
one_refresh = refl

both_again :
    map (λ r. r.number) (run (refreshed (granted "new") ∷ []) (run expired start)).in_flight
    ≡ 1 ∷ 2 ∷ []
unfolding run start send answer answer_refresh
both_again = refl

both_rejected :
    map (λ e. e.0.number) (run (refreshed refused ∷ []) (run expired start)).finished
    ≡ 3 ∷ 1 ∷ 2 ∷ []
unfolding run start send answer answer_refresh
both_rejected = refl

client-IsSound_example : IsSound (run expired start)
client-IsSound_example = client-IsSound expired

everywhere-sends_of_example : everywhere 2 (run expired start) ≡ sends_of 2 expired
everywhere-sends_of_example = everywhere-sends_of 2 expired

abbrev late : ℕ → Answer
late k = failure 401

abbrev fresh : ℕ → RefreshAnswer
fresh k = granted "new"

every_request_ends_example :
    times_ended 1 (drain (work (run expired start)) late fresh (run expired start)).finished
    ≡ sends_of 1 expired
every_request_ends_example = every_request_ends 1 expired late fresh
