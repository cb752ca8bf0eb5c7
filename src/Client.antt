-- ===== src/Client.antt =====
-- Requests to the API, and the renewal of the access token when one is answered with status 401:
-- frontend/src/lib/api/apiClient.ts. What a caller does with an answer is left out; a request is
-- its number and the parts of its configuration that the interceptor reads and writes. `sends`
-- counts how often the request was put on the network.
pub mod Accounts
pub mod Progress
pub mod Draining
pub mod Answers
mod Tests
use papercrate.Base.{
  Bool, List, Option, String, [], false, filter, find?, if◌then◌else◌, map, nat_eq, none, not,
  or_else, some, true, ◌&&◌, ◌+◌, ◌++◌, ◌-◌, ◌==◌, ◌||◌, ◌∷◌, ℕ, suc,
}

pub record Request : Type 0 where
  pub number : ℕ
  -- `_retry` and `skipAuthRefresh`
  pub retry : Bool
  pub skip_auth_refresh : Bool
  -- the `Authorization` header, without `Bearer`
  pub authorization : Option String
  pub sends : ℕ

-- The answer to a request: one with a status of success, another status, or none at all.
pub data Answer : Type 0 where
  success : Answer
  failure : ℕ → Answer
  no_response : Answer

-- The answer to the request for a new token. A missing token is the empty one.
pub data RefreshAnswer : Type 0 where
  granted : String → RefreshAnswer
  refused : RefreshAnswer

-- How the promise of a caller ends: with the answer, or as the refresh that it waited for failed.
pub data Outcome : Type 0 where
  answered : Answer → Outcome
  refresh_failed : Outcome

-- The calls of the handlers that `setAuthRefreshHandlers` sets.
pub data Notice : Type 0 where
  on_refresh_success : String → Notice
  on_refresh_failure : Notice

pub record Client : Type 0 where
  -- `api.defaults.headers.common.Authorization`
  pub token : Option String
  pub in_flight : List Request
  -- `refreshPromise`, as the requests that wait for it
  pub refresh_promise : Option (List Request)
  -- requests for a new token that are not answered
  pub refresh_requests : ℕ
  pub finished : List (Request × Outcome)
  pub notices : List Notice

unfoldable pub start : Client
start = record {
  token = none;
  in_flight = [];
  refresh_promise = none;
  refresh_requests = 0;
  finished = [];
  notices = [];
}

-- `setAuthToken`
unfoldable pub set_auth_token : String → Client → Client
set_auth_token token c = record c { token = some token }

-- `clearAuthToken`
unfoldable pub clear_auth_token : Client → Client
clear_auth_token c = record c { token = none }

-- A call of `api`, with or without `skipAuthRefresh`.
unfoldable pub send : ℕ → Bool → Client → Client
send number skip c = record c {
  in_flight =
      c.in_flight
      ++ record {
        number = number;
        retry = false;
        skip_auth_refresh = skip;
        authorization = c.token;
        sends = 1;
      }
        ∷ [];
}

-- The promise of a request ends.
unfoldable pub finish : Request → Outcome → Client → Client
finish r outcome c = record c { finished = c.finished ++ (r, outcome) ∷ [] }

-- `performTokenRefresh` for one more caller
unfoldable pub perform_token_refresh : Request → Client → Client
perform_token_refresh r c = elim c.refresh_promise [
  | some waiting ↦ record c { refresh_promise = some (waiting ++ r ∷ []) }
  | none ↦ record c { refresh_promise = some (r ∷ []); refresh_requests = suc c.refresh_requests }
]

-- `!response || response.status !== 401 || config._retry || config.skipAuthRefresh`
unfoldable pub passes_error : Answer → Request → Bool
passes_error success r = true
passes_error no_response r = true
passes_error (failure status) r = not (nat_eq status 401) || r.retry || r.skip_auth_refresh

-- the interceptor of answers
unfoldable pub intercept : Answer → Request → Client → Client
unfolding finish perform_token_refresh passes_error
intercept answer r c =
    if passes_error answer r
    then finish r (answered answer) c
    else perform_token_refresh (record r { retry = true }) c

unfoldable pub find_request : ℕ → List Request → Option Request
find_request number [] = none
find_request number (r ∷ rs) = if nat_eq r.number number then some r else find_request number rs

unfoldable pub drop_request : ℕ → List Request → List Request
drop_request number [] = []
drop_request number (r ∷ rs) = if nat_eq r.number number then rs else r ∷ drop_request number rs

-- The answer to the request in flight with a number; no answer comes for another number.
unfoldable pub answer : ℕ → Answer → Client → Client
unfolding intercept find_request drop_request
answer number a c = elim (find_request number c.in_flight) [
  | none ↦ c
  | some r ↦ intercept a r (record c { in_flight = drop_request number c.in_flight })
]

-- `headers.Authorization = ...; return api(config)`
unfoldable pub again : String → Request → Request
again token r = record r { authorization = some token; sends = suc r.sends }

unfoldable pub fail_all : List Request → List (Request × Outcome)
fail_all [] = []
fail_all (r ∷ rs) = (r, refresh_failed) ∷ fail_all rs

-- the refresh settles with a token: `then`, `finally`, and the callers that go on
unfoldable pub refresh_succeeds : String → List Request → Client → Client
unfolding again set_auth_token
refresh_succeeds token waiting c = record (set_auth_token token c) {
  in_flight = c.in_flight ++ map (again token) waiting;
  refresh_promise = none;
  notices = c.notices ++ on_refresh_success token ∷ [];
}

-- the refresh settles with an error: `catch`, `finally`, and the callers that are rejected
unfoldable pub refresh_fails : List Request → Client → Client
unfolding fail_all
refresh_fails waiting c = record c {
  refresh_promise = none;
  finished = c.finished ++ fail_all waiting;
  notices = c.notices ++ on_refresh_failure ∷ [];
}

unfoldable pub refresh_settles : RefreshAnswer → List Request → Client → Client
unfolding refresh_succeeds refresh_fails
refresh_settles refused waiting c = refresh_fails waiting c
refresh_settles (granted token) waiting c =
    if token == "" then refresh_fails waiting c else refresh_succeeds token waiting c

-- The answer to the request for a token; none comes where none is asked for.
unfoldable pub answer_promise : Option (List Request) → RefreshAnswer → Client → Client
unfolding refresh_settles
answer_promise none a c = c
answer_promise (some waiting) a c =
    refresh_settles a waiting (record c { refresh_requests = c.refresh_requests - 1 })

unfoldable pub answer_refresh : RefreshAnswer → Client → Client
unfolding answer_promise
answer_refresh a c = answer_promise c.refresh_promise a c

pub data Event : Type 0 where
  sent : ℕ → Bool → Event
  came : ℕ → Answer → Event
  refreshed : RefreshAnswer → Event
  token_set : String → Event
  token_cleared : Event

unfoldable pub step : Event → Client → Client
unfolding set_auth_token clear_auth_token
step (sent number skip) c = send number skip c
step (came number a) c = answer number a c
step (refreshed a) c = answer_refresh a c
step (token_set token) c = set_auth_token token c
step token_cleared c = clear_auth_token c

unfoldable pub run : List Event → Client → Client
unfolding step
run [] c = c
run (e ∷ es) c = run es (step e c)
