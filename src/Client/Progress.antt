-- ===== src/Client/Progress.antt =====
-- No request is lost, and every one ends once the answers come.
use papercrate.Base.{
  Bool, Bool-cases, List, Option, Option-cases, String, [], arith, false, if◌then◌else◌, inl, inr,
  map, nat_eq, none, refl, some, true, ◌+◌, ◌++◌, ◌-◌, ◌∷◌, ◌≡◌, ℕ, ◌∙◌, ap,
}
use papercrate.Client.{
  Answer, Client, Event, Outcome, RefreshAnswer, Request, again, answer, answer_promise,
  answer_refresh, came, clear_auth_token, drop_request, fail_all, find_request, finish, granted,
  intercept, passes_error, perform_token_refresh, refresh_fails, refresh_settles, refresh_succeeds,
  refreshed, refused, run, send, sent, set_auth_token, start, step, token_cleared, token_set,
}

-- how often a number stands among requests, and among ended ones
unfoldable pub times : ℕ → List Request → ℕ
times k [] = 0
times k (r ∷ rs) = (if nat_eq r.number k then 1 else 0) + times k rs

unfoldable pub times_ended : ℕ → List (Request × Outcome) → ℕ
times_ended k [] = 0
times_ended k ((r, o) ∷ es) = (if nat_eq r.number k then 1 else 0) + times_ended k es

abbrev pub waiting_of : Option (List Request) → List Request
waiting_of none = []
waiting_of (some waiting) = waiting

-- in flight, waiting or ended
unfoldable pub everywhere : ℕ → Client → ℕ
unfolding times times_ended
everywhere k c =
    times k c.in_flight + times k (waiting_of c.refresh_promise) + times_ended k c.finished

-- how often a run sends a number
unfoldable pub sends_of : ℕ → List Event → ℕ
sends_of k [] = 0
sends_of k (sent number skip ∷ es) = (if nat_eq number k then 1 else 0) + sends_of k es
sends_of k (came number a ∷ es) = sends_of k es
sends_of k (refreshed a ∷ es) = sends_of k es
sends_of k (token_set token ∷ es) = sends_of k es
sends_of k (token_cleared ∷ es) = sends_of k es

times-append : (k : ℕ) (xs ys : List Request) → times k (xs ++ ys) ≡ times k xs + times k ys
unfolding times
times-append k [] ys = omega arith
times-append k (x ∷ xs) ys = omega (arith, times-append k xs ys)

times_ended-append :
    (k : ℕ) (xs ys : List (Request × Outcome))
    → times_ended k (xs ++ ys) ≡ times_ended k xs + times_ended k ys
unfolding times_ended
times_ended-append k [] ys = omega arith
times_ended-append k (x ∷ xs) ys = omega (arith, times_ended-append k xs ys)

times-drop_request :
    (k number : ℕ) (rs : List Request) (r : Request)
    → find_request number rs ≡ some r
    → times k rs ≡ (if nat_eq r.number k then 1 else 0) + times k (drop_request number rs)
unfolding times find_request drop_request
times-drop_request k number [] r e = cc
times-drop_request k number (q ∷ rs) r e = ground (arith, times-drop_request k number rs r)

times-again :
    (k : ℕ) (token : String) (rs : List Request) → times k (map (again token) rs) ≡ times k rs
unfolding times again
times-again k token [] = refl
times-again k token (r ∷ rs) = omega (arith, times-again k token rs)

times-fail_all : (k : ℕ) (rs : List Request) → times_ended k (fail_all rs) ≡ times k rs
unfolding times times_ended fail_all
times-fail_all k [] = refl
times-fail_all k (r ∷ rs) = omega (arith, times-fail_all k rs)

everywhere-send :
    (k number : ℕ) (skip : Bool) (c : Client)
    → everywhere k (send number skip c) ≡ (if nat_eq number k then 1 else 0) + everywhere k c
unfolding everywhere send times
everywhere-send k number skip c = ground (
  arith,
  times-append k c.in_flight (
      record {
        number = number;
        retry = false;
        skip_auth_refresh = skip;
        authorization = c.token;
        sends = 1;
      }
      ∷ []),
)

everywhere-perform :
    (k : ℕ) (r : Request) (c : Client)
    → everywhere k (perform_token_refresh r c)
      ≡ (if nat_eq r.number k then 1 else 0) + everywhere k c
unfolding everywhere perform_token_refresh times
everywhere-perform k r c = elim (Option-cases c.refresh_promise) [
  | inl idle ↦ ground arith
  | inr (waiting, busy) ↦ ground (arith, times-append k waiting (r ∷ []))
]

everywhere-intercept :
    (k : ℕ) (a : Answer) (r : Request) (c : Client)
    → everywhere k (intercept a r c) ≡ (if nat_eq r.number k then 1 else 0) + everywhere k c
unfolding intercept
everywhere-intercept k a r c = elim (Bool-cases (passes_error a r)) [
  | inl passes ↦ rw passes (
      unfold everywhere finish times_ended in
      ground (arith, times_ended-append k c.finished ((r, Outcome.answered a) ∷ [])))
  | inr stops ↦ rw stops (everywhere-perform k (record r { retry = true }) c)
]

pub everywhere-answer :
    (k number : ℕ) (a : Answer) (c : Client) → everywhere k (answer number a c) ≡ everywhere k c
unfolding answer
everywhere-answer k number a c = elim (Option-cases (find_request number c.in_flight)) [
  | inl unknown ↦ rw (unknown, answer) refl
  | inr (r, found) ↦
      rw (found, answer)
        (everywhere-intercept k a r (record c { in_flight = drop_request number c.in_flight })
          ∙ unfold everywhere in ground (arith, times-drop_request k number c.in_flight r found))
]

everywhere-settles :
    (k : ℕ) (a : RefreshAnswer) (waiting : List Request) (c : Client)
    → everywhere k (refresh_settles a waiting c)
      ≡ times k c.in_flight + times k waiting + times_ended k c.finished
unfolding everywhere refresh_settles refresh_fails refresh_succeeds set_auth_token times
everywhere-settles k refused waiting c =
    omega (arith, times_ended-append k c.finished (fail_all waiting), times-fail_all k waiting)
everywhere-settles k (granted token) waiting c = ground (
  arith,
  times_ended-append k c.finished (fail_all waiting),
  times-fail_all k waiting,
  times-append k c.in_flight (map (again token) waiting),
  times-again k token waiting,
)

pub answer_refresh-idle :
    (a : RefreshAnswer) (c : Client) → c.refresh_promise ≡ none → answer_refresh a c ≡ c
unfolding answer_refresh answer_promise
answer_refresh-idle a c idle = ap (λ (p : Option (List Request)). answer_promise p a c) idle

answer_refresh-busy :
    (a : RefreshAnswer) (waiting : List Request) (c : Client)
    → c.refresh_promise ≡ some waiting
    → answer_refresh a c
      ≡ refresh_settles a waiting (record c { refresh_requests = c.refresh_requests - 1 })
unfolding answer_refresh answer_promise
answer_refresh-busy a waiting c busy = ap (λ (p : Option (List Request)). answer_promise p a c) busy

pub everywhere-answer_refresh :
    (k : ℕ) (a : RefreshAnswer) (c : Client) → everywhere k (answer_refresh a c) ≡ everywhere k c
everywhere-answer_refresh k a c = elim (Option-cases c.refresh_promise) [
  | inl idle ↦ ap (everywhere k) (answer_refresh-idle a c idle)
  | inr (waiting, busy) ↦
      ap (everywhere k) (answer_refresh-busy a waiting c busy)
      ∙ everywhere-settles k a waiting (record c { refresh_requests = c.refresh_requests - 1 })
      ∙ unfold everywhere in ground arith
]

everywhere-run :
    (k : ℕ) (es : List Event) (c : Client)
    → everywhere k (run es c) ≡ sends_of k es + everywhere k c
unfolding run step sends_of
everywhere-run k [] c = omega arith
everywhere-run k (sent number skip ∷ es) c =
    omega (arith, everywhere-run k es (send number skip c), everywhere-send k number skip c)
everywhere-run k (came number a ∷ es) c =
    omega (arith, everywhere-run k es (answer number a c), everywhere-answer k number a c)
everywhere-run k (refreshed a ∷ es) c =
    omega (arith, everywhere-run k es (answer_refresh a c), everywhere-answer_refresh k a c)
everywhere-run k (token_set token ∷ es) c =
    everywhere-run k es (set_auth_token token c) ∙ unfold everywhere set_auth_token in refl
everywhere-run k (token_cleared ∷ es) c =
    everywhere-run k es (clear_auth_token c) ∙ unfold everywhere clear_auth_token in refl

-- No request is lost and none is made up: in every run a number stands among the requests in
-- flight, those that wait for a token and those that have ended as often as it was sent.
pub everywhere-sends_of : (k : ℕ) (es : List Event) → everywhere k (run es start) ≡ sends_of k es
unfolding start
everywhere-sends_of k es =
    everywhere-run k es start ∙ unfold everywhere times times_ended in omega arith
