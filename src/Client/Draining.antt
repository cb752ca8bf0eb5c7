-- ===== src/Client/Draining.antt =====
-- Every request ends once the answers come, whatever they are.
use papercrate.Base.{
  All, Bool-cases, List, Option, Option-cases, String, [], arith, if◌then◌else◌, inl, inr, length,
  length-append, list_cases, map, none, refl, some, true, ◌+◌, ◌++◌, ◌-◌, ◌<◌, ◌∷◌, ◌≡◌, ◌≤◌, ℕ,
  zero, suc, ◌∙◌, ap,
}
use papercrate.Client.{
  Answer, Client, Event, RefreshAnswer, Request, again, answer, answer_promise, answer_refresh,
  drop_request, find_request, finish, granted, intercept, passes_error, perform_token_refresh,
  refresh_fails, refresh_settles, refresh_succeeds, refused, run, set_auth_token, start,
}
use papercrate.Client.Accounts.{
  IsSound, IsWaiting, Promised, answer-IsSound, answer_refresh-IsSound, client-IsSound, stops-fresh,
}
use papercrate.Client.Progress.{
  answer_refresh-idle, everywhere, everywhere-answer, everywhere-answer_refresh,
  everywhere-sends_of, sends_of, times, times_ended, waiting_of,
}

-- what a request in flight may still ask for: three answers, or one where it is a retry
abbrev weight : Request → ℕ
weight r = if r.retry then 1 else 3

weights : List Request → ℕ
weights [] = 0
weights (r ∷ rs) = weight r + weights rs

-- the work that is left; a request that waits has two answers to come
unfoldable pub work : Client → ℕ
unfolding weights
work c =
    weights c.in_flight
    + length (waiting_of c.refresh_promise)
    + length (waiting_of c.refresh_promise)

weights-append : (xs ys : List Request) → weights (xs ++ ys) ≡ weights xs + weights ys
unfolding weights
weights-append [] ys = omega arith
weights-append (x ∷ xs) ys = omega (arith, weights-append xs ys)

weights-drop_request :
    (number : ℕ) (rs : List Request) (r : Request)
    → find_request number rs ≡ some r
    → weights rs ≡ weight r + weights (drop_request number rs)
unfolding weights find_request drop_request
weights-drop_request number [] r e = cc
weights-drop_request number (q ∷ rs) r e = ground (arith, weights-drop_request number rs r)

weights-again :
    (token : String) (rs : List Request)
    → All IsWaiting rs
    → weights (map (again token) rs) ≡ length rs
unfolding weights again
weights-again token [] h = refl
weights-again token (r ∷ rs) h = ground (arith, weights-again token rs h.1, h.0.0)

work-perform : (r : Request) (c : Client) → work (perform_token_refresh r c) ≡ work c + 2
unfolding work perform_token_refresh
work-perform r c = elim (Option-cases c.refresh_promise) [
  | inl idle ↦ ground arith
  | inr (waiting, busy) ↦ ground (arith, length-append waiting (r ∷ []))
]

work-intercept :
    (a : Answer) (r : Request) (c : Client) → work (intercept a r c) < work c + weight r
unfolding intercept
work-intercept a r c = elim (Bool-cases (passes_error a r)) [
  | inl passes ↦ rw passes (unfold work finish in ground arith)
  | inr stops ↦
      rw stops (ground (arith, work-perform (record r { retry = true }) c, stops-fresh a r stops))
]

-- Each answer to a request leaves less work.
work-answer :
    (number : ℕ) (a : Answer) (c : Client) (r : Request)
    → find_request number c.in_flight ≡ some r
    → work (answer number a c) < work c
unfolding answer
work-answer number a c r found =
    rw (found, answer)
      (let rest : Client = record c { in_flight = drop_request number c.in_flight } in
        let less : work (intercept a r rest) < work rest + weight r = work-intercept a r rest in
        let whole : work rest + weight r ≡ work c =
          unfold work in omega (arith, weights-drop_request number c.in_flight r found) in
        omega arith)

work-settles :
    (a : RefreshAnswer) (waiting : List Request) (c : Client)
    → All IsWaiting waiting
    → work (refresh_settles a waiting c) ≤ weights c.in_flight + length waiting
unfolding work refresh_settles refresh_fails refresh_succeeds set_auth_token
work-settles refused waiting c h = ground arith
work-settles (granted token) waiting c h =
    ground
      (arith, weights-append c.in_flight (map (again token) waiting), weights-again token waiting h)

-- The answer to a refresh leaves less work.
work-answer_promise :
    (p : Option (List Request)) (a : RefreshAnswer) (c : Client) (waiting : List Request)
    → Promised p c.refresh_requests
    → p ≡ some waiting
    → work (answer_promise p a c)
      < weights c.in_flight + length (waiting_of p) + length (waiting_of p)
unfolding answer_promise
work-answer_promise none a c waiting h e = cc
work-answer_promise (some w) a c waiting h e =
    omega
      (arith, work-settles a w (record c { refresh_requests = c.refresh_requests - 1 }) h.2, h.1)

-- One answer: to the first request in flight, or else to the refresh that others wait for.
unfoldable pub next_of : List Request → Answer → RefreshAnswer → Client → Client
next_of (r ∷ rs) a t c = answer r.number a c
next_of [] a t c = answer_refresh t c

-- Answers that come one after the other, each of any kind.
unfoldable pub drain : ℕ → (ℕ → Answer) → (ℕ → RefreshAnswer) → Client → Client
unfolding next_of
drain zero answers tokens c = c
drain (suc n) answers tokens c =
    drain n answers tokens (next_of c.in_flight (answers n) (tokens n) c)

next_of-IsSound :
    (rs : List Request) (a : Answer) (t : RefreshAnswer) (c : Client)
    → IsSound c
    → IsSound (next_of rs a t c)
unfolding next_of
next_of-IsSound [] a t c k = answer_refresh-IsSound t c k
next_of-IsSound (r ∷ rs) a t c k = answer-IsSound r.number a c k

everywhere-next_of :
    (k : ℕ) (rs : List Request) (a : Answer) (t : RefreshAnswer) (c : Client)
    → everywhere k (next_of rs a t c) ≡ everywhere k c
unfolding next_of
everywhere-next_of k [] a t c = everywhere-answer_refresh k t c
everywhere-next_of k (r ∷ rs) a t c = everywhere-answer k r.number a c

find_request-head : (r : Request) (rs : List Request) → find_request r.number (r ∷ rs) ≡ some r
unfolding find_request
find_request-head r rs = ground arith

work-answer_refresh :
    (t : RefreshAnswer) (c : Client)
    → IsSound c
    → c.in_flight ≡ []
    → work (answer_refresh t c) ≤ work c - 1
work-answer_refresh t c k none_out = elim (Option-cases c.refresh_promise) [
  | inl idle ↦
      let done : work c ≡ 0 = unfold work weights in ground arith in
      let same : work (answer_refresh t c) ≡ work c = ap work (answer_refresh-idle t c idle) in
      omega arith
  | inr (waiting, busy) ↦
      let less = work-answer_promise c.refresh_promise t c waiting k.promised busy in
      unfold answer_refresh work in omega arith
]

work-next_of :
    (rs : List Request) (a : Answer) (t : RefreshAnswer) (c : Client)
    → IsSound c
    → c.in_flight ≡ rs
    → work (next_of rs a t c) ≤ work c - 1
unfolding next_of
work-next_of [] a t c k e = work-answer_refresh t c k e
work-next_of (r ∷ rs) a t c k e =
    let less = work-answer r.number a c r (rw e (find_request-head r rs)) in omega arith

-- Without work nothing is in flight and nobody waits.
work_done : (c : Client) → IsSound c → work c ≤ 0 → (c.in_flight ≡ []) × (c.refresh_promise ≡ none)
unfolding work weights
work_done c k h =
    let sent : c.in_flight ≡ [] = elim (list_cases c.in_flight) [
      | inl nothing ↦ nothing
      | inr (r, rs, some_sent) ↦ absurd (ground arith)
    ] in
    let waited : c.refresh_promise ≡ none = elim (Option-cases c.refresh_promise) [
      | inl idle ↦ idle
      | inr (waiting, busy) ↦
          let p : Promised (some waiting) c.refresh_requests = rw busy at k.promised in
          absurd (ground (arith, p.1))
    ] in
    (sent, waited)

drain_done :
    (n : ℕ) (answers : ℕ → Answer) (tokens : ℕ → RefreshAnswer) (c : Client)
    → IsSound c
    → work c ≤ n
    → ((drain n answers tokens c).in_flight ≡ [])
      × ((drain n answers tokens c).refresh_promise ≡ none)
unfolding drain
drain_done zero answers tokens c k h = work_done c k h
drain_done (suc n) answers tokens c k h =
    drain_done n answers tokens (next_of c.in_flight (answers n) (tokens n) c)
      (next_of-IsSound c.in_flight (answers n) (tokens n) c k)
      (omega (arith, work-next_of c.in_flight (answers n) (tokens n) c k refl))

everywhere-drain :
    (k n : ℕ) (answers : ℕ → Answer) (tokens : ℕ → RefreshAnswer) (c : Client)
    → everywhere k (drain n answers tokens c) ≡ everywhere k c
unfolding drain
everywhere-drain k zero answers tokens c = refl
everywhere-drain k (suc n) answers tokens c =
    everywhere-drain k n answers tokens (next_of c.in_flight (answers n) (tokens n) c)
    ∙ everywhere-next_of k c.in_flight (answers n) (tokens n) c

-- Every request ends: after any run, when as many answers as there is work left have come, each of
-- any kind, a number stands among the ended requests as often as it was sent.
pub every_request_ends :
    (k : ℕ) (es : List Event) (answers : ℕ → Answer) (tokens : ℕ → RefreshAnswer)
    → times_ended k (drain (work (run es start)) answers tokens (run es start)).finished
      ≡ sends_of k es
every_request_ends k es answers tokens =
    let c : Client = run es start in
    let (sent, waited) = drain_done (work c) answers tokens c (client-IsSound es) (omega arith) in
    let places = everywhere-drain k (work c) answers tokens c in
    let all = everywhere-sends_of k es in unfold everywhere times in ground arith
