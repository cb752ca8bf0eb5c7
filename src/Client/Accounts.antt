-- ===== src/Client/Accounts.antt =====
-- What every run of the client keeps: one refresh at a time, two transmissions of a request at
-- most, and every request in exactly one place.
use papercrate.Base.{
  All, All-append, Bool, Bool-cases, List, Option, Option-cases, String, [], arith, false,
  if◌then◌else◌, inl, inr, length, length-append, map, nat_eq, none, refl, some, true, ◌-◌, ◌<◌,
  ◌==◌, ◌∷◌, ◌≡◌, ◌≤◌, ℕ, suc, ap,
}
use papercrate.Client.{
  success, failure, no_response, Answer, Client, Event, Outcome, RefreshAnswer, Request, again,
  answer, answer_promise, answer_refresh, came, clear_auth_token, drop_request, fail_all,
  find_request, finish, granted, intercept, passes_error, perform_token_refresh, refresh_fails,
  refresh_settles, refresh_succeeds, refreshed, refused, run, send, sent, set_auth_token, start,
  step, token_cleared, token_set,
}

-- A request in flight has been put on the network once, or twice if it is a retry.
abbrev pub IsSent : Request → Type 0
IsSent r = r.sends ≡ (if r.retry then 2 else 1)

-- A request that waits for a token is marked as retried and was sent once.
abbrev pub IsWaiting : Request → Type 0
IsWaiting r = (r.retry ≡ true) × (r.sends ≡ 1)

-- A refresh is asked for exactly while its promise is there, and somebody waits for it.
abbrev pub Promised : Option (List Request) → ℕ → Type 0
Promised none requests = requests ≡ 0
Promised (some waiting) requests = (requests ≡ 1) × (0 < length waiting) × All IsWaiting waiting

pub record IsSound (c : Client) : Type 0 where
  pub flying : All IsSent c.in_flight
  pub promised : Promised c.refresh_promise c.refresh_requests
  pub ended : All (λ e. e.0.sends ≤ 2) c.finished

find_request-IsSent :
    (number : ℕ) (rs : List Request) (r : Request)
    → All IsSent rs
    → find_request number rs ≡ some r
    → IsSent r
unfolding find_request
find_request-IsSent number [] r h e = cc
find_request-IsSent number (q ∷ rs) r h e = elim (Bool-cases (nat_eq q.number number)) [
  | inl same ↦ let this : q ≡ r = ground arith in rw (← this) h.0
  | inr other ↦ find_request-IsSent number rs r h.1 (ground arith)
]

pub drop_request-IsSent :
    (number : ℕ) (rs : List Request) → All IsSent rs → All IsSent (drop_request number rs)
unfolding drop_request
drop_request-IsSent number [] h = tt
drop_request-IsSent number (q ∷ rs) h = elim (Bool-cases (nat_eq q.number number)) [
  | inl same ↦ rw same h.1
  | inr other ↦ rw other (h.0, drop_request-IsSent number rs h.1)
]

send-IsSound : (number : ℕ) (skip : Bool) (c : Client) → IsSound c → IsSound (send number skip c)
unfolding send
send-IsSound number skip c k = record {
  flying = All-append IsSent c.in_flight _ k.flying (refl, tt);
  promised = k.promised;
  ended = k.ended;
}

perform_token_refresh-IsSound :
    (r : Request) (c : Client) → IsWaiting r → IsSound c → IsSound (perform_token_refresh r c)
unfolding perform_token_refresh
perform_token_refresh-IsSound r c w k = elim (Option-cases c.refresh_promise) [
  | inl idle ↦
      let requests : c.refresh_requests ≡ 0 = rw idle at k.promised in
      rw (idle, perform_token_refresh)
        (record {
          flying = k.flying;
          promised = (ap suc requests, omega arith, (w, tt));
          ended = k.ended;
        })
  | inr (waiting, busy) ↦
      let p : Promised (some waiting) c.refresh_requests = rw busy at k.promised in
      rw (busy, perform_token_refresh)
        (record {
          flying = k.flying;
          promised = (
            p.0,
            omega (arith, length-append {0} waiting (r ∷ [])),
            All-append IsWaiting waiting (r ∷ []) p.2 (w, tt),
          );
          ended = k.ended;
        })
]

-- Only a request that was not retried is held back.
pub stops-fresh : (a : Answer) (r : Request) → passes_error a r ≡ false → r.retry ≡ false
unfolding passes_error
stops-fresh success r h = cc
stops-fresh no_response r h = cc
stops-fresh (failure status) r h = ground arith

intercept-IsSound :
    (a : Answer) (r : Request) (c : Client) → IsSent r → IsSound c → IsSound (intercept a r c)
unfolding intercept finish
intercept-IsSound a r c h k = elim (Bool-cases (passes_error a r)) [
  | inl passes ↦
      let sends : r.sends ≤ 2 = ground arith in
      rw passes (record {
        flying = k.flying;
        promised = k.promised;
        ended =
            All-append (λ (e : Request × Outcome). e.0.sends ≤ 2) c.finished _ k.ended (sends, tt);
      })
  | inr stops ↦
      let fresh : r.retry ≡ false = stops-fresh a r stops in
      let once : r.sends ≡ 1 = ground arith in
      rw stops (perform_token_refresh-IsSound (record r { retry = true }) c (refl, once) k)
]

pub answer-IsSound :
    (number : ℕ) (a : Answer) (c : Client) → IsSound c → IsSound (answer number a c)
unfolding answer
answer-IsSound number a c k = elim (Option-cases (find_request number c.in_flight)) [
  | inl unknown ↦ rw (unknown, answer) k
  | inr (r, found) ↦
      rw (found, answer)
        (intercept-IsSound a r (record c { in_flight = drop_request number c.in_flight })
          (find_request-IsSent number c.in_flight r k.flying found)
          (record {
            flying = drop_request-IsSent number c.in_flight k.flying;
            promised = k.promised;
            ended = k.ended;
          }))
]

again-IsSent :
    (token : String) (waiting : List Request)
    → All IsWaiting waiting
    → All IsSent (map (again token) waiting)
unfolding again
again-IsSent token [] h = tt
again-IsSent token (r ∷ waiting) h = (ground (arith, h.0.0, h.0.1), again-IsSent token waiting h.1)

fail_all-le :
    (waiting : List Request) → All IsWaiting waiting → All (λ e. e.0.sends ≤ 2) (fail_all waiting)
unfolding fail_all
fail_all-le [] h = tt
fail_all-le (r ∷ waiting) h = (omega (arith, h.0.1), fail_all-le waiting h.1)

-- What a pending refresh leaves of the invariant, while its answer is dealt with.
refresh_fails-IsSound :
    (waiting : List Request) (c : Client)
    → All IsSent c.in_flight
    → c.refresh_requests ≡ 0
    → All (λ e. e.0.sends ≤ 2) c.finished
    → All IsWaiting waiting
    → IsSound (refresh_fails waiting c)
unfolding refresh_fails
refresh_fails-IsSound waiting c flying none_out ended h = record {
  flying = flying;
  promised = none_out;
  ended =
      All-append (λ (e : Request × Outcome). e.0.sends ≤ 2) c.finished _ ended
        (fail_all-le waiting h);
}

refresh_settles-IsSound :
    (a : RefreshAnswer) (waiting : List Request) (c : Client)
    → All IsSent c.in_flight
    → c.refresh_requests ≡ 0
    → All (λ e. e.0.sends ≤ 2) c.finished
    → All IsWaiting waiting
    → IsSound (refresh_settles a waiting c)
unfolding refresh_settles refresh_succeeds set_auth_token
refresh_settles-IsSound refused waiting c flying none_out ended h =
    refresh_fails-IsSound waiting c flying none_out ended h
refresh_settles-IsSound (granted token) waiting c flying none_out ended h =
    elim (Bool-cases (token == "")) [
      | inl missing ↦ rw missing (refresh_fails-IsSound waiting c flying none_out ended h)
      | inr given ↦ rw given (record {
        flying = All-append IsSent c.in_flight _ flying (again-IsSent token waiting h);
        promised = none_out;
        ended = ended;
      })
    ]

answer_promise-IsSound :
    (p : Option (List Request)) (a : RefreshAnswer) (c : Client)
    → Promised p c.refresh_requests
    → IsSound c
    → IsSound (answer_promise p a c)
unfolding answer_promise
answer_promise-IsSound none a c h k = k
answer_promise-IsSound (some waiting) a c h k =
    refresh_settles-IsSound a waiting (record c { refresh_requests = c.refresh_requests - 1 })
      k.flying (omega (arith, h.0)) k.ended h.2

pub answer_refresh-IsSound :
    (a : RefreshAnswer) (c : Client) → IsSound c → IsSound (answer_refresh a c)
unfolding answer_refresh
answer_refresh-IsSound a c k = answer_promise-IsSound c.refresh_promise a c k.promised k

pub step-IsSound : (e : Event) (c : Client) → IsSound c → IsSound (step e c)
unfolding step set_auth_token clear_auth_token
step-IsSound (sent number skip) c k = send-IsSound number skip c k
step-IsSound (came number a) c k = answer-IsSound number a c k
step-IsSound (refreshed a) c k = answer_refresh-IsSound a c k
step-IsSound (token_set token) c k = record {
  flying = k.flying;
  promised = k.promised;
  ended = k.ended;
}
step-IsSound token_cleared c k = record {
  flying = k.flying;
  promised = k.promised;
  ended = k.ended;
}

run-IsSound : (es : List Event) (c : Client) → IsSound c → IsSound (run es c)
unfolding run
run-IsSound [] c k = k
run-IsSound (e ∷ es) c k = run-IsSound es (step e c) (step-IsSound e c k)

-- In every run: a refresh is asked for exactly while its promise is there, then once, and then some
-- request waits for it; what waits is marked as retried and was sent once; what is in flight was
-- sent once, or twice if it is marked; and what has ended was sent twice at most.
pub client-IsSound : (es : List Event) → IsSound (run es start)
unfolding start
client-IsSound es = run-IsSound es start (record { flying = tt; promised = refl; ended = tt })
