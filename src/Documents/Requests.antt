-- ===== src/Documents/Requests.antt =====
-- The requests for single documents: `ensure` and what it does with the answers, as a run of the
-- manager beside its environment, which keeps the requests that have been sent and not answered.
use papercrate.Base.{
  ℕ, ◌≡◌, refl, sym, ◌∙◌, Bool, String, true, false, List, [], ◌∷◌, Option, none, some,
  if◌then◌else◌, arith, ◌==◌, eq_iff, eq_refl, ◌||◌, Option-cases, Bool-cases, inl, inr, contains,
  nat_eq, Distinct, not, ◌⊎◌,
}
use papercrate.Api.{Reply, ok, failed}
use papercrate.Dict.{Dict, lookup, insert, keys, IsMap}
use papercrate.Dict.Laws.{lookup-insert, lookup-erase}
use papercrate.Js.{Fields}
use papercrate.Documents.{
  DocumentsManager, new, ensure, Ensured, joined, requested, settle, ingest, remove,
}

pub record World : Type 0 where
  pub manager : DocumentsManager
  -- the document and the number of each request that is out, the latest first
  pub pending : List (String × ℕ)

abbrev pub begin : Bool → World
begin fetcher = record { manager = new fetcher; pending = [] }

pub data Event : Type 0 where
  -- a call of `ensure`, with or without a fetcher of its own
  asked : Bool → String → Event
  -- the answer of a request
  answered : ℕ → Reply (Option Fields) → Event
  -- other operations of the store, between the two
  ingested : List (Option Fields) → Event
  removed : List String → Event

request_of : ℕ → List (String × ℕ) → Option String
request_of n [] = none
request_of n ((id, k) ∷ rest) = if nat_eq k n then some id else request_of n rest

drop_request : ℕ → List (String × ℕ) → List (String × ℕ)
drop_request n [] = []
drop_request n ((id, k) ∷ rest) = if nat_eq k n then rest else (id, k) ∷ drop_request n rest

sent : String → Ensured → List (String × ℕ) → List (String × ℕ)
sent id (requested n) pending = (id, n) ∷ pending
sent id _ pending = pending

unfoldable pub step : World → Event → World
unfolding request_of drop_request sent
step w (asked override id) =
    let r = ensure override id w.manager in
    record { manager = r.0; pending = sent id r.1 w.pending }
step w (answered n reply) = elim (request_of n w.pending) [
  | none ↦ w
  | some id ↦ record { manager = (settle id reply w.manager).0; pending = drop_request n w.pending }
]
step w (ingested raw) = record w { manager = (ingest w.manager raw).0 }
step w (removed ids) = record w { manager = (remove ids w.manager).0 }

unfoldable pub run : World → List Event → World
run w [] = w
run w (e ∷ es) = run (step w e) es

-- No document has two requests out, and `inflight` is just what is out.
record IsSingle (w : World) : Type 0 where
  single : IsMap w.pending
  tracked : (k : String) → lookup k w.manager.inflight ≡ lookup k w.pending

absent_key :
    {V : Type 0} (k : String) (m : Dict V) → lookup k m ≡ none → contains k (keys m) ≡ false
unfolding lookup keys contains
absent_key k [] h = refl
absent_key k ((j, v) ∷ m) h = ground (arith, absent_key k m)

missing_key :
    {V : Type 0} (k : String) (m : Dict V) → contains k (keys m) ≡ false → lookup k m ≡ none
unfolding lookup keys contains
missing_key k [] h = refl
missing_key k ((j, v) ∷ m) h = ground (arith, missing_key k m)

contains-drop_request :
    (k : String) (n : ℕ) (p : List (String × ℕ))
    → contains k (keys p) ≡ false
    → contains k (keys (drop_request n p)) ≡ false
unfolding drop_request keys contains
contains-drop_request k n [] h = refl
contains-drop_request k n ((id, j) ∷ p) h = ground (arith, contains-drop_request k n p)

drop_request-IsMap : (n : ℕ) (p : List (String × ℕ)) → IsMap p → IsMap (drop_request n p)
unfolding drop_request keys
drop_request-IsMap n [] d = d
drop_request-IsMap n ((id, j) ∷ p) d =
    ground (arith, drop_request-IsMap n p, contains-drop_request id n p)

request_of-key :
    (n : ℕ) (id : String) (p : List (String × ℕ))
    → request_of n p ≡ some id
    → contains id (keys p) ≡ true
unfolding request_of keys contains
request_of-key n id [] h = cc
request_of-key n id ((i, j) ∷ p) h = ground (arith, eq_refl id, request_of-key n id p)

lookup-drop_request :
    (k id : String) (n : ℕ) (p : List (String × ℕ))
    → IsMap p
    → request_of n p ≡ some id
    → lookup k (drop_request n p) ≡ (if id == k then none else lookup k p)
unfolding drop_request request_of lookup keys
lookup-drop_request k id n [] d h = cc
lookup-drop_request k id n ((i, j) ∷ p) d h = ground (
  arith,
  eq_iff i k,
  eq_iff id k,
  eq_refl k,
  missing_key k p,
  request_of-key n id p,
  lookup-drop_request k id n p,
)

settle-inflight :
    (id k : String) (reply : Reply (Option Fields)) (m : DocumentsManager)
    → lookup k (settle id reply m).0.inflight ≡ (if id == k then none else lookup k m.inflight)
unfolding settle
settle-inflight id k (ok fetched) m = lookup-erase id k m.inflight
settle-inflight id k failed m = lookup-erase id k m.inflight

-- What a call of `ensure` does to the requests: nothing, or it sends one for a document that had
-- none out.
Asks : Bool → String → DocumentsManager → Type 0
Asks override id m =
    (((ensure override id m).0 ≡ m)
      × ((pending : List (String × ℕ)) → sent id (ensure override id m).1 pending ≡ pending))
    ⊎ ((lookup id m.inflight ≡ none)
        × ((ensure override id m).1 ≡ requested m.next_request)
        × ((ensure override id m).0.inflight ≡ insert id m.next_request m.inflight))

ensure-Asks : (override : Bool) (id : String) (m : DocumentsManager) → Asks override id m
unfolding Asks ensure sent
ensure-Asks override id m = elim (Option-cases (lookup id m.by_id)) [
  | inr (doc, cached) ↦ rw (cached, ensure) (inl (refl, λ p. refl))
  | inl missing ↦ elim (Bool-cases (not (override || m.fetcher))) [
    | inl unable ↦ rw (missing, ensure) (rw unable (inl (refl, λ p. refl)))
    | inr able ↦ elim (Option-cases (lookup id m.inflight)) [
      | inr (n, out) ↦ rw (missing, ensure) (rw (able) (rw (out) (inl (refl, λ p. refl))))
      | inl none_out ↦ rw (missing, ensure) (rw (able) (rw (none_out) (inr (refl, refl, refl))))
    ]
  ]
]

asked-IsSingle :
    (w : World) (override : Bool) (id : String) → IsSingle w → IsSingle (step w (asked override id))
unfolding step Asks
asked-IsSingle w override id s = elim (ensure-Asks override id w.manager) [
  | inl (same, unsent) ↦ rw (same, unsent) (record { single = s.single; tracked = s.tracked })
  | inr (idle, asks, stored) ↦ rw (asks) (
      unfold sent in
      record {
        single = unfold keys in (absent_key id w.pending (sym (s.tracked id) ∙ idle), s.single);
        tracked = λ k. rw (stored) (
            lookup-insert id k w.manager.next_request w.manager.inflight
            ∙ unfold lookup in rw (s.tracked k));
      })
]

answered-IsSingle :
    (w : World) (n : ℕ) (reply : Reply (Option Fields))
    → IsSingle w
    → IsSingle (step w (answered n reply))
unfolding step
answered-IsSingle w n reply s = elim (Option-cases (request_of n w.pending)) [
  | inl unknown ↦ rw (unknown, step) s
  | inr (id, out) ↦
      rw (out, step)
        (record {
          single = drop_request-IsMap n w.pending s.single;
          tracked = λ k.
              settle-inflight id k reply w.manager
              ∙ rw (s.tracked k) (sym (lookup-drop_request k id n w.pending s.single out));
        })
]

remove-inflight :
    (ids : List String) (m : DocumentsManager) → (remove ids m).0.inflight ≡ m.inflight
unfolding remove
remove-inflight ids m = ground arith

step-IsSingle : (w : World) (e : Event) → IsSingle w → IsSingle (step w e)
unfolding step
step-IsSingle w (asked override id) s = asked-IsSingle w override id s
step-IsSingle w (answered n reply) s = answered-IsSingle w n reply s
step-IsSingle w (ingested raw) s =
    unfold ingest in record { single = s.single; tracked = s.tracked }
step-IsSingle w (removed ids) s = record {
  single = s.single;
  tracked = λ k. rw (remove-inflight ids w.manager) (s.tracked k);
}

run-IsSingle : (w : World) (es : List Event) → IsSingle w → IsSingle (run w es)
unfolding run
run-IsSingle w [] s = s
run-IsSingle w (e ∷ es) s = run-IsSingle (step w e) es (step-IsSingle w e s)

begin-IsSingle : (fetcher : Bool) → IsSingle (begin fetcher)
begin-IsSingle fetcher = record { single = unfold keys in tt; tracked = λ k. refl }

ensure_joins :
    (override : Bool) (id : String) (n : ℕ) (m : DocumentsManager)
    → lookup id m.by_id ≡ none
    → (override || m.fetcher) ≡ true
    → lookup id m.inflight ≡ some n
    → ensure override id m ≡ (m, joined n)
unfolding ensure
ensure_joins override id n m missing able out = rw (missing, ensure) (ground arith)

-- In every run of the store from its construction, no document has two requests out; and while one
-- is out for a document that is not stored, a further `ensure` that could fetch joins it.
pub requests_single :
    (fetcher : Bool) (es : List Event)
    → Distinct (keys (run (begin fetcher) es).pending)
      × ((override : Bool) (id : String) (n : ℕ)
          → lookup id (run (begin fetcher) es).pending ≡ some n
          → lookup id (run (begin fetcher) es).manager.by_id ≡ none
          → (override || (run (begin fetcher) es).manager.fetcher) ≡ true
          → ensure override id (run (begin fetcher) es).manager
            ≡ ((run (begin fetcher) es).manager, joined n))
requests_single fetcher es =
    let s = run-IsSingle (begin fetcher) es (begin-IsSingle fetcher) in
    (
      s.single,
      λ override id n out missing able.
          ensure_joins override id n (run (begin fetcher) es).manager missing able
            (s.tracked id ∙ out),
    )

-- When a request ends, by an answer or by a failure, nothing is in flight for its document, and what
-- is in flight for others is untouched: a failed document can be asked for again.
pub settle_releases :
    (id k : String) (reply : Reply (Option Fields)) (m : DocumentsManager)
    → lookup k (settle id reply m).0.inflight ≡ (if id == k then none else lookup k m.inflight)
settle_releases id k reply m = settle-inflight id k reply m
