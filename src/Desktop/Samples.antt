-- ===== src/Desktop/Samples.antt =====
-- Numbers and a database at which the theorems about the desktop are tried: natural numbers with
-- subtraction that stops at 0, for cards that are not turned, and a list of records.
use papercrate.Base.{
  Bool, Bool-cases, Distinct, List, String, [], arith, contains, eq_iff, eq_refl, false, filter,
  if◌then◌else◌, inl, inr, ltb, map, nat_eq, not, refl, some, true, ◌&&◌, ◌+◌, ◌-◌, ◌==◌, ◌∷◌, ◌≡◌,
  ℕ,
}
use Prim.Native.Nat.{◌*◌, ◌/◌}
use papercrate.Desktop.Numbers.{IsExact, Numbers}
use papercrate.Desktop.Records.{Database, IsObjectStore, LayoutRecord, of_document}

abbrev pub whole : Numbers
whole = record {
  Num = ℕ;
  of = λ k. k;
  add = λ a b. a + b;
  sub = λ a b. a - b;
  mul = λ a b. a * b;
  div = λ a b. a / b;
  neg = λ a. 0;
  pi = 3;
  infinity = 1000000;
  sin = λ a. 0;
  cos = λ a. 1;
  abs = λ a. a;
  sqrt = λ a. a;
  min = λ a b. if ltb b a then b else a;
  max = λ a b. if ltb a b then b else a;
  lt = ltb;
  same = nat_eq;
}

same_iff : (a b : ℕ) → (nat_eq a b ≡ true → a ≡ b) × (a ≡ b → nat_eq a b ≡ true)
same_iff a b = (λ h. ground arith, λ h. ground arith)

pub whole-IsExact : IsExact whole
whole-IsExact = record { same_iff = same_iff }

-- Newest first; a view shows the newest record of each document.
abbrev pub in_view : String → String → LayoutRecord ℕ → Bool
in_view tenant view r = r.tenant_id == tenant && r.view_id == view

unfoldable pub newest : String → String → List (LayoutRecord ℕ) → List (LayoutRecord ℕ)
newest tenant view [] = []
newest tenant view (r ∷ rs) =
    if in_view tenant view r
    then r ∷ filter (λ q. not (q.document_id == r.document_id)) (newest tenant view rs)
    else newest tenant view rs

abbrev pub listed : Database ℕ
listed = record { State = List (LayoutRecord ℕ); put = λ r rs. r ∷ rs; get_all = newest }

of_document-filter :
    (id other : String) (rs : List (LayoutRecord ℕ))
    → (other == id) ≡ false
    → of_document id (filter (λ q. not (q.document_id == other)) rs) ≡ of_document id rs
of_document-filter id other [] h = refl
of_document-filter id other (r ∷ rs) h = ground (
  arith,
  of_document-filter id other rs,
  eq_iff r.document_id other,
  eq_iff r.document_id id,
  eq_iff other id,
)

newest-put :
    (r : LayoutRecord ℕ) (tenant view id : String) (rs : List (LayoutRecord ℕ))
    → of_document id (newest tenant view (r ∷ rs)) ≡ (
        if r.tenant_id == tenant && r.view_id == view && r.document_id == id
        then some r
        else of_document id (newest tenant view rs))
unfolding newest
newest-put r tenant view id rs = elim (Bool-cases (r.document_id == id)) [
  | inl same ↦ ground arith
  | inr other ↦ ground (arith, of_document-filter id r.document_id (newest tenant view rs))
]

contains-filter_documents :
    (id other : String) (rs : List (LayoutRecord ℕ))
    → contains id (map (λ q. q.document_id) (filter (λ q. not (q.document_id == other)) rs))
      ≡ (not (id == other) && contains id (map (λ q. q.document_id) rs))
unfolding contains
contains-filter_documents id other [] = ground arith
contains-filter_documents id other (r ∷ rs) = ground (
  arith,
  contains-filter_documents id other rs,
  eq_iff r.document_id other,
  eq_iff r.document_id id,
  eq_iff id other,
)

Distinct-filter_documents :
    (other : String) (rs : List (LayoutRecord ℕ))
    → Distinct (map (λ q. q.document_id) rs)
    → Distinct (map (λ q. q.document_id) (filter (λ q. not (q.document_id == other)) rs))
Distinct-filter_documents other [] d = tt
Distinct-filter_documents other (r ∷ rs) d =
    ground
      (arith, Distinct-filter_documents other rs, contains-filter_documents r.document_id other rs)

newest-Distinct :
    (tenant view : String) (rs : List (LayoutRecord ℕ))
    → Distinct (map (λ q. q.document_id) (newest tenant view rs))
unfolding newest
newest-Distinct tenant view [] = tt
newest-Distinct tenant view (r ∷ rs) = elim (Bool-cases (in_view tenant view r)) [
  | inl shown ↦ rw shown (
    ground (
      arith,
      contains-filter_documents r.document_id r.document_id (newest tenant view rs),
      eq_refl r.document_id,
    ),
    Distinct-filter_documents r.document_id _ (newest-Distinct tenant view rs),
  )
  | inr hidden ↦ rw hidden (newest-Distinct tenant view rs)
]

pub listed-IsObjectStore : IsObjectStore ℕ listed
listed-IsObjectStore = record { get_all-put = newest-put; single = newest-Distinct }
