-- ===== src/Dict/Every.antt =====
-- A predicate of every value of a map, kept by the operations on the map.
use papercrate.Base.{String, All, Bool-cases, [], arith, eq_iff, inl, inr, some, ◌==◌, ◌∷◌, ◌≡◌}
use papercrate.Dict.{Dict, erase, insert, lookup}

module _ {ℓ κ} {V : Type ℓ} (P : V → Type κ) where
  abbrev pub Every : Dict V → Type κ
  Every entries = All (λ e. P e.1) entries

  pub insert-Every : (k : String) (v : V) (m : Dict V) → Every m → P v → Every (insert k v m)
  unfolding insert
  insert-Every k v [] h p = (p, h)
  insert-Every k v ((i, w) ∷ m) h p = elim (Bool-cases (i == k)) [
    | inl e ↦ rw e (p, h.1)
    | inr e ↦ rw e (h.0, insert-Every k v m h.1 p)
  ]

  pub erase-Every : (k : String) (m : Dict V) → Every m → Every (erase k m)
  unfolding erase
  erase-Every k [] h = h
  erase-Every k ((i, w) ∷ m) h = elim (Bool-cases (i == k)) [
    | inl e ↦ rw e (erase-Every k m h.1)
    | inr e ↦ rw e (h.0, erase-Every k m h.1)
  ]

  pub lookup-Every : (k : String) (m : Dict V) (v : V) → Every m → lookup k m ≡ some v → P v
  unfolding lookup
  lookup-Every k [] v h e = cc
  lookup-Every k ((i, w) ∷ m) v h e = elim (Bool-cases (i == k)) [
    | inl same ↦ let found : w ≡ v = ground arith in rw (← found) h.0
    | inr other ↦ lookup-Every k m v h.1 (ground arith)
  ]

pub Every-mono {ℓ κ μ} :
    {V : Type ℓ} (P : V → Type κ) (Q : V → Type μ)
    → ((v : V) → P v → Q v)
    → (m : Dict V) → Every P m
    → Every Q m
Every-mono P Q f [] h = tt
Every-mono P Q f ((i, w) ∷ m) h = (f w h.0, Every-mono P Q f m h.1)

-- A predicate of every entry, its key included.
module _ {ℓ κ} {V : Type ℓ} (P : String → V → Type κ) where
  abbrev pub EveryAt : Dict V → Type κ
  EveryAt entries = All (λ e. P e.0 e.1) entries

  pub insert-EveryAt :
      (k : String) (v : V) (m : Dict V) → EveryAt m → P k v → EveryAt (insert k v m)
  unfolding insert
  insert-EveryAt k v [] h p = (p, h)
  insert-EveryAt k v ((i, w) ∷ m) h p = elim (Bool-cases (i == k)) [
    | inl e ↦
        let same : i ≡ k = (eq_iff i k).0 e in let here : P i v = rw same p in rw e (here, h.1)
    | inr e ↦ rw e (h.0, insert-EveryAt k v m h.1 p)
  ]

  pub erase-EveryAt : (k : String) (m : Dict V) → EveryAt m → EveryAt (erase k m)
  unfolding erase
  erase-EveryAt k [] h = h
  erase-EveryAt k ((i, w) ∷ m) h = elim (Bool-cases (i == k)) [
    | inl e ↦ rw e (erase-EveryAt k m h.1)
    | inr e ↦ rw e (h.0, erase-EveryAt k m h.1)
  ]

  pub lookup-EveryAt : (k : String) (m : Dict V) (v : V) → EveryAt m → lookup k m ≡ some v → P k v
  unfolding lookup
  lookup-EveryAt k [] v h e = cc
  lookup-EveryAt k ((i, w) ∷ m) v h e = elim (Bool-cases (i == k)) [
    | inl same ↦
        let found : w ≡ v = ground arith in
        let at : i ≡ k = (eq_iff i k).0 same in rw (← found, ← at) h.0
    | inr other ↦ lookup-EveryAt k m v h.1 (ground arith)
  ]
