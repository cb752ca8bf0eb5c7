-- ===== src/Desktop/Store/Laws.antt =====
-- What the writes to single cards and to all cards do to the map of cards.
use papercrate.Base.{
  Bool-cases, String, [], ap, arith, eq_iff, if◌then◌else◌, inl, inr, refl, ◌==◌, ◌∷◌, ◌≡◌,
}
use papercrate.Dict.{Dict, lookup, keys}
use papercrate.Dict.Every.{Every, EveryAt}
use papercrate.Desktop.Numbers.{Numbers}
use papercrate.Desktop.Cards.{Card}
use papercrate.Desktop.Store.{map_cards, modify}
use mathlib.Core.Option

module _ {ℓ} {A : Type ℓ} where
  pub lookup-modify :
      (k j : String) (f : A → A) (m : Dict A)
      → lookup j (modify k f m) ≡ (if k == j then Option.map f (lookup j m) else lookup j m)
  unfolding lookup modify
  lookup-modify k j f [] = ground arith
  lookup-modify k j f ((i, c) ∷ m) =
      ground (arith, eq_iff k j, eq_iff i k, eq_iff i j, lookup-modify k j f m)

  pub keys-modify : (k : String) (f : A → A) (m : Dict A) → keys (modify k f m) ≡ keys m
  unfolding keys modify
  keys-modify k f [] = refl
  keys-modify k f ((i, c) ∷ m) = ground (arith, keys-modify k f m)

  pub modify-Every {κ} :
      (P : A → Type κ) (k : String) (f : A → A) (m : Dict A)
      → ((c : A) → P c → P (f c))
      → Every P m
      → Every P (modify k f m)
  unfolding modify
  modify-Every P k f [] keep h = tt
  modify-Every P k f ((i, c) ∷ m) keep h = elim (Bool-cases (i == k)) [
    | inl e ↦ rw e (keep c h.0, h.1)
    | inr e ↦ rw e (h.0, modify-Every P k f m keep h.1)
  ]

  pub modify-EveryAt {κ} :
      (P : String → A → Type κ) (k : String) (f : A → A) (m : Dict A)
      → ((j : String) (c : A) → P j c → P j (f c))
      → EveryAt P m
      → EveryAt P (modify k f m)
  unfolding modify
  modify-EveryAt P k f [] keep h = tt
  modify-EveryAt P k f ((i, c) ∷ m) keep h = elim (Bool-cases (i == k)) [
    | inl e ↦ rw e (keep i c h.0, h.1)
    | inr e ↦ rw e (h.0, modify-EveryAt P k f m keep h.1)
  ]

module _ (n : Numbers) where
  open n use {Num}

  pub map_cards-Every {κ} :
      (P : Card Num → Type κ) (f : Card Num → Card Num) (m : Dict (Card Num))
      → ((c : Card Num) → P c → P (f c))
      → Every P m
      → Every P (map_cards n f m)
  unfolding map_cards
  map_cards-Every P f [] keep h = tt
  map_cards-Every P f ((i, c) ∷ m) keep h = (keep c h.0, map_cards-Every P f m keep h.1)

  pub lookup-map_cards :
      (k : String) (f : Card Num → Card Num) (m : Dict (Card Num))
      → lookup k (map_cards n f m) ≡ Option.map f (lookup k m)
  unfolding lookup map_cards
  lookup-map_cards k f [] = refl
  lookup-map_cards k f ((i, c) ∷ m) = ground (arith, lookup-map_cards k f m)

  pub map_cards-EveryAt {κ} :
      (P : String → Card Num → Type κ) (f : Card Num → Card Num) (m : Dict (Card Num))
      → ((j : String) (c : Card Num) → P j c → P j (f c))
      → EveryAt P m
      → EveryAt P (map_cards n f m)
  unfolding map_cards
  map_cards-EveryAt P f [] keep h = tt
  map_cards-EveryAt P f ((i, c) ∷ m) keep h = (keep i c h.0, map_cards-EveryAt P f m keep h.1)

  pub keys-map_cards :
      (f : Card Num → Card Num) (m : Dict (Card Num)) → keys (map_cards n f m) ≡ keys m
  unfolding keys map_cards
  keys-map_cards f [] = refl
  keys-map_cards f ((i, c) ∷ m) = ap (λ ks. i ∷ ks) (keys-map_cards f m)
