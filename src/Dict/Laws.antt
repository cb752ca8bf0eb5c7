-- ===== src/Dict/Laws.antt =====
-- The laws of `Map`, and that its operations keep every key single.
use papercrate.Base.{
  ◌≡◌, String, [], arith, contains, eq_iff, false, if◌then◌else◌, is_some, none, not, refl, some,
  ◌&&◌, ◌==◌, ◌||◌, ◌∷◌,
}
use papercrate.Dict.{Dict, IsMap, erase, has, insert, keys, lookup}

module _ {ℓ} {V : Type ℓ} where
  pub lookup-insert :
      (written read : String) (value : V) (entries : Dict V)
      → lookup read (insert written value entries)
        ≡ (if written == read then some value else lookup read entries)
  unfolding lookup insert
  lookup-insert written read value [] = refl
  lookup-insert written read value ((at, old) ∷ entries) = ground (
    arith,
    eq_iff written read,
    eq_iff at written,
    eq_iff at read,
    lookup-insert written read value entries,
  )

  pub lookup-erase :
      (k j : String) (m : Dict V) → lookup j (erase k m) ≡ (if k == j then none else lookup j m)
  unfolding lookup erase
  lookup-erase k j [] = ground arith
  lookup-erase k j ((i, w) ∷ m) =
      ground (arith, eq_iff k j, eq_iff i k, eq_iff i j, lookup-erase k j m)

  pub contains-keys-insert :
      (k j : String) (v : V) (m : Dict V)
      → contains j (keys (insert k v m)) ≡ (k == j || contains j (keys m))
  unfolding insert keys contains
  contains-keys-insert k j v [] = refl
  contains-keys-insert k j v ((i, w) ∷ m) =
      ground (arith, eq_iff k j, eq_iff i k, eq_iff i j, contains-keys-insert k j v m)

  pub contains-keys-erase :
      (k j : String) (m : Dict V)
      → contains j (keys (erase k m)) ≡ (not (k == j) && contains j (keys m))
  unfolding erase keys contains
  contains-keys-erase k j [] = ground arith
  contains-keys-erase k j ((i, w) ∷ m) =
      ground (arith, eq_iff k j, eq_iff i k, eq_iff i j, contains-keys-erase k j m)

  pub insert-IsMap : (k : String) (v : V) (m : Dict V) → IsMap m → IsMap (insert k v m)
  unfolding insert keys contains
  insert-IsMap k v [] d = ground arith
  insert-IsMap k v ((i, w) ∷ m) d =
      ground (arith, eq_iff i k, eq_iff k i, insert-IsMap k v m, contains-keys-insert k i v m)

  pub erase-IsMap : (k : String) (m : Dict V) → IsMap m → IsMap (erase k m)
  unfolding erase keys contains
  erase-IsMap k [] d = d
  erase-IsMap k ((i, w) ∷ m) d =
      ground (arith, eq_iff i k, eq_iff k i, erase-IsMap k m, contains-keys-erase k i m)

  -- `has` and `get` agree.
  pub has-lookup : (k : String) (m : Dict V) → has k m ≡ is_some (lookup k m)
  unfolding has lookup keys contains
  has-lookup k [] = refl
  has-lookup k ((i, w) ∷ m) = ground (arith, has-lookup k m)

  -- Deleting a key that is not there changes nothing.
  pub erase_absent : (k : String) (m : Dict V) → has k m ≡ false → erase k m ≡ m
  unfolding has erase keys contains
  erase_absent k [] h = refl
  erase_absent k ((i, w) ∷ m) h = ground (arith, erase_absent k m)
