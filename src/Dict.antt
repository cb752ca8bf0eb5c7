-- ===== src/Dict.antt =====
-- `Map<string, V>`: the entries in insertion order, each key once. The managers keep one as `byId`
-- (frontend/src/documents/DocumentsManager.ts, FoldersManager.ts, lib/assets/*.ts); `new Map(m)`
-- copies it, so a map that is only read is shared and a write makes a new one.
pub mod Laws
pub mod Every
use papercrate.Base.{
  ◌≡◌, Bool, Distinct, List, Option, String, [], contains, if◌then◌else◌, none, some, ◌==◌, ◌∷◌,
}

abbrev pub Dict {ℓ} : Type ℓ → Type ℓ
Dict V = List (String × V)

module _ {ℓ} {V : Type ℓ} where
  -- `get`
  unfoldable pub lookup : String → Dict V → Option V
  lookup key [] = none
  lookup key ((at, value) ∷ entries) = if at == key then some value else lookup key entries

  -- `set`: an entry that is there keeps its place, a new one goes to the end.
  unfoldable pub insert : String → V → Dict V → Dict V
  insert key value [] = (key, value) ∷ []
  insert key value ((at, old) ∷ entries) =
      if at == key then (at, value) ∷ entries else (at, old) ∷ insert key value entries

  -- `delete`
  unfoldable pub erase : String → Dict V → Dict V
  erase key [] = []
  erase key ((at, value) ∷ entries) =
      if at == key then erase key entries else (at, value) ∷ erase key entries

  -- `keys()`
  unfoldable pub keys : Dict V → List String
  keys [] = []
  keys ((key, value) ∷ entries) = key ∷ keys entries

  -- `values()`
  unfoldable pub values : Dict V → List V
  values [] = []
  values ((key, value) ∷ entries) = value ∷ values entries

  -- `has`
  unfoldable pub has : String → Dict V → Bool
  unfolding keys contains
  has key entries = contains key (keys entries)

-- What a `Map` is: no key twice.
abbrev pub IsMap {ℓ} : {V : Type ℓ} → Dict V → Type 0
IsMap entries = Distinct (keys entries)
