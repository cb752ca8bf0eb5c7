-- ===== src/Text.antt =====
-- JavaScript's texts, as far as the program takes them apart: `trim`, `split` at one character and
-- `join`.
pub mod Laws
use Prim.Native.Char.{Char, code}
use Prim.Native.String.{◌++◌ as ◌+++◌, [] as empty, ◌∷◌ as ◌∷∷◌}
use papercrate.Base.{
  ℕ, String, Bool, true, false, List, [], ◌∷◌, if◌then◌else◌, ◌&&◌, ◌||◌, leb, nat_eq, filter, not,
  ◌==◌, map,
}

-- The code points that `trim` strips: white space and line terminators.
unfoldable pub is_space : Char → Bool
is_space c =
    ((leb 9 (code c) && leb (code c) 13) || nat_eq (code c) 32 || nat_eq (code c) 160)
    || (nat_eq (code c) 0x1680 || (leb 0x2000 (code c) && leb (code c) 0x200a))
    || (nat_eq (code c) 0x2028 || nat_eq (code c) 0x2029 || nat_eq (code c) 0x202f)
    || (nat_eq (code c) 0x205f || nat_eq (code c) 0x3000 || nat_eq (code c) 0xfeff)

unfoldable pub trim_start : String → String
unfolding is_space
trim_start empty = empty
trim_start (c ∷∷ s) = let rest = trim_start s in if is_space c then rest else c ∷∷ s

unfoldable pub is_empty : String → Bool
is_empty empty = true
is_empty (c ∷∷ s) = false

unfoldable pub trim_end : String → String
unfolding is_space is_empty
trim_end empty = empty
trim_end (c ∷∷ s) =
    let rest = trim_end s in if is_space c && is_empty rest then empty else c ∷∷ rest

unfoldable pub trim : String → String
unfolding trim_start trim_end
trim s = trim_end (trim_start s)

-- a character in front of the first part
unfoldable pub onto_first : Char → List String → List String
onto_first c [] = (c ∷∷ empty) ∷ []
onto_first c (part ∷ parts) = (c ∷∷ part) ∷ parts

-- `s.split(c)`, of the character with this code
unfoldable pub split : ℕ → String → List String
unfolding onto_first
split k empty = empty ∷ []
split k (c ∷∷ s) =
    let parts = split k s in if nat_eq (code c) k then empty ∷ parts else onto_first c parts

unfoldable pub join : String → List String → String
join separator [] = ""
join separator (s ∷ []) = s
join separator (s ∷ t ∷ rest) = s +++ (separator +++ join separator (t ∷ rest))

-- `filter(Boolean)` of texts
abbrev pub nonempty : List String → List String
nonempty parts = filter (λ s. not (s == "")) parts

-- `slice(0, -1)`
unfoldable pub but_last : List String → List String
but_last [] = []
but_last (s ∷ []) = []
but_last (s ∷ t ∷ rest) = s ∷ but_last (t ∷ rest)
