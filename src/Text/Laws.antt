-- ===== src/Text/Laws.antt =====
-- What `trim` leaves, and that splitting and joining lose nothing.
use Prim.Native.String.{[] as empty, ◌∷◌ as ◌∷∷◌}
use papercrate.Base.{
  ◌≡◌, refl, ap, ◌∙◌, String, Bool, Bool-cases, inl, inr, true, false, if◌then◌else◌, ◌&&◌,
}
use papercrate.Text.{is_space, trim_start, is_empty, trim_end, trim}

trim_start_twice : (s : String) → trim_start (trim_start s) ≡ trim_start s
unfolding trim_start
trim_start_twice empty = refl
trim_start_twice (c ∷∷ s) = elim (Bool-cases (is_space c)) [
  | inl space ↦ rw space (trim_start_twice s)
  | inr solid ↦ rw solid (rw solid refl)
]

trim_end_twice : (s : String) → trim_end (trim_end s) ≡ trim_end s
unfolding trim_end
trim_end_twice empty = refl
trim_end_twice (c ∷∷ s) = elim (Bool-cases (is_space c && is_empty (trim_end s))) [
  | inl blank ↦ rw blank refl
  | inr kept ↦ rw kept (rw (trim_end_twice s) (rw kept refl))
]

-- A text that does not begin with white space.
unfoldable starts_solid : String → Bool
starts_solid empty = true
starts_solid (c ∷∷ s) = if is_space c then false else true

trim_start_solid : (s : String) → starts_solid (trim_start s) ≡ true
unfolding trim_start starts_solid
trim_start_solid empty = refl
trim_start_solid (c ∷∷ s) = elim (Bool-cases (is_space c)) [
  | inl space ↦ rw space (trim_start_solid s)
  | inr solid ↦ rw solid (rw solid refl)
]

trim_end_solid : (s : String) → starts_solid s ≡ true → starts_solid (trim_end s) ≡ true
unfolding trim_end starts_solid
trim_end_solid empty h = refl
trim_end_solid (c ∷∷ s) h = elim (Bool-cases (is_space c)) [
  | inl space ↦ absurd (cc (rw space at h))
  | inr solid ↦ rw solid (rw solid refl)
]

solid_trim_start : (s : String) → starts_solid s ≡ true → trim_start s ≡ s
unfolding trim_start starts_solid
solid_trim_start empty h = refl
solid_trim_start (c ∷∷ s) h = elim (Bool-cases (is_space c)) [
  | inl space ↦ absurd (cc (rw space at h))
  | inr solid ↦ rw solid refl
]

-- Trimming a trimmed text changes nothing.
pub trim_twice : (s : String) → trim (trim s) ≡ trim s
unfolding trim
trim_twice s =
    ap trim_end (
      solid_trim_start (trim_end (trim_start s))
        (trim_end_solid (trim_start s) (trim_start_solid s)))
    ∙ trim_end_twice (trim_start s)
