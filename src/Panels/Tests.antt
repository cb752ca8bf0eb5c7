-- ===== src/Panels/Tests.antt =====
-- A window of 1000 pixels, with numbers printed as so many strokes.
use papercrate.Base.{
  ℕ, zero, suc, ◌+◌, ◌-◌, ◌≤◌, ◌≡◌, refl, ap, String, true, false, [], ◌∷◌, Option, none, some,
  ◌==◌, arith, eq_iff,
}
use Prim.Native.String.{len, ◌++◌ as ◌+++◌}
use text.Mathlib.TextPositions.{len-append}
use papercrate.Panels.{
  detail, min_px, clamp_panel_width, Panels, initial, mounted, width_set, detail_activated,
  window_resized, run,
}
use papercrate.Panels.Laws.{clamp_panel_width_bounds, IsFitting, run-IsFitting}

unfoldable strokes : ℕ → String
strokes zero = "|"
strokes (suc n) = "|" +++ strokes n

unfoldable counted : String → Option ℕ
counted s = some (len s - 1)

len-strokes : (n : ℕ) → len (strokes n) ≡ suc n
unfolding strokes
len-strokes zero = refl
len-strokes (suc n) = omega (arith, len-append "|" (strokes n), len-strokes n)

strokes-read : (n : ℕ) → (counted (strokes n) ≡ some n) × ((strokes n == "") ≡ false)
unfolding counted
strokes-read n =
    let none_left : len "" ≡ 0 = refl in
    (
      ap some (omega (arith, len-strokes n)),
      ground (
        arith,
        eq_iff (strokes n) "",
        len-strokes n,
        none_left,
        λ (e : strokes n ≡ ""). ap len e,
      ),
    )

-- Both panels as wide as they are at first, and the detail panel open.
abbrev begun : Panels
begun = initial strokes counted 1000 false none true none none

clamp_panel_width_bounds_example :
    (clamp_panel_width detail 1000 500 ≤ 1000)
    × (min_px detail ≤ 1000 → min_px detail ≤ clamp_panel_width detail 1000 500)
    × (min_px detail + 160 ≤ 1000 → clamp_panel_width detail 1000 500 + 160 ≤ 1000)
    × (clamp_panel_width detail 1000 (clamp_panel_width detail 1000 500)
        ≡ clamp_panel_width detail 1000 500)
    × (clamp_panel_width detail 1000 500 ≤ clamp_panel_width detail 1000 600)
clamp_panel_width_bounds_example = clamp_panel_width_bounds detail 1000 500 600 (omega arith)

run-IsFitting_example : IsFitting (
    run strokes counted
      (mounted ∷ detail_activated true ∷ width_set detail 2000 true true ∷ window_resized 300 ∷ [])
      begun)
run-IsFitting_example =
    run-IsFitting strokes counted 1000 false none true none none
      (mounted ∷ detail_activated true ∷ width_set detail 2000 true true ∷ window_resized 300 ∷ [])
