-- ===== src/Panels/Laws.antt =====
-- The widths of the panels within the viewport, whatever happens to them.
use papercrate.Base.{
  ℕ, ◌+◌, ◌≤◌, ◌<◌, ◌≡◌, refl, String, Bool, Bool-cases, true, false, List, [], ◌∷◌, Option, none,
  some, ◌==◌, ◌&&◌, ◌||◌, not, arith, inl, inr,
}
use Prim.Native.Nat.{◌*◌}
use papercrate.Panels.{
  PanelKey, sidebar, detail, opened, closed, resized, min_px, target_max, clamp_panel_width, Panels,
  close_detail_panel, meets_threshold, handle_panel_layout_change, collapse_sidebar, expand_sidebar,
  width_of, set_detail_active, read_stored_width, set_panel_width, reset_sidebar_preferred_width,
  clamp_panels_within_viewport, initial, Event, mounted, collapse, expand, stop_resize, width_set,
  detail_activated, detail_closed, window_resized, start_resize, handler_registered, open_given,
  operate, same, step, run,
}

-- A width is clamped to one that the viewport holds; where the viewport is as wide as the panel's
-- least width it is at least that, and it leaves the main content 160 pixels where that is possible
-- with the least width; one clamped already stays, and a wider one is clamped to no less.
pub clamp_panel_width_bounds :
    (panel : PanelKey) (viewport value wider : ℕ)
    → value ≤ wider
    → (clamp_panel_width panel viewport value ≤ viewport)
      × (min_px panel ≤ viewport → min_px panel ≤ clamp_panel_width panel viewport value)
      × (min_px panel + 160 ≤ viewport → clamp_panel_width panel viewport value + 160 ≤ viewport)
      × (clamp_panel_width panel viewport (clamp_panel_width panel viewport value)
          ≡ clamp_panel_width panel viewport value)
      × (clamp_panel_width panel viewport value ≤ clamp_panel_width panel viewport wider)
unfolding clamp_panel_width target_max
clamp_panel_width_bounds panel viewport value wider h =
    (ground arith, (λ a. ground arith), (λ a. ground arith), ground arith, ground arith)

-- Each panel fits the viewport, if there is one.
abbrev pub IsFitting : Panels → Type 0
IsFitting s = 0 < s.viewport → (s.sidebar_width ≤ s.viewport) × (s.detail_width ≤ s.viewport)

clamp_bound :
    (panel : PanelKey) (viewport value : ℕ) → clamp_panel_width panel viewport value ≤ viewport
clamp_bound panel viewport value =
    (clamp_panel_width_bounds panel viewport value value (omega arith)).0

sidebar_fits :
    (s : Panels) (width : ℕ)
    → IsFitting s
    → IsFitting (record s { sidebar_width = clamp_panel_width sidebar s.viewport width })
sidebar_fits s width h p = (clamp_bound sidebar s.viewport width, (h p).1)

detail_fits :
    (s : Panels) (width : ℕ)
    → IsFitting s
    → IsFitting (record s { detail_width = clamp_panel_width detail s.viewport width })
detail_fits s width h p = ((h p).0, clamp_bound detail s.viewport width)

layout-IsFitting :
    (panel : PanelKey) (s : Panels)
    → IsFitting s
    → IsFitting (handle_panel_layout_change panel resized s)
      × IsFitting (handle_panel_layout_change panel opened s)
      × IsFitting (handle_panel_layout_change panel closed s)
unfolding handle_panel_layout_change close_detail_panel
layout-IsFitting sidebar s h = (
  elim (Bool-cases (not (meets_threshold s) && s.detail_open)) [ inl e ↦ rw e h | inr e ↦ rw e h ],
  elim (Bool-cases (not (meets_threshold s) && s.detail_open)) [ inl e ↦ rw e h | inr e ↦ rw e h ],
  h,
)
layout-IsFitting detail s h = elim (Bool-cases s.collapsed) [
  | inl e ↦ rw e (h, h, h)
  | inr e ↦ rw e (h, h, h)
]

abbrev stored_of : PanelKey → Panels → Option String
stored_of sidebar s = s.stored_sidebar
stored_of detail s = s.stored_detail

-- What a resized panel leaves of the state.
layout_kept :
    (panel : PanelKey) (s : Panels)
    → (let t = handle_panel_layout_change panel resized s in
        (t.viewport ≡ s.viewport)
        × (t.sidebar_width ≡ s.sidebar_width)
        × (t.detail_width ≡ s.detail_width)
        × (t.stored_sidebar ≡ s.stored_sidebar)
        × (t.stored_detail ≡ s.stored_detail))
unfolding handle_panel_layout_change close_detail_panel
layout_kept sidebar s = elim (Bool-cases (not (meets_threshold s) && s.detail_open)) [
  | inl e ↦ rw e (refl, refl, refl, refl, refl)
  | inr e ↦ rw e (refl, refl, refl, refl, refl)
]
layout_kept detail s = elim (Bool-cases s.collapsed) [
  | inl e ↦ rw e (refl, refl, refl, refl, refl)
  | inr e ↦ rw e (refl, refl, refl, refl, refl)
]

module _ (print : ℕ → String) (parse_float : String → Option ℕ) where
  -- The panels fit side by side once they are clamped in a viewport that is not 0 wide; where the
  -- detail panel is open the sidebar takes at most half, and the detail panel is shown if a width is preferred for it; widths that
  -- fit as they are preferred, the sidebar's in half the viewport, are the ones shown.
  pub clamp_panels_fit :
      (s : Panels)
      → 0 < s.viewport
      → (let t = clamp_panels_within_viewport print parse_float s in
          (t.sidebar_width + t.detail_width ≤ s.viewport)
          × (s.detail_open ≡ true
              → (2 * t.sidebar_width ≤ s.viewport) × (0 < s.preferred_detail → 0 < t.detail_width))
          × (2 * s.preferred_sidebar ≤ s.viewport
              → s.preferred_sidebar + s.preferred_detail ≤ s.viewport
              → (t.sidebar_width ≡ s.preferred_sidebar) × (t.detail_width ≡ s.preferred_detail)))
  unfolding clamp_panels_within_viewport reset_sidebar_preferred_width
  clamp_panels_fit s h = (ground arith, (λ a. ground arith), (λ a b. ground arith))

  clamp-IsFitting : (s : Panels) → IsFitting (clamp_panels_within_viewport print parse_float s)
  unfolding clamp_panels_within_viewport reset_sidebar_preferred_width
  clamp-IsFitting s = λ p. (ground arith, ground arith)

  set_panel_width-IsFitting :
      (panel : PanelKey) (width : ℕ) (commit log : Bool) (s : Panels)
      → IsFitting s
      → IsFitting (set_panel_width print parse_float panel width commit log s)
  unfolding set_panel_width
  set_panel_width-IsFitting sidebar width true true s h =
      (layout-IsFitting sidebar _ (sidebar_fits s width h)).0
  set_panel_width-IsFitting sidebar width true false s h = sidebar_fits s width h
  set_panel_width-IsFitting sidebar width false true s h =
      (layout-IsFitting sidebar _ (sidebar_fits s width h)).0
  set_panel_width-IsFitting sidebar width false false s h = sidebar_fits s width h
  set_panel_width-IsFitting detail width true true s h =
      (layout-IsFitting detail _ (detail_fits s width h)).0
  set_panel_width-IsFitting detail width true false s h = detail_fits s width h
  set_panel_width-IsFitting detail width false true s h =
      (layout-IsFitting detail _ (detail_fits s width h)).0
  set_panel_width-IsFitting detail width false false s h = detail_fits s width h

  operate-IsFitting :
      (e : Event print parse_float) (s : Panels)
      → IsFitting s
      → IsFitting (operate print parse_float e s)
  unfolding operate
  operate-IsFitting mounted s h = clamp-IsFitting s
  operate-IsFitting collapse s h = elim (Bool-cases s.collapsed) [
    | inl e ↦ unfold collapse_sidebar in rw e h
    | inr e ↦
        unfold collapse_sidebar in
        rw e (layout-IsFitting sidebar (record s { collapsed = true }) h).2
  ]
  operate-IsFitting expand s h = unfold expand_sidebar in (layout-IsFitting sidebar _ h).1
  operate-IsFitting stop_resize s h = h
  operate-IsFitting (width_set panel width commit log) s h =
      set_panel_width-IsFitting panel width commit log s h
  operate-IsFitting (detail_activated true) s h =
      unfold set_detail_active in (layout-IsFitting detail _ h).1
  operate-IsFitting (detail_activated false) s h =
      unfold set_detail_active in (layout-IsFitting detail _ h).2
  operate-IsFitting detail_closed s h = unfold close_detail_panel in h
  operate-IsFitting (window_resized viewport) s h =
      clamp-IsFitting (record s { viewport = viewport })
  operate-IsFitting (start_resize panel) s h = h
  operate-IsFitting (handler_registered given) s h = h
  operate-IsFitting (open_given open_now) s h = h

  step-IsFitting :
      (e : Event print parse_float) (s : Panels)
      → IsFitting s
      → IsFitting (step print parse_float e s)
  unfolding step
  step-IsFitting e s h =
      let s' = operate print parse_float e s in
      elim (Bool-cases (same s.detail_open s'.detail_open)) [
        | inl kept ↦ rw kept (operate-IsFitting e s h)
        | inr turned ↦ rw turned (clamp-IsFitting s')
      ]

  initial-IsFitting :
      (viewport : ℕ) (collapsed : Bool) (is_open : Option Bool) (has_on_close : Bool)
      (stored_sidebar stored_detail : Option String)
      → IsFitting (
          initial print parse_float viewport collapsed is_open has_on_close stored_sidebar
            stored_detail)
  unfolding initial
  initial-IsFitting viewport collapsed is_open has_on_close stored_sidebar stored_detail p = (
    clamp_bound sidebar viewport (read_stored_width print parse_float stored_sidebar 320),
    clamp_bound detail viewport (read_stored_width print parse_float stored_detail 420),
  )

  run-kept :
      (es : List (Event print parse_float)) (s : Panels)
      → IsFitting s
      → IsFitting (run print parse_float es s)
  unfolding run
  run-kept [] s h = h
  run-kept (e ∷ es) s h = run-kept es (step print parse_float e s) (step-IsFitting e s h)

  -- Whatever widths were stored and whatever happens then, in any order, neither panel is wider than
  -- the viewport, unless that is 0 wide.
  pub run-IsFitting :
      (viewport : ℕ) (collapsed : Bool) (is_open : Option Bool) (has_on_close : Bool)
      (stored_sidebar stored_detail : Option String) (es : List (Event print parse_float))
      → IsFitting (
          run print parse_float es (
            initial print parse_float viewport collapsed is_open has_on_close stored_sidebar
              stored_detail))
  run-IsFitting viewport collapsed is_open has_on_close stored_sidebar stored_detail es =
      run-kept es _
        (initial-IsFitting viewport collapsed is_open has_on_close stored_sidebar stored_detail)

  -- Where the provider keeps itself whether the detail panel is open, and a panel has been resized,
  -- a quarter of the viewport is free, or the sidebar is suppressed or collapsed, or the detail
  -- panel is closed.
  pub resized_leaves_room :
      (panel : PanelKey) (width : ℕ) (commit : Bool) (s : Panels)
      → s.is_open ≡ none
      → (let t = step print parse_float (width_set panel width commit true) s in
          (((meets_threshold t || t.suppressed) || t.collapsed) || not t.detail_open) ≡ true)
  unfolding step operate set_panel_width handle_panel_layout_change close_detail_panel
      meets_threshold clamp_panels_within_viewport reset_sidebar_preferred_width
  resized_leaves_room sidebar width true s own = ground arith
  resized_leaves_room sidebar width false s own = ground arith
  resized_leaves_room detail width true s own = ground arith
  resized_leaves_room detail width false s own = ground arith

  read-print :
      (n fallback : ℕ)
      → parse_float (print n) ≡ some n
      → (print n == "") ≡ false
      → read_stored_width print parse_float (some (print n)) fallback ≡ n
  unfolding read_stored_width
  read-print n fallback reads full = rw (full, reads) refl

  -- What a panel that was set and stored has.
  committed :
      (panel : PanelKey) (width : ℕ) (log : Bool) (s : Panels)
      → (let t = set_panel_width print parse_float panel width true log s in
          let c = clamp_panel_width panel s.viewport width in
          (t.viewport ≡ s.viewport) × (width_of panel t ≡ c) × (stored_of panel t ≡ some (print c)))
  unfolding set_panel_width width_of
  committed sidebar width true s =
      let c = clamp_panel_width sidebar s.viewport width in
      let (v, w, _, r, _) =
        layout_kept sidebar (record s {
          sidebar_width = c;
          preferred_sidebar = c;
          stored_sidebar = some (print c);
        }) in
      (v, w, r)
  committed sidebar width false s = (refl, refl, refl)
  committed detail width true s =
      let c = clamp_panel_width detail s.viewport width in
      let (v, _, w, _, r) =
        layout_kept detail
          (record s { detail_width = c; preferred_detail = c; stored_detail = some (print c) }) in
      (v, w, r)
  committed detail width false s = (refl, refl, refl)

  -- A width that was set and stored is the panel's width again when the page is loaded anew in a
  -- viewport as wide, if a number that was printed reads as itself and not as an empty text.
  pub reload_keeps_width :
      (panel : PanelKey) (width : ℕ) (log : Bool) (s : Panels) (collapsed : Bool)
      (is_open : Option Bool) (has_on_close : Bool)
      → ((n : ℕ) → (parse_float (print n) ≡ some n) × ((print n == "") ≡ false))
      → (let t = set_panel_width print parse_float panel width true log s in
          width_of panel (
            initial print parse_float t.viewport collapsed is_open has_on_close t.stored_sidebar
              t.stored_detail)
          ≡ width_of panel t)
  unfolding initial width_of
  reload_keeps_width sidebar width log s collapsed is_open has_on_close reads =
      let c = clamp_panel_width sidebar s.viewport width in
      let (v, w, r) = committed sidebar width log s in
      rw w (
        rw (v, r)
          (rw (read-print c 320 (reads c).0 (reads c).1)
            (clamp_panel_width_bounds sidebar s.viewport width width (omega arith)).3))
  reload_keeps_width detail width log s collapsed is_open has_on_close reads =
      let c = clamp_panel_width detail s.viewport width in
      let (v, w, r) = committed detail width log s in
      rw w (
        rw (v, r)
          (rw (read-print c 420 (reads c).0 (reads c).1)
            (clamp_panel_width_bounds detail s.viewport width width (omega arith)).3))
