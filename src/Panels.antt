-- ===== src/Panels.antt =====
-- The two panels beside the workspace: frontend/src/app/PanelManagerContext.tsx, with the constants of
-- frontend/src/constants/layout.ts. Widths are whole pixels; one that a drag takes below 0 counts as
-- 0, which the lower limit of a panel makes the same. The width that the hook keeps in its state and
-- the one in its reference are one field.
pub mod Laws
mod Tests
use papercrate.Base.{
  ℕ, ◌+◌, ◌-◌, String, Bool, true, false, List, [], ◌∷◌, ◌++◌, Option, none, some, ◌==◌, ◌&&◌, ◌||◌,
  not, if◌then◌else◌, leb, ltb, nat_eq,
}
use Prim.Native.Nat.{◌*◌, ◌/◌}

pub data PanelKey : Type 0 where
  sidebar detail : PanelKey

pub data LayoutAction : Type 0 where
  opened closed resized : LayoutAction

-- What the provider calls of its surroundings: the handler that a view has registered, and `onClose`.
pub data Call : Type 0 where
  close_handler on_close : Call

abbrev pub min : ℕ → ℕ → ℕ
min a b = if leb a b then a else b

abbrev pub max : ℕ → ℕ → ℕ
max a b = if leb a b then b else a

abbrev default_sidebar_width : ℕ
default_sidebar_width = 320

abbrev default_detail_width : ℕ
default_detail_width = 420

abbrev pub minimum_main_content_width : ℕ
minimum_main_content_width = 160

abbrev pub min_px : PanelKey → ℕ
min_px sidebar = 280
min_px detail = 320

-- `Math.round(viewport * maxRatio)`, for 1 / 4 and 2 / 5
unfoldable pub ratio_max : PanelKey → ℕ → ℕ
ratio_max sidebar viewport = (viewport + 2) / 4
ratio_max detail viewport = (4 * viewport + 5) / 10

unfoldable pub target_max : PanelKey → ℕ → ℕ
target_max panel viewport =
    let raw = max (ratio_max panel viewport) (min_px panel) in
    let allowed = min raw (viewport - minimum_main_content_width) in
    min viewport (max (min_px panel) allowed)

unfoldable pub clamp_panel_width : PanelKey → ℕ → ℕ → ℕ
unfolding target_max
clamp_panel_width panel viewport value = min (max value (min_px panel)) (target_max panel viewport)

pub record Panels : Type 0 where
  pub viewport : ℕ
  -- of the context of the sidebar
  pub collapsed : Bool
  -- `isOpen`, none where the provider keeps the state itself
  pub is_open : Option Bool
  pub has_on_close : Bool
  pub has_handler : Bool
  pub sidebar_width : ℕ
  pub detail_width : ℕ
  pub preferred_sidebar : ℕ
  pub preferred_detail : ℕ
  pub suppressed : Bool
  pub detail_open : Bool
  pub resizing : Option PanelKey
  pub stored_sidebar : Option String
  pub stored_detail : Option String
  pub calls : List Call

abbrev calls_of : Bool → Call → List Call
calls_of true call = call ∷ []
calls_of false call = []

abbrev pub is_none {ℓ} : {A : Type ℓ} → Option A → Bool
is_none none = true
is_none (some a) = false

unfoldable pub close_detail_panel : Panels → Panels
close_detail_panel s = record s {
  calls = s.calls ++ calls_of s.has_handler close_handler ++ calls_of s.has_on_close on_close;
  detail_open = if is_none s.is_open then false else s.detail_open;
}

-- `freeRatio >= MINIMAL_FREE_RATIO`, the ratio being 0 where there is no viewport
unfoldable pub meets_threshold : Panels → Bool
meets_threshold s =
    ltb 0 s.viewport && leb (4 * (s.sidebar_width + s.detail_width) + s.viewport) (4 * s.viewport)

unfoldable pub handle_panel_layout_change : PanelKey → LayoutAction → Panels → Panels
unfolding close_detail_panel meets_threshold
handle_panel_layout_change detail closed s =
    if s.collapsed then s else record s { suppressed = false }
handle_panel_layout_change detail _ s =
    if s.collapsed then s else record s { suppressed = not (meets_threshold s) }
handle_panel_layout_change sidebar closed s = s
handle_panel_layout_change sidebar _ s =
    if not (meets_threshold s) && s.detail_open then close_detail_panel s else s

unfoldable pub collapse_sidebar : Panels → Panels
unfolding handle_panel_layout_change
collapse_sidebar s =
    if s.collapsed
    then s
    else handle_panel_layout_change sidebar closed (record s { collapsed = true })

unfoldable pub expand_sidebar : Panels → Panels
unfolding handle_panel_layout_change
expand_sidebar s = handle_panel_layout_change sidebar opened (record s { collapsed = false })

unfoldable pub width_of : PanelKey → Panels → ℕ
width_of sidebar s = s.sidebar_width
width_of detail s = s.detail_width

abbrev with_width : PanelKey → ℕ → Panels → Panels
with_width sidebar w s = record s { sidebar_width = w }
with_width detail w s = record s { detail_width = w }

-- `Boolean(active)` comes as a Boolean.
unfoldable pub set_detail_active : Bool → Panels → Panels
unfolding handle_panel_layout_change
set_detail_active active s =
    handle_panel_layout_change detail (if active then opened else closed) (record s {
      detail_open = if is_none s.is_open then active else s.detail_open;
      calls = if active then s.calls else s.calls ++ calls_of s.has_on_close on_close;
    })

abbrev pub same : Bool → Bool → Bool
same true b = b
same false b = not b

-- `String` and `Number.parseFloat` of JavaScript; the latter is none where it is not finite.
module _ (print : ℕ → String) (parse_float : String → Option ℕ) where
  unfoldable pub read_stored_width : Option String → ℕ → ℕ
  read_stored_width none fallback = fallback
  read_stored_width (some raw) fallback =
      if raw == ""
      then fallback
      else elim (parse_float raw) [ none ↦ fallback | some width ↦ width ]

  abbrev commit_width : PanelKey → ℕ → Panels → Panels
  commit_width sidebar w s = record s { preferred_sidebar = w; stored_sidebar = some (print w) }
  commit_width detail w s = record s { preferred_detail = w; stored_detail = some (print w) }

  unfoldable pub set_panel_width : PanelKey → ℕ → Bool → Bool → Panels → Panels
  unfolding clamp_panel_width handle_panel_layout_change
  set_panel_width panel width commit log s =
      let clamped = clamp_panel_width panel s.viewport width in
      let s1 = with_width panel clamped s in
      let s2 = if commit then commit_width panel clamped s1 else s1 in
      if log then handle_panel_layout_change panel resized s2 else s2

  unfoldable pub reset_sidebar_preferred_width : Panels → Panels
  reset_sidebar_preferred_width s =
      if nat_eq s.preferred_sidebar default_sidebar_width
      then s
      else commit_width sidebar default_sidebar_width s

  unfoldable pub clamp_panels_within_viewport : Panels → Panels
  unfolding reset_sidebar_preferred_width
  clamp_panels_within_viewport s =
      let shown = min s.preferred_sidebar s.viewport in
      let wide = ltb s.viewport (2 * shown) in
      let left = min s.preferred_detail (s.viewport - shown) in
      let desired = if nat_eq s.preferred_detail 0 then s.viewport else s.preferred_detail in
      if nat_eq s.viewport 0
      then s
      else if s.detail_open && wide
      then record s { sidebar_width = 0; detail_width = min desired s.viewport }
      else if wide
      then record (reset_sidebar_preferred_width s) { sidebar_width = s.viewport; detail_width = 0 }
      else record s { sidebar_width = shown; detail_width = left }

  -- the state before the first effects
  unfoldable pub initial : ℕ → Bool → Option Bool → Bool → Option String → Option String → Panels
  unfolding read_stored_width clamp_panel_width
  initial viewport collapsed is_open has_on_close stored_sidebar stored_detail =
      let s =
        clamp_panel_width sidebar viewport
          (read_stored_width stored_sidebar default_sidebar_width) in
      let d =
        clamp_panel_width detail viewport (read_stored_width stored_detail default_detail_width) in
      record {
        viewport = viewport;
        collapsed = collapsed;
        is_open = is_open;
        has_on_close = has_on_close;
        has_handler = false;
        sidebar_width = s;
        detail_width = d;
        preferred_sidebar = s;
        preferred_detail = d;
        suppressed = false;
        detail_open = elim is_open [ none ↦ false | some b ↦ b ];
        resizing = none;
        stored_sidebar = stored_sidebar;
        stored_detail = stored_detail;
        calls = [];
      }

  -- What happens to the provider; the effects of the render that follows are part of the step.
  pub data Event : Type 0 where
    mounted collapse expand stop_resize : Event
    width_set : PanelKey → ℕ → Bool → Bool → Event
    detail_activated : Bool → Event
    detail_closed : Event
    window_resized : ℕ → Event
    start_resize : PanelKey → Event
    handler_registered : Bool → Event
    open_given : Bool → Event

  unfoldable pub operate : Event → Panels → Panels
  unfolding collapse_sidebar expand_sidebar set_panel_width set_detail_active close_detail_panel
      clamp_panels_within_viewport
  operate mounted s = clamp_panels_within_viewport s
  operate collapse s = collapse_sidebar s
  operate expand s = expand_sidebar s
  operate stop_resize s = record s { resizing = none }
  operate (width_set panel width commit log) s = set_panel_width panel width commit log s
  operate (detail_activated active) s = set_detail_active active s
  operate detail_closed s = close_detail_panel s
  operate (window_resized viewport) s =
      clamp_panels_within_viewport (record s { viewport = viewport })
  operate (start_resize panel) s = record s { resizing = some panel }
  operate (handler_registered given) s = record s { has_handler = given }
  operate (open_given open_now) s = record s { is_open = some open_now; detail_open = open_now }

  -- The effect that clamps runs again where the detail panel has opened or closed.
  unfoldable pub step : Event → Panels → Panels
  unfolding operate clamp_panels_within_viewport
  step e s =
      let s' = operate e s in
      if same s.detail_open s'.detail_open then s' else clamp_panels_within_viewport s'

  unfoldable pub run : List Event → Panels → Panels
  unfolding step
  run [] s = s
  run (e ∷ es) s = run es (step e s)
