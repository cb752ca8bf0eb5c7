-- ===== src/Desktop/Tests.antt =====
-- The desktop at concrete inputs: two documents that are placed, moved, brought to the front, saved
-- and loaded again.
use papercrate.Base.{
  List, String, [], arith, false, none, or_else, refl, some, true, contains, ◌<◌, ◌∷◌, ◌≡◌, ℕ,
}
use papercrate.Dict.{insert, lookup, values}
use papercrate.Desktop.Cards.{Card, new_card}
use papercrate.Desktop.Geometry.{
  get_vertices, intersects, project_from, rotate_corner, is_unobstructed, visible_samples,
}
use papercrate.Desktop.Store.{Config, LayoutStore, initialize, new, set_container_size}
use papercrate.Desktop.Store.Front.{bring_to_front, get_stack_below}
use papercrate.Desktop.Runs.{Event, move_card, run, initialized, moved, resized, load_sent}
use papercrate.Desktop.Store.Order.{z_at}
use papercrate.Desktop.Store.Fronting.{bring_to_front_above, bring_to_front_keeps_order}
use papercrate.Desktop.Store.Placing.{get_initial_position}
use papercrate.Desktop.Stacking.{IsStacked}
use papercrate.Desktop.Stacking.Reached.{desktop-IsStacked}
use papercrate.Desktop.Kept.{IsKept}
use papercrate.Desktop.Kept.Reached.{desktop-IsKept}
use papercrate.Desktop.Visible.{bring_to_front_seen}
use papercrate.Desktop.Resizing.{resize_twice}
use papercrate.Desktop.Layout.{
  SaveRequest, load_requested, save_finished, save_layout, save_requested,
}
use papercrate.Desktop.Saving.RoundTrip.{reloaded, reread, save_then_load}
use papercrate.Desktop.Saving.Flags.{failed_save_is_forgotten, move_in_flight_is_forgotten}
use papercrate.Desktop.Sync.{Sheet}
use papercrate.Desktop.Samples.{listed, listed-IsObjectStore, whole, whole-IsExact}

abbrev sheet : Config ℕ
sheet = record { width = 200; height = 300; page_count = 2; max_size = none }

abbrev half : ℕ → ℕ
half k = 0

-- A desktop with a tenant and a view, a container and two sheets.
abbrev morning : List (Event ℕ)
morning =
    load_sent "t1" "inbox"
    ∷ resized 1000 800
    ∷ initialized half "d1" sheet
    ∷ initialized half "d2" sheet
    ∷ moved "d1" 60 70
    ∷ []

abbrev desk : LayoutStore ℕ
desk = run whole morning (new whole)

abbrev blank : Card ℕ
blank =
    new_card whole "" 0
      (record { x = 0; y = 0; z = 0; rotation = 0; width = 0; height = 0; page_count = 0 })

abbrev card_of : String → LayoutStore ℕ → Card ℕ
card_of id s = or_else (lookup id s.items) blank

two_cards : ((card_of "d1" desk).z ≡ 100) × ((card_of "d2" desk).z ≡ 101)
unfolding run lookup initialize set_container_size load_requested new insert
two_cards = (refl, refl)

-- the moved sheet covers the other one
both_overlap : intersects whole (card_of "d1" desk) (card_of "d2" desk) ≡ true
unfolding run lookup initialize set_container_size load_requested new insert intersects project_from
    get_vertices rotate_corner get_initial_position values
both_overlap = refl

raised_sheet : (card_of "d1" (bring_to_front whole ("d1" ∷ []) desk)).z ≡ 102
unfolding run lookup initialize set_container_size load_requested new insert bring_to_front
raised_sheet = refl

stack_below_second : get_stack_below whole desk (card_of "d2" desk) ≡ "d1" ∷ []
unfolding run lookup initialize set_container_size load_requested new insert get_stack_below values
    get_initial_position
stack_below_second = refl

desktop-IsStacked_example : IsStacked whole desk
desktop-IsStacked_example = desktop-IsStacked whole morning

desktop-IsKept_example : IsKept whole desk.items
desktop-IsKept_example = desktop-IsKept whole morning

bring_to_front_above_example :
    (z : ℕ) × (z_at whole "d1" (bring_to_front whole ("d1" ∷ []) desk).items ≡ some z)
    × (z_at whole "d2" (bring_to_front whole ("d1" ∷ []) desk).items ≡ some 101)
    × (101 < z)
unfolding run lookup initialize set_container_size load_requested new insert contains
bring_to_front_above_example =
    bring_to_front_above whole ("d1" ∷ []) desk "d1" "d2" 100 101 (desktop-IsStacked whole morning)
      refl refl refl refl

bring_to_front_keeps_order_example :
    (za : ℕ) × (zb : ℕ) × (z_at whole "d1" (bring_to_front whole ("d2" ∷ "d1" ∷ []) desk).items
      ≡ some za)
    × (z_at whole "d2" (bring_to_front whole ("d2" ∷ "d1" ∷ []) desk).items ≡ some zb)
    × (za < zb)
unfolding run lookup initialize set_container_size load_requested new insert contains
bring_to_front_keeps_order_example =
    bring_to_front_keeps_order whole ("d2" ∷ "d1" ∷ []) desk "d1" "d2" 100 101 refl refl refl refl
      (omega arith)

abbrev raised : LayoutStore ℕ
raised = bring_to_front whole ("d1" ∷ []) desk

bring_to_front_seen_example :
    (is_unobstructed whole raised.items (card_of "d1" raised) ≡ true)
    × (visible_samples whole raised.items (card_of "d1" raised) ≡ 16)
unfolding run lookup initialize set_container_size load_requested new insert bring_to_front
bring_to_front_seen_example =
    bring_to_front_seen whole morning "d1" (card_of "d1" desk) (card_of "d1" raised) refl refl

resize_twice_example :
    set_container_size whole 900 700 (set_container_size whole 300 300 desk)
    ≡ set_container_size whole 900 700 desk
resize_twice_example = resize_twice whole whole-IsExact morning 900 700 300 300

save_then_load_example :
    (c : Card ℕ) × (lookup "d1"
        (initialize whole (get_initial_position whole half) "d1" sheet (
          reloaded whole listed "t1" "inbox"
            (reread whole listed 7 8 "t1" "inbox" desk [])
            (new whole))).items
      ≡ some c)
    × (c.intended_x ≡ 60)
    × (c.intended_y ≡ 70)
    × (c.rotation ≡ (card_of "d1" desk).rotation)
    × (c.z ≡ 100)
unfolding run lookup initialize set_container_size load_requested new insert
save_then_load_example =
    save_then_load whole listed listed-IsObjectStore morning 7 8 "t1" "inbox" "d1"
      (card_of "d1" desk) [] (new whole) (get_initial_position whole half) sheet refl refl refl refl
      refl refl refl

abbrev request : SaveRequest ℕ
request =
    or_else (save_requested whole 7 desk)
      (record { tenant = ""; view = ""; entries = []; cards = [] })

failed_save_is_forgotten_example :
    ((save_layout whole listed false 7 8 desk []).1 ≡ [])
    × ((save_layout whole listed false 7 8 desk []).0
        ≡ (save_layout whole listed true 7 8 desk []).0)
    × (save_requested whole 9 (save_layout whole listed false 7 8 desk []).0 ≡ none)
unfolding run lookup initialize set_container_size load_requested new insert save_requested values
failed_save_is_forgotten_example = failed_save_is_forgotten whole listed 7 9 8 desk request [] refl

move_in_flight_is_forgotten_example :
    (c : Card ℕ) × (lookup "d1"
        (save_finished whole request.cards (move_card whole "d1" 500 400 desk)).items
      ≡ some c)
    × (c.is_dirty ≡ false)
    × (c.intended_x ≡ 500)
    × (c.intended_y ≡ 400)
unfolding run lookup initialize set_container_size load_requested new insert save_requested values
move_in_flight_is_forgotten_example =
    move_in_flight_is_forgotten whole 7 desk request "d1" (card_of "d1" desk) 500 400 refl refl refl

-- One of the two documents leaves the view and a third comes.
abbrev todays : List (Sheet ℕ)
todays =
    record { id = "d2"; config = sheet; random = half }
    ∷ record { id = "d3"; config = sheet; random = half }
    ∷ []

abbrev temp_name : ℕ → String
temp_name i = "temp"
