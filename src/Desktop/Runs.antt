-- ===== src/Desktop/Runs.antt =====
-- A desktop from its first store on: what its component, its pointer handlers and its physics call
-- (frontend/src/desktop/components/DesktopWorkspace.tsx, interactions/useCardPointer.ts and
-- logic/), in any order, with any records that the database answers. The runs stand for these callers:
-- they are no code of LayoutSystem.ts, whose operations their steps are.
use papercrate.Base.{List, String, [], some, true, false, ◌∷◌, ℕ}
use papercrate.Desktop.Numbers.{Numbers}
use papercrate.Desktop.Cards.{no_changes, update}
use papercrate.Desktop.Records.{LayoutRecord}
use papercrate.Desktop.Store.{
  Config, LayoutStore, clear, initialize, modify, relayout, set_container_size, unregister,
}
use papercrate.Desktop.Store.Placing.{get_initial_position}
use papercrate.Desktop.Store.Front.{bring_card_to_front, bring_to_front}
use papercrate.Desktop.Layout.{load_answered, load_requested, save_finished}

pub data Event (A : Type 0) : Type 0 where
  -- with the random numbers that the placing draws
  initialized : (ℕ → A) → String → Config A → Event A
  unregistered : String → Event A
  cleared relaid : Event A
  resized : A → A → Event A
  fronted : List String → Event A
  card_fronted : String → Event A
  -- `card.update({ x, y }, { markDirty: true })` of `snapTo` and the physics, and of the angle
  moved : String → A → A → Event A
  turned : String → A → Event A
  load_sent : String → String → Event A
  load_done : List (LayoutRecord A) → Event A
  save_done : List ℕ → Event A

module _ (n : Numbers) where
  open n use {Num}

  -- `card.update` as `snapTo` and the physics call it
  unfoldable pub move_card : String → Num → Num → LayoutStore Num → LayoutStore Num
  unfolding modify update
  move_card id x y s = record s {
    items = modify id (update n (record no_changes { x = some x; y = some y }) true false) s.items;
  }

  unfoldable pub turn_card : String → Num → LayoutStore Num → LayoutStore Num
  unfolding modify update
  turn_card id rotation s = record s {
    items =
        modify id (update n (record no_changes { rotation = some rotation }) true false) s.items;
  }

  unfoldable pub step : Event Num → LayoutStore Num → LayoutStore Num
  unfolding move_card turn_card
  step (initialized random id config) s = initialize n (get_initial_position n random) id config s
  step (unregistered id) s = unregister n id s
  step cleared s = clear n s
  step relaid s = relayout n s
  step (resized w h) s = set_container_size n w h s
  step (fronted ids) s = bring_to_front n ids s
  step (card_fronted id) s = bring_card_to_front n id s
  step (moved id x y) s = move_card id x y s
  step (turned id rotation) s = turn_card id rotation s
  step (load_sent tenant view) s = load_requested n tenant view s
  step (load_done records) s = load_answered n records s
  step (save_done cards) s = save_finished n cards s

  unfoldable pub run : List (Event Num) → LayoutStore Num → LayoutStore Num
  unfolding step
  run [] s = s
  run (e ∷ es) s = run es (step e s)
