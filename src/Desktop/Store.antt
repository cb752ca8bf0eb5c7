-- ===== src/Desktop/Store.antt =====
-- The cards of a view: `LayoutStore` without the two operations that read and write its records
-- (frontend/src/desktop/logic/LayoutSystem.ts). `next_card` counts the card objects made so far.
pub mod Placing
pub mod Front
pub mod Laws
pub mod Order
pub mod Fronting
use papercrate.Base.{
  Bool, List, Option, String, [], filter, if◌then◌else◌, map, none, not, some, true, false, ltb,
  leb, ◌&&◌, ◌==◌, ◌||◌, ◌∷◌, ℕ, suc, ◌+◌, nat_eq,
}
use papercrate.Dict.{Dict, erase, has, insert, lookup, values}
use papercrate.Desktop.Numbers.{Numbers}
use papercrate.Desktop.Cards.{Card, CardData, Changes, new_card, no_changes, update}
use papercrate.Desktop.Geometry.{Point, constrain_dimensions, get_constrained_position}

-- what is saved of a card
pub record Saved (A : Type 0) : Type 0 where
  pub x : A
  pub y : A
  pub rotation : A
  pub z : ℕ

pub record LayoutStore (A : Type 0) : Type 0 where
  pub items : Dict (Card A)
  pub z_counter : ℕ
  pub container_width : A
  pub container_height : A
  pub saved_layouts : Dict (Saved A)
  pub tenant_id : Option String
  pub view_id : Option String
  pub next_card : ℕ

-- where `getInitialPosition` puts a card
pub record Position (A : Type 0) : Type 0 where
  pub x : A
  pub y : A
  pub rotation : A

-- `config` of `initialize`: no maximal size, or zero, stands for 320
pub record Config (A : Type 0) : Type 0 where
  pub width : A
  pub height : A
  pub page_count : ℕ
  pub max_size : Option A

-- A write to the card object that the map has under a key.
unfoldable pub modify {ℓ} : {A : Type ℓ} → String → (A → A) → Dict A → Dict A
modify key f [] = []
modify key f ((at, c) ∷ items) =
    if at == key then (at, f c) ∷ items else (at, c) ∷ modify key f items

module _ (n : Numbers) where
  open n use {Num, of, same}

  unfoldable pub new : LayoutStore Num
  new = record {
    items = [];
    z_counter = 100;
    container_width = of 0;
    container_height = of 0;
    saved_layouts = [];
    tenant_id = none;
    view_id = none;
    next_card = 0;
  }

  -- `config.maxSize || 320`
  unfoldable pub largest : Option Num → Num
  largest none = of 320
  largest (some m) = if same m (of 0) then of 320 else m

  -- `initialize` where the map has no card under the identifier and the layouts do
  unfoldable pub initialize_saved :
      String → Num → Num → ℕ → Saved Num → LayoutStore Num → LayoutStore Num
  unfolding new_card
  initialize_saved id width height pages saved s = record s {
    items =
        insert id
          (new_card n id s.next_card (record {
            x = saved.x;
            y = saved.y;
            z = saved.z;
            rotation = saved.rotation;
            width = width;
            height = height;
            page_count = pages;
          }))
          s.items;
    z_counter = if leb s.z_counter saved.z then suc saved.z else s.z_counter;
    next_card = suc s.next_card;
  }

  -- the card that is made before its position is known
  unfoldable pub temporary_card : String → Num → Num → ℕ → LayoutStore Num → Card Num
  unfolding new_card
  temporary_card id width height pages s = new_card n id s.next_card (record {
    x = of 0;
    y = of 0;
    z = s.z_counter;
    rotation = of 0;
    width = width;
    height = height;
    page_count = pages;
  })

  -- `initialize` where neither has it; `place` is `getInitialPosition` with its random numbers
  unfoldable pub initialize_new :
      (Num → Num → Card Num → List (Card Num) → Position Num)
      → String
      → Num
      → Num
      → ℕ
      → LayoutStore Num
      → LayoutStore Num
  unfolding temporary_card update
  initialize_new place id width height pages s =
      let card = temporary_card id width height pages s in
      let p = place s.container_width s.container_height card (values s.items) in
      record s {
        items =
            insert id
              (update n
                (record no_changes { x = some p.x; y = some p.y; rotation = some p.rotation }) true
                false card)
              s.items;
        z_counter = suc s.z_counter;
        next_card = suc s.next_card;
      }

  -- `initialize` where the map has the card
  unfoldable pub initialize_again : String → Num → Num → ℕ → LayoutStore Num → LayoutStore Num
  unfolding modify update
  initialize_again id width height pages s = record s {
    items =
        modify id
          (update n
            (record no_changes {
              width = some width;
              height = some height;
              page_count = some pages;
            })
            false false)
          s.items;
  }

  -- `initialize`
  unfoldable pub initialize :
      (Num → Num → Card Num → List (Card Num) → Position Num)
      → String
      → Config Num
      → LayoutStore Num
      → LayoutStore Num
  unfolding initialize_saved initialize_new initialize_again largest constrain_dimensions
  initialize place id config s =
      let size = constrain_dimensions n config.width config.height (largest config.max_size) in
      elim (lookup id s.items) [
        | some card ↦ initialize_again id size.width size.height config.page_count s
        | none ↦ elim (lookup id s.saved_layouts) [
          | some saved ↦ initialize_saved id size.width size.height config.page_count saved s
          | none ↦ initialize_new place id size.width size.height config.page_count s
        ]
      ]

  -- `unregister`
  unfoldable pub unregister : String → LayoutStore Num → LayoutStore Num
  unregister id s = record s { items = erase id s.items }

  -- `clear`
  unfoldable pub clear : LayoutStore Num → LayoutStore Num
  clear s = record s { items = []; z_counter = 100; saved_layouts = [] }

  -- the card lies where its constraints put it: `!(x !== card.x || y !== card.y)`
  unfoldable pub is_settled : Num → Num → Card Num → Bool
  unfolding get_constrained_position
  is_settled width height c =
      let p = get_constrained_position n width height c c.intended_x c.intended_y in
      same p.x c.x && same p.y c.y

  -- the body of the loop of `relayout`
  unfoldable pub constrain : Num → Num → Card Num → Card Num
  unfolding update is_settled get_constrained_position
  constrain width height c =
      let p = get_constrained_position n width height c c.intended_x c.intended_y in
      if is_settled width height c
      then c
      else update n (record no_changes { x = some p.x; y = some p.y }) false true c

  unfoldable pub map_cards : (Card Num → Card Num) → Dict (Card Num) → Dict (Card Num)
  map_cards f [] = []
  map_cards f ((id, c) ∷ items) = (id, f c) ∷ map_cards f items

  -- `relayout`
  unfoldable pub relayout : LayoutStore Num → LayoutStore Num
  unfolding constrain map_cards
  relayout s = record s {
    items = map_cards (constrain s.container_width s.container_height) s.items;
  }

  -- `setContainerSize`
  unfoldable pub set_container_size : Num → Num → LayoutStore Num → LayoutStore Num
  unfolding relayout
  set_container_size width height s =
      relayout (record s { container_width = width; container_height = height })

  -- `hasSavedLayout`
  unfoldable pub has_saved_layout : String → LayoutStore Num → Bool
  has_saved_layout id s = has id s.saved_layouts
