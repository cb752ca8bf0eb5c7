-- ===== src/Desktop/Cards.antt =====
-- A card of the desktop: the fields of `LayoutCard` and its `update`
-- (frontend/src/desktop/logic/LayoutSystem.ts). The element that shows the card, its transform and
-- its physics are left out. `made` tells one card object from another of the same document.
use papercrate.Base.{Option, String, Bool, ℕ, if◌then◌else◌, none, or_else, is_some, ◌||◌, true}
use papercrate.Desktop.Numbers.{Numbers}

pub record Card (A : Type 0) : Type 0 where
  pub id : String
  pub x : A
  pub y : A
  pub z : ℕ
  pub rotation : A
  pub width : A
  pub height : A
  pub page_count : ℕ
  pub inner_radius : A
  pub outer_radius : A
  pub center_x : A
  pub center_y : A
  pub intended_x : A
  pub intended_y : A
  pub is_dirty : Bool
  pub made : ℕ

-- `Partial<LayoutCardState>`
pub record Changes (A : Type 0) : Type 0 where
  pub x : Option A
  pub y : Option A
  pub z : Option ℕ
  pub rotation : Option A
  pub width : Option A
  pub height : Option A
  pub page_count : Option ℕ

abbrev pub no_changes : {A : Type 0} → Changes A
no_changes = record {
  x = none;
  y = none;
  z = none;
  rotation = none;
  width = none;
  height = none;
  page_count = none;
}

-- what a card is made from, besides its identifier
pub record CardData (A : Type 0) : Type 0 where
  pub x : A
  pub y : A
  pub z : ℕ
  pub rotation : A
  pub width : A
  pub height : A
  pub page_count : ℕ

module _ (n : Numbers) where
  open n use {Num, of, add, mul, div, sqrt, min}

  -- `recalculateRadii`
  unfoldable pub recalculate_radii : Card Num → Card Num
  recalculate_radii c = record c {
    inner_radius = div (min c.width c.height) (of 2);
    outer_radius = div (sqrt (add (mul c.width c.width) (mul c.height c.height))) (of 2);
  }

  -- `recalculateCenters`
  unfoldable pub recalculate_centers : Card Num → Card Num
  recalculate_centers c = record c {
    center_x = add c.x (div c.width (of 2));
    center_y = add c.y (div c.height (of 2));
  }

  -- the constructor
  unfoldable pub new_card : String → ℕ → CardData Num → Card Num
  unfolding recalculate_radii recalculate_centers
  new_card id made d = recalculate_centers (
      recalculate_radii (record {
        id = id;
        x = d.x;
        y = d.y;
        z = d.z;
        rotation = d.rotation;
        width = d.width;
        height = d.height;
        page_count = d.page_count;
        inner_radius = of 0;
        outer_radius = of 0;
        center_x = of 0;
        center_y = of 0;
        intended_x = d.x;
        intended_y = d.y;
        is_dirty = Bool.false;
        made = made;
      }))

  -- `Object.assign(this, changes)`
  unfoldable pub assign : Changes Num → Card Num → Card Num
  assign ch c = record c {
    x = or_else ch.x c.x;
    y = or_else ch.y c.y;
    z = or_else ch.z c.z;
    rotation = or_else ch.rotation c.rotation;
    width = or_else ch.width c.width;
    height = or_else ch.height c.height;
    page_count = or_else ch.page_count c.page_count;
  }

  -- the intended position, which an update of the constraints leaves alone
  unfoldable pub note_intended : Bool → Changes Num → Card Num → Card Num
  note_intended is_constraint ch c = if is_constraint then c else record c {
    intended_x = or_else ch.x c.intended_x;
    intended_y = or_else ch.y c.intended_y;
  }

  -- the derived fields, where a change concerns them
  unfoldable pub refresh : Changes Num → Card Num → Card Num
  refresh ch c =
      let sized = is_some ch.width || is_some ch.height in
      let resized = if sized then recalculate_radii c else c in
      if is_some ch.x || is_some ch.y || sized then recalculate_centers resized else resized

  -- `update(changes, { markDirty, isConstraintUpdate })`
  unfoldable pub update : Changes Num → Bool → Bool → Card Num → Card Num
  unfolding assign note_intended refresh recalculate_radii recalculate_centers
  update ch mark_dirty is_constraint c =
      let c' = refresh ch (note_intended is_constraint ch (assign ch c)) in
      if mark_dirty then record c' { is_dirty = true } else c'
