-- ===== src/Drawer.antt =====
-- The drawer of the mobile page: its three stops, and dragging it by touch
-- (frontend/src/components/MobileDrawer.jsx). Heights and coordinates are whole pixels from 0;
-- `Math.round(v * 0.5)` and `Math.round(v * 0.85)` are written by division.
pub mod Stops
pub mod View
use raft_visualizer.Prelude.{
  ℕ, suc, ◌+◌, ◌-◌, ◌*◌, ◌/◌, min, max, Bool, true, false, not, Option, none, some, List, [], ◌∷◌,
  ltb, leb, if◌then◌else◌,
}

pub data DrawerMode : Type 0 where
  collapsed half full : DrawerMode

abbrev pub collapsed_px : ℕ
collapsed_px = 40

unfoldable pub mode_height_px : DrawerMode → ℕ → ℕ
mode_height_px half viewport_height = (viewport_height + 1) / 2
mode_height_px full viewport_height = (85 * viewport_height + 50) / 100
mode_height_px collapsed viewport_height = collapsed_px

-- `Math.abs(a - b)`
abbrev pub distance : ℕ → ℕ → ℕ
distance a b = (a - b) + (b - a)

-- One round of the loop over the stops: the new stop wins if it is strictly nearer.
abbrev nearer : ℕ → ℕ → DrawerMode → DrawerMode → DrawerMode
nearer height viewport_height t best =
    if ltb (distance height (mode_height_px t viewport_height))
      (distance height (mode_height_px best viewport_height))
    then t
    else best

unfoldable pub nearest_mode : ℕ → ℕ → DrawerMode
nearest_mode height viewport_height =
    nearer height viewport_height full
      (nearer height viewport_height half (nearer height viewport_height collapsed collapsed))

pub record Touch : Type 0 where
  pub active : Bool
  pub start_y : ℕ
  pub start_height : ℕ
  pub moved : Bool

-- The mode is the page's, and the drawer sets it by `onModeChange`.
pub record Drawer : Type 0 where
  pub mode : DrawerMode
  pub viewport_height : ℕ
  pub drag_height : Option ℕ
  pub touch : Touch
  pub suppress_click : Bool

abbrev pub base_height : Drawer → ℕ
base_height d = mode_height_px d.mode d.viewport_height

abbrev pub current_height : Drawer → ℕ
current_height d = elim d.drag_height [ none ↦ base_height d | some h ↦ h ]

unfoldable pub on_resize : ℕ → Drawer → Drawer
on_resize inner_height d = record d { viewport_height = inner_height }

unfoldable pub on_handle_click : Drawer → Drawer
on_handle_click d =
    if d.suppress_click
    then d
    else record d { mode = elim d.mode [ collapsed ↦ half | _ ↦ collapsed ] }

-- `top` is the drawer's upper edge; `none` is an event without a touch.
unfoldable pub on_touch_start : ℕ → Option ℕ → Drawer → Drawer
on_touch_start top none d = d
on_touch_start top (some y) d =
    if not (leb y (top + 44))
    then record d {
      touch = record {
        active = false;
        start_y = d.touch.start_y;
        start_height = d.touch.start_height;
        moved = d.touch.moved;
      };
    }
    else record d {
      touch = record { active = true; start_y = y; start_height = current_height d; moved = false };
    }

-- A difference below 0 is clamped to the lowest stop, as 0 is.
unfoldable pub dragged_height : Drawer → ℕ → ℕ
dragged_height d y =
    max collapsed_px
      (min (mode_height_px full d.viewport_height) (d.touch.start_height + d.touch.start_y - y))

unfoldable pub on_touch_move : Option ℕ → Drawer → Drawer
on_touch_move none d = d
on_touch_move (some y) d = if not d.touch.active then d else record d {
  touch = record {
    active = true;
    start_y = d.touch.start_y;
    start_height = d.touch.start_height;
    moved = if ltb 10 (distance d.touch.start_y y) then true else d.touch.moved;
  };
  drag_height = some (dragged_height d y);
}

-- The end of a drag: the nearest stop, and no click for 90 ms if the finger moved.
abbrev settle : ℕ → Drawer → Drawer
settle height d = record d {
  mode = nearest_mode height d.viewport_height;
  drag_height = none;
  touch = record {
    active = false;
    start_y = d.touch.start_y;
    start_height = d.touch.start_height;
    moved = d.touch.moved;
  };
  suppress_click = if d.touch.moved then true else d.suppress_click;
}

unfoldable pub finish_touch : Drawer → Drawer
finish_touch d = if not d.touch.active then d else elim d.drag_height [
  | none ↦ record d {
    touch = record {
      active = false;
      start_y = d.touch.start_y;
      start_height = d.touch.start_height;
      moved = d.touch.moved;
    };
  }
  | some height ↦ settle height d
]

-- The callback of the timer that `finishTouch` starts.
unfoldable pub unsuppress : Drawer → Drawer
unsuppress d = record d { suppress_click = false }
