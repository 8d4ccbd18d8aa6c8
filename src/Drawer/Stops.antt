-- ===== src/Drawer/Stops.antt =====
-- The stops of the drawer.
use raft_visualizer.Prelude.{
  ℕ, ◌+◌, ◌-◌, ◌≤◌, ◌≡◌, sym, subst, Bool, true, false, ◌||◌, none, some, List, [], ◌∷◌, any, min,
  max, ltb, nat_eq, arith,
}
use raft_visualizer.Drawer.{
  DrawerMode, collapsed, half, full, collapsed_px, mode_height_px, distance, nearest_mode, Drawer,
  dragged_height, on_touch_start, on_touch_move, finish_touch, on_handle_click, current_height,
}

-- No stop is nearer to the height than the one that is chosen.
pub nearest_mode-le :
    (height viewport_height : ℕ) (m : DrawerMode)
    → distance height (mode_height_px (nearest_mode height viewport_height) viewport_height)
      ≤ distance height (mode_height_px m viewport_height)
unfolding nearest_mode
nearest_mode-le height viewport_height collapsed = ground arith
nearest_mode-le height viewport_height half = ground arith
nearest_mode-le height viewport_height full = ground arith

-- On a viewport of 81 pixels or more a drawer that rests at a stop stays there.
pub nearest_mode-mode_height_px :
    (m : DrawerMode) (viewport_height : ℕ)
    → 81 ≤ viewport_height
    → nearest_mode (mode_height_px m viewport_height) viewport_height ≡ m
unfolding nearest_mode mode_height_px
nearest_mode-mode_height_px collapsed v h = ground arith
nearest_mode-mode_height_px half v h = ground arith
nearest_mode-mode_height_px full v h = ground arith

-- A drag keeps the drawer between its lowest and its highest stop.
pub dragged_height_bounds :
    (d : Drawer) (y : ℕ)
    → 47 ≤ d.viewport_height
    → (collapsed_px ≤ dragged_height d y)
      × (dragged_height d y ≤ mode_height_px full d.viewport_height)
unfolding dragged_height mode_height_px
dragged_height_bounds d y h = (omega arith, omega arith)

-- The finger moves, from place to place.
unfoldable pub moves : List ℕ → Drawer → Drawer
moves [] d = d
moves (y ∷ ys) d = moves ys (on_touch_move (some y) d)

-- Some place is more than 10 pixels away from the first.
abbrev pub is_drag : ℕ → List ℕ → Bool
is_drag y ys = any (λ z. ltb 10 (distance y z)) ys

-- A drag is under way from the place, of the drawer as it was then.
record IsDragged (d e : Drawer) (y : ℕ) (far : Bool) : Type 0 where
  active : e.touch.active ≡ true
  from : e.touch.start_y ≡ y
  height : e.touch.start_height ≡ current_height d
  viewport : e.viewport_height ≡ d.viewport_height
  moved : e.touch.moved ≡ far

on_touch_start-IsDragged :
    (d : Drawer) (top y : ℕ) → y ≤ top + 44 → IsDragged d (on_touch_start top (some y) d) y false
unfolding on_touch_start
on_touch_start-IsDragged d top y zone = record {
  active = ground (arith, zone);
  from = ground (arith, zone);
  height = ground (arith, zone);
  viewport = ground (arith, zone);
  moved = ground (arith, zone);
}

on_touch_move-IsDragged :
    (d e : Drawer) (y z : ℕ) (far : Bool)
    → IsDragged d e y far
    → IsDragged d (on_touch_move (some z) e) y (far || ltb 10 (distance y z))
unfolding on_touch_move
on_touch_move-IsDragged d e y z far h = record {
  active = ground (arith, h.active);
  from = ground (arith, h.active, h.from);
  height = ground (arith, h.active, h.height);
  viewport = ground (arith, h.active, h.viewport);
  moved = ground (arith, h.active, h.moved, h.from);
}

moves-IsDragged :
    (d e : Drawer) (y : ℕ) (ys : List ℕ) (far : Bool)
    → IsDragged d e y far
    → IsDragged d (moves ys e) y (far || is_drag y ys)
unfolding moves
moves-IsDragged d e y [] far h = subst (IsDragged d e y) (ground arith) h
moves-IsDragged d e y (z ∷ ys) far h =
    subst (IsDragged d (moves ys (on_touch_move (some z) e)) y) (ground arith) (
      moves-IsDragged d (on_touch_move (some z) e) y ys (far || ltb 10 (distance y z))
        (on_touch_move-IsDragged d e y z far h))

-- Where the finger at `y'` holds the upper edge of a drawer that it took at `y`: not below the lowest
-- stop and not above the highest.
abbrev pub held_height : Drawer → ℕ → ℕ → ℕ
held_height d y y' =
    max 40 (min (mode_height_px full d.viewport_height) (current_height d + y - y'))

-- The end of a drag, and the click behind it.
settled :
    (d e : Drawer) (y y' : ℕ) (far : Bool)
    → IsDragged d e y far
    → (far || ltb 10 (distance y y')) ≡ true
    → let done = finish_touch (on_touch_move (some y') e) in
      (done.mode ≡ nearest_mode (held_height d y y') d.viewport_height)
      × (done.drag_height ≡ none)
      × (on_handle_click done ≡ done)
unfolding on_touch_move finish_touch on_handle_click dragged_height
settled d e y y' far h moved = (
  ground (arith, h.active, h.height, h.viewport, h.from),
  ground (arith, h.active),
  ground (arith, h.active, h.moved, h.from, moved),
)

-- A drag from the handle, at most 44 pixels below the drawer's upper edge, along any places, one of
-- which is more than 10 pixels away: at its end the drawer is at a stop, and none is nearer to the
-- height at which the finger left it; the drag is over, and the click that follows is swallowed.
pub drag :
    (d : Drawer) (top y y' : ℕ) (ys : List ℕ)
    → y ≤ top + 44
    → (is_drag y ys || ltb 10 (distance y y')) ≡ true
    → let left = on_touch_move (some y') (moves ys (on_touch_start top (some y) d)) in
      let done = finish_touch left in
      ((m : DrawerMode)
        → distance (held_height d y y') (mode_height_px done.mode d.viewport_height)
          ≤ distance (held_height d y y') (mode_height_px m d.viewport_height))
      × (done.drag_height ≡ none)
      × (on_handle_click done ≡ done)
drag d top y y' ys zone far =
    let e = on_touch_start top (some y) d in
    let h = moves-IsDragged d e y ys false (on_touch_start-IsDragged d top y zone) in
    let (mode, over, swallowed) = settled d (moves ys e) y y' (is_drag y ys) h far in
    (
      λ m.
          subst
            (λ (k : DrawerMode).
              distance (held_height d y y') (mode_height_px k d.viewport_height)
              ≤ distance (held_height d y y') (mode_height_px m d.viewport_height))
            (sym mode) (nearest_mode-le (held_height d y y') d.viewport_height m),
      over,
      swallowed,
    )
