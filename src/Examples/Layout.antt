-- ===== src/Examples/Layout.antt =====
-- The drawer, the hint card, the landing page and the refit of the canvas.
use raft_visualizer.Prelude.{
  ◌≡◌, ◌⊎◌, true, false, none, some, List, [], ◌∷◌, arith, All, Occurs, ◌+◌, ◌<◌, ◌≤◌,
}
use raft_visualizer.Drawer.{
  DrawerMode, half, Drawer, distance, mode_height_px, on_touch_start, on_touch_move, finish_touch,
  on_handle_click,
}
use raft_visualizer.Drawer.Stops.{drag, moves, held_height}
use raft_visualizer.HintCard.{Hint, open_card}
use raft_visualizer.HintCard.Once.{run-open_card-reload}
use raft_visualizer.HintCard as HintCard
use raft_visualizer.Prelude.{IsDistinct, map, string_eq, refl}
use raft_visualizer.Canvas.Fit.{
  Event as FitEvent, counted, settle, IsBounded, run as run_fit, start as start_fit,
  run-start-IsBounded,
}
use raft_visualizer.Intro.Chapters.{Chapter, chapters}
use raft_visualizer.Intro as Intro
use raft_visualizer.Intro.{Box, active_chapter}
use raft_visualizer.Intro.Sections.{IsTimed, run-start-IsTimed}
use raft_visualizer.Intro.Active.{IsNear, NoneNearer, active_chapter-IsChosen}
use raft_visualizer.Page as Page

-- A drawer at its middle stop on a viewport of 800 pixels.
abbrev middle : Drawer
middle = record {
  mode = half;
  viewport_height = 800;
  drag_height = none;
  touch = record { active = false; start_y = 0; start_height = 0; moved = false };
  suppress_click = false;
}

-- The drawer at its middle stop, held at 410 up to 150.
abbrev left : Drawer
left = on_touch_move (some 150) (moves (300 ∷ []) (on_touch_start 400 (some 410) middle))

drag_example :
    ((m : DrawerMode)
      → distance (held_height middle 410 150) (mode_height_px (finish_touch left).mode 800)
        ≤ distance (held_height middle 410 150) (mode_height_px m 800))
    × ((finish_touch left).drag_height ≡ none)
    × (on_handle_click (finish_touch left) ≡ finish_touch left)
drag_example = drag middle 400 410 150 (300 ∷ []) (omega arith) refl

abbrev reading : List HintCard.Event
reading = HintCard.selected (some 1) ∷ HintCard.reopened ∷ HintCard.pressed ∷ []

run-open_card-reload_example :
    (open_card (HintCard.run reading (open_card none none)).stored none).dismissed
    ≡ (HintCard.run reading (open_card none none)).dismissed
run-open_card-reload_example = run-open_card-reload none none none reading

abbrev scrolling : List Intro.Event
scrolling =
    Intro.entry "concept" true
    ∷ Intro.render
    ∷ Intro.entry "concept" false
    ∷ Intro.due "concept"
    ∷ []

run-start-IsTimed_example : IsTimed (Intro.run scrolling (Intro.start true))
run-start-IsTimed_example = run-start-IsTimed true scrolling

abbrev boxes : List Box
boxes =
    record { id = "concept"; top = 0; bottom = 80000 }
    ∷ record { id = "roles"; top = 80000; bottom = 160000 }
    ∷ []

active_chapter-IsChosen_example :
    (All (λ c. c.bottom + 2400 < 70000) boxes × (active_chapter 70000 "concept" boxes ≡ "concept"))
    ⊎ ((c : Box) × Occurs c boxes
        × (active_chapter 70000 "concept" boxes ≡ c.id)
        × IsNear 70000 c
        × NoneNearer 70000 (Intro.distance c.top 70000) boxes)
active_chapter-IsChosen_example = active_chapter-IsChosen 70000 "concept" boxes

abbrev tapping : List Page.Event
tapping = Page.effect ∷ Page.node_selected ∷ Page.effect ∷ Page.due 2 ∷ []

-- No two chapters have the same id.
IsDistinct-chapters : IsDistinct (map (λ (c : Chapter). c.id) chapters)
IsDistinct-chapters = (refl, (refl, (refl, (refl, (refl, (refl, (refl, (refl, tt))))))))

run-start-IsBounded_example :
    IsBounded (run_fit (counted 5 ∷ FitEvent.frame ∷ settle false ∷ []) start_fit)
run-start-IsBounded_example = run-start-IsBounded (counted 5 ∷ FitEvent.frame ∷ settle false ∷ [])
