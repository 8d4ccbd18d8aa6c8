-- ===== src/Examples/Screens.antt =====
-- The switch between the landing page and the demo.
use raft_visualizer.Prelude.{◌≡◌, refl, true, none, List, [], ◌∷◌}
use raft_visualizer.Store.{init}
use raft_visualizer.Socket.Events.{opened, closed}
use raft_visualizer.Page.{MobilePage}
use raft_visualizer.Page as Page
use raft_visualizer.Page.App.{
  AppEvent, started, went_back, browser, page, open_app, on_start, on_back, on_page, handle_app,
  run_app,
}
use raft_visualizer.Page.App.Tidy.{left_over, run_app-left_over}

-- The demo is left after its first socket has closed and a refit was due.
abbrev visit : List AppEvent
visit =
    started true
    ∷ browser (opened 0)
    ∷ page Page.node_selected
    ∷ browser (closed 0)
    ∷ page Page.pane_tapped
    ∷ went_back
    ∷ []

back_home : (run_app visit (open_app (init none))).demo ≡ none
unfolding run_app handle_app open_app on_start on_back on_page
back_home = refl

run_app-left_over_example : left_over (run_app visit (open_app (init none))) ≡ []
run_app-left_over_example =
    run_app-left_over (init none) visit (tt, (tt, (tt, (tt, (tt, (tt, tt)))))) back_home
