-- ===== src/Examples/Serving.antt =====
-- Browsers that come and go.
use raft_visualizer.Prelude.{ℕ, ◌≡◌, refl, none, some, List, [], ◌∷◌}
use raft_visualizer.Simulator.{new_cluster, build_snapshot}
use raft_visualizer.Server.{
  new_server, register, unregister, run_call, proceed, on_first_client, broadcast, handle, run,
}
use raft_visualizer.Server.Handover.{handover, handover_unserved}
use raft_visualizer.Server.Hooks.{Turn, arrives, leaves, turns, server, IsServed, turns-IsServed}

abbrev visitors : List (ℕ × Turn)
visitors = (1, arrives 7) ∷ (2, arrives 8) ∷ (3, leaves 7) ∷ (4, leaves 8) ∷ []

visitors_gone : turns visitors new_server ≡ some new_server
unfolding run handle new_server register unregister run_call proceed on_first_client broadcast
    build_snapshot
visitors_gone = refl

turns-IsServed_example : IsServed new_server
turns-IsServed_example = turns-IsServed visitors new_server visitors_gone

handover_unserved_example :
    run (handover 5 1 2) (server (record { id = 1; send = [] } ∷ []) (some (new_cluster 5)) [] [])
    ≡ some (server (record { id = 2; send = [] } ∷ []) none [] [])
handover_unserved_example = handover_unserved 5 1 2 [] (new_cluster 5) []
