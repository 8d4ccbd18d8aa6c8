-- ===== src/Server/Handover.antt =====
-- A browser that comes while the last one leaves (`StopIfNoClients` and `EnsureRunning` of
-- backend/main.go, and the hub that calls them).
use raft_visualizer.Prelude.{
  ℕ, ◌≡◌, refl, ap, not, some, none, List, [], ◌∷◌, if◌then◌else◌, beq_self, nat_eq,
}
use raft_visualizer.Cluster.{Payload}
use raft_visualizer.Simulator.{Cluster}
use raft_visualizer.Simulator.Faults.{FaultPayload}
use raft_visualizer.Server.{
  Event, connected, disconnected, called, stop_if_no_clients, unregister, register, run_call,
  proceed, on_first_client, handle, run,
}
use raft_visualizer.Server.Hooks.{server}

-- The last client leaves while the next one comes.
abbrev pub handover : ℕ → ℕ → ℕ → List (ℕ × Event)
handover now k j =
    (now, disconnected k)
    ∷ (now, called 0)
    ∷ (now, connected j)
    ∷ (now, called 1)
    ∷ (now, called 0)
    ∷ []

-- A browser can be left without a cluster. Where the last client leaves and the next one comes after
-- the hub has counted no clients and before the manager stops, the new client's hook finds the
-- cluster running and does nothing, the cluster is stopped, and no call is left that would start
-- it again.
pub handover_unserved :
    (now k j : ℕ) (frames : List Payload) (c : Cluster) (fs : List FaultPayload)
    → run (handover now k j) (server (record { id = k; send = frames } ∷ []) (some c) fs [])
      ≡ some (server (record { id = j; send = [] } ∷ []) none fs [])
unfolding run handle unregister register run_call proceed on_first_client
handover_unserved now k j frames c fs =
    ap (λ s. run ((now, called 0) ∷ (now, connected j) ∷ (now, called 1) ∷ (now, called 0) ∷ []) s)
      (unregister-last k frames c fs)
  where
    unregister-last :
        (k : ℕ) (frames : List Payload) (c : Cluster) (fs : List FaultPayload)
        → unregister k (server (record { id = k; send = frames } ∷ []) (some c) fs [])
          ≡ server [] (some c) fs (stop_if_no_clients ∷ [])
    unregister-last k frames c fs = rw (beq_self k, if◌then◌else◌, not) refl
