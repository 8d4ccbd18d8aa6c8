-- ===== src/Simulator/Steps.antt =====
-- What happens to the cluster: a node takes a message from its inbox, one of its timers fires, it
-- tells of a change, or a call of the simulator comes.
use raft_visualizer.Prelude.{ℕ, zero, suc, true, false, Option, none, some, List, [], ◌∷◌, String}
use raft_visualizer.Raft.{Node, Message}
use raft_visualizer.Raft.Events.{Event, receive, timeout, heartbeat, changed, handle}
use raft_visualizer.Simulator.{
  Cluster, route_all, submit, change, kill_node, restart_node, partition, heal, build_snapshot,
}

abbrev pub node_at : ℕ → List Node → Option Node
node_at i [] = none
node_at zero (n ∷ ns) = some n
node_at (suc i) (n ∷ ns) = node_at i ns

-- An event of node `i`, with all that the node sends. A change signals the snapshot loop.
unfoldable pub node_step : ℕ → ℕ → Event → Cluster → Option Cluster
node_step now i e c = elim (node_at i c.nodes) [
  | none ↦ some c
  | some n ↦ elim (change i (λ m. (handle e m).0) c.nodes) [
    | none ↦ some c
    | some ns ↦ route_all now (handle e n).1 (record c { nodes = ns })
  ]
]

-- The first message of inbox `i`, and the inboxes without it.
abbrev pub take_first : ℕ → List (List Message) → Option (Message × List (List Message))
take_first i [] = none
take_first zero ([] ∷ rest) = none
take_first zero ((msg ∷ inbox) ∷ rest) = some (msg, inbox ∷ rest)
take_first (suc i) (inbox ∷ rest) = elim (take_first i rest) [
  | none ↦ none
  | some (msg, boxes) ↦ some (msg, inbox ∷ boxes)
]

pub data Step : Type 0 where
  take_message election_timeout heartbeat_tick notify : ℕ → Step
  submit_call : String → Step
  kill_call restart_call : ℕ → Step
  partition_call : List ℕ → List ℕ → Step
  heal_call emit : Step

-- `none` is a panic.
unfoldable pub step : ℕ → Step → Cluster → Option Cluster
step now (take_message i) c = elim (take_first i c.inboxes) [
  | none ↦ some c
  | some (msg, boxes) ↦ node_step now i (receive msg) (record c { inboxes = boxes })
]
step now (election_timeout i) c = node_step now i timeout c
step now (heartbeat_tick i) c = node_step now i heartbeat c
step now (notify i) c = node_step now i changed (record c { signalled = true })
step now (submit_call cmd) c = elim (submit now cmd c) [ none ↦ none | some (d, taken) ↦ some d ]
step now (kill_call id) c = kill_node id c
step now (restart_call id) c = restart_node id c
step now (partition_call group_a group_b) c = some (partition group_a group_b c)
step now heal_call c = some (heal c)
step now emit c = some (record (build_snapshot now c).0 { signalled = false })

-- A run, each step at its time.
unfoldable pub steps : List (ℕ × Step) → Cluster → Option Cluster
steps [] c = some c
steps ((now, s) ∷ later) c = elim (step now s c) [ none ↦ none | some d ↦ steps later d ]
