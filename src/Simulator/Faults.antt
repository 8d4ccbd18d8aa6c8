-- ===== src/Simulator/Faults.antt =====
-- The commands of a browser, as they reach the cluster (`ApplyFault` of backend/main.go, with a
-- cluster that runs, and `FaultPayload` of backend/ws/hub.go).
use raft_visualizer.Prelude.{
  ℕ, not, ◌&&◌, Option, none, some, List, [], ◌∷◌, String, ◌==◌, string_eq, if◌then◌else◌,
}
use raft_visualizer.Simulator.{Cluster, kill_node, restart_node, partition, heal, submit}

pub record FaultPayload : Type 0 where
  pub action : String
  pub targets : List ℕ
  pub partition_groups : List (List ℕ)
  pub command : String

-- One call after another.
abbrev pub for_all : (ℕ → Cluster → Option Cluster) → List ℕ → Cluster → Option Cluster
for_all call [] c = some c
for_all call (id ∷ targets) c = elim (call id c) [ none ↦ none | some d ↦ for_all call targets d ]

abbrev pub partition_groups_of : List (List ℕ) → Cluster → Cluster
partition_groups_of (group_a ∷ group_b ∷ []) c = partition group_a group_b c
partition_groups_of _ c = c

unfoldable pub apply_fault : ℕ → FaultPayload → Cluster → Option Cluster
apply_fault now fault c =
    if fault.action == "kill"
    then for_all kill_node fault.targets c
    else if fault.action == "restart"
    then for_all restart_node fault.targets c
    else if fault.action == "partition"
    then some (partition_groups_of fault.partition_groups c)
    else if fault.action == "heal"
    then some (heal c)
    else if (fault.action == "submit") && not (fault.command == "")
    then elim (submit now fault.command c) [ none ↦ none | some (d, taken) ↦ some d ]
    else some c
