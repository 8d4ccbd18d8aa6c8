-- ===== src/Examples/Bus.antt =====
-- The bus between the nodes, the faults and the snapshots of a cluster.
use raft_visualizer.Prelude.{
  ◌≤◌, ◌≡◌, refl, false, none, some, List, [], ◌∷◌, map, length, All, not, true, if◌then◌else◌,
}
use raft_visualizer.Cluster.{RawNode}
use raft_visualizer.Store.{init}
use raft_visualizer.Store.Update.{apply_state_update, raw_nodes, raw_in_flight}
use raft_visualizer.Raft.{Message, request_vote, new_node, kill, leader}
use raft_visualizer.Simulator.{
  Cluster, new_cluster, range, partition, heal, route, submit_first, kill_node, build_snapshot,
}
use raft_visualizer.Simulator.Steps.{election_timeout, kill_call, heal_call, steps, step}
use raft_visualizer.Simulator.Faults.{FaultPayload}
use raft_visualizer.Simulator.Partitions.{crosses, inboxes_after, route-partition}
use raft_visualizer.Simulator.Submit.{taken-kill_node, append_at_first, live}
use raft_visualizer.Simulator.Startup.{Stage, launch, act, start, stages, are_allowed, panics-start}
use raft_visualizer.Simulator.Snapshots.{bounds-build_snapshot, snapshot-apply_state_update_idem}
use raft_visualizer.Simulator.Panics.{panics}

abbrev cluster : Cluster
cluster = record {
  nodes = new_node 0 (1 ∷ []) ∷ new_node 1 (0 ∷ []) ∷ [];
  inboxes = [] ∷ [] ∷ [];
  partitioned = [];
  in_flight = [];
  signalled = false;
}

abbrev ask : Message
ask = record {
  from = 0;
  to = 1;
  rpc = request_vote (record { term = 1; candidate_id = 0; last_log_index = 0; last_log_term = 0 });
}

route-partition_example : inboxes_after (route 5 ask (partition (0 ∷ []) (1 ∷ []) cluster)) ≡ (
    if crosses (0 ∷ []) (1 ∷ []) 0 1
    then some ([] ∷ [] ∷ [])
    else inboxes_after (route 5 ask cluster))
route-partition_example = route-partition 5 ask (0 ∷ []) (1 ∷ []) cluster

-- Node 0 leads, and is killed.
abbrev led : Cluster
led = record cluster {
  nodes = record (new_node 0 (1 ∷ [])) { role = leader } ∷ new_node 1 (0 ∷ []) ∷ [];
}

abbrev killed : Cluster
killed = record cluster {
  nodes = kill (record (new_node 0 (1 ∷ [])) { role = leader }) ∷ new_node 1 (0 ∷ []) ∷ [];
}

kill_first : kill_node 0 led ≡ some killed
unfolding kill_node
kill_first = refl

taken-kill_node_example :
    ((submit_first "x" killed.nodes).1.1 ≡ true)
    × ((submit_first "x" killed.nodes).0 ≡ append_at_first "x" killed.nodes)
    × (live (submit_first "x" killed.nodes).0 ≡ live killed.nodes)
unfolding kill new_node
taken-kill_node_example = taken-kill_node 0 "x" led killed kill_first refl refl

-- Node 0 is killed when its `Run` has begun, and node 1 before.
abbrev stages_seen : List Stage
stages_seen = launch 0 ∷ act 1 (kill_call 0) ∷ act 2 (election_timeout 0) ∷ act 3 (kill_call 1) ∷ []

panics-start_example : panics (stages stages_seen (start 2)) ≡ not (are_allowed 2 [] stages_seen)
panics-start_example = panics-start 2 stages_seen

abbrev wild : FaultPayload
wild = record { action = "kill"; targets = 1 ∷ 9 ∷ []; partition_groups = []; command = "" }

-- A heal that is seen.
healed : steps ((1, heal_call) ∷ []) (new_cluster 2) ≡ some (heal (new_cluster 2))
unfolding steps step
healed = refl

bounds-build_snapshot_example :
    All (λ (b : List Message). length b ≤ 128) (heal (new_cluster 2)).inboxes
    × ((map (λ (r : RawNode). r.id) (raw_nodes (some (build_snapshot 9 (heal (new_cluster 2))).1))
          ≡ range 2)
        × (length (raw_in_flight (some (build_snapshot 9 (heal (new_cluster 2))).1)) ≤ 256))
bounds-build_snapshot_example =
    bounds-build_snapshot 2 9 ((1, heal_call) ∷ []) (heal (new_cluster 2)) healed

snapshot-apply_state_update_idem_example :
    apply_state_update "c" "d"
      (some (build_snapshot 9 (heal (new_cluster 2))).1)
      (apply_state_update "a" "b" (some (build_snapshot 9 (heal (new_cluster 2))).1) (init none))
    ≡ apply_state_update "a" "b" (some (build_snapshot 9 (heal (new_cluster 2))).1) (init none)
snapshot-apply_state_update_idem_example =
    snapshot-apply_state_update_idem 2 9 ((1, heal_call) ∷ []) (heal (new_cluster 2)) "a" "b" "c"
      "d" (init none) healed
