-- ===== src/Store/Update/Shown.antt =====
-- The nodes that the page shows are those of the payload.
use raft_visualizer.Prelude.{
  ℕ, suc, ◌≡◌, refl, Option, List, [], ◌∷◌, map, String, nat_eq, if◌then◌else◌,
}
use raft_visualizer.JsMap.{get}
use raft_visualizer.Cluster.{Status, Node, RawNode, Payload}
use raft_visualizer.Store.{Store}
use raft_visualizer.Store.Derive.{by_id}
use raft_visualizer.Store.Update.{next_nodes, should_pulse, apply_state_update, raw_nodes}

abbrev pub shown : List Node → List Status
shown = map (λ n. n.status)

abbrev pub reported : Option Payload → List Status
reported payload = map (λ (r : RawNode). r.status) (raw_nodes payload)

shown-next_nodes :
    (m : List (ℕ × Node)) (rs : List RawNode) (seq : ℕ)
    → shown (next_nodes m rs seq).0 ≡ map (λ (r : RawNode). r.status) rs
unfolding next_nodes
shown-next_nodes m [] seq = refl
shown-next_nodes m (r ∷ rs) seq =
    cc (shown-next_nodes m rs (if should_pulse (get m r.id) r then suc seq else seq))

-- In the payload's order, with every field but the log as it came.
pub shown-apply_state_update :
    (t1 t2 : String) (payload : Option Payload) (s : Store)
    → shown (apply_state_update t1 t2 payload s).nodes ≡ reported payload
unfolding apply_state_update
shown-apply_state_update t1 t2 payload s =
    shown-next_nodes (by_id s.nodes) (raw_nodes payload) s.next_pulse_seq
