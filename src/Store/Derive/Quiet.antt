-- ===== src/Store/Derive/Quiet.antt =====
-- `deriveStateLogs` reports changes only.
use raft_visualizer.Prelude.{
  ℕ, ◌≡◌, refl, some, List, [], ◌∷◌, String, arith, All, nat_eq, string_eq,
}
use raft_visualizer.JsMap.{get}
use raft_visualizer.Cluster.{Node}
use raft_visualizer.Store.Logs.{Emitter}
use raft_visualizer.Store.Derive.{derive_node, derive_nodes, derive_state_logs, by_id}

derive_node_self : (time : String) (n : Node) (em : Emitter) → derive_node time (some n) n em ≡ em
unfolding derive_node
derive_node_self time n em = ground (arith, string_eq.same_iff n.role n.role)

derive_nodes_self :
    (time : String) (m : List (ℕ × Node)) (ns : List Node) (em : Emitter)
    → All (λ n. get m n.id ≡ some n) ns
    → derive_nodes time m ns em ≡ em
unfolding derive_nodes
derive_nodes_self time m [] em h = refl
derive_nodes_self time m (n ∷ ns) em h =
    rw (h.0, derive_node_self time n em) (derive_nodes_self time m ns em h.1)

-- A state that is compared with itself gives no line, and leaves the counter.
pub derive_state_logs_self :
    (time : String) (ns : List Node) (next_event_id : ℕ)
    → All (λ n. get (by_id ns) n.id ≡ some n) ns
    → derive_state_logs time ns ns next_event_id
      ≡ record { next_event_id = next_event_id; logs = [] }
unfolding derive_state_logs
derive_state_logs_self time ns id h = derive_nodes_self time (by_id ns) ns _ h
