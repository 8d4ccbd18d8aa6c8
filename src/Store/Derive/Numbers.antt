-- ===== src/Store/Derive/Numbers.antt =====
-- The ids of the lines of `deriveStateLogs`.
use raft_visualizer.Prelude.{
  nat_eq, string_eq, ◌==◌, not, ◌&&◌, ltb, ℕ, Option, none, some, List, [], ◌∷◌, String,
}
use raft_visualizer.JsMap.{get}
use raft_visualizer.Cluster.{Node, signature_eq, Level}
use raft_visualizer.Store.Logs.{Emitter}
use raft_visualizer.Store.Logs.Numbering.{
  IsNumbered, empty-IsNumbered, push_log-IsNumbered, if-IsNumbered,
}
use raft_visualizer.Store.Derive.{
  by_id, push_own, push_role, push_term, push_alive, push_commit, derive_node, derive_nodes,
  derive_state_logs,
}

module _ (n : ℕ) (time : String) (prev next : Node) {em : Emitter} (h : IsNumbered n em) where
  own :
      (event_type : String) (level : Level) → IsNumbered n (push_own event_type level time next em)
  own event_type level = push_log-IsNumbered n next.id next.id event_type next.term level time h

  push_role-IsNumbered : IsNumbered n (push_role time prev next em)
  unfolding push_role
  push_role-IsNumbered = if-IsNumbered n (prev.role == next.role) h (
      if-IsNumbered n ((next.role == "leader") && next.alive) (own _ _)
        (if-IsNumbered n ((next.role == "candidate") && next.alive) (own _ _) (own _ _)))

  push_term-IsNumbered : IsNumbered n (push_term time prev next em)
  unfolding push_term
  push_term-IsNumbered = if-IsNumbered n (ltb prev.term next.term) (own _ _) h

  push_alive-IsNumbered : IsNumbered n (push_alive time prev next em)
  unfolding push_alive
  push_alive-IsNumbered =
      if-IsNumbered n (prev.alive && not next.alive) (own _ _)
        (if-IsNumbered n (not prev.alive && next.alive) (own _ _) h)

  push_commit-IsNumbered : IsNumbered n (push_commit time prev next em)
  unfolding push_commit
  push_commit-IsNumbered = if-IsNumbered n (ltb prev.commit_index next.commit_index) (own _ _) h

derive_node-IsNumbered :
    (n : ℕ) (time : String) (prev : Option Node) (next : Node) (em : Emitter)
    → IsNumbered n em
    → IsNumbered n (derive_node time prev next em)
unfolding derive_node
derive_node-IsNumbered n time none next em h = h
derive_node-IsNumbered n time (some prev) next em h = push_commit-IsNumbered n time prev next (
    push_alive-IsNumbered n time prev next
      (push_term-IsNumbered n time prev next (push_role-IsNumbered n time prev next h)))

derive_nodes-IsNumbered :
    (n : ℕ) (time : String) (m : List (ℕ × Node)) (ns : List Node) (em : Emitter)
    → IsNumbered n em
    → IsNumbered n (derive_nodes time m ns em)
unfolding derive_nodes
derive_nodes-IsNumbered n time m [] em h = h
derive_nodes-IsNumbered n time m (x ∷ xs) em h =
    derive_nodes-IsNumbered n time m xs (derive_node time (get m x.id) x em)
      (derive_node-IsNumbered n time (get m x.id) x em h)

pub derive_state_logs-IsNumbered :
    (time : String) (prev next : List Node) (n : ℕ)
    → IsNumbered n (derive_state_logs time prev next n)
unfolding derive_state_logs
derive_state_logs-IsNumbered time prev next n =
    derive_nodes-IsNumbered n time (by_id prev) next _ (empty-IsNumbered n)
