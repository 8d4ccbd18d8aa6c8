-- ===== src/Store/Derive.antt =====
-- `deriveStateLogs`: the lines that a change of the nodes' state causes
-- (frontend/src/store/clusterStore.js).
pub mod Numbers
pub mod Quiet
use Prim.Native.String.{◌++◌ as join}
use raft_visualizer.Prelude.{
  ℕ, Bool, ◌&&◌, not, Option, none, some, List, [], ◌∷◌, map, String, ltb, ◌==◌, string_eq, nat_eq,
  if◌then◌else◌,
}
use raft_visualizer.JsMap.{get, set_all}
use raft_visualizer.Cluster.{Node, Level}
use raft_visualizer.Store.Logs.{Emitter, push_log}

-- `new Map(nodes.map(n => [n.id, n]))`
abbrev pub by_id : List Node → List (ℕ × Node)
by_id nodes = set_all [] (map (λ n. (n.id, n)) nodes)

-- A line about one node.
abbrev pub push_own : String → Level → String → Node → Emitter → Emitter
push_own event_type level time next = push_log next.id next.id event_type next.term level time

pub push_role : String → Node → Node → Emitter → Emitter
push_role time prev next em =
    if prev.role == next.role
    then em
    else if (next.role == "leader") && next.alive
    then push_own "LeaderElected" Level.active time next em
    else if (next.role == "candidate") && next.alive
    then push_own "ElectionTimeout" Level.warn time next em
    else push_own (join "Role:" next.role) Level.normal time next em

pub push_term : String → Node → Node → Emitter → Emitter
push_term time prev next em =
    if ltb prev.term next.term then push_own "TermAdvanced" Level.normal time next em else em

pub push_alive : String → Node → Node → Emitter → Emitter
push_alive time prev next em =
    if prev.alive && not next.alive
    then push_own "NodeCrash" Level.warn time next em
    else if not prev.alive && next.alive
    then push_own "NodeRestarted" Level.normal time next em
    else em

pub push_commit : String → Node → Node → Emitter → Emitter
push_commit time prev next em =
    if ltb prev.commit_index next.commit_index
    then push_own "Committed" Level.active time next em
    else em

-- The body of the loop; `none` is a node that was not there before.
pub derive_node : String → Option Node → Node → Emitter → Emitter
unfolding push_role push_term push_alive push_commit
derive_node time none next em = em
derive_node time (some prev) next em =
    push_commit time prev next
      (push_alive time prev next (push_term time prev next (push_role time prev next em)))

pub derive_nodes : String → List (ℕ × Node) → List Node → Emitter → Emitter
derive_nodes time prev_by_id [] em = em
derive_nodes time prev_by_id (next ∷ rest) em =
    derive_nodes time prev_by_id rest (derive_node time (get prev_by_id next.id) next em)

pub derive_state_logs : String → List Node → List Node → ℕ → Emitter
unfolding derive_node derive_nodes
derive_state_logs time prev_nodes next_nodes next_event_id =
    derive_nodes time (by_id prev_nodes) next_nodes
      (record { next_event_id = next_event_id; logs = [] })
