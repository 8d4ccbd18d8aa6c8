-- ===== src/Canvas/Edges.antt =====
-- The edges of the canvas.
use raft_visualizer.Prelude.{
  ◌≡◌, ◌≢◌, ◌↔◌, inl, inr, Bool, true, not, ◌&&◌, some, List, map, arith, ◌==◌, nat_eq, filter,
  find, Option-cases, Occurs, Occurs-map, Occurs-map_of, Occurs-filter, Occurs-filter_of,
}
use raft_visualizer.Cluster.{Node}
use raft_visualizer.Canvas.{Edge, flow_edges, is_leader}

abbrev edge : Node → Node → Edge
edge leader n = record { source = leader.id; target = n.id }

-- The edge goes from the first live leader to a live node of another id.
abbrev pub IsDrawn : Edge → List Node → Type 0
IsDrawn e nodes =
    (leader : Node) × (n : Node) × (find is_leader nodes ≡ some leader)
    × Occurs n nodes
    × (n.alive ≡ true)
    × (n.id ≢ leader.id)
    × (e ≡ edge leader n)

abbrev other : Node → Node → Bool
other leader n = not (n.id == leader.id) && n.alive

flow_edges-some :
    (nodes : List Node) (leader : Node)
    → find is_leader nodes ≡ some leader
    → flow_edges nodes ≡ map (edge leader) (filter (other leader) nodes)
unfolding flow_edges
flow_edges-some nodes leader h = rw (h, flow_edges)

sound : (e : Edge) (nodes : List Node) → Occurs e (flow_edges nodes) → IsDrawn e nodes
unfolding flow_edges
sound e nodes o = elim (Option-cases (find is_leader nodes)) [
  | inl h ↦ absurd (rw (h, flow_edges) at o)
  | inr (leader, h) ↦
      let (n, at, eq) = Occurs-map (edge leader) e _ (rw (flow_edges-some nodes leader h) at o) in
      let (at', test) = Occurs-filter (other leader) n nodes at in
      (leader, n, h, at', ground arith, ground arith, eq)
]

complete : (e : Edge) (nodes : List Node) → IsDrawn e nodes → Occurs e (flow_edges nodes)
complete e nodes (leader, n, h, at, live, ne, eq) =
    rw (flow_edges-some nodes leader h, eq)
      (Occurs-map_of (edge leader) n _ (Occurs-filter_of (other leader) n nodes at (ground arith)))

-- An edge is drawn exactly if it goes from the first live leader to a live node of another id.
pub Occurs-flow_edges :
    (e : Edge) (nodes : List Node) → Occurs e (flow_edges nodes) ↔ IsDrawn e nodes
Occurs-flow_edges e nodes = (sound e nodes, complete e nodes)
