-- ===== src/Canvas.antt =====
-- The canvas: what a click on a node or on the pane does, and which edges are drawn
-- (frontend/src/components/ClusterView.jsx).
pub mod Clicks
pub mod Edges
pub mod Messages
pub mod Fit
pub mod View
use raft_visualizer.Prelude.{
  ℕ, Bool, true, false, not, ◌&&◌, ◌||◌, Option, none, some, List, [], ◌∷◌, ◌++◌, map, String, ◌==◌,
  nat_eq, string_eq, if◌then◌else◌, includes, filter, find, slice_last,
}
use raft_visualizer.Cluster.{Node, Message}
use raft_visualizer.Store.{
  Store, ActionMode, kill, restart, heal, cmd, partition_select, partition_confirm, select_node,
  cancel_action, toggle_partition_group_a_node, clear_active_partition_groups,
}
use raft_visualizer.Fault.{Fault, FaultAction, fault}

-- `set.add(id)` for each id of a group.
abbrev pub add_group : List ℕ → List ℕ → List ℕ
add_group set [] = set
add_group set (id ∷ group) = add_group (if includes set id then set else set ++ id ∷ []) group

abbrev pub add_groups : List ℕ → List (List ℕ) → List ℕ
add_groups set [] = set
add_groups set (group ∷ groups) = add_groups (add_group set group) groups

pub partitioned_set : List (List ℕ) → List ℕ
partitioned_set groups = add_groups [] groups

-- The store after a call, the commands that it handed to `sendFault`, and whether it returned `true`.
-- The hook's `sendFault` drops a command while no socket is open.
pub record Outcome : Type 0 where
  pub store : Store
  pub handed : List Fault
  pub handled : Bool

abbrev pub outcome : Store → List Fault → Bool → Outcome
outcome s handed handled = record { store = s; handed = handed; handled = handled }

-- `sendFault?.(...)`: a call of the function that the hook has injected, if there is one.
abbrev pub call_send_fault : Store → Fault → List Fault
call_send_fault s f = if s.send_fault then f ∷ [] else []

abbrev pub click_kill : Node → Store → Outcome
click_kill node s =
    if not node.alive
    then outcome s [] true
    else outcome (cancel_action s) (call_send_fault s (fault FaultAction.kill (node.id ∷ []) [] []))
        true

abbrev pub click_restart : Node → Store → Outcome
click_restart node s =
    if node.alive
    then outcome s [] true
    else outcome (cancel_action s)
        (call_send_fault s (fault FaultAction.restart (node.id ∷ []) [] [])) true

abbrev pub click_heal : Node → Store → Outcome
click_heal node s =
    if not (not node.alive || includes (partitioned_set s.active_partition_groups) node.id)
    then outcome s [] true
    else if not node.alive
    then outcome (cancel_action s)
        (call_send_fault s (fault FaultAction.restart (node.id ∷ []) [] [])) true
    else outcome (cancel_action (clear_active_partition_groups s))
        (call_send_fault s (fault FaultAction.heal [] [] [])) true

abbrev pub click_select : Node → Store → Outcome
click_select node s =
    outcome (if node.alive then toggle_partition_group_a_node node.id s else s) [] true

-- By the mode; the modes that no test names are handled by the last line.
abbrev pub click_in : Option ActionMode → Node → Store → Outcome
click_in (some partition_select) node s = click_select node s
click_in (some kill) node s = click_kill node s
click_in (some restart) node s = click_restart node s
click_in (some heal) node s = click_heal node s
click_in (some partition_confirm) node s = outcome s [] true
click_in (some cmd) node s = outcome s [] false
click_in none node s = outcome s [] false

unfoldable pub handle_action_click : Node → Store → Outcome
handle_action_click node s = click_in s.action_mode node s

-- The handler of a click on the node with this id; `handled` tells here whether the node was
-- selected, and `onNodeSelected` called.
pub on_node_click : ℕ → Store → Outcome
unfolding handle_action_click
on_node_click id s = elim (find (λ (n : Node). n.id == id) s.nodes) [
  | none ↦ outcome s [] false
  | some node ↦
      let done = handle_action_click node s in
      if done.handled
      then outcome done.store done.handed false
      else outcome (select_node (some id) done.store) done.handed true
]

-- The handler of a click on the pane.
pub on_pane_click : Store → Store
on_pane_click s = elim s.action_mode [ none ↦ select_node none s | some _ ↦ s ]

abbrev pub is_leader : Node → Bool
is_leader n = n.alive && (n.role == "leader")

pub record Edge : Type 0 where
  pub source : ℕ
  pub target : ℕ

-- From the leader to every other live node.
pub flow_edges : List Node → List Edge
flow_edges nodes = elim (find is_leader nodes) [
  | none ↦ []
  | some leader ↦
      map (λ (n : Node). record { source = leader.id; target = n.id })
        (filter (λ n. not (n.id == leader.id) && n.alive) nodes)
]

-- The messages that an edge animates: the last AppendEntries on it, if there is one.
pub edge_messages : Edge → List Message → List Message
edge_messages e in_flight = slice_last 1 (
    filter (λ m. (m.from == e.source) && ((m.to == e.target) && (m.type == "AppendEntries")))
      in_flight)
