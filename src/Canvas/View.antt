-- ===== src/Canvas/View.antt =====
-- What the canvas hands to React Flow, and what an edge shows (the markup of
-- frontend/src/components/ClusterView.jsx). A node's place on the circle is its index; the
-- coordinates of the places are floating point.
use raft_visualizer.Prelude.{
  ℕ, suc, ◌*◌, Bool, true, false, ◌&&◌, Option, some, List, [], ◌∷◌, map, length, String, ◌==◌,
  nat_eq, string_eq, if◌then◌else◌,
}
use raft_visualizer.Cluster.{Node, Message}
use raft_visualizer.Store.{Store}
use raft_visualizer.HintCard.{Hint}
use raft_visualizer.HintCard.View.{Guide, hint_card}
use raft_visualizer.NodeCard.View.{Card, card}
use raft_visualizer.Canvas.{Edge, flow_edges, edge_messages}

-- In tenths of a pixel.
abbrev pub follower_size : ℕ
follower_size = 720

abbrev pub leader_size : ℕ
leader_size = 864

-- `place` is the index of the center, which lies in the middle of the node's square.
pub record FlowNode : Type 0 where
  pub id : ℕ
  pub place : ℕ
  pub size : ℕ
  pub node : Node
  pub draggable : Bool

abbrev pub flow_node : ℕ → Node → FlowNode
flow_node i n = record {
  id = n.id;
  place = i;
  size = if (n.role == "leader") && n.alive then leader_size else follower_size;
  node = n;
  draggable = false;
}

abbrev pub flow_nodes_from : ℕ → List Node → List FlowNode
flow_nodes_from i [] = []
flow_nodes_from i (n ∷ nodes) = flow_node i n ∷ flow_nodes_from (suc i) nodes

unfoldable pub flow_nodes : List Node → List FlowNode
flow_nodes nodes = flow_nodes_from 0 nodes

abbrev pub msg_color : String → String
msg_color type =
    if type == "RequestVote"
    then "#253745"
    else if type == "RequestVoteReply"
    then "#4A5C6A"
    else if type == "AppendEntries"
    then "#9BA8AB"
    else if type == "AppendEntriesReply"
    then "#C2C8C7"
    else "#9BA8AB"

abbrev pub msg_duration : String → String
msg_duration type = if type == "AppendEntries" then "2.1s" else "1.8s"

-- A moving dot: the parts of its key, and its delay in hundredths of a second.
pub record Dot : Type 0 where
  pub key : (ℕ × ℕ) × (String × ℕ)
  pub fill : String
  pub duration : String
  pub begin : ℕ

abbrev pub dots : Edge → ℕ → List Message → List Dot
dots e i [] = []
dots e i (m ∷ ms) =
    record {
      key = ((e.source, e.target), (m.type, i));
      fill = msg_color m.type;
      duration = msg_duration m.type;
      begin = i * 24;
    }
    ∷ dots e (suc i) ms

pub record EdgeView : Type 0 where
  pub edge : Edge
  pub stroke : String
  pub dots : List Dot

unfoldable pub animated_edge : Bool → List Message → Edge → EdgeView
animated_edge hovered in_flight e = record {
  edge = e;
  stroke = if hovered then "#9BA8AB" else "#C2C8C7";
  dots = dots e 0 (edge_messages e in_flight);
}

-- The effect of `FitViewOnSignal`: the signal it remembers, and whether it asks for a fit.
unfoldable pub fit_on_signal : ℕ → ℕ → ℕ × Bool
fit_on_signal prev_signal signal =
    if signal == prev_signal then (prev_signal, false) else (signal, true)

pub record CanvasView : Type 0 where
  pub hint : Option Guide
  pub nodes : List FlowNode
  pub cards : List (Option Card)
  pub edges : List Edge
  pub node_count : ℕ

unfoldable pub canvas_view : Hint → Store → CanvasView
canvas_view h s = record {
  hint = hint_card h s.lang;
  nodes = flow_nodes s.nodes;
  cards = map (λ n. card s (some n)) s.nodes;
  edges = flow_edges s.nodes;
  node_count = length s.nodes;
}
