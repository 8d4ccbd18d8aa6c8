-- ===== src/Examples/Data.antt =====
-- A page with three nodes, and the payloads that change it.
use raft_visualizer.Prelude.{ℕ, Bool, true, false, Option, none, some, List, [], ◌∷◌, String}
use raft_visualizer.Cluster.{RawEntry, Status, RawNode, Node, Message, Payload, cast}
use raft_visualizer.Store.{Store, ActionMode, connected, en}
use raft_visualizer.ControlPanel.{Panel}
use raft_visualizer.Socket.{Hook}

abbrev pub status : ℕ → String → ℕ → Bool → Status
status id role term alive = record {
  id = id;
  role = role;
  term = term;
  alive = alive;
  voted_for = cast 0;
  commit_index = 1;
  last_applied = 1;
}

abbrev pub entry : RawEntry
entry = record { index = 1; term = 1; command = "x=1" }

abbrev pub raw : ℕ → String → ℕ → Bool → RawNode
raw id role term alive = record { status = status id role term alive; log = some (entry ∷ []) }

abbrev pub node : ℕ → String → ℕ → Bool → Node
node id role term alive = record {
  status = status id role term alive;
  pulse_seq = id;
  log = record { raw = entry; committed = true } ∷ [];
}

abbrev pub append : ℕ → Message
append to = record { from = 0; to = to; type = "AppendEntries"; term = 1 }

-- The leader 0, the follower 1 and the dead node 2.
abbrev pub leader : Node
leader = node 0 "leader" 1 true

abbrev pub follower : Node
follower = node 1 "follower" 1 true

abbrev pub dead : Node
dead = node 2 "follower" 1 false

abbrev pub page_in : Option ActionMode → List ℕ → Store
page_in mode group = record {
  nodes = leader ∷ follower ∷ dead ∷ [];
  in_flight = append 1 ∷ [];
  event_logs = [];
  selected_node_id = none;
  ws_status = connected;
  lang = en;
  event_log_open = true;
  action_mode = mode;
  partition_group_a = group;
  active_partition_groups = [];
  send_fault = true;
  send_client_command = true;
  next_event_id = 0;
  next_pulse_seq = 5;
  stored_lang = none;
}

abbrev pub page : Store
page = page_in none []

-- The follower has become the leader of term 2, and the dead node is back.
abbrev pub elected : Payload
elected = record {
  nodes = some (raw 0 "follower" 2 true ∷ raw 1 "leader" 2 true ∷ raw 2 "follower" 1 true ∷ []);
  in_flight = some (append 1 ∷ append 1 ∷ append 2 ∷ []);
}

abbrev pub earlier : Payload
earlier = record { nodes = some (raw 0 "leader" 1 true ∷ []); in_flight = none }

abbrev pub panel_in : Option ActionMode → List ℕ → Panel
panel_in mode group = record {
  store = page_in mode group;
  cmd_text = 32 ∷ 120 ∷ [];
  tutorial_open = false;
}

-- A hook on a mobile screen whose socket 3 is open.
abbrev pub hook : Hook
hook = record {
  store = page;
  ws = some 3;
  timer = none;
  disposed = false;
  is_mobile = true;
  flush_timer = none;
  pending_payload = none;
  open_sockets = 3 ∷ [];
  unclosed = 3 ∷ [];
  timers = [];
  flush_timers = [];
  next_socket = 4;
  next_timer = 7;
}
