-- ===== src/ControlPanel/Flow.antt =====
-- The two steps of a partition on the desktop page: the bar and the canvas act on one store, while
-- payloads arrive (frontend/src/components/ControlPanel.jsx and ClusterView.jsx).
use raft_visualizer.Prelude.{
  ◌≡◌, ◌≢◌, refl, Bool, true, false, ◌&&◌, Option, none, some, [], String, arith,
}
use raft_visualizer.Cluster.{Node, Payload}
use raft_visualizer.Store.{
  Store, ActionMode, kill, restart, heal, cmd, partition_select, partition_confirm, begin_action,
  cancel_action, go_partition_confirm, toggle_partition_group_a_node, clear_active_partition_groups,
  set_active_partition_groups,
}
use raft_visualizer.Store.Update.{apply_state_update}
use raft_visualizer.Groups.{is_empty, remember_groups}
use raft_visualizer.Canvas.{handle_action_click, click_in}
use raft_visualizer.ControlPanel.{
  Panel, Event, press_outside, press_escape, submit, type, confirm_a, confirm_partition, cancel,
  start, tutorial, close_tutorial, handle, is_offered, is_mode, on_down, on_escape, submit_cmd,
  confirm_partition_a, send_partition, start_action, toggle_tutorial,
}

-- The page after a click on a node of the canvas that the mode handles.
abbrev pub clicked : Node → Panel → Panel
clicked node p = record p { store = (handle_action_click node p.store).store }

-- One step of the page: an offered event at the bar, a click on a node, or a payload.
pub data Step (p : Panel) : Panel → Type 0 where
  at_bar : (e : Event) → is_offered e p ≡ true → Step p (handle e p).0
  at_node : (node : Node) → Step p (clicked node p)
  updated :
      (t1 t2 : String) (payload : Option Payload)
      → Step p (record p { store = apply_state_update t1 t2 payload p.store })

pub data Reaches (p : Panel) : Panel → Type 0 where
  here : Reaches p p
  next : {q r : Panel} → Reaches p q → Step q r → Reaches p r

abbrev is_confirming : Store → Bool
is_confirming s = is_mode s.action_mode partition_confirm && is_empty s.partition_group_a

-- The second step has a Group A.
abbrev pub IsReady : Panel → Type 0
IsReady p = is_confirming p.store ≡ false

handle-IsReady :
    (e : Event) (p : Panel) → is_offered e p ≡ true → IsReady p → IsReady (handle e p).0
unfolding handle is_offered on_down on_escape submit_cmd confirm_partition_a send_partition
    start_action toggle_tutorial cancel_action begin_action go_partition_confirm remember_groups
    set_active_partition_groups
handle-IsReady press_outside p o h = ground arith
handle-IsReady press_escape p o h = ground arith
handle-IsReady submit p o h = ground arith
handle-IsReady confirm_a p o h = ground arith
handle-IsReady confirm_partition p o h = ground arith
handle-IsReady (start partition_confirm) p o h = cc
handle-IsReady (start kill) p o h = ground arith
handle-IsReady (start restart) p o h = ground arith
handle-IsReady (start heal) p o h = ground arith
handle-IsReady (start cmd) p o h = ground arith
handle-IsReady (start partition_select) p o h = ground arith
handle-IsReady tutorial p o h = ground arith
handle-IsReady cancel p o h = refl
handle-IsReady (type t) p o h = h
handle-IsReady close_tutorial p o h = h

click_in-ready :
    (m : Option ActionMode) (node : Node) (s : Store)
    → s.action_mode ≡ m
    → is_confirming s ≡ false
    → is_confirming (click_in m node s).store ≡ false
unfolding cancel_action toggle_partition_group_a_node clear_active_partition_groups
click_in-ready none node s e h = h
click_in-ready (some kill) node s e h = ground arith
click_in-ready (some restart) node s e h = ground arith
click_in-ready (some heal) node s e h = ground arith
click_in-ready (some cmd) node s e h = h
click_in-ready (some partition_select) node s e h = ground arith
click_in-ready (some partition_confirm) node s e h = h

click-IsReady : (node : Node) (p : Panel) → IsReady p → IsReady (clicked node p)
unfolding handle_action_click
click-IsReady node p h = click_in-ready p.store.action_mode node p.store refl h

Step-IsReady : {p q : Panel} → Step p q → IsReady p → IsReady q
unfolding apply_state_update
Step-IsReady {p} (at_bar e offered) h = handle-IsReady e p offered h
Step-IsReady {p} (at_node node) h = click-IsReady node p h
Step-IsReady (updated t1 t2 payload) h = h

Reaches-IsReady : {p q : Panel} → Reaches p q → IsReady p → IsReady q
Reaches-IsReady here h = h
Reaches-IsReady (next path last) h = Step-IsReady last (Reaches-IsReady path h)

not_empty :
    (s : Store)
    → is_confirming s ≡ false
    → s.action_mode ≡ some partition_confirm
    → s.partition_group_a ≢ []
not_empty s h e empty = cc

-- From a page in no mode, whatever the user does at the bar and on the canvas and whatever payloads
-- arrive: in the second step of a partition Group A has a node.
pub Reaches-confirming :
    (p q : Panel)
    → p.store.action_mode ≡ none
    → Reaches p q
    → q.store.action_mode ≡ some partition_confirm
    → q.store.partition_group_a ≢ []
Reaches-confirming p q idle path confirming =
    not_empty q.store (Reaches-IsReady path (ground (arith, idle))) confirming
