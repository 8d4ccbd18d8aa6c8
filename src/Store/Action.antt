-- ===== src/Store/Action.antt =====
-- The store's interface: every call that components and hooks make of it, and runs of calls
-- (frontend/src/store/clusterStore.js).
use raft_visualizer.Prelude.{ℕ, Bool, Option, List, [], ◌∷◌, String}
use raft_visualizer.Cluster.{Payload}
use raft_visualizer.Store.{
  Store, WsStatus, ActionMode, select_node, set_lang, toggle_lang, toggle_event_log, begin_action,
  cancel_action, toggle_partition_group_a_node, go_partition_confirm, set_active_partition_groups,
  clear_active_partition_groups, set_ws_status, set_send_fault, set_send_client_command,
}
use raft_visualizer.Store.Update.{apply_state_update}

pub data Action : Type 0 where
  update : String → String → Option Payload → Action
  select : Option ℕ → Action
  choose_lang : String → Action
  switch_lang switch_event_log : Action
  begin : ActionMode → Action
  cancel : Action
  toggle_node : ℕ → Action
  confirm : Action
  groups : Option (List (Option (List ℕ))) → Action
  clear_groups : Action
  ws : WsStatus → Action
  fault_sender command_sender : Bool → Action

unfoldable pub step : Action → Store → Store
step (update t1 t2 payload) s = apply_state_update t1 t2 payload s
step (select id) s = select_node id s
step (choose_lang l) s = set_lang l s
step switch_lang s = toggle_lang s
step switch_event_log s = toggle_event_log s
step (begin mode) s = begin_action mode s
step cancel s = cancel_action s
step (toggle_node id) s = toggle_partition_group_a_node id s
step confirm s = go_partition_confirm s
step (groups gs) s = set_active_partition_groups gs s
step clear_groups s = clear_active_partition_groups s
step (ws status) s = set_ws_status status s
step (fault_sender fn) s = set_send_fault fn s
step (command_sender fn) s = set_send_client_command fn s

unfoldable pub run : List Action → Store → Store
run [] s = s
run (a ∷ as') s = run as' (step a s)
