-- ===== src/Store.antt =====
-- The store of the page (frontend/src/store/clusterStore.js): its fields, the module's two
-- counters and the language kept in `localStorage`, and every action but `applyStateUpdate`, which
-- is in Store/Update.
pub mod Logs
pub mod Diff
pub mod Derive
pub mod Update
pub mod Action
pub mod Invariant
pub mod Keys
use raft_visualizer.Prelude.{
  ℕ, Bool, true, false, not, Option, none, some, List, [], ◌∷◌, ◌++◌, String, ◌==◌, string_eq,
  nat_eq, if◌then◌else◌, includes, filter,
}
use raft_visualizer.Cluster.{Node, Message, EventLog}

pub data WsStatus : Type 0 where
  connecting connected reconnecting : WsStatus

pub data Lang : Type 0 where
  en zh : Lang

-- What a click on the canvas does. The store calls the absence of a mode `null`.
pub data ActionMode : Type 0 where
  kill restart heal cmd partition_select partition_confirm : ActionMode

-- The two functions that the WebSocket hook injects are kept as whether they are there: all their
-- state is the hook's.
pub record Store : Type 0 where
  pub nodes : List Node
  pub in_flight : List Message
  pub event_logs : List EventLog
  pub selected_node_id : Option ℕ
  pub ws_status : WsStatus
  pub lang : Lang
  pub event_log_open : Bool
  pub action_mode : Option ActionMode
  pub partition_group_a : List ℕ
  pub active_partition_groups : List (List ℕ)
  pub send_fault : Bool
  pub send_client_command : Bool
  pub next_event_id : ℕ
  pub next_pulse_seq : ℕ
  pub stored_lang : Option String

-- The language that a page starts with.
pub initial_lang : Option String → Lang
initial_lang none = en
initial_lang (some s) = if s == "zh" then zh else en

pub init : Option String → Store
unfolding initial_lang
init stored = record {
  nodes = [];
  in_flight = [];
  event_logs = [];
  selected_node_id = none;
  ws_status = connecting;
  lang = initial_lang stored;
  event_log_open = true;
  action_mode = none;
  partition_group_a = [];
  active_partition_groups = [];
  send_fault = false;
  send_client_command = false;
  next_event_id = 0;
  next_pulse_seq = 1;
  stored_lang = stored;
}

unfoldable pub select_node : Option ℕ → Store → Store
select_node id s = record s { selected_node_id = id }

-- The text that stands for a language in `localStorage` and in `setLang`.
abbrev pub lang_text : Lang → String
lang_text en = "en"
lang_text zh = "zh"

abbrev store_lang : Lang → Store → Store
store_lang l s = record s { stored_lang = some (lang_text l); lang = l }

-- Any text but "en" chooses Chinese.
pub set_lang : String → Store → Store
set_lang l s = store_lang (if l == "en" then en else zh) s

abbrev other_lang : Lang → Lang
other_lang en = zh
other_lang zh = en

unfoldable pub toggle_lang : Store → Store
toggle_lang s = store_lang (other_lang s.lang) s

pub toggle_event_log : Store → Store
toggle_event_log s = record s { event_log_open = not s.event_log_open }

-- Both branches of `beginAction` set the same fields.
unfoldable pub begin_action : ActionMode → Store → Store
begin_action mode s = record s { action_mode = some mode; partition_group_a = [] }

unfoldable pub cancel_action : Store → Store
cancel_action s = record s { action_mode = none; partition_group_a = [] }

-- Whether a mode is `partition-select`.
abbrev pub is_selecting : Option ActionMode → Bool
is_selecting (some partition_select) = true
is_selecting _ = false

abbrev pub toggled : List ℕ → ℕ → List ℕ
toggled group id = if includes group id then filter (λ x. not (x == id)) group else group ++ id ∷ []

unfoldable pub toggle_partition_group_a_node : ℕ → Store → Store
toggle_partition_group_a_node id s =
    if is_selecting s.action_mode
    then record s { partition_group_a = toggled s.partition_group_a id }
    else s

unfoldable pub go_partition_confirm : Store → Store
go_partition_confirm s =
    if is_selecting s.action_mode then record s { action_mode = some partition_confirm } else s

-- The elements of the argument that are arrays; `none` stands for an element that is none.
abbrev arrays : List (Option (List ℕ)) → List (List ℕ)
arrays [] = []
arrays (none ∷ gs) = arrays gs
arrays (some g ∷ gs) = g ∷ arrays gs

unfoldable pub set_active_partition_groups : Option (List (Option (List ℕ))) → Store → Store
set_active_partition_groups none s = record s { active_partition_groups = [] }
set_active_partition_groups (some gs) s = record s { active_partition_groups = arrays gs }

unfoldable pub clear_active_partition_groups : Store → Store
clear_active_partition_groups s = record s { active_partition_groups = [] }

unfoldable pub set_ws_status : WsStatus → Store → Store
set_ws_status status s = record s { ws_status = status }

unfoldable pub set_send_fault : Bool → Store → Store
set_send_fault fn s = record s { send_fault = fn }

unfoldable pub set_send_client_command : Bool → Store → Store
set_send_client_command fn s = record s { send_client_command = fn }
