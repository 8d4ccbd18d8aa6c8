-- ===== src/Drawer/View.antt =====
-- What the mobile drawer shows (the markup of frontend/src/components/MobileDrawer.jsx).
use raft_visualizer.Prelude.{ℕ, Bool, true, false, Option, none, some, List, [], ◌∷◌, String}
use raft_visualizer.Cluster.{Node}
use raft_visualizer.Store.{Store}
use raft_visualizer.Fault.{Text}
use raft_visualizer.Texts.{by_lang}
use raft_visualizer.Texts.Control.{control_copy}
use raft_visualizer.Texts.Tutorial.{Tutorial, tutorial}
use raft_visualizer.LogPanel.View.{CommandInput, View, view}
use raft_visualizer.EventStream.{Stream, stream}
use raft_visualizer.Drawer.{Drawer, DrawerMode, collapsed, half, full, current_height}
use raft_visualizer.Page.{DrawerTab}

-- The handle's text has the leader's id and term, `—` for none, and the two counts.
pub record Handle : Type 0 where
  pub leader_id : Option ℕ
  pub leader_term : Option ℕ
  pub alive_count : ℕ
  pub total_count : ℕ
  pub arrow_up : Bool

pub data TabBody : Type 0 where
  event_stream : Stream → TabBody
  mobile_tutorial : Tutorial → TabBody
  log_panel : View → TabBody

-- A tab's label and whether it is the active one.
pub record Content : Type 0 where
  pub tabs : List (String × Bool)
  pub body : TabBody

pub record DrawerView : Type 0 where
  pub is_dragging : Bool
  pub height : ℕ
  pub handle : Handle
  pub content : Option Content

abbrev pub is_collapsed : DrawerMode → Bool
is_collapsed collapsed = true
is_collapsed half = false
is_collapsed full = false

abbrev pub is_some : Option ℕ → Bool
is_some none = false
is_some (some h) = true

abbrev pub is_tab : DrawerTab → DrawerTab → Bool
is_tab DrawerTab.node DrawerTab.node = true
is_tab DrawerTab.event DrawerTab.event = true
is_tab DrawerTab.tutorial DrawerTab.tutorial = true
is_tab _ _ = false

-- The command line of the mobile page.
abbrev pub command_input : CommandInput
command_input = record { placeholder = some "type a command..."; send_label = some "send" }

abbrev pub tab_body : DrawerTab → Text → Store → TabBody
tab_body DrawerTab.event cmd_text s = event_stream (stream true s)
tab_body DrawerTab.tutorial cmd_text s = mobile_tutorial (tutorial (control_copy s.lang))
tab_body DrawerTab.node cmd_text s = log_panel (view (some command_input) cmd_text s)

abbrev pub content : DrawerTab → Text → Store → Content
content tab cmd_text s = record {
  tabs =
      ("NODE", is_tab tab DrawerTab.node)
      ∷ ("EVENT LOG", is_tab tab DrawerTab.event)
      ∷ (by_lang s.lang "教程" "TUTORIAL", is_tab tab DrawerTab.tutorial)
      ∷ [];
  body = tab_body tab cmd_text s;
}

abbrev pub handle_of : DrawerMode → Option Node → ℕ → ℕ → Handle
handle_of mode leader alive_count total_count = record {
  leader_id = elim leader [ none ↦ none | some l ↦ some l.id ];
  leader_term = elim leader [ none ↦ none | some l ↦ some l.term ];
  alive_count = alive_count;
  total_count = total_count;
  arrow_up = is_collapsed mode;
}

unfoldable pub drawer_view : Drawer → DrawerTab → Text → Option Node → ℕ → ℕ → Store → DrawerView
drawer_view d tab cmd_text leader alive_count total_count s = record {
  is_dragging = is_some d.drag_height;
  height = current_height d;
  handle = handle_of d.mode leader alive_count total_count;
  content = elim (is_collapsed d.mode) [ true ↦ none | false ↦ some (content tab cmd_text s) ];
}
