-- ===== src/Page/View.antt =====
-- What the live page shows (the markup of frontend/src/App.jsx, without its styles).
use raft_visualizer.Prelude.{ℕ, Bool, true, false, Option, none, some, [], String, find}
use raft_visualizer.Store.{Store, Lang, WsStatus}
use raft_visualizer.Fault.{Text}
use raft_visualizer.Texts.{app_copy, by_lang}
use raft_visualizer.LogPanel.{ws_status_label}
use raft_visualizer.LogPanel.View.{View, view}
use raft_visualizer.EventStream.{Stream, stream}
use raft_visualizer.ControlPanel.{Panel}
use raft_visualizer.ControlPanel.View.{Bar, bar}
use raft_visualizer.Drawer.{Drawer}
use raft_visualizer.Drawer.View.{DrawerView, drawer_view}
use raft_visualizer.Page.{MobilePage, header, canvas_height_for, is_live_leader}

pub record Pill : Type 0 where
  pub compact : Bool
  pub dot : WsStatus
  pub label : String

unfoldable pub status_pill : WsStatus → Lang → Bool → Pill
status_pill status lang compact = record {
  compact = compact;
  dot = status;
  label = ws_status_label status lang;
}

pub record MobileView : Type 0 where
  pub back : String
  pub title : String
  pub lang_toggle : String
  pub pill : Pill
  pub canvas_height : String
  pub fit_signal : ℕ
  pub drawer : DrawerView

-- The drawer has the page's mode.
unfoldable pub mobile_view : MobilePage → Drawer → Text → Store → MobileView
mobile_view p d cmd_text s = record {
  back = by_lang s.lang "返回" "Back";
  title = "Raft Consensus · By Odie Yang";
  lang_toggle = (app_copy s.lang).lang_toggle;
  pill = status_pill s.ws_status s.lang true;
  canvas_height = canvas_height_for p.drawer_mode;
  fit_signal = p.fit_signal;
  drawer =
      drawer_view (record d { mode = p.drawer_mode }) p.drawer_tab cmd_text
        (find is_live_leader s.nodes) (header s.nodes).alive (header s.nodes).total s;
}

-- The leader's statistic is its label, and the word for a node with the leader's id. A term of
-- `none` is shown as `—`.
pub record DesktopView : Type 0 where
  pub back : String
  pub title : String
  pub sub : String
  pub leader : Option (String × (String × ℕ))
  pub term : String × Option ℕ
  pub alive : String × (ℕ × ℕ)
  pub event_log_toggle : String
  pub lang_toggle : String
  pub pill : Pill
  pub control_panel : Bar
  pub log_panel : View
  pub event_stream : Option Stream

unfoldable pub desktop_view : Panel → DesktopView
desktop_view p =
    let s = p.store in
    let text = app_copy s.lang in
    let stats = header s.nodes in
    record {
      back = text.back;
      title = text.title;
      sub = text.sub;
      leader = elim stats.leader [ none ↦ none | some id ↦ some (text.leader, (text.node, id)) ];
      term = (text.term, stats.term);
      alive = (text.alive, (stats.alive, stats.total));
      event_log_toggle = text.event_log_toggle;
      lang_toggle = text.lang_toggle;
      pill = status_pill s.ws_status s.lang false;
      control_panel = bar p;
      log_panel = view none [] s;
      event_stream = elim s.event_log_open [ true ↦ some (stream false s) | false ↦ none ];
    }
