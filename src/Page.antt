-- ===== src/Page.antt =====
-- The page of the live demo: its header, and the mobile drawer with the refit of the canvas
-- (frontend/src/App.jsx).
pub mod Refit
pub mod View
pub mod App
use raft_visualizer.Prelude.{
  ℕ, suc, ◌+◌, Bool, true, false, not, ◌&&◌, Option, none, some, List, [], ◌∷◌, String, ◌==◌,
  nat_eq, string_eq, if◌then◌else◌, find, filter, length, includes,
}
use raft_visualizer.Cluster.{Node}
use raft_visualizer.Drawer.{DrawerMode, collapsed, half, full}

-- The header's statistics.
pub record Header : Type 0 where
  pub leader : Option ℕ
  pub term : Option ℕ
  pub alive : ℕ
  pub total : ℕ

abbrev pub is_live_leader : Node → Bool
is_live_leader n = (n.role == "leader") && n.alive

unfoldable pub header : List Node → Header
header nodes = record {
  leader = elim (find is_live_leader nodes) [ none ↦ none | some l ↦ some l.id ];
  term = elim (find is_live_leader nodes) [ none ↦ none | some l ↦ some l.term ];
  alive = length (filter (λ n. n.alive) nodes);
  total = length nodes;
}

pub data DrawerTab : Type 0 where
  node event tutorial : DrawerTab

-- The state of the mobile page. `fit_timer` is the ref, `timers` are those that the browser has
-- not fired.
pub record MobilePage : Type 0 where
  pub is_mobile : Bool
  pub drawer_mode : DrawerMode
  pub drawer_tab : DrawerTab
  pub fit_signal : ℕ
  pub fit_timer : Option ℕ
  pub timers : List ℕ
  pub next_timer : ℕ

-- The style that gives the canvas its height.
unfoldable pub canvas_height_for : DrawerMode → String
canvas_height_for full = "calc(100vh - 40px - 85vh)"
canvas_height_for half = "calc(100vh - 40px - 50vh)"
canvas_height_for collapsed = "calc(100vh - 40px - 40px)"

abbrev pub cleared : Option ℕ → List ℕ → List ℕ
cleared none ts = ts
cleared (some k) ts = filter (λ t. not (t == k)) ts

unfoldable pub schedule_mobile_refit : MobilePage → MobilePage
schedule_mobile_refit p = record p {
  timers = p.next_timer ∷ cleared p.fit_timer p.timers;
  fit_timer = some p.next_timer;
  next_timer = suc p.next_timer;
}

-- The callback of a refit timer. The ref is left as it is.
unfoldable pub refit_due : ℕ → MobilePage → MobilePage
refit_due k p =
    if includes p.timers k
    then record p { timers = filter (λ t. not (t == k)) p.timers; fit_signal = p.fit_signal + 1 }
    else p

-- The effect on a change of the screen or of the drawer.
unfoldable pub refit_effect : MobilePage → MobilePage
refit_effect p = if not p.is_mobile then p else schedule_mobile_refit p

-- The callbacks that the canvas and the drawer are given, without the effect that follows.
unfoldable pub on_node_selected : MobilePage → MobilePage
on_node_selected p = schedule_mobile_refit (record p { drawer_tab = node; drawer_mode = half })

unfoldable pub on_pane_tap : MobilePage → MobilePage
on_pane_tap p = record p { drawer_mode = collapsed }

pub data Event : Type 0 where
  node_selected pane_tapped effect : Event
  mode_changed : DrawerMode → Event
  tab_changed : DrawerTab → Event
  media_changed : Bool → Event
  due : ℕ → Event

unfoldable pub handle : Event → MobilePage → MobilePage
handle node_selected p = on_node_selected p
handle pane_tapped p = on_pane_tap p
handle effect p = refit_effect p
handle (mode_changed m) p = record p { drawer_mode = m }
handle (tab_changed t) p = record p { drawer_tab = t }
handle (media_changed mobile) p = record p { is_mobile = mobile }
handle (due k) p = refit_due k p

unfoldable pub run : List Event → MobilePage → MobilePage
run [] p = p
run (e ∷ es) p = run es (handle e p)

unfoldable pub start : Bool → MobilePage
start mobile = record {
  is_mobile = mobile;
  drawer_mode = collapsed;
  drawer_tab = node;
  fit_signal = 0;
  fit_timer = none;
  timers = [];
  next_timer = 0;
}
