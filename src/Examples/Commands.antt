-- ===== src/Examples/Commands.antt =====
-- Clicks and commands of the user.
use raft_visualizer.Prelude.{
  nat_eq, IsSubset, ◌≡◌, ◌≢◌, ◌↔◌, refl, inl, true, false, none, some, [], ◌∷◌, arith,
}
use raft_visualizer.Cluster.{Node}
use raft_visualizer.Store.{Store, kill, partition_select, partition_confirm, select_node}
use raft_visualizer.NodeCard.{selectable}
use raft_visualizer.Canvas.{handle_action_click}
use raft_visualizer.Canvas.Clicks.{Acts, handle_action_click-Acts}
use raft_visualizer.Groups.{group_b, alive_ids, can_confirm_group_a}
use raft_visualizer.Groups.Split.{can_confirm_group_a_iff, can_confirm_group_a_stale, live_members}
use raft_visualizer.Socket.{Hook}
use raft_visualizer.Socket.Life.{blank}
use raft_visualizer.ControlPanel.{Event, Panel, handle}
use raft_visualizer.ControlPanel.Safety.{IsSafe, handle-IsSafe}
use raft_visualizer.MobileFab.{Fab}
use raft_visualizer.MobileFab.Taps.{
  commit, tap, is_offered, IsSafe as IsSafeTap, IsReady, tap-IsReady,
}
use raft_visualizer.LogPanel.{shown_node}
use raft_visualizer.LogPanel.Shown.{shown_node-select_node}
use raft_visualizer.Examples.Data.{page_in, page, panel_in, leader}

-- The socket is open, and a live node is killed.
abbrev online : Hook
online = record (blank (page_in (some kill) [])) { ws = some 1; open_sockets = 1 ∷ [] }

handle_action_click-Acts_example : Acts leader online (handle_action_click leader online.store)
unfolding selectable
handle_action_click-Acts_example = handle_action_click-Acts leader online refl refl

-- Node 0 is in Group A.
abbrev chosen : Store
chosen = page_in (some partition_select) (0 ∷ [])

chosen-IsSubset : IsSubset chosen.partition_group_a (alive_ids chosen)
chosen-IsSubset a h = ground arith

can_confirm_group_a_iff_example :
    (can_confirm_group_a chosen ≡ true) ↔ ((chosen.partition_group_a ≢ []) × (group_b chosen ≢ []))
can_confirm_group_a_iff_example =
    can_confirm_group_a_iff chosen (refl, (refl, tt)) (refl, tt) chosen-IsSubset

-- Node 2 died after it was chosen with node 0.
abbrev stale : Store
stale = page_in (some partition_select) (0 ∷ 2 ∷ [])

can_confirm_group_a_stale_example :
    (can_confirm_group_a stale ≡ false)
    × (can_confirm_group_a (record stale { partition_group_a = live_members stale }) ≡ true)
unfolding group_b
can_confirm_group_a_stale_example =
    can_confirm_group_a_stale stale (refl, (refl, tt)) (refl, (refl, tt)) (λ e. cc) (λ e. cc)
      (omega arith)

-- The partition {0} | {1} is sent.
handle-IsSafe_example :
    IsSafe
      (panel_in (some partition_confirm) (0 ∷ []))
      (handle Event.confirm_partition (panel_in (some partition_confirm) (0 ∷ [])))
handle-IsSafe_example =
    handle-IsSafe Event.confirm_partition (panel_in (some partition_confirm) (0 ∷ []))

abbrev confirming : Panel
confirming = panel_in (some partition_confirm) (0 ∷ [])

abbrev confirming_fab : Fab
confirming_fab = record { store = confirming.store; open_menu = true }

tap-IsReady_example :
    IsSafeTap confirming_fab (tap commit confirming_fab)
    × IsReady (tap commit confirming_fab).0.store
unfolding is_offered
tap-IsReady_example = tap-IsReady commit confirming_fab refl refl

abbrev selecting : Panel
selecting = panel_in (some partition_select) (0 ∷ [])

abbrev selecting_fab : Fab
selecting_fab = record { store = selecting.store; open_menu = true }

shown_node-select_node_example :
    (m : Node) × (shown_node (select_node none page) ≡ some m) × (m.id ≡ 0)
shown_node-select_node_example = shown_node-select_node page leader (inl refl) refl
