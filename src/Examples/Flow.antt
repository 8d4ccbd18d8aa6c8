-- ===== src/Examples/Flow.antt =====
-- The two steps of a partition on the desktop page.
use raft_visualizer.Prelude.{◌∷◌, nat_eq, ◌≡◌, ◌≢◌, refl, true, none, some, []}
use raft_visualizer.Store.{
  partition_select, partition_confirm, begin_action, go_partition_confirm,
  toggle_partition_group_a_node,
}
use raft_visualizer.Groups.{can_confirm_group_a}
use raft_visualizer.Canvas.{handle_action_click}
use raft_visualizer.ControlPanel.{
  Panel, Event, handle, is_offered, start_action, confirm_partition_a,
}
use raft_visualizer.ControlPanel.Flow.{
  Reaches, clicked, Reaches-confirming, at_bar, at_node, here, next,
}
use raft_visualizer.ControlPanel.{send_partition}
use raft_visualizer.ControlPanel.Partition.{Splits, send_partition-Splits}
use raft_visualizer.Groups.{group_b, partition_fault}
use raft_visualizer.Examples.Data.{page_in, panel_in, leader}

abbrev idle : Panel
idle = panel_in none []

abbrev selecting : Panel
selecting = (handle (Event.start partition_select) idle).0

abbrev chosen : Panel
chosen = clicked leader selecting

abbrev confirming : Panel
confirming = (handle Event.confirm_a chosen).0

confirm_a-offered : is_offered Event.confirm_a chosen ≡ true
unfolding is_offered handle start_action begin_action handle_action_click
    toggle_partition_group_a_node can_confirm_group_a
confirm_a-offered = refl

to_confirming : Reaches idle confirming
unfolding is_offered
to_confirming =
    next (next (next here (at_bar (Event.start partition_select) refl)) (at_node leader))
      (at_bar Event.confirm_a confirm_a-offered)

confirming-mode : confirming.store.action_mode ≡ some partition_confirm
unfolding handle start_action begin_action handle_action_click toggle_partition_group_a_node
    confirm_partition_a go_partition_confirm
confirming-mode = refl

Reaches-confirming_example : confirming.store.partition_group_a ≢ []
Reaches-confirming_example = Reaches-confirming idle confirming refl to_confirming confirming-mode

-- The partition {0} | {1}.
splitting :
    (send_partition (panel_in (some partition_confirm) (0 ∷ []))).1
    ≡ partition_fault (page_in (some partition_confirm) (0 ∷ [])) ∷ []
unfolding send_partition group_b
splitting = refl

send_partition-Splits_example :
    Splits
      (page_in (some partition_confirm) (0 ∷ []))
      (partition_fault (page_in (some partition_confirm) (0 ∷ []))).partition_groups
send_partition-Splits_example =
    send_partition-Splits (panel_in (some partition_confirm) (0 ∷ []))
      (partition_fault (page_in (some partition_confirm) (0 ∷ []))) splitting
