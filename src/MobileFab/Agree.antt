-- ===== src/MobileFab/Agree.antt =====
-- The two front ends of a partition: `MobileFab.jsx` repeats the logic of `ControlPanel.jsx`.
use raft_visualizer.Prelude.{
  ℕ, ◌≤◌, ◌≡◌, refl, ◌≢◌, Bool, not, ◌||◌, ◌&&◌, Option, none, some, List, [], ◌∷◌, arith, length,
  ltb, nat_beq,
}
use raft_visualizer.Store.{ActionMode, partition_select, partition_confirm}
use raft_visualizer.Groups.{alive_nodes, can_confirm_group_a, is_empty}
use raft_visualizer.ControlPanel
use raft_visualizer.ControlPanel.{Panel, is_mode}
use raft_visualizer.MobileFab.{
  Fab, trigger_action, confirm_group_a, commit_partition, starts_with_partition,
}

confirm_tests-eq :
    (xs : List ℕ) (n : ℕ)
    → length xs ≤ n
    → (is_empty xs || nat_beq (length xs) n) ≡ not (ltb 0 (length xs) && ltb (length xs) n)
confirm_tests-eq [] n h = refl
confirm_tests-eq (x ∷ xs) n h = ground arith

start_tests-eq :
    (cur : Option ActionMode) (mode : ActionMode)
    → cur ≢ some partition_confirm
    → is_mode cur mode
      ≡ ((is_mode (some mode) partition_select && starts_with_partition cur) || is_mode cur mode)
start_tests-eq none mode h = ground arith
start_tests-eq (some partition_select) mode h = ground arith
start_tests-eq (some partition_confirm) mode h = absurd (h refl)
start_tests-eq (some m) mode h = ground arith

module _ (p : Panel) (menu : Bool) where
  -- The button over the panel's store.
  abbrev fab : Fab
  fab = record { store = p.store; open_menu = menu }

  -- Over one store both front ends send the same commands for a partition and leave the same store.
  pub commit_partition-eq :
      ((ControlPanel.send_partition p).0.store ≡ (commit_partition fab).0.store)
      × ((ControlPanel.send_partition p).1 ≡ (commit_partition fab).1)
  unfolding ControlPanel.send_partition commit_partition
  commit_partition-eq = (ground arith, ground arith)

  -- While Group A is no longer than the list of live nodes, both confirm it in the same states.
  pub confirm_group_a-eq :
      length p.store.partition_group_a ≤ length (alive_nodes p.store)
      → (ControlPanel.confirm_partition_a p).store ≡ (confirm_group_a fab).store
  unfolding ControlPanel.confirm_partition_a confirm_group_a can_confirm_group_a
  confirm_group_a-eq h =
      ground (arith, confirm_tests-eq p.store.partition_group_a (length (alive_nodes p.store)) h)

  -- Outside the second step of a partition, both start and end a mode alike.
  pub trigger_action-eq :
      (mode : ActionMode)
      → p.store.action_mode ≢ some partition_confirm
      → (ControlPanel.start_action mode p).store ≡ (trigger_action mode fab).store
  unfolding ControlPanel.start_action trigger_action
  trigger_action-eq mode h = ground (arith, start_tests-eq p.store.action_mode mode h)
