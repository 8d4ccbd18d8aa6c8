-- ===== src/MobileFab.antt =====
-- The floating button of the mobile page and its menu (frontend/src/components/MobileFab.jsx).
pub mod Agree
pub mod Taps
use raft_visualizer.Prelude.{
  Bool, true, false, not, ◌&&◌, ◌||◌, Option, none, some, List, [], ◌∷◌, if◌then◌else◌,
}
use raft_visualizer.Store.{
  Store, ActionMode, kill, restart, heal, partition_select, partition_confirm, begin_action,
  cancel_action, go_partition_confirm,
}
use raft_visualizer.Fault.{Fault}
use raft_visualizer.Groups.{
  group_b, can_confirm_group_a, is_empty, partition_fault, remember_groups,
}
use raft_visualizer.ControlPanel.{is_mode}

pub record Fab : Type 0 where
  pub store : Store
  pub open_menu : Bool

-- The modes of the menu `ACTIONS`.
abbrev pub actions : List ActionMode
actions = kill ∷ restart ∷ partition_select ∷ heal ∷ []

-- `actionMode?.startsWith('partition')`
abbrev pub starts_with_partition : Option ActionMode → Bool
starts_with_partition (some partition_select) = true
starts_with_partition (some partition_confirm) = true
starts_with_partition _ = false

-- The key Escape.
unfoldable pub on_escape : Fab → Fab
on_escape f = record f { store = cancel_action f.store; open_menu = false }

unfoldable pub trigger_action : ActionMode → Fab → Fab
trigger_action mode f =
    if is_mode (some mode) partition_select && starts_with_partition f.store.action_mode
    then record f { open_menu = false; store = cancel_action f.store }
    else if is_mode f.store.action_mode mode
    then record f { open_menu = false; store = cancel_action f.store }
    else record f { open_menu = false; store = begin_action mode f.store }

unfoldable pub confirm_group_a : Fab → Fab
confirm_group_a f =
    if not (can_confirm_group_a f.store)
    then f
    else record f { store = go_partition_confirm f.store }

unfoldable pub commit_partition : Fab → Fab × List Fault
commit_partition f =
    if not f.store.send_fault || (is_empty f.store.partition_group_a || is_empty (group_b f.store))
    then (f, [])
    else (
      record f { store = cancel_action (remember_groups f.store) },
      partition_fault f.store ∷ [],
    )

-- The main button.
unfoldable pub toggle_menu : Fab → Fab
toggle_menu f = record f { open_menu = not f.open_menu }
