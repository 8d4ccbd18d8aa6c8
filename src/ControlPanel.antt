-- ===== src/ControlPanel.antt =====
-- The control bar of the desktop page: its two fields, its handlers, and runs of user events
-- (frontend/src/components/ControlPanel.jsx).
pub mod Safety
pub mod Flow
pub mod Partition
pub mod View
use raft_visualizer.Prelude.{
  ℕ, Bool, true, false, not, ◌&&◌, ◌||◌, Option, none, some, List, [], ◌∷◌, ◌++◌, nat_beq,
  if◌then◌else◌, length,
}
use raft_visualizer.Store.{
  Store, ActionMode, kill, restart, heal, cmd, partition_select, partition_confirm, begin_action,
  cancel_action, go_partition_confirm,
}
use raft_visualizer.Fault.{Text, trim, Fault, FaultAction, fault}
use raft_visualizer.Groups.{
  alive_nodes, group_b, can_confirm_group_a, is_empty, partition_fault, remember_groups,
}

pub record Panel : Type 0 where
  pub store : Store
  pub cmd_text : Text
  pub tutorial_open : Bool

-- A handler's panel and the commands that it sent.
abbrev pub Handled : Type 0
Handled = Panel × List Fault

abbrev pub is_cmd : Option ActionMode → Bool
is_cmd (some cmd) = true
is_cmd _ = false

-- `actionMode` as a condition: any mode but `null`.
abbrev pub in_mode : Option ActionMode → Bool
in_mode none = false
in_mode (some m) = true

abbrev pub mode_code : ActionMode → ℕ
mode_code kill = 0
mode_code restart = 1
mode_code heal = 2
mode_code cmd = 3
mode_code partition_select = 4
mode_code partition_confirm = 5

-- `actionMode === mode`
abbrev pub is_mode : Option ActionMode → ActionMode → Bool
is_mode none m = false
is_mode (some k) m = nat_beq (mode_code k) (mode_code m)

pub show_esc_hint : Panel → Bool
show_esc_hint p =
    (in_mode p.store.action_mode && not (is_cmd p.store.action_mode)) || p.tutorial_open

abbrev pub close_action : Panel → Panel
close_action p = record p { store = cancel_action p.store; cmd_text = [] }

-- A press of the mouse outside the bar.
unfoldable pub on_down : Panel → Panel
on_down p =
    if is_cmd p.store.action_mode || p.tutorial_open
    then (let q = if is_cmd p.store.action_mode then close_action p else p in
        if p.tutorial_open then record q { tutorial_open = false } else q)
    else p

-- The key Escape.
unfoldable pub on_escape : Panel → Panel
on_escape p =
    if in_mode p.store.action_mode || p.tutorial_open
    then record p { store = cancel_action p.store; cmd_text = []; tutorial_open = false }
    else p

unfoldable pub submit_cmd : Panel → Handled
submit_cmd p =
    if is_empty (trim p.cmd_text) || not p.store.send_fault
    then (p, [])
    else (close_action p, fault FaultAction.submit [] [] (trim p.cmd_text) ∷ [])

unfoldable pub confirm_partition_a : Panel → Panel
confirm_partition_a p =
    if is_empty p.store.partition_group_a
      || nat_beq (length p.store.partition_group_a) (length (alive_nodes p.store))
    then p
    else record p { store = go_partition_confirm p.store }

unfoldable pub send_partition : Panel → Handled
send_partition p =
    if not p.store.send_fault
    then (p, [])
    else if is_empty p.store.partition_group_a || is_empty (group_b p.store)
    then (p, [])
    else (close_action (record p { store = remember_groups p.store }), partition_fault p.store ∷ [])

unfoldable pub start_action : ActionMode → Panel → Panel
start_action mode p =
    if is_mode p.store.action_mode mode
    then close_action (record p { tutorial_open = false })
    else record p { tutorial_open = false; store = begin_action mode p.store }

unfoldable pub toggle_tutorial : Panel → Panel
toggle_tutorial p =
    if p.tutorial_open
    then record p { tutorial_open = false }
    else record (close_action p) { tutorial_open = true }

-- What the user can do at the bar. The buttons for a mode are the five of the bar.
pub data Event : Type 0 where
  press_outside press_escape submit : Event
  type : Text → Event
  confirm_a confirm_partition cancel : Event
  start : ActionMode → Event
  tutorial close_tutorial : Event

-- Whether the element that the event comes from is on the screen and enabled.
unfoldable pub is_offered : Event → Panel → Bool
is_offered press_outside p = true
is_offered press_escape p = true
is_offered submit p = is_cmd p.store.action_mode && not (is_empty (trim p.cmd_text))
is_offered (type s) p = is_cmd p.store.action_mode
is_offered confirm_a p = is_mode p.store.action_mode partition_select && can_confirm_group_a p.store
is_offered confirm_partition p = is_mode p.store.action_mode partition_confirm
is_offered cancel p =
    is_mode p.store.action_mode partition_select || is_mode p.store.action_mode partition_confirm
is_offered (start partition_confirm) p = false
is_offered (start m) p = true
is_offered tutorial p = true
is_offered close_tutorial p = p.tutorial_open

unfoldable pub handle : Event → Panel → Handled
handle press_outside p = (on_down p, [])
handle press_escape p = (on_escape p, [])
handle submit p = submit_cmd p
handle (type s) p = (record p { cmd_text = s }, [])
handle confirm_a p = (confirm_partition_a p, [])
handle confirm_partition p = send_partition p
handle cancel p = (close_action p, [])
handle (start m) p = (start_action m p, [])
handle tutorial p = (toggle_tutorial p, [])
handle close_tutorial p = (record p { tutorial_open = false }, [])
