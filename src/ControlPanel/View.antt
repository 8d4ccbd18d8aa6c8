-- ===== src/ControlPanel/View.antt =====
-- What the control bar shows (the markup of frontend/src/components/ControlPanel.jsx, without its
-- styles).
use raft_visualizer.Prelude.{
  ℕ, Bool, not, ◌||◌, Option, none, some, List, [], ◌∷◌, String, length, if◌then◌else◌,
}
use raft_visualizer.Store.{
  ActionMode, kill, restart, heal, cmd, partition_select, partition_confirm,
}
use raft_visualizer.Fault.{Text, trim}
use raft_visualizer.Groups.{alive_nodes, group_b, can_confirm_group_a, is_empty}
use raft_visualizer.Texts.Control.{ControlCopy, control_copy}
use raft_visualizer.Texts.Tutorial.{Tutorial, tutorial}
use raft_visualizer.ControlPanel.{Panel, is_mode, show_esc_hint}

-- The form of the mode `cmd`.
pub record CmdForm : Type 0 where
  pub title : String
  pub placeholder : String
  pub value : Text
  pub is_disabled : Bool
  pub send : String

-- The first step of a partition, with the sizes of Group A and of the live nodes.
pub record SelectStep : Type 0 where
  pub title : String
  pub hint : String
  pub preview : String × (ℕ × ℕ)
  pub cancel : String
  pub confirm : String
  pub is_disabled : Bool

-- The second step. A group is `join`ed; without members it is shown as `—`.
pub record ConfirmStep : Type 0 where
  pub title : String
  pub group_a : String × List ℕ
  pub group_b : String × List ℕ
  pub cancel : String
  pub confirm : String

pub data Inline : Type 0 where
  cmd_form : CmdForm → Inline
  select_step : SelectStep → Inline
  confirm_step : ConfirmStep → Inline
  picker : (title hint : String) → Inline

unfoldable pub inline_panel : Option ActionMode → ControlCopy → Panel → Option Inline
inline_panel none text p = none
inline_panel (some cmd) text p = some (
    cmd_form (record {
      title = text.submit_to_leader;
      placeholder = text.cmd_placeholder;
      value = p.cmd_text;
      is_disabled = is_empty (trim p.cmd_text);
      send = text.send;
    }))
inline_panel (some partition_select) text p = some (
    select_step (record {
      title = text.partition_step_a;
      hint = text.partition_choose_hint;
      preview = (
        text.partition_preview_a,
        (length p.store.partition_group_a, length (alive_nodes p.store)),
      );
      cancel = text.cancel;
      confirm = text.confirm_group_a;
      is_disabled = not (can_confirm_group_a p.store);
    }))
inline_panel (some partition_confirm) text p = some (
    confirm_step (record {
      title = text.partition_step_b;
      group_a = (text.partition_preview_a, p.store.partition_group_a);
      group_b = (text.partition_preview_b, group_b p.store);
      cancel = text.cancel;
      confirm = text.confirm_partition;
    }))
inline_panel (some kill) text p = some (picker text.kill_selecting text.esc_hint)
inline_panel (some restart) text p = some (picker text.restart_selecting text.esc_hint)
inline_panel (some heal) text p = some (picker text.heal_selecting text.esc_hint)

-- A button of the bar: its text, and whether it has the style of an active one.
pub record Button : Type 0 where
  pub label : String
  pub is_active : Bool

unfoldable pub buttons : ControlCopy → Panel → List Button
buttons text p =
    let mode = p.store.action_mode in
    record { label = text.submit_cmd; is_active = is_mode mode cmd }
    ∷ record { label = text.tutorial; is_active = p.tutorial_open }
    ∷ record {
      label = if is_mode mode kill then text.kill_selecting else text.kill_node;
      is_active = is_mode mode kill;
    }
    ∷ record { label = text.restart; is_active = is_mode mode restart }
    ∷ record {
      label = text.partition;
      is_active = is_mode mode partition_select || is_mode mode partition_confirm;
    }
    ∷ record { label = text.heal; is_active = is_mode mode heal }
    ∷ []

pub record Bar : Type 0 where
  pub tutorial_panel : Option (String × Tutorial)
  pub inline : Option Inline
  pub buttons : List Button
  pub esc_hint : Option String

unfoldable pub bar : Panel → Bar
bar p =
    let text = control_copy p.store.lang in
    record {
      tutorial_panel = if p.tutorial_open then some (text.tutorial_close, tutorial text) else none;
      inline = inline_panel p.store.action_mode text p;
      buttons = buttons text p;
      esc_hint = if show_esc_hint p then some text.esc_hint else none;
    }
