-- ===== src/NodeCard.antt =====
-- A node's card: which clicks it invites, and its style classes
-- (frontend/src/components/NodeCard.jsx).
pub mod View
use raft_visualizer.Prelude.{
  ℕ, zero, suc, Bool, true, false, not, ◌||◌, ◌&&◌, Option, none, some, List, [], ◌∷◌, ◌++◌, ◌==◌,
  nat_eq, string_eq, if◌then◌else◌, includes, any,
}
use raft_visualizer.Cluster.{Node}
use raft_visualizer.Store.{
  Store, ActionMode, kill, restart, heal, cmd, partition_select, partition_confirm, is_selecting,
}

abbrev pub in_known_partition : Store → Node → Bool
in_known_partition s node = any (λ group. includes group node.id) s.active_partition_groups

abbrev pub selectable_in : Option ActionMode → Store → Node → Bool
selectable_in (some kill) s node = node.alive
selectable_in (some restart) s node = not node.alive
selectable_in (some heal) s node = not node.alive || in_known_partition s node
selectable_in (some partition_select) s node = node.alive
selectable_in (some cmd) s node = false
selectable_in (some partition_confirm) s node = false
selectable_in none s node = false

unfoldable pub selectable : Store → Node → Bool
selectable s node = selectable_in s.action_mode s node

pub data Style : Type 0 where
  node dead leader candidate follower selected pulse_once : Style
  partition_selectable partition_selected action_selectable : Style

unfoldable pub role_class : Node → Style
role_class n =
    if not n.alive
    then dead
    else if n.role == "leader"
    then leader
    else if n.role == "candidate"
    then candidate
    else follower

-- `cond ? styles.x : ''`, with the empty texts filtered out.
abbrev when : Bool → Style → List Style
when true x = x ∷ []
when false x = []

abbrev is_selected : Option ℕ → ℕ → Bool
is_selected none id = false
is_selected (some k) id = k == id

abbrev is_positive : ℕ → Bool
is_positive zero = false
is_positive (suc n) = true

unfoldable pub class_names : Store → Node → List Style
unfolding role_class selectable
class_names s n =
    node
    ∷ role_class n
    ∷ (when (is_selected s.selected_node_id n.id) selected
        ++ (when (is_positive n.pulse_seq) pulse_once
            ++ (when (is_selecting s.action_mode && selectable s n) partition_selectable
                ++ (when (is_selecting s.action_mode && includes s.partition_group_a n.id)
                      partition_selected
                    ++ when (not (is_selecting s.action_mode) && selectable s n)
                        action_selectable))))
