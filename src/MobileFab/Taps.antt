-- ===== src/MobileFab/Taps.antt =====
-- The taps on the mobile button, its menu and its panel, as far as they are on the screen.
use raft_visualizer.Prelude.{
  ◌≡◌, refl, Bool, true, false, not, ◌&&◌, ◌||◌, none, some, any, List, [], ◌∷◌, arith, inl, inr,
  Bool-cases,
}
use raft_visualizer.Store.{
  Store, ActionMode, kill, restart, heal, cmd, partition_select, partition_confirm, begin_action,
  cancel_action, go_partition_confirm, set_active_partition_groups,
}
use raft_visualizer.Fault.{Fault}
use raft_visualizer.Groups.{
  group_b, can_confirm_group_a, is_empty, partition_fault, remember_groups,
}
use raft_visualizer.ControlPanel.{is_mode}
use raft_visualizer.MobileFab.{
  Fab, on_escape, trigger_action, confirm_group_a, commit_partition, toggle_menu, actions,
}

-- The key Escape, the items of the menu, the buttons of the panel and the main button.
pub data Tap : Type 0 where
  escape main cancel confirm commit : Tap
  item : ActionMode → Tap

-- Whether the element is on the screen. The taps are pointer events, which a disabled button gets too:
-- the buttons of the panel are tapped whether or not they are disabled. The menu lists four of the
-- modes.
unfoldable pub is_offered : Tap → Fab → Bool
is_offered escape f = true
is_offered main f = true
is_offered cancel f =
    is_mode f.store.action_mode partition_select || is_mode f.store.action_mode partition_confirm
is_offered confirm f = is_mode f.store.action_mode partition_select
is_offered commit f = is_mode f.store.action_mode partition_confirm
is_offered (item mode) f = any (λ m. is_mode (some mode) m) actions

unfoldable pub tap : Tap → Fab → Fab × List Fault
tap escape f = (on_escape f, [])
tap main f = (toggle_menu f, [])
tap cancel f = (record f { store = cancel_action f.store }, [])
tap confirm f = (confirm_group_a f, [])
tap commit f = commit_partition f
tap (item mode) f = (trigger_action mode f, [])

-- In the second step of a partition Group A has a node.
abbrev pub IsReady : Store → Type 0
IsReady s = (is_mode s.action_mode partition_confirm && is_empty s.partition_group_a) ≡ false

-- What a tap may do: nothing is sent, or a partition of two groups with a node each, while the hook
-- is there, and then the mode is over.
pub data IsSafe (f : Fab) (o : Fab × List Fault) : Type 0 where
  quiet : o.1 ≡ [] → IsSafe f o
  splits :
      o.1 ≡ partition_fault f.store ∷ []
      → is_empty f.store.partition_group_a ≡ false
      → is_empty (group_b f.store) ≡ false
      → f.store.send_fault ≡ true
      → o.0.store.action_mode ≡ none
      → IsSafe f o

is_offered-IsReady :
    (t : Tap) (f : Fab) → is_offered t f ≡ true → IsReady f.store → IsReady (tap t f).0.store
unfolding is_offered tap on_escape toggle_menu cancel_action confirm_group_a commit_partition
    trigger_action begin_action go_partition_confirm can_confirm_group_a remember_groups
    set_active_partition_groups
is_offered-IsReady escape f h c = refl
is_offered-IsReady main f h c = c
is_offered-IsReady cancel f h c = refl
is_offered-IsReady confirm f h c = ground (arith, h, c)
is_offered-IsReady commit f h c = ground (arith, h, c)
is_offered-IsReady (item partition_confirm) f h c = cc
is_offered-IsReady (item kill) f h c = ground (arith, c)
is_offered-IsReady (item restart) f h c = ground (arith, c)
is_offered-IsReady (item heal) f h c = ground (arith, c)
is_offered-IsReady (item cmd) f h c = cc
is_offered-IsReady (item partition_select) f h c = ground (arith, c)

commit_partition-IsSafe : (f : Fab) → IsSafe f (commit_partition f)
unfolding commit_partition cancel_action
commit_partition-IsSafe f =
    elim (Bool-cases (
      not f.store.send_fault
      || (is_empty f.store.partition_group_a || is_empty (group_b f.store)))) [
        | inl e ↦ quiet (ground (arith, e))
        | inr e ↦
            splits (ground (arith, e)) (ground (arith, e)) (ground (arith, e)) (ground (arith, e))
              (ground (arith, e))
      ]

tap-IsSafe : (t : Tap) (f : Fab) → IsSafe f (tap t f)
unfolding tap
tap-IsSafe commit f = commit_partition-IsSafe f
tap-IsSafe escape f = quiet refl
tap-IsSafe main f = quiet refl
tap-IsSafe cancel f = quiet refl
tap-IsSafe confirm f = quiet refl
tap-IsSafe (item mode) f = quiet refl

-- A tap on an element that is on the screen, disabled or not, sends nothing, or one partition whose two groups have a node each, while the hook
-- has injected its function, and then the mode is over; and if Group A has a node in the second step
-- of a partition, it still does after the tap.
pub tap-IsReady :
    (t : Tap) (f : Fab)
    → is_offered t f ≡ true
    → IsReady f.store
    → IsSafe f (tap t f) × IsReady (tap t f).0.store
tap-IsReady t f h c = (tap-IsSafe t f, is_offered-IsReady t f h c)
