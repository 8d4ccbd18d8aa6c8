-- ===== src/ControlPanel/Safety.antt =====
-- What the control bar sends, and which panels can be open at once.
use raft_visualizer.Prelude.{
  ◌≡◌, refl, sym, ◌≢◌, inl, inr, true, false, not, ◌||◌, ◌&&◌, none, [], ◌∷◌, arith, Bool-cases,
  nat_eq, subst,
}
use raft_visualizer.Store.{
  cancel_action, begin_action, go_partition_confirm, set_active_partition_groups,
}
use raft_visualizer.Fault.{Text, trim, Fault, FaultAction, fault}
use raft_visualizer.Groups.{group_b, is_empty, partition_fault, remember_groups}
use raft_visualizer.ControlPanel.{
  Panel, Handled, Event, press_outside, press_escape, submit, confirm_a, confirm_partition, start,
  tutorial, handle, in_mode, close_action, on_down, on_escape, submit_cmd, confirm_partition_a,
  send_partition, start_action, toggle_tutorial,
}

-- A command that the bar may send: a text that is not blank, trimmed, or a split of the live nodes
-- into two groups with a node each.
pub data IsSendable (p : Panel) : Fault → Type 0 where
  submits : trim p.cmd_text ≢ [] → IsSendable p (fault FaultAction.submit [] [] (trim p.cmd_text))
  splits :
      p.store.partition_group_a ≢ [] → group_b p.store ≢ [] → IsSendable p (partition_fault p.store)

-- A handler sent nothing, or one such command, and then the mode is over and the text is cleared.
pub data IsSafe (p : Panel) (h : Handled) : Type 0 where
  quiet : h.1 ≡ [] → IsSafe p h
  sent :
      (f : Fault)
      → h.1 ≡ f ∷ []
      → IsSendable p f
      → p.store.send_fault ≡ true
      → h.0.store.action_mode ≡ none
      → h.0.cmd_text ≡ []
      → IsSafe p h

not_empty : (xs : Text) → is_empty xs ≡ false → xs ≢ []
not_empty [] h e = cc
not_empty (x ∷ xs) h e = cc

sent-IsSafe :
    (p : Panel) {h : Handled} (q : Panel) (f : Fault)
    → h ≡ (close_action q, f ∷ [])
    → IsSendable p f
    → p.store.send_fault ≡ true
    → IsSafe p h
unfolding cancel_action
sent-IsSafe p q f e ok connected = subst (IsSafe p) (sym e) (sent f refl ok connected refl refl)

submit_cmd-IsSafe : (p : Panel) → IsSafe p (submit_cmd p)
unfolding submit_cmd
submit_cmd-IsSafe p = elim (Bool-cases (is_empty (trim p.cmd_text) || not p.store.send_fault)) [
  | inl e ↦ quiet (ground (arith, e))
  | inr e ↦
      sent-IsSafe p p (fault FaultAction.submit [] [] (trim p.cmd_text)) (ground (arith, e))
        (submits (not_empty _ (ground (arith, e)))) (ground (arith, e))
]

send_partition-IsSafe : (p : Panel) → IsSafe p (send_partition p)
unfolding send_partition
send_partition-IsSafe p =
    elim (Bool-cases (
      not p.store.send_fault
      || (is_empty p.store.partition_group_a || is_empty (group_b p.store)))) [
        | inl e ↦ quiet (ground (arith, e))
        | inr e ↦
            sent-IsSafe p (record p { store = remember_groups p.store }) (partition_fault p.store)
              (ground (arith, e))
              (splits (not_empty _ (ground (arith, e))) (not_empty _ (ground (arith, e))))
              (ground (arith, e))
      ]

-- Whatever the user does at the bar, it sends nothing or exactly one command: a trimmed text that
-- is not blank, or a partition whose two groups have a node each. It does so only while the hook
-- has injected its function, and then the mode is over and the text is cleared.
pub handle-IsSafe : (e : Event) (p : Panel) → IsSafe p (handle e p)
unfolding handle
handle-IsSafe submit p = submit_cmd-IsSafe p
handle-IsSafe confirm_partition p = send_partition-IsSafe p
handle-IsSafe _ p = quiet refl

-- The tutorial and a mode exclude one another.
abbrev pub IsExclusive : Panel → Type 0
IsExclusive p = (p.tutorial_open && in_mode p.store.action_mode) ≡ false

-- Every event at the bar keeps the tutorial closed while a mode is on.
pub handle-IsExclusive : (e : Event) (p : Panel) → IsExclusive p → IsExclusive (handle e p).0
unfolding handle on_down on_escape submit_cmd confirm_partition_a send_partition start_action
    toggle_tutorial cancel_action begin_action go_partition_confirm remember_groups
    set_active_partition_groups
handle-IsExclusive press_outside p h = ground arith
handle-IsExclusive press_escape p h = ground arith
handle-IsExclusive submit p h = ground arith
handle-IsExclusive confirm_a p h = ground arith
handle-IsExclusive confirm_partition p h = ground arith
handle-IsExclusive (start m) p h = ground arith
handle-IsExclusive tutorial p h = ground arith
handle-IsExclusive _ p h = ground arith
