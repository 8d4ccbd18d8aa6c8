-- ===== src/Examples/Feed.antt =====
-- Payloads that enter the store.
use raft_visualizer.Prelude.{
  nat_eq, ◌-◌, ◌≡◌, ◌≢◌, ◌↔◌, ◌⊎◌, refl, inl, inr, true, some, [], ◌∷◌, map, arith, count, Occurs,
}
use raft_visualizer.Cluster.{Node, rpc_sig, signature_eq}
use raft_visualizer.Store.{partition_select, init}
use raft_visualizer.Store.Action.{Action, run}
use raft_visualizer.Store.Diff.{diff_rpc_logs}
use raft_visualizer.Store.Diff.Buckets.{log_sig}
use raft_visualizer.Store.Diff.Counts.{count-diff_rpc_logs}
use raft_visualizer.Store.Update.{apply_state_update, next_nodes, should_pulse}
use raft_visualizer.Store.Update.Pulse.{replays-apply_state_update}
use raft_visualizer.Store.Invariant.{IsValid, run-init-IsValid}
use raft_visualizer.Examples.Data.{page, elected, append, follower, entry, status}

-- A second message 0 → 1 is one new line.
count-diff_rpc_logs_example :
    count
      (rpc_sig (append 1))
      (map log_sig (diff_rpc_logs "t" (append 1 ∷ []) (append 1 ∷ append 1 ∷ append 2 ∷ []) 4).logs)
    ≡ count (rpc_sig (append 1)) (map rpc_sig (append 1 ∷ append 1 ∷ append 2 ∷ []))
      - count (rpc_sig (append 1)) (map rpc_sig (append 1 ∷ []))
count-diff_rpc_logs_example =
    count-diff_rpc_logs "t" (append 1 ∷ []) (append 1 ∷ append 1 ∷ append 2 ∷ []) 4
      (rpc_sig (append 1))

run-init-IsValid_example : IsValid (
    run
      (Action.begin partition_select
        ∷ Action.toggle_node 0
        ∷ Action.update "a" "b" (some elected)
        ∷ Action.switch_lang
        ∷ [])
      (init (some "zh")))
run-init-IsValid_example = run-init-IsValid (some "zh") (
    Action.begin partition_select
    ∷ Action.toggle_node 0
    ∷ Action.update "a" "b" (some elected)
    ∷ Action.switch_lang
    ∷ [])

-- The follower that became the leader has the token 6 in place of 1.
abbrev winner : Node
winner = record {
  status = status 1 "leader" 2 true;
  pulse_seq = 6;
  log = record { raw = entry; committed = true } ∷ [];
}

winner-Occurs : Occurs winner (apply_state_update "a" "b" (some elected) page).nodes
unfolding apply_state_update next_nodes should_pulse
winner-Occurs = inr (inl refl)

replays-apply_state_update_example :
    (winner.pulse_seq ≢ follower.pulse_seq)
    ↔ ((follower.role ≢ winner.role) ⊎ (follower.term ≢ winner.term))
replays-apply_state_update_example =
    replays-apply_state_update "a" "b" (some elected) page winner follower
      (record { positive = omega arith; spent = (omega arith, (omega arith, (omega arith, tt))) })
      winner-Occurs refl
