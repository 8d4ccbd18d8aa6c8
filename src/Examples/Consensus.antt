-- ===== src/Examples/Consensus.antt =====
-- A cluster of three nodes: its elections and its logs.
use raft_visualizer.Prelude.{
  ℕ, zero, suc, ◌+◌, ◌≤◌, ◌<◌, ◌≡◌, refl, true, false, some, List, [], ◌∷◌, ◌++◌, drop, arith,
}
use raft_visualizer.Raft.{
  Node, LogEntry, Role, follower, candidate, leader, request_vote, new_node, at, take,
  maybe_step_down, become_leader,
}
use raft_visualizer.Raft.Election.{start_election, handle_request_vote_reply}
use raft_visualizer.Raft.Replication.{merge, maybe_advance_commit_index}
use raft_visualizer.Raft.Events.{Event, receive, timeout, submit, revive, handle, run}
use raft_visualizer.Raft.Race.{raced, then_killed, Twin, raced-Twins}
use raft_visualizer.Raft.Grants.{IsFaithful, KeepsWord, grants-run}
use raft_visualizer.Raft.Merge.{merged, merge-merged}
use raft_visualizer.Raft.Leader.{Proceeds, handle-Proceeds}
use raft_visualizer.Raft.{AppendEntriesReply, submit_command, send_append_entries, send_to_peers}
use raft_visualizer.Raft.Replication.{
  handle_append_entries, handle_append_entries_reply, commit_from, advance_last_applied, accept,
}
use raft_visualizer.Raft.Exchange.{deliver, Matches, exchange, exchanges}
use raft_visualizer.Raft.Repair.{exchanges-repair}
use raft_visualizer.Raft.Timers.{timeout-leader}
use raft_visualizer.Raft.Stale.{granted, stale_votes-win}
use raft_visualizer.Raft.Overcount.{exchange-overcounts}

abbrev entry : ℕ → ℕ → LogEntry
entry index term = record { index = index; term = term; command = "x" }

abbrev node : ℕ → Role → List ℕ → List LogEntry → List (ℕ × ℕ) → List (ℕ × ℕ) → Node
node id role peers log next_index match_index = record {
  id = id;
  peers = peers;
  current_term = 2;
  voted_for = some 0;
  log = log;
  commit_index = 0;
  last_applied = 0;
  next_index = next_index;
  match_index = match_index;
  role = role;
  votes_received = 0 ∷ [];
  alive = true;
  heartbeat = false;
  timer = true;
  dirty = false;
}

-- A leader with two entries, the second of its term, which node 1 has too.
abbrev head : Node
head =
    node 0 leader (1 ∷ 2 ∷ []) (entry 1 1 ∷ entry 2 2 ∷ []) ((1, 3) ∷ (2, 3) ∷ [])
      ((1, 2) ∷ (2, 0) ∷ [])

-- A follower that lacks the second.
abbrev behind : Node
behind = node 2 follower (0 ∷ 1 ∷ []) (entry 1 1 ∷ []) [] []

-- A follower with an entry more than the leader `short`.
abbrev ahead : Node
ahead = node 1 follower (0 ∷ 2 ∷ []) (entry 1 1 ∷ entry 2 1 ∷ []) [] []

abbrev short : Node
short = node 0 leader (1 ∷ 2 ∷ []) (entry 1 1 ∷ []) ((1, 2) ∷ (2, 2) ∷ []) ((1, 0) ∷ (2, 0) ∷ [])

abbrev vote_request : Event
vote_request = receive (record {
  from = 1;
  to = 2;
  rpc = request_vote (record { term = 3; candidate_id = 1; last_log_index = 1; last_log_term = 1 });
})

-- The same request from node 0.
abbrev other_request : Event
other_request = receive (record {
  from = 0;
  to = 2;
  rpc = request_vote (record { term = 3; candidate_id = 0; last_log_index = 1; last_log_term = 1 });
})

grants-run_example :
    IsFaithful (run (vote_request ∷ other_request ∷ []) behind).1
    × KeepsWord behind (run (vote_request ∷ other_request ∷ []) behind).1
grants-run_example = grants-run (vote_request ∷ other_request ∷ []) behind (refl, (refl, tt))

handle-Proceeds_example : Proceeds head (handle (submit "y") head).0
handle-Proceeds_example = handle-Proceeds (submit "y") head

merge-merged_example :
    merge 2 ahead.log (entry 2 2 ∷ entry 3 2 ∷ [])
    ≡ take 1 ahead.log ++ merged (drop 1 ahead.log) (entry 2 2 ∷ entry 3 2 ∷ [])
merge-merged_example = merge-merged 1 ahead.log (entry 2 2 ∷ entry 3 2 ∷ []) (omega arith)

behind-Matches : Matches behind.log head.log
behind-Matches zero f l same = refl
behind-Matches (suc k) f l same = absurd (omega (arith, f))

exchanges-repair_example :
    (k : ℕ) × (k ≤ 3) × (take 2 (exchanges k (head, behind)).1.log ≡ head.log)
exchanges-repair_example =
    exchanges-repair head behind refl refl refl (omega arith) (omega arith) (omega arith)
      behind-Matches

-- The node is killed while it takes the request, and restarted later.
raced-Twins_example :
    let o = raced vote_request behind in
    let p = then_killed vote_request behind in
    ((o.1 ++ (run (revive ∷ timeout ∷ []) o.0).1) ≡ (p.1 ++ (run (revive ∷ timeout ∷ []) p.0).1))
    × Twin (run (revive ∷ timeout ∷ []) o.0).0 (run (revive ∷ timeout ∷ []) p.0).0
raced-Twins_example = raced-Twins vote_request (revive ∷ timeout ∷ []) behind

-- The leader `short` appends an entry after the exchange and commits it when node 2 answers an older
-- heartbeat, though nobody else has it.
unreplicated :
    let s = (submit_command "y" (exchange (short, ahead)).0).0.0 in
    let reply : AppendEntriesReply = record { term = 2; success = true; match_index = 1 } in
    (handle_append_entries_reply 2 reply s).0.commit_index ≡ 2
unfolding exchange deliver handle submit_command handle_append_entries_reply handle_append_entries
    maybe_advance_commit_index commit_from advance_last_applied accept merge maybe_step_down
    send_append_entries send_to_peers
unreplicated = refl

ahead-Matches : Matches ahead.log short.log
ahead-Matches zero f l same = refl
ahead-Matches (suc k) f l same = absurd (omega (arith, l))

exchange-overcounts_example :
    let (l', f') = exchange (short, ahead) in (1 < at l'.match_index 1) × (f'.log ≡ ahead.log)
exchange-overcounts_example =
    exchange-overcounts short ahead refl refl refl (omega arith) refl ahead-Matches refl
      (omega arith) (omega arith)

stale_votes-win_example :
    let m = (run (timeout ∷ granted 2 2 0 ∷ []) behind).0 in
    (m.role ≡ leader) × (m.current_term ≡ 3)
stale_votes-win_example =
    stale_votes-win behind (0 ∷ []) refl refl (omega arith) (refl, tt) (omega arith)

-- Node 0 is elected.
abbrev rise : List Event
rise = timeout ∷ granted 0 1 1 ∷ []

risen :
    ((run rise (new_node 0 (1 ∷ 2 ∷ []))).0.alive ≡ true)
    × ((run rise (new_node 0 (1 ∷ 2 ∷ []))).0.role ≡ leader)
unfolding run handle new_node start_election handle_request_vote_reply maybe_step_down become_leader
risen = (refl, refl)

timeout-leader_example :
    let n = (run rise (new_node 0 (1 ∷ 2 ∷ []))).0 in
    let m = (handle timeout n).0 in
    (m.role ≡ candidate) × ((m.current_term ≡ n.current_term + 1) × (m.heartbeat ≡ true))
timeout-leader_example = timeout-leader 0 (1 ∷ 2 ∷ []) rise risen.0 risen.1
