-- ===== src/Raft/Timers.antt =====
-- The election timer and the heartbeat loop of a node over its runs.
use raft_visualizer.Prelude.{
  ℕ, ◌+◌, ◌≡◌, refl, sym, subst, Bool, true, false, not, ◌&&◌, List, [], ◌∷◌, arith, ltb, nat_eq,
  if◌then◌else◌, if_of, length,
}
use raft_visualizer.Raft.{
  Node, candidate, leader, Rpc, request_vote, request_vote_reply, append_entries,
  append_entries_reply, Outcome, RequestVoteArgs, RequestVoteReply, AppendEntriesArgs,
  AppendEntriesReply, is_leader, new_node, maybe_step_down, become_leader, submit_command, kill,
  restart, heartbeat_tick, at,
}
use raft_visualizer.Raft.Election.{start_election, handle_request_vote, handle_request_vote_reply}
use raft_visualizer.Raft.Replication.{
  commit_from, maybe_advance_commit_index, handle_append_entries, handle_append_entries_reply,
  accept, advance_last_applied, acknowledge, back_off,
}
use raft_visualizer.Raft.Commit.{commit_from-Committed}
use raft_visualizer.Raft.Events.{
  Event, receive, timeout, heartbeat, changed, submit, crash, revive, handle, dispatch, run,
}

-- While the node is alive its election timer runs, and while it leads so does its heartbeat loop.
record IsTicking (n : Node) : Type 0 where
  timer : (n.alive && not n.timer) ≡ false
  loop : (n.alive && (is_leader n.role && not n.heartbeat)) ≡ false

vote-IsTicking :
    (from : ℕ) (args : RequestVoteArgs) (n : Node)
    → IsTicking n
    → IsTicking (handle_request_vote from args n).0
unfolding handle_request_vote maybe_step_down
vote-IsTicking from args n t = record {
  timer = ground (arith, t.timer);
  loop = ground (arith, t.loop);
}

vote_reply-IsTicking :
    (from : ℕ) (reply : RequestVoteReply) (n : Node)
    → IsTicking n
    → IsTicking (handle_request_vote_reply from reply n).0
unfolding handle_request_vote_reply maybe_step_down become_leader
vote_reply-IsTicking from reply n t = record {
  timer = ground (arith, t.timer);
  loop = ground (arith, t.loop);
}

append-IsTicking :
    (from : ℕ) (args : AppendEntriesArgs) (n : Node)
    → IsTicking n
    → IsTicking (handle_append_entries from args n).0
unfolding handle_append_entries accept advance_last_applied maybe_step_down
append-IsTicking from args n t = record {
  timer = ground (arith, t.timer);
  loop = ground (arith, t.loop);
}

step_down-IsTicking : (k : ℕ) (n : Node) → IsTicking n → IsTicking (maybe_step_down k n)
unfolding maybe_step_down
step_down-IsTicking k n t = record {
  timer = ground (arith, t.timer);
  loop = ground (arith, t.loop);
}

-- A change of other fields.
kept-IsTicking :
    (n m : Node)
    → m.alive ≡ n.alive
    → m.timer ≡ n.timer
    → m.role ≡ n.role
    → m.heartbeat ≡ n.heartbeat
    → IsTicking n
    → IsTicking m
kept-IsTicking n m a t r h v = record {
  timer = ground (arith, a, t, v.timer);
  loop = ground (arith, a, r, h, v.loop);
}

commit-IsTicking : (k : ℕ) (n : Node) → IsTicking n → IsTicking (commit_from k n)
commit-IsTicking k n t =
    let (c, a, d, e) = commit_from-Committed k n in
    subst IsTicking (sym e) (kept-IsTicking n _ refl refl refl refl t)

append_reply-IsTicking :
    (from : ℕ) (reply : AppendEntriesReply) (n : Node)
    → IsTicking n
    → IsTicking (handle_append_entries_reply from reply n).0
unfolding handle_append_entries_reply maybe_advance_commit_index
append_reply-IsTicking from reply n t =
    if_of Ticks (not (is_leader m.role)) m-IsTicking (if_of Ticks reply.success acked backed)
  where
    Ticks : Outcome → Type 0
    Ticks o = IsTicking o.0

    m : Node
    m = maybe_step_down reply.term n

    m-IsTicking : IsTicking m
    m-IsTicking = step_down-IsTicking reply.term n t

    acked : IsTicking (commit_from (length m.log) (acknowledge from reply.match_index m))
    acked = commit-IsTicking (length m.log) _ (kept-IsTicking m _ refl refl refl refl m-IsTicking)

    backed : IsTicking (back_off from m)
    backed =
        if_of IsTicking (ltb 1 (at m.next_index from))
          (kept-IsTicking m _ refl refl refl refl m-IsTicking) m-IsTicking

dispatch-IsTicking :
    (from : ℕ) (rpc : Rpc) (n : Node) → IsTicking n → IsTicking (dispatch from rpc n).0
dispatch-IsTicking from (request_vote args) n t = vote-IsTicking from args n t
dispatch-IsTicking from (request_vote_reply reply) n t = vote_reply-IsTicking from reply n t
dispatch-IsTicking from (append_entries args) n t = append-IsTicking from args n t
dispatch-IsTicking from (append_entries_reply reply) n t = append_reply-IsTicking from reply n t

handle-IsTicking : (e : Event) (n : Node) → IsTicking n → IsTicking (handle e n).0
unfolding handle start_election heartbeat_tick kill restart submit_command
handle-IsTicking (receive msg) n t =
    if_of (λ (o : Outcome). IsTicking o.0) n.alive (dispatch-IsTicking msg.from msg.rpc n t) t
handle-IsTicking timeout n t = record {
  timer = ground (arith, t.timer);
  loop = ground (arith, t.loop);
}
handle-IsTicking heartbeat n t = t
handle-IsTicking changed n t = kept-IsTicking n _ refl refl refl refl t
handle-IsTicking (submit cmd) n t =
    if_of (λ (o : Outcome × Bool). IsTicking o.0.0) (is_leader n.role)
      (kept-IsTicking n _ refl refl refl refl t) t
handle-IsTicking crash n t = record { timer = refl; loop = refl }
handle-IsTicking revive n t = record { timer = refl; loop = refl }

run-IsTicking : (es : List Event) (n : Node) → IsTicking n → IsTicking (run es n).0
unfolding run
run-IsTicking [] n t = t
run-IsTicking (e ∷ es) n t = run-IsTicking es (handle e n).0 (handle-IsTicking e n t)

reached-IsTicking :
    (id : ℕ) (peers : List ℕ) (es : List Event) → IsTicking (run es (new_node id peers)).0
unfolding new_node
reached-IsTicking id peers es =
    run-IsTicking es (new_node id peers) (record { timer = refl; loop = refl })

-- A node that a run from the start brought to lead and that is alive has its election timer running
-- all the while: when the timer fires, the leader becomes a candidate of the next term, and the
-- heartbeat loop of its lost leadership stays on.
pub timeout-leader :
    (id : ℕ) (peers : List ℕ) (es : List Event)
    → (run es (new_node id peers)).0.alive ≡ true
    → (run es (new_node id peers)).0.role ≡ leader
    → let n = (run es (new_node id peers)).0 in
      let m = (handle timeout n).0 in
      (m.role ≡ candidate) × ((m.current_term ≡ n.current_term + 1) × (m.heartbeat ≡ true))
unfolding handle start_election
timeout-leader id peers es a l =
    let t = reached-IsTicking id peers es in
    let n = (run es (new_node id peers)).0 in
    let timed : n.timer ≡ true = ground (arith, a, t.timer) in
    let loops : n.heartbeat ≡ true = ground (arith, a, l, t.loop) in
    rw (timed, a, if◌then◌else◌) (refl, (refl, loops))
