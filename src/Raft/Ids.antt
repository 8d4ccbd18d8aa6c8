-- ===== src/Raft/Ids.antt =====
-- The id and the peers of a node over its events.
use raft_visualizer.Prelude.{ℕ, ◌≡◌, refl, ap, ◌∙◌, not, arith, if_of, length, ltb}
use raft_visualizer.Raft.{
  Node, Rpc, request_vote, request_vote_reply, append_entries, append_entries_reply, Outcome,
  AppendEntriesReply, is_leader, at, maybe_step_down, become_leader, submit_command, kill, restart,
  heartbeat_tick,
}
use raft_visualizer.Raft.Election.{start_election, handle_request_vote, handle_request_vote_reply}
use raft_visualizer.Raft.Replication.{
  commit_from, maybe_advance_commit_index, handle_append_entries, handle_append_entries_reply,
  accept, advance_last_applied, acknowledge,
}
use raft_visualizer.Raft.Commit.{commit_from-Committed}
use raft_visualizer.Raft.Events.{
  Event, receive, timeout, heartbeat, changed, submit, crash, revive, handle, dispatch,
}

-- The same id and the same peers.
abbrev pub SameSite : Node → Node → Type 0
SameSite n m = (m.id ≡ n.id) × (m.peers ≡ n.peers)

pub step_down-SameSite : (t : ℕ) (n : Node) → SameSite n (maybe_step_down t n)
unfolding maybe_step_down
step_down-SameSite t n = (ground arith, ground arith)

commit_from-SameSite : (k : ℕ) (n : Node) → SameSite n (commit_from k n)
commit_from-SameSite k n =
    let (c, a, d, e) = commit_from-Committed k n in
    (ap (λ (m : Node). m.id) e, ap (λ (m : Node). m.peers) e)

append_reply-SameSite :
    (from : ℕ) (reply : AppendEntriesReply) (n : Node)
    → SameSite n (handle_append_entries_reply from reply n).0
unfolding handle_append_entries_reply maybe_advance_commit_index
append_reply-SameSite from reply n =
    if_of (λ (o : Outcome). SameSite n o.0) (not (is_leader m.role)) same
      (if_of (λ (o : Outcome). SameSite n o.0) reply.success
        (committed.0 ∙ same.0, committed.1 ∙ same.1)
        (if_of (λ (x : Node). SameSite n x) (ltb 1 (at m.next_index from)) same same))
  where
    m : Node
    m = maybe_step_down reply.term n

    same : SameSite n (maybe_step_down reply.term n)
    same = step_down-SameSite reply.term n

    committed : SameSite m (commit_from (length m.log) (acknowledge from reply.match_index m))
    committed = commit_from-SameSite (length m.log) (acknowledge from reply.match_index m)

dispatch-SameSite : (from : ℕ) (rpc : Rpc) (n : Node) → SameSite n (dispatch from rpc n).0
unfolding handle_request_vote handle_request_vote_reply handle_append_entries maybe_step_down
    become_leader accept advance_last_applied
dispatch-SameSite from (request_vote args) n = (ground arith, ground arith)
dispatch-SameSite from (request_vote_reply reply) n = (ground arith, ground arith)
dispatch-SameSite from (append_entries args) n = (ground arith, ground arith)
dispatch-SameSite from (append_entries_reply reply) n = append_reply-SameSite from reply n

-- No event changes a node's id or its peers.
pub handle-SameSite : (e : Event) (n : Node) → SameSite n (handle e n).0
unfolding handle start_election heartbeat_tick submit_command kill restart
handle-SameSite (receive msg) n =
    if_of (λ (o : Outcome). SameSite n o.0) n.alive (dispatch-SameSite msg.from msg.rpc n)
      (refl, refl)
handle-SameSite timeout n = (ground arith, ground arith)
handle-SameSite heartbeat n = (refl, refl)
handle-SameSite changed n = (refl, refl)
handle-SameSite (submit cmd) n = (ground arith, ground arith)
handle-SameSite crash n = (refl, refl)
handle-SameSite revive n = (refl, refl)
