-- ===== src/Raft/Votes.antt =====
-- A node's vote.
use raft_visualizer.Prelude.{ℕ, zero, suc, ◌≤◌, ◌≡◌, refl, not, some, arith, nat_eq, if_of}
use raft_visualizer.Raft.{
  Node, Rpc, RequestVoteReply, RequestVoteArgs, AppendEntriesArgs, AppendEntriesReply, request_vote,
  request_vote_reply, append_entries, append_entries_reply, Outcome, is_leader, maybe_step_down,
  become_leader, submit_command, kill, restart, heartbeat_tick,
}
use raft_visualizer.Raft.Election.{start_election, handle_request_vote, handle_request_vote_reply}
use raft_visualizer.Raft.Replication.{
  commit_from, maybe_advance_commit_index, handle_append_entries, handle_append_entries_reply,
  accept, acknowledge, advance_last_applied,
}
use raft_visualizer.Raft.Events.{
  Event, receive, timeout, heartbeat, changed, submit, crash, revive, handle, dispatch,
}

-- Between two states of a node no term is left for a smaller one, and no vote of a term is changed.
pub record KeepsVote (n m : Node) : Type 0 where
  pub term : n.current_term ≤ m.current_term
  pub vote : (c : ℕ) → m.current_term ≡ n.current_term → n.voted_for ≡ some c → m.voted_for ≡ some c

-- The ballot is untouched.
abbrev pub SameBallot : Node → Node → Type 0
SameBallot n m = (m.current_term ≡ n.current_term) × (m.voted_for ≡ n.voted_for)

same-KeepsVote : {n m : Node} → SameBallot n m → KeepsVote n m
same-KeepsVote s = record { term = omega (arith, s.0); vote = λ c e v. cc (s.1, v) }

pub commit_from-SameBallot : (k : ℕ) (n : Node) → SameBallot n (commit_from k n)
unfolding commit_from advance_last_applied
commit_from-SameBallot zero n = (refl, refl)
commit_from-SameBallot (suc k) n = ground (arith, commit_from-SameBallot k n)

step_down-KeepsVote : (t : ℕ) (n : Node) → KeepsVote n (maybe_step_down t n)
unfolding maybe_step_down
step_down-KeepsVote t n = record { term = ground arith; vote = λ c e v. ground arith }

trans-KeepsVote : {n m p : Node} → KeepsVote n m → KeepsVote m p → KeepsVote n p
trans-KeepsVote k l = record {
  term = omega (arith, k.term, l.term);
  vote = λ c e v.
      l.vote c (omega (arith, k.term, l.term, e)) (k.vote c (omega (arith, k.term, l.term, e)) v);
}

request_vote-KeepsVote :
    (from : ℕ) (args : RequestVoteArgs) (n : Node) → KeepsVote n (handle_request_vote from args n).0
unfolding handle_request_vote
request_vote-KeepsVote from args n =
    trans-KeepsVote (step_down-KeepsVote args.term n)
      (record { term = ground arith; vote = λ c e v. ground arith })

vote_reply-KeepsVote :
    (from : ℕ) (reply : RequestVoteReply) (n : Node)
    → KeepsVote n (handle_request_vote_reply from reply n).0
unfolding handle_request_vote_reply become_leader
vote_reply-KeepsVote from reply n =
    trans-KeepsVote (step_down-KeepsVote reply.term n)
      (record { term = ground arith; vote = λ c e v. ground arith })

append_entries-KeepsVote :
    (from : ℕ) (args : AppendEntriesArgs) (n : Node)
    → KeepsVote n (handle_append_entries from args n).0
unfolding handle_append_entries accept advance_last_applied
append_entries-KeepsVote from args n =
    trans-KeepsVote (step_down-KeepsVote args.term n)
      (record { term = ground arith; vote = λ c e v. ground arith })

append_reply-KeepsVote :
    (from : ℕ) (reply : AppendEntriesReply) (n : Node)
    → KeepsVote n (handle_append_entries_reply from reply n).0
unfolding handle_append_entries_reply maybe_advance_commit_index
append_reply-KeepsVote from reply n = trans-KeepsVote (step_down-KeepsVote reply.term n) (
    if_of (λ (o : Outcome). KeepsVote m o.0) (not (is_leader m.role)) (same-KeepsVote (refl, refl))
      (if_of (λ (o : Outcome). KeepsVote m o.0) reply.success
        (same-KeepsVote (commit_from-SameBallot _ (acknowledge from reply.match_index m)))
        (same-KeepsVote (ground arith))))
  where
    m : Node
    m = maybe_step_down reply.term n

dispatch-KeepsVote : (from : ℕ) (rpc : Rpc) (n : Node) → KeepsVote n (dispatch from rpc n).0
dispatch-KeepsVote from (request_vote args) n = request_vote-KeepsVote from args n
dispatch-KeepsVote from (request_vote_reply reply) n = vote_reply-KeepsVote from reply n
dispatch-KeepsVote from (append_entries args) n = append_entries-KeepsVote from args n
dispatch-KeepsVote from (append_entries_reply reply) n = append_reply-KeepsVote from reply n

-- Whatever happens to a node, its term does not decrease, and while it stays the node keeps the
-- vote that it has cast.
pub handle-KeepsVote : (e : Event) (n : Node) → KeepsVote n (handle e n).0
unfolding handle start_election heartbeat_tick submit_command kill restart
handle-KeepsVote (receive msg) n =
    if_of (λ (o : Outcome). KeepsVote n o.0) n.alive (dispatch-KeepsVote msg.from msg.rpc n)
      (same-KeepsVote (refl, refl))
handle-KeepsVote timeout n = record { term = ground arith; vote = λ c e v. ground arith }
handle-KeepsVote heartbeat n = same-KeepsVote (refl, refl)
handle-KeepsVote changed n = same-KeepsVote (refl, refl)
handle-KeepsVote (submit cmd) n = same-KeepsVote (ground arith)
handle-KeepsVote crash n = same-KeepsVote (refl, refl)
handle-KeepsVote revive n = same-KeepsVote (refl, refl)
