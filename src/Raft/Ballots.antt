-- ===== src/Raft/Ballots.antt =====
-- The votes that a node counts, event by event.
use raft_visualizer.Prelude.{
  ℕ, ◌≤◌, ◌<◌, ◌≡◌, refl, ap, inl, inr, Bool, true, not, some, [], ◌∷◌, arith, ltb, nat_eq, if_of,
  if◌then◌else◌, Bool-cases, length,
}
use raft_visualizer.Raft.{
  Node, Role, follower, candidate, leader, Rpc, request_vote, request_vote_reply, append_entries,
  append_entries_reply, Outcome, RequestVoteArgs, RequestVoteReply, AppendEntriesArgs,
  AppendEntriesReply, is_leader, is_candidate, maybe_step_down, become_leader, submit_command, kill,
  restart, heartbeat_tick, at, at,
}
use raft_visualizer.Raft.Election.{
  start_election, handle_request_vote, handle_request_vote_reply, majority, add_vote,
}
use raft_visualizer.Raft.Replication.{
  maybe_advance_commit_index, handle_append_entries, handle_append_entries_reply, accept,
  advance_last_applied, acknowledge,
}
use raft_visualizer.Raft.Commit.{commit_from-Committed}
use raft_visualizer.Raft.Events.{
  Event, receive, timeout, heartbeat, changed, submit, crash, revive, handle, dispatch,
}

-- A leader has counted a majority.
abbrev pub HasWon : Node → Type 0
HasWon n = n.role ≡ leader → majority n ≤ length n.votes_received

-- What an event does to the votes that a node has counted.
pub data Tally : Event → Node → Node → Type 0 where
  retired : {e : Event} {n m : Node} → m.role ≡ follower → Tally e n m
  kept :
      {e : Event} {n m : Node}
      → m.role ≡ n.role
      → m.current_term ≡ n.current_term
      → m.votes_received ≡ n.votes_received
      → Tally e n m
  began :
      {e : Event} {n m : Node}
      → m.role ≡ candidate
      → n.current_term < m.current_term
      → m.voted_for ≡ some m.id
      → m.votes_received ≡ m.id ∷ []
      → Tally e n m
  counted :
      {e : Event} {n m : Node}
      → n.role ≡ candidate
      → m.current_term ≡ n.current_term
      → m.votes_received ≡ n.votes_received
      → HasWon m
      → Tally e n m
  granted :
      {n m : Node} (from to : ℕ) (reply : RequestVoteReply)
      → reply.vote_granted ≡ true
      → reply.term ≤ n.current_term
      → n.role ≡ candidate
      → m.current_term ≡ n.current_term
      → m.votes_received ≡ add_vote from n.votes_received
      → HasWon m
      → Tally (receive (record { from = from; to = to; rpc = request_vote_reply reply })) n m

candidate_of : (r : Role) → is_candidate r ≡ true → r ≡ candidate
candidate_of follower h = cc
candidate_of candidate h = refl
candidate_of leader h = cc

step_down-Tally : (e : Event) (t : ℕ) (n : Node) → Tally e n (maybe_step_down t n)
unfolding maybe_step_down
step_down-Tally e t n =
    if_of (Tally e n) (ltb n.current_term t) (retired refl) (kept refl refl refl)

vote_reply-Tally :
    (from to : ℕ) (reply : RequestVoteReply) (n : Node)
    → Tally
        (receive (record { from = from; to = to; rpc = request_vote_reply reply }))
        n
        (handle_request_vote_reply from reply n).0
unfolding handle_request_vote_reply maybe_step_down become_leader
vote_reply-Tally from to reply n = elim (Bool-cases (ltb n.current_term reply.term)) [
  | inl newer ↦ retired (ground (arith, newer))
  | inr old ↦ elim (Bool-cases (is_candidate n.role)) [
    | inr not_so ↦
        kept (ground (arith, old, not_so)) (ground (arith, old, not_so))
          (ground (arith, old, not_so))
    | inl runs ↦ elim (Bool-cases reply.vote_granted) [
      | inr not_so ↦
          counted (candidate_of n.role runs) (ground (arith, old, runs, not_so))
            (ground (arith, old, runs, not_so)) (λ l. ground (arith, old, runs, not_so, l))
      | inl gives ↦
          granted from to reply gives (ground (arith, old)) (candidate_of n.role runs)
            (ground (arith, old, runs, gives)) (ground (arith, old, runs, gives))
            (λ l. ground (arith, old, runs, gives, l))
    ]
  ]
]

vote-Tally :
    (e : Event) (from : ℕ) (args : RequestVoteArgs) (n : Node)
    → Tally e n (handle_request_vote from args n).0
unfolding handle_request_vote maybe_step_down
vote-Tally e from args n = elim (Bool-cases (ltb n.current_term args.term)) [
  | inl newer ↦ retired (ground (arith, newer))
  | inr old ↦ kept (ground (arith, old)) (ground (arith, old)) (ground (arith, old))
]

append-Tally :
    (e : Event) (from : ℕ) (args : AppendEntriesArgs) (n : Node)
    → Tally e n (handle_append_entries from args n).0
unfolding handle_append_entries accept advance_last_applied maybe_step_down
append-Tally e from args n = elim (Bool-cases (ltb args.term n.current_term)) [
  | inl older ↦ kept (ground (arith, older)) (ground (arith, older)) (ground (arith, older))
  | inr current ↦ retired (ground (arith, current))
]

append_reply-Tally :
    (e : Event) (from : ℕ) (reply : AppendEntriesReply) (n : Node)
    → Tally e n (handle_append_entries_reply from reply n).0
unfolding handle_append_entries_reply maybe_step_down maybe_advance_commit_index
append_reply-Tally e from reply n = elim (Bool-cases (ltb n.current_term reply.term)) [
  | inl newer ↦ retired (ground (arith, newer))
  | inr old ↦
      rw (old, if◌then◌else◌)
        (if_of (λ (o : Outcome). Tally e n o.0) (not (is_leader n.role)) (kept refl refl refl)
          (if_of (λ (o : Outcome). Tally e n o.0) reply.success
            (let (c, a, d, same) =
                commit_from-Committed (length n.log) (acknowledge from reply.match_index n) in
              kept (ap (λ (m : Node). m.role) same) (ap (λ (m : Node). m.current_term) same)
                (ap (λ (m : Node). m.votes_received) same))
            (if_of (λ (m : Node). Tally e n m) (ltb 1 (at n.next_index from)) (kept refl refl refl)
              (kept refl refl refl))))
]

dispatch-Tally :
    (from to : ℕ) (rpc : Rpc) (n : Node)
    → Tally (receive (record { from = from; to = to; rpc = rpc })) n (dispatch from rpc n).0
dispatch-Tally from to (request_vote args) n = vote-Tally _ from args n
dispatch-Tally from to (request_vote_reply reply) n = vote_reply-Tally from to reply n
dispatch-Tally from to (append_entries args) n = append-Tally _ from args n
dispatch-Tally from to (append_entries_reply reply) n = append_reply-Tally _ from reply n

pub handle-Tally : (e : Event) (n : Node) → Tally e n (handle e n).0
unfolding handle start_election heartbeat_tick submit_command kill restart
handle-Tally (receive msg) n =
    if_of (λ (o : Outcome). Tally (receive msg) n o.0) n.alive
      (dispatch-Tally msg.from msg.to msg.rpc n) (kept refl refl refl)
handle-Tally timeout n =
    if_of (λ (o : Outcome). Tally timeout n o.0) n.timer
      (if_of (λ (o : Outcome). Tally timeout n o.0) n.alive (began refl (omega arith) refl refl)
        (kept refl refl refl))
      (kept refl refl refl)
handle-Tally heartbeat n = kept refl refl refl
handle-Tally changed n = kept refl refl refl
handle-Tally (submit cmd) n =
    if_of (λ (o : Outcome × Bool). Tally (submit cmd) n o.0.0) (is_leader n.role)
      (kept refl refl refl) (kept refl refl refl)
handle-Tally crash n = kept refl refl refl
handle-Tally revive n = retired refl
