-- ===== src/Raft/Leader.antt =====
-- What a leader does to its log, and which roles follow one another.
use raft_visualizer.Prelude.{
  ℕ, ◌≡◌, refl, sym, ap, ◌∙◌, ◌⊎◌, inl, inr, Bool, true, not, List, [], ◌++◌, arith, ltb, nat_eq,
  if_of, length, append-nil, Bool-cases,
}
use raft_visualizer.Raft.{
  Node, LogEntry, Role, follower, candidate, leader, Rpc, request_vote, request_vote_reply,
  append_entries, append_entries_reply, Outcome, RequestVoteArgs, RequestVoteReply,
  AppendEntriesArgs, AppendEntriesReply, is_leader, is_candidate, maybe_step_down, become_leader,
  submit_command, kill, restart, heartbeat_tick,
}
use raft_visualizer.Raft.Election.{
  start_election, handle_request_vote, handle_request_vote_reply, count_vote, has_majority,
}
use raft_visualizer.Raft.Replication.{
  commit_from, maybe_advance_commit_index, handle_append_entries, handle_append_entries_reply,
  accept, advance_last_applied, acknowledge,
}
use raft_visualizer.Raft.Commit.{commit_from-Committed}
use raft_visualizer.Raft.Events.{
  Event, receive, timeout, heartbeat, changed, submit, crash, revive, handle, dispatch,
}

infix 40 ◌⟶◌
-- The diagram of the roles.
pub data ◌⟶◌ : Role → Role → Type 0 where
  stay : (r : Role) → r ⟶ r
  campaign : (r : Role) → r ⟶ candidate
  win : candidate ⟶ leader
  step_down : (r : Role) → r ⟶ follower

-- A change of a node that follows the diagram, and after which a leader's log is the old one with
-- entries behind it.
pub record Proceeds (n m : Node) : Type 0 where
  pub role : n.role ⟶ m.role
  pub log : m.role ≡ leader → (more : List LogEntry) × (m.log ≡ n.log ++ more)

-- The log and the role are as they were, or the node has stepped down.
same-Proceeds : {n m : Node} → m.log ≡ n.log → m.role ≡ n.role → Proceeds n m
same-Proceeds {n} {m} l r = record {
  role = rw r (stay n.role);
  log = λ _. ([], l ∙ sym (append-nil n.log));
}

fallen-Proceeds : {n m : Node} → m.role ≡ follower → Proceeds n m
fallen-Proceeds {n} {m} r = record { role = rw r (step_down n.role); log = λ e. cc }

pub step_down-cases :
    (t : ℕ) (n : Node) → ((maybe_step_down t n).role ≡ follower) ⊎ (maybe_step_down t n ≡ n)
unfolding maybe_step_down
step_down-cases t n = elim (Bool-cases (ltb n.current_term t)) [
  | inl e ↦ inl (ground (arith, e))
  | inr e ↦ inr (ground (arith, e))
]

vote-Proceeds :
    (from : ℕ) (args : RequestVoteArgs) (n : Node) → Proceeds n (handle_request_vote from args n).0
unfolding handle_request_vote
vote-Proceeds from args n = elim (step_down-cases args.term n) [
  | inl down ↦ fallen-Proceeds (ground (arith, down))
  | inr same ↦ same-Proceeds (ground (arith, same)) (ground (arith, same))
]

won-Proceeds : {n m : Node} → n.role ≡ candidate → m.role ≡ leader → m.log ≡ n.log → Proceeds n m
won-Proceeds {n} {m} c r l = record {
  role = rw (c, r) win;
  log = λ _. ([], l ∙ sym (append-nil n.log));
}

is_candidate-role : (r : Role) → is_candidate r ≡ true → r ≡ candidate
is_candidate-role follower e = cc
is_candidate-role candidate e = refl
is_candidate-role leader e = cc

-- A reply counted by a candidate whose term it is, or that has not grown.
counted-Proceeds :
    (from : ℕ) (reply : RequestVoteReply) (n : Node)
    → maybe_step_down reply.term n ≡ n
    → n.role ≡ candidate
    → Proceeds n (handle_request_vote_reply from reply n).0
unfolding handle_request_vote_reply become_leader
counted-Proceeds from reply n same c = elim (Bool-cases (has_majority (count_vote from reply n))) [
  | inl most ↦ won-Proceeds c (ground (arith, same, c, most)) (ground (arith, same, c, most))
  | inr few ↦ same-Proceeds (ground (arith, same, c, few)) (ground (arith, same, c, few))
]

vote_reply-Proceeds :
    (from : ℕ) (reply : RequestVoteReply) (n : Node)
    → Proceeds n (handle_request_vote_reply from reply n).0
vote_reply-Proceeds from reply n = elim (step_down-cases reply.term n) [
  | inl down ↦ fallen-Proceeds (unfold handle_request_vote_reply in ground (arith, down))
  | inr same ↦ elim (Bool-cases (is_candidate n.role)) [
    | inl c ↦ counted-Proceeds from reply n same (is_candidate-role n.role c)
    | inr c ↦
        unfold handle_request_vote_reply in
        same-Proceeds (ground (arith, same, c)) (ground (arith, same, c))
  ]
]

append-Proceeds :
    (from : ℕ) (args : AppendEntriesArgs) (n : Node)
    → Proceeds n (handle_append_entries from args n).0
unfolding handle_append_entries accept advance_last_applied
append-Proceeds from args n = elim (step_down-cases args.term n) [
  | inl down ↦ fallen-Proceeds (ground (arith, down))
  | inr same ↦ elim (Bool-cases (ltb args.term n.current_term)) [
    | inl stale ↦ same-Proceeds (ground (arith, same, stale)) (ground (arith, same, stale))
    | inr fresh ↦ fallen-Proceeds (ground (arith, same, fresh))
  ]
]

commit-Proceeds : (k : ℕ) (n : Node) → Proceeds n (commit_from k n)
commit-Proceeds k n =
    let (c, a, d, e) = commit_from-Committed k n in
    same-Proceeds (ap (λ (m : Node). m.log) e) (ap (λ (m : Node). m.role) e)

append_reply-Proceeds :
    (from : ℕ) (reply : AppendEntriesReply) (n : Node)
    → Proceeds n (handle_append_entries_reply from reply n).0
unfolding handle_append_entries_reply maybe_advance_commit_index
append_reply-Proceeds from reply n = elim (step_down-cases reply.term n) [
  | inl down ↦ fallen-Proceeds (ground (arith, down))
  | inr same ↦ rw same (
      if_of (λ (o : Outcome). Proceeds n o.0) (not (is_leader n.role)) (same-Proceeds refl refl)
        (if_of (λ (o : Outcome). Proceeds n o.0) reply.success acknowledged
          (same-Proceeds (ground arith) (ground arith))))
]
  where
    acknowledged : Proceeds n (maybe_advance_commit_index (acknowledge from reply.match_index n))
    acknowledged =
        let k = commit-Proceeds (length n.log) (acknowledge from reply.match_index n) in
        record { role = k.role; log = k.log }

dispatch-Proceeds : (from : ℕ) (rpc : Rpc) (n : Node) → Proceeds n (dispatch from rpc n).0
dispatch-Proceeds from (request_vote args) n = vote-Proceeds from args n
dispatch-Proceeds from (request_vote_reply reply) n = vote_reply-Proceeds from reply n
dispatch-Proceeds from (append_entries args) n = append-Proceeds from args n
dispatch-Proceeds from (append_entries_reply reply) n = append_reply-Proceeds from reply n

-- Whatever happens to a node, its role follows the diagram: any role can fall back to follower or
-- start an election, and only a candidate becomes leader. And if the node is a leader afterwards,
-- its log is the old one with entries behind it: a leader never overwrites or deletes an entry.
pub handle-Proceeds : (e : Event) (n : Node) → Proceeds n (handle e n).0
unfolding handle start_election heartbeat_tick submit_command kill restart
handle-Proceeds (receive msg) n =
    if_of (λ (o : Outcome). Proceeds n o.0) n.alive (dispatch-Proceeds msg.from msg.rpc n)
      (same-Proceeds refl refl)
handle-Proceeds timeout n =
    if_of (λ (o : Outcome). Proceeds n o.0) n.timer
      (if_of (λ (o : Outcome). Proceeds n o.0) n.alive
        (record { role = campaign n.role; log = λ e. cc }) (same-Proceeds refl refl))
      (same-Proceeds refl refl)
handle-Proceeds heartbeat n = same-Proceeds refl refl
handle-Proceeds changed n = same-Proceeds refl refl
handle-Proceeds (submit cmd) n =
    if_of (λ (o : Outcome × Bool). Proceeds n o.0.0) (is_leader n.role)
      (record { role = stay n.role; log = λ e. (_, refl) }) (same-Proceeds refl refl)
handle-Proceeds crash n = same-Proceeds refl refl
handle-Proceeds revive n = fallen-Proceeds refl
