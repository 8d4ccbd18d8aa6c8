-- ===== src/Raft/Written.antt =====
-- What an event does to the log of a node.
use raft_visualizer.Prelude.{
  ℕ, ◌+◌, ◌-◌, ◌≤◌, ◌≡◌, refl, subst, ap, ◌∙◌, inl, inr, ◌⊎◌, true, not, List, [], ◌∷◌, ◌++◌, arith,
  ltb, nat_eq, if_of, if◌then◌else◌, Bool-cases, length, String,
}
use raft_visualizer.Raft.{
  Node, LogEntry, Role, follower, candidate, leader, Rpc, request_vote, request_vote_reply,
  append_entries, append_entries_reply, Outcome, AppendEntriesArgs, AppendEntriesReply, is_leader,
  maybe_step_down, become_leader, submit_command, kill, restart, heartbeat_tick, at, term_at,
}
use raft_visualizer.Raft.Election.{start_election, handle_request_vote, handle_request_vote_reply}
use raft_visualizer.Raft.Replication.{
  maybe_advance_commit_index, handle_append_entries, handle_append_entries_reply, accept,
  advance_last_applied, acknowledge, merge, is_consistent, follow,
}
use raft_visualizer.Raft.Commit.{commit_from-Committed}
use raft_visualizer.Raft.Events.{
  Event, receive, timeout, heartbeat, changed, submit, crash, revive, handle, dispatch,
}

-- The log reaches to the entry before the new ones, and that entry is of the term that is named.
abbrev pub Reaches : List LogEntry → AppendEntriesArgs → Type 0
Reaches log args =
    (args.prev_log_index ≡ 0)
    ⊎ ((args.prev_log_index ≤ length log)
        × (term_at log (args.prev_log_index - 1) ≡ args.prev_log_term))

pub data Written : Event → Node → Node → Type 0 where
  untouched : {e : Event} {n m : Node} → m.log ≡ n.log → Written e n m
  appended :
      {n m : Node} (cmd : String)
      → n.role ≡ leader
      → m.role ≡ n.role
      → m.current_term ≡ n.current_term
      → m.log
        ≡ n.log ++ record { index = length n.log + 1; term = n.current_term; command = cmd } ∷ []
      → Written (submit cmd) n m
  accepted :
      {n m : Node} (from to : ℕ) (args : AppendEntriesArgs)
      → m.role ≡ follower
      → Reaches n.log args
      → m.log ≡ merge (args.prev_log_index + 1) n.log args.entries
      → Written (receive (record { from = from; to = to; rpc = append_entries args })) n m

leader_of : (r : Role) → is_leader r ≡ true → r ≡ leader
leader_of follower h = cc
leader_of candidate h = cc
leader_of leader h = refl

pub log-step_down : (t : ℕ) (n : Node) → (maybe_step_down t n).log ≡ n.log
unfolding maybe_step_down
log-step_down t n = ground arith

log-accept :
    (args : AppendEntriesArgs) (n : Node)
    → (accept args n).log ≡ merge (args.prev_log_index + 1) n.log args.entries
unfolding accept advance_last_applied
log-accept args n = ground arith

role-accept : (args : AppendEntriesArgs) (n : Node) → (accept args n).role ≡ n.role
unfolding accept advance_last_applied
role-accept args n = ground arith

consistent-Reaches :
    (args : AppendEntriesArgs) (n : Node) → is_consistent args n ≡ true → Reaches n.log args
consistent-Reaches args n h = elim (Bool-cases (ltb 0 args.prev_log_index)) [
  | inl some_before ↦ inr (ground (arith, some_before, h), ground (arith, some_before, h))
  | inr first ↦ inl (ground (arith, first))
]

append-Written :
    (from to : ℕ) (args : AppendEntriesArgs) (n : Node)
    → Written
        (receive (record { from = from; to = to; rpc = append_entries args }))
        n
        (handle_append_entries from args n).0
unfolding handle_append_entries
append-Written from to args n =
    let m = maybe_step_down args.term n in
    elim (Bool-cases (ltb args.term m.current_term)) [
      | inl older ↦ untouched (ground (arith, older, log-step_down args.term n))
      | inr now ↦ elim (Bool-cases (is_consistent args m)) [
        | inr gap ↦ untouched (ground (arith, now, gap, log-step_down args.term n))
        | inl fits ↦
            accepted from to args
              (rw (now, fits, if◌then◌else◌) (ground (arith, role-accept args (follow m))))
              (subst (λ l. Reaches l args) (log-step_down args.term n)
                (consistent-Reaches args m fits))
              (rw (now, fits, if◌then◌else◌)
                (log-accept args (follow m)
                  ∙ ap (λ l. merge (args.prev_log_index + 1) l args.entries)
                      (log-step_down args.term n)))
      ]
    ]

append_reply-Written :
    (e : Event) (from : ℕ) (reply : AppendEntriesReply) (n : Node)
    → Written e n (handle_append_entries_reply from reply n).0
unfolding handle_append_entries_reply maybe_advance_commit_index
append_reply-Written e from reply n =
    let m = maybe_step_down reply.term n in
    let same = log-step_down reply.term n in
    if_of (λ (o : Outcome). Written e n o.0) (not (is_leader m.role)) (untouched same)
      (if_of (λ (o : Outcome). Written e n o.0) reply.success
        (let (c, a, d, eq) =
            commit_from-Committed (length m.log) (acknowledge from reply.match_index m) in
          untouched (ap (λ (x : Node). x.log) eq ∙ same))
        (if_of (λ (x : Node). Written e n x) (ltb 1 (at m.next_index from)) (untouched same)
          (untouched same)))

dispatch-Written :
    (from to : ℕ) (rpc : Rpc) (n : Node)
    → Written (receive (record { from = from; to = to; rpc = rpc })) n (dispatch from rpc n).0
unfolding handle_request_vote handle_request_vote_reply become_leader
dispatch-Written from to (request_vote args) n =
    untouched (ground (arith, log-step_down args.term n))
dispatch-Written from to (request_vote_reply reply) n =
    untouched (ground (arith, log-step_down reply.term n))
dispatch-Written from to (append_entries args) n = append-Written from to args n
dispatch-Written from to (append_entries_reply reply) n = append_reply-Written _ from reply n

pub handle-Written : (e : Event) (n : Node) → Written e n (handle e n).0
unfolding handle start_election heartbeat_tick submit_command kill restart
handle-Written (receive msg) n =
    if_of (λ (o : Outcome). Written (receive msg) n o.0) n.alive
      (dispatch-Written msg.from msg.to msg.rpc n) (untouched refl)
handle-Written timeout n =
    if_of (λ (o : Outcome). Written timeout n o.0) n.timer
      (if_of (λ (o : Outcome). Written timeout n o.0) n.alive (untouched refl) (untouched refl))
      (untouched refl)
handle-Written heartbeat n = untouched refl
handle-Written changed n = untouched refl
handle-Written (submit cmd) n = elim (Bool-cases (is_leader n.role)) [
  | inl l ↦
      appended cmd (leader_of n.role l) (ground (arith, l)) (ground (arith, l)) (ground (arith, l))
  | inr l ↦ untouched (ground (arith, l))
]
handle-Written crash n = untouched refl
handle-Written revive n = untouched refl
