-- ===== src/Raft/Flags.antt =====
-- What a handler of a message does to a node does not depend on what a crash sets in it: `alive`, the
-- heartbeat loop, the election timer and the signal of a change (backend/raft/node.go).
use raft_visualizer.Prelude.{
  ℕ, zero, suc, ◌≡◌, refl, ap, ◌∙◌, inl, inr, Bool, true, false, not, [], ltb, arith, nat_eq,
  if◌then◌else◌, length, Bool-cases, if_of, sym,
}
use raft_visualizer.Raft.{
  Node, Rpc, RequestVoteArgs, RequestVoteReply, AppendEntriesArgs, AppendEntriesReply, request_vote,
  request_vote_reply, append_entries, append_entries_reply, Outcome, maybe_step_down, become_leader,
  at, is_leader, send_heartbeats, send_to_peers, send_append_entries,
}
use raft_visualizer.Raft.Election.{
  handle_request_vote, handle_request_vote_reply, candidate_log_up_to_date,
}
use raft_visualizer.Raft.Replication.{
  handle_append_entries, handle_append_entries_reply, commit_from, maybe_advance_commit_index,
  acknowledge, back_off, accept, advance_last_applied, can_commit,
}
use raft_visualizer.Raft.Commit.{commit_from-Committed}
use raft_visualizer.Raft.Events.{dispatch}

-- The node with other values of what a crash sets: whether it is alive, its heartbeat loop, its
-- election timer and its signal of a change.
abbrev pub with_flags : Bool → Bool → Bool → Bool → Node → Node
with_flags a h t d n = record n { alive = a; heartbeat = h; timer = t; dirty = d }

-- The node without them.
abbrev pub core : Node → Node
core n = with_flags false false false false n

-- The same node apart from the flags, and the same messages.
abbrev pub Alike : Outcome → Outcome → Type 0
Alike o p = (core o.0 ≡ core p.0) × (o.1 ≡ p.1)

if-core :
    (b : Bool) (n n' m m' : Node)
    → core n ≡ core n'
    → core m ≡ core m'
    → core (if b then n else m) ≡ core (if b then n' else m')
if-core true n n' m m' p q = p
if-core false n n' m m' p q = q

module _ (a h t d : Bool) where
  vote-Alike :
      (from : ℕ) (args : RequestVoteArgs) (n : Node)
      → Alike
          (handle_request_vote from args (with_flags a h t d n))
          (handle_request_vote from args n)
  unfolding handle_request_vote maybe_step_down candidate_log_up_to_date
  vote-Alike from args n = elim (Bool-cases (ltb n.current_term args.term)) [
    | inl e ↦ rw (e, if◌then◌else◌) (ground arith, refl)
    | inr e ↦ rw (e, if◌then◌else◌) (ground arith, refl)
  ]

  append-Alike :
      (from : ℕ) (args : AppendEntriesArgs) (n : Node)
      → Alike
          (handle_append_entries from args (with_flags a h t d n))
          (handle_append_entries from args n)
  unfolding handle_append_entries maybe_step_down accept advance_last_applied
  append-Alike from args n = (ground arith, ground arith)

  vote_reply-Alike :
      (from : ℕ) (reply : RequestVoteReply) (n : Node)
      → Alike
          (handle_request_vote_reply from reply (with_flags a h t d n))
          (handle_request_vote_reply from reply n)
  unfolding handle_request_vote_reply maybe_step_down become_leader send_heartbeats send_to_peers
      send_append_entries
  vote_reply-Alike from reply n = (ground arith, ground arith)

  advance-core :
      (n : Node)
      → core (advance_last_applied (with_flags a h t d n)) ≡ core (advance_last_applied n)
  unfolding advance_last_applied
  advance-core n = ground arith

  commit_from-core :
      (k : ℕ) (n : Node) → core (commit_from k (with_flags a h t d n)) ≡ core (commit_from k n)
  unfolding commit_from
  commit_from-core zero n = refl
  commit_from-core (suc k) n =
      let c : Node = record n { commit_index = suc k } in
      let on : Node = record (advance_last_applied (with_flags a h t d c)) { dirty = true } in
      let on' : Node = record (advance_last_applied c) { dirty = true } in
      let rest = commit_from k (with_flags a h t d n) in
      let rest' = commit_from k n in
      if-core (not (ltb n.commit_index (suc k))) (with_flags a h t d n) n
        (if can_commit n (suc k) then on else rest) (if can_commit n (suc k) then on' else rest')
        refl
        (if-core (can_commit n (suc k)) on on' rest rest' (advance-core c) (commit_from-core k n))

  append_reply-Alike :
      (from : ℕ) (reply : AppendEntriesReply) (n : Node)
      → Alike
          (handle_append_entries_reply from reply (with_flags a h t d n))
          (handle_append_entries_reply from reply n)
  unfolding handle_append_entries_reply maybe_step_down maybe_advance_commit_index
  append_reply-Alike from reply n = elim (Bool-cases (ltb n.current_term reply.term)) [
    | inl e ↦ rw (e, if◌then◌else◌) (refl, refl)
    | inr e ↦
        rw (e, if◌then◌else◌)
          (elim (Bool-cases (is_leader n.role)) [
            | inr l ↦ rw (l, if◌then◌else◌) (refl, refl)
            | inl l ↦
                rw (l, if◌then◌else◌)
                  (elim (Bool-cases reply.success) [
                    | inl s ↦
                        rw (s, if◌then◌else◌)
                          (
                            commit_from-core (length n.log) (acknowledge from reply.match_index n),
                            refl,
                          )
                    | inr s ↦ rw (s, if◌then◌else◌) (ground arith, refl)
                  ])
          ])
  ]

  pub dispatch-Alike :
      (from : ℕ) (rpc : Rpc) (n : Node)
      → Alike (dispatch from rpc (with_flags a h t d n)) (dispatch from rpc n)
  dispatch-Alike from (request_vote args) n = vote-Alike from args n
  dispatch-Alike from (request_vote_reply reply) n = vote_reply-Alike from reply n
  dispatch-Alike from (append_entries args) n = append-Alike from args n
  dispatch-Alike from (append_entries_reply reply) n = append_reply-Alike from reply n

step_down-keeps :
    (t : ℕ) (n : Node)
    → ((maybe_step_down t n).timer ≡ n.timer) × ((maybe_step_down t n).alive ≡ n.alive)
unfolding maybe_step_down
step_down-keeps t n = (ground arith, ground arith)

reply-keeps :
    (from : ℕ) (reply : AppendEntriesReply) (n : Node)
    → ((handle_append_entries_reply from reply n).0.timer ≡ n.timer)
      × ((handle_append_entries_reply from reply n).0.alive ≡ n.alive)
unfolding handle_append_entries_reply maybe_advance_commit_index
reply-keeps from reply n =
    if_of Keeps (not (is_leader m.role)) same (if_of Keeps reply.success acked backed)
  where
    Keeps : Outcome → Type 0
    Keeps o = (o.0.timer ≡ n.timer) × (o.0.alive ≡ n.alive)

    m : Node
    m = maybe_step_down reply.term n

    same : Keeps (m, [])
    same = step_down-keeps reply.term n

    acked : Keeps (commit_from (length m.log) (acknowledge from reply.match_index m), [])
    acked =
        let (c, a, d, e) =
          commit_from-Committed (length m.log) (acknowledge from reply.match_index m) in
        (ap (λ (x : Node). x.timer) e ∙ same.0, ap (λ (x : Node). x.alive) e ∙ same.1)

    backed : Keeps (back_off from m, [])
    backed = if_of (λ (x : Node). Keeps (x, [])) (ltb 1 (at m.next_index from)) same same

module _ (a h d : Bool) where
  pub timer-dispatch :
      (from : ℕ) (rpc : Rpc) (n : Node)
      → (dispatch from rpc (with_flags a h n.timer d n)).0.timer ≡ (dispatch from rpc n).0.timer
  unfolding handle_request_vote handle_request_vote_reply handle_append_entries maybe_step_down
      become_leader accept advance_last_applied candidate_log_up_to_date
  timer-dispatch from (request_vote args) n = ground arith
  timer-dispatch from (request_vote_reply reply) n = ground arith
  timer-dispatch from (append_entries args) n = ground arith
  timer-dispatch from (append_entries_reply reply) n =
      (reply-keeps from reply (with_flags a h n.timer d n)).0 ∙ sym (reply-keeps from reply n).0

pub alive-dispatch : (from : ℕ) (rpc : Rpc) (n : Node) → (dispatch from rpc n).0.alive ≡ n.alive
unfolding handle_request_vote handle_request_vote_reply handle_append_entries maybe_step_down
    become_leader accept advance_last_applied candidate_log_up_to_date
alive-dispatch from (request_vote args) n = ground arith
alive-dispatch from (request_vote_reply reply) n = ground arith
alive-dispatch from (append_entries args) n = ground arith
alive-dispatch from (append_entries_reply reply) n = (reply-keeps from reply n).1
