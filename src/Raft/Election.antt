-- ===== src/Raft/Election.antt =====
-- The election (backend/raft/election.go).
use raft_visualizer.Prelude.{
  ℕ, ◌+◌, ◌/◌, Bool, true, not, ◌&&◌, Option, none, some, List, [], ◌∷◌, ◌++◌, map, ltb, leb, ◌==◌,
  nat_eq, if◌then◌else◌, includes, length,
}
use raft_visualizer.Raft.{
  Node, Message, RequestVoteArgs, RequestVoteReply, Outcome, candidate, request_vote,
  request_vote_reply, is_candidate, last_log_index, last_log_term, maybe_step_down, become_leader,
}

abbrev pub vote_args : Node → RequestVoteArgs
vote_args n = record {
  term = n.current_term;
  candidate_id = n.id;
  last_log_index = last_log_index n;
  last_log_term = last_log_term n;
}

abbrev pub ask : Node → ℕ → Option Message
ask n peer = some (record { from = n.id; to = peer; rpc = request_vote (vote_args n) })

unfoldable pub start_election : Node → Outcome
start_election n =
    let m : Node = record n {
      role = candidate;
      current_term = n.current_term + 1;
      voted_for = some n.id;
      votes_received = n.id ∷ [];
      timer = true;
      dirty = true;
    } in
    (m, map (ask m) n.peers)

unfoldable pub candidate_log_up_to_date : ℕ → ℕ → Node → Bool
candidate_log_up_to_date last_index last_term n =
    if not (last_term == last_log_term n)
    then ltb (last_log_term n) last_term
    else leb (last_log_index n) last_index

-- `n.votedFor == -1 || n.votedFor == id`
abbrev pub may_vote_for : Option ℕ → ℕ → Bool
may_vote_for none id = true
may_vote_for (some c) id = c == id

-- The condition of the grant, in the node after the step down.
abbrev pub grants : RequestVoteArgs → Node → Bool
grants args n =
    leb n.current_term args.term
    && (may_vote_for n.voted_for args.candidate_id
        && candidate_log_up_to_date args.last_log_index args.last_log_term n)

unfoldable pub handle_request_vote : ℕ → RequestVoteArgs → Node → Outcome
handle_request_vote from args n =
    let m = maybe_step_down args.term n in
    let grant = grants args m in
    (
      (if grant
          then record m { voted_for = some args.candidate_id; timer = true; dirty = true }
          else m),
      some (record {
        from = m.id;
        to = from;
        rpc = request_vote_reply (record { term = m.current_term; vote_granted = grant });
      })
          ∷ [],
    )

abbrev pub majority : Node → ℕ
majority n = (length n.peers + 1) / 2 + 1

-- `votesReceived[id] = true`
abbrev pub add_vote : ℕ → List ℕ → List ℕ
add_vote id votes = if includes votes id then votes else votes ++ id ∷ []

abbrev pub count_vote : ℕ → RequestVoteReply → Node → Node
count_vote from reply m =
    if reply.vote_granted then record m { votes_received = add_vote from m.votes_received } else m

abbrev pub has_majority : Node → Bool
has_majority m = leb (majority m) (length m.votes_received)

unfoldable pub handle_request_vote_reply : ℕ → RequestVoteReply → Node → Outcome
handle_request_vote_reply from reply n =
    let m = maybe_step_down reply.term n in
    if not (is_candidate m.role)
    then (m, [])
    else (let counted = count_vote from reply m in
        if has_majority counted then become_leader counted else (counted, []))
