-- ===== src/Raft/Replication.antt =====
-- The replication of the log (backend/raft/replication.go).
use raft_visualizer.Prelude.{
  ℕ, zero, suc, ◌+◌, ◌-◌, min, Bool, true, false, not, ◌&&◌, ◌||◌, some, List, [], ◌∷◌, ◌++◌, ltb,
  leb, ◌==◌, nat_eq, if◌then◌else◌, length,
}
use raft_visualizer.JsMap.{set}
use raft_visualizer.Raft.{
  Node, LogEntry, AppendEntriesArgs, AppendEntriesReply, Outcome, Sent, follower,
  append_entries_reply, is_leader, at, term_at, take, last_log_index, maybe_step_down,
}
use raft_visualizer.Raft.Election.{majority}

-- One round of the loop over the entries: the entry for the 1-based index.
abbrev pub place : ℕ → LogEntry → List LogEntry → List LogEntry
place log_idx entry log =
    if leb log_idx (length log)
    then if not (term_at log (log_idx - 1) == entry.term)
      then take (log_idx - 1) log ++ entry ∷ []
      else log
    else log ++ entry ∷ []

unfoldable pub merge : ℕ → List LogEntry → List LogEntry → List LogEntry
merge log_idx log [] = log
merge log_idx log (entry ∷ entries) = merge (suc log_idx) (place log_idx entry log) entries

unfoldable pub advance_last_applied : Node → Node
advance_last_applied n =
    if ltb n.last_applied n.commit_index then record n { last_applied = n.commit_index } else n

-- The consistency check passes.
abbrev pub is_consistent : AppendEntriesArgs → Node → Bool
is_consistent args n =
    not (ltb 0 args.prev_log_index)
    || (leb args.prev_log_index (length n.log)
        && (term_at n.log (args.prev_log_index - 1) == args.prev_log_term))

abbrev pub reply_to : ℕ → Node → AppendEntriesReply → Sent
reply_to from n reply =
    some (record { from = n.id; to = from; rpc = append_entries_reply reply }) ∷ []

-- The entries and the commit index of a message that passed the check.
unfoldable pub accept : AppendEntriesArgs → Node → Node
accept args n =
    let m : Node = record n { log = merge (args.prev_log_index + 1) n.log args.entries } in
    if ltb m.commit_index args.leader_commit
    then advance_last_applied
        (record m { commit_index = min args.leader_commit (last_log_index m) })
    else m

-- The node once it has heard from a leader of its term.
abbrev pub follow : Node → Node
follow n = record n {
  heartbeat = if is_leader n.role then false else n.heartbeat;
  role = follower;
  timer = true;
}

unfoldable pub handle_append_entries : ℕ → AppendEntriesArgs → Node → Outcome
handle_append_entries from args n =
    let m = maybe_step_down args.term n in
    let refusal : AppendEntriesReply = record {
      term = m.current_term;
      success = false;
      match_index = 0;
    } in
    if ltb args.term m.current_term
    then (m, reply_to from m refusal)
    else if not (is_consistent args m)
    then (follow m, reply_to from m refusal)
    else (let done = accept args (follow m) in
        (
          record done { dirty = true },
          reply_to from m
              (record { term = m.current_term; success = true; match_index = last_log_index done }),
        ))

-- How many of the peers have the entry.
abbrev pub replicas : List (ℕ × ℕ) → ℕ → List ℕ → ℕ
replicas matches idx [] = 0
replicas matches idx (p ∷ peers) =
    if leb idx (at matches p) then suc (replicas matches idx peers) else replicas matches idx peers

abbrev pub can_commit : Node → ℕ → Bool
can_commit n idx =
    (term_at n.log (idx - 1) == n.current_term)
    && leb (majority n) (1 + replicas n.match_index idx n.peers)

-- The loop from the index down to the commit index.
unfoldable pub commit_from : ℕ → Node → Node
commit_from zero n = n
commit_from (suc k) n =
    let rest = commit_from k n in
    if not (ltb n.commit_index (suc k))
    then n
    else if can_commit n (suc k)
    then record (advance_last_applied (record n { commit_index = suc k })) { dirty = true }
    else rest

unfoldable pub maybe_advance_commit_index : Node → Node
maybe_advance_commit_index n = commit_from (last_log_index n) n

-- What a successful reply of the peer says.
abbrev pub acknowledge : ℕ → ℕ → Node → Node
acknowledge peer match_index m =
    let matches =
      if ltb (at m.match_index peer) match_index
      then set m.match_index peer match_index
      else m.match_index in
    record m { match_index = matches; next_index = set m.next_index peer (at matches peer + 1) }

-- One step back after a failed reply.
abbrev pub back_off : ℕ → Node → Node
back_off peer m =
    if ltb 1 (at m.next_index peer)
    then record m { next_index = set m.next_index peer (at m.next_index peer - 1) }
    else m

unfoldable pub handle_append_entries_reply : ℕ → AppendEntriesReply → Node → Outcome
handle_append_entries_reply peer reply n =
    let m = maybe_step_down reply.term n in
    if not (is_leader m.role)
    then (m, [])
    else if reply.success
    then (maybe_advance_commit_index (acknowledge peer reply.match_index m), [])
    else (back_off peer m, [])
