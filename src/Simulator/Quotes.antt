-- ===== src/Simulator/Quotes.antt =====
-- What the nodes send of their logs.
use raft_visualizer.Prelude.{
  ℕ, zero, suc, ◌-◌, ◌≤◌, ◌<◌, ◌≡◌, refl, sym, subst, ap, ◌∙◌, inl, inr, Bool, false, not, ◌&&◌,
  Option, List, [], ◌∷◌, ◌++◌, map, arith, ltb, leb, nat_eq, if_of, Bool-cases, length, drop, All,
  length-drop,
}
use raft_visualizer.Raft.{
  Node, Message, LogEntry, Rpc, request_vote, request_vote_reply, append_entries,
  append_entries_reply, Outcome, RequestVoteReply, AppendEntriesArgs, is_leader, is_candidate,
  maybe_step_down, become_leader, submit_command, heartbeat_tick, at, send_append_entries,
  send_heartbeats, send_to_peers, prev_term, take, term_at,
}
use raft_visualizer.Raft.Election.{
  start_election, handle_request_vote, handle_request_vote_reply, has_majority, count_vote, ask,
}
use raft_visualizer.Raft.Replication.{
  handle_append_entries, handle_append_entries_reply, is_consistent,
}
use raft_visualizer.Raft.Events.{
  Event, receive, timeout, heartbeat, changed, submit, crash, revive, handle, dispatch,
}
use raft_visualizer.Raft.Routing.{zero_or_suc}
use raft_visualizer.Raft.Merge.{take-drop, length-take}
use raft_visualizer.Raft.Written.{log-step_down}
use raft_visualizer.Raft.Ledger.{Ledger, Recorded, IsExcerpt}
use raft_visualizer.Simulator.Ghosts.{Sends}

abbrev pub IsQuoted : Ledger → Rpc → Type 0
IsQuoted ledger (append_entries args) = IsExcerpt ledger args
IsQuoted ledger _ = Unit

abbrev quoted : Node → ℕ → AppendEntriesArgs
quoted n prev = record {
  term = n.current_term;
  leader_id = n.id;
  prev_log_index = prev;
  prev_log_term = prev_term prev n.log;
  entries = drop prev n.log;
  leader_commit = n.commit_index;
}

module _ (ledger : Ledger) where
  abbrev Quotes : Option Message → Type 0
  Quotes = Sends (λ msg. IsQuoted ledger msg.rpc)

  -- An excerpt from the node's log behind the first `prev` entries.
  excerpt :
      (log : List LogEntry) (prev : ℕ) (args : AppendEntriesArgs)
      → Recorded ledger [] log
      → args.prev_log_index ≡ prev
      → args.prev_log_term ≡ prev_term prev log
      → args.entries ≡ drop prev log
      → IsExcerpt ledger args
  excerpt log prev args h e t d = elim (Bool-cases (leb prev (length log))) [
    | inr beyond ↦ inl (d ∙ drop_all prev log (ground (arith, beyond)))
    | inl within ↦
        let size = length-take prev log (ground (arith, within)) in
        inr (
          take prev log,
          size ∙ sym e,
          (λ lt.
              ap (λ k. term_at (take prev log) (k - 1)) e
              ∙ term_at-take prev (prev - 1) log (omega (arith, lt, size))
              ∙ sym (t ∙ ground (arith, within, lt, size))),
          subst (Recorded ledger []) (sym (ap (take prev log ++◌) d ∙ take-drop prev log)) h,
        )
  ]
    where
      drop_all : (k : ℕ) (xs : List LogEntry) → length xs ≤ k → drop k xs ≡ []
      drop_all k xs le = nil_of (drop k xs) (omega (arith, length-drop k xs, le))
        where
          nil_of : (ys : List LogEntry) → length ys ≡ 0 → ys ≡ []
          nil_of [] h = refl
          nil_of (y ∷ ys) h = absurd (omega (arith, h))

      term_at-take : (k i : ℕ) (xs : List LogEntry) → i < k → term_at (take k xs) i ≡ term_at xs i
      term_at-take zero i xs lt = absurd (omega (arith, lt))
      term_at-take (suc k) i [] lt = refl
      term_at-take (suc k) zero (x ∷ xs) lt = refl
      term_at-take (suc k) (suc i) (x ∷ xs) lt = term_at-take k i xs (omega (arith, lt))

  send-Quotes : (n : Node) (p : ℕ) → Recorded ledger [] n.log → Quotes (send_append_entries n p)
  unfolding send_append_entries
  send-Quotes n p h = elim (zero_or_suc (at n.next_index p)) [
    | inl e ↦ rw (e, send_append_entries, Sends) tt
    | inr (prev, e) ↦
        rw (e, send_append_entries, Sends) (excerpt n.log prev (quoted n prev) h refl refl refl)
  ]

  to_peers-Quotes :
      (n : Node) (ps : List ℕ)
      → Recorded ledger [] n.log
      → All Quotes (map (send_append_entries n) ps)
  to_peers-Quotes n [] h = tt
  to_peers-Quotes n (p ∷ ps) h = (send-Quotes n p h, to_peers-Quotes n ps h)

  ask-Quotes : (n : Node) (ps : List ℕ) → All Quotes (map (ask n) ps)
  ask-Quotes n [] = tt
  ask-Quotes n (p ∷ ps) = (tt, ask-Quotes n ps)

  heartbeats-Quotes : (n : Node) → Recorded ledger [] n.log → All Quotes (send_heartbeats n)
  unfolding send_heartbeats send_to_peers
  heartbeats-Quotes n h = if_of (All Quotes) (is_leader n.role) (to_peers-Quotes n n.peers h) tt

  vote_reply-Quotes :
      (from : ℕ) (reply : RequestVoteReply) (n : Node)
      → Recorded ledger [] n.log
      → All Quotes (handle_request_vote_reply from reply n).1
  unfolding handle_request_vote_reply become_leader
  vote_reply-Quotes from reply n h =
      let m = maybe_step_down reply.term n in
      let hm = subst (Recorded ledger []) (sym (log-step_down reply.term n)) h in
      if_of (λ (o : Outcome). All Quotes o.1) (not (is_candidate m.role)) tt
        (if_of (λ (o : Outcome). All Quotes o.1) (has_majority (count_vote from reply m))
          (heartbeats-Quotes _
            (if_of (λ (x : Node). Recorded ledger [] x.log) reply.vote_granted hm hm))
          tt)

  dispatch-Quotes :
      (from : ℕ) (rpc : Rpc) (n : Node)
      → Recorded ledger [] n.log
      → All Quotes (dispatch from rpc n).1
  unfolding handle_request_vote handle_append_entries handle_append_entries_reply
  dispatch-Quotes from (request_vote args) n h = (tt, tt)
  dispatch-Quotes from (request_vote_reply reply) n h = vote_reply-Quotes from reply n h
  dispatch-Quotes from (append_entries args) n h =
      let m = maybe_step_down args.term n in
      if_of (λ (o : Outcome). All Quotes o.1) (ltb args.term m.current_term) (tt, tt)
        (if_of (λ (o : Outcome). All Quotes o.1) (not (is_consistent args m)) (tt, tt) (tt, tt))
  dispatch-Quotes from (append_entries_reply reply) n h =
      if_of (λ (o : Outcome). All Quotes o.1) (not (is_leader (maybe_step_down reply.term n).role))
        tt (if_of (λ (o : Outcome). All Quotes o.1) reply.success tt tt)

  pub handle-Quotes :
      (e : Event) (n : Node)
      → Recorded ledger [] n.log
      → Recorded ledger [] (handle e n).0.log
      → All Quotes (handle e n).1
  unfolding handle start_election heartbeat_tick submit_command send_to_peers
  handle-Quotes (receive msg) n h after =
      if_of (λ (o : Outcome). All Quotes o.1) n.alive (dispatch-Quotes msg.from msg.rpc n h) tt
  handle-Quotes timeout n h after =
      if_of (λ (o : Outcome). All Quotes o.1) n.timer
        (if_of (λ (o : Outcome). All Quotes o.1) n.alive
          (ask-Quotes (start_election (record n { timer = false })).0 n.peers) tt)
        tt
  handle-Quotes heartbeat n h after =
      if_of (All Quotes) (is_leader n.role && n.alive) (heartbeats-Quotes n h) tt
  handle-Quotes changed n h after = tt
  handle-Quotes (submit cmd) n h after =
      if_of (λ (o : Outcome × Bool). Recorded ledger [] o.0.0.log → All Quotes o.0.1)
        (is_leader n.role) (λ a. to_peers-Quotes _ n.peers a) (λ a. tt) after
  handle-Quotes crash n h after = tt
  handle-Quotes revive n h after = tt
