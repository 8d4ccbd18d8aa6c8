-- ===== src/Raft/Routing.antt =====
-- Where a node's messages go.
use raft_visualizer.Prelude.{
  ℕ, zero, suc, ◌<◌, ◌≡◌, refl, not, ◌&&◌, ◌⊎◌, Bool, false, inl, inr, Option, none, some, List, [],
  ◌∷◌, map, if_of, ltb, All,
}
use raft_visualizer.Raft.{
  Node, Message, Rpc, request_vote, request_vote_reply, append_entries, append_entries_reply,
  Outcome, RequestVoteReply, AppendEntriesArgs, is_leader, is_candidate, at, maybe_step_down,
  become_leader, submit_command, heartbeat_tick, send_append_entries, send_to_peers,
  send_heartbeats,
}
use raft_visualizer.Raft.Election.{
  start_election, ask, handle_request_vote, handle_request_vote_reply, count_vote, has_majority,
}
use raft_visualizer.Raft.Replication.{
  handle_append_entries, handle_append_entries_reply, is_consistent,
}
use raft_visualizer.Raft.Ids.{SameSite, step_down-SameSite}
use raft_visualizer.Raft.Events.{
  Event, receive, timeout, heartbeat, changed, submit, crash, revive, handle, dispatch,
}

-- The node and its peers are among the first `k`.
pub record IsPlaced (k : ℕ) (n : Node) : Type 0 where
  pub id : n.id < k
  pub peers : All (λ p. p < k) n.peers

pub same-IsPlaced : (k : ℕ) (n m : Node) → SameSite n m → IsPlaced k n → IsPlaced k m
same-IsPlaced k n m s p = record { id = rw s.0 p.id; peers = rw s.1 p.peers }

-- A message between two of the first `k` nodes.
abbrev pub Fits : ℕ → Option Message → Type 0
Fits k none = Unit
Fits k (some m) = (m.from < k) × (m.to < k)

-- What comes to the node is from one of the first `k`.
abbrev pub Arrives : ℕ → Event → Type 0
Arrives k (receive msg) = msg.from < k
Arrives k _ = Unit

pub zero_or_suc : (x : ℕ) → (x ≡ 0) ⊎ ((y : ℕ) × (x ≡ suc y))
zero_or_suc zero = inl refl
zero_or_suc (suc y) = inr (y, refl)

module _ (k : ℕ) where
  send-Fits : (n : Node) (p : ℕ) → n.id < k → p < k → Fits k (send_append_entries n p)
  unfolding send_append_entries
  send-Fits n p i h = elim (zero_or_suc (at n.next_index p)) [
    | inl e ↦ rw (e, Fits) tt
    | inr (prev, e) ↦ rw (e, Fits) (i, h)
  ]

  to_peers-Fits :
      (n : Node) (ps : List ℕ)
      → n.id < k
      → All (λ p. p < k) ps
      → All (Fits k) (map (send_append_entries n) ps)
  to_peers-Fits n [] i h = tt
  to_peers-Fits n (p ∷ ps) i h = (send-Fits n p i h.0, to_peers-Fits n ps i h.1)

  ask-Fits :
      (n : Node) (ps : List ℕ) → n.id < k → All (λ p. p < k) ps → All (Fits k) (map (ask n) ps)
  ask-Fits n [] i h = tt
  ask-Fits n (p ∷ ps) i h = ((i, h.0), ask-Fits n ps i h.1)

  heartbeats-Fits : (n : Node) → IsPlaced k n → All (Fits k) (send_heartbeats n)
  unfolding send_heartbeats send_to_peers
  heartbeats-Fits n p =
      if_of (All (Fits k)) (is_leader n.role) (to_peers-Fits n n.peers p.id p.peers) tt

  become_leader-Fits : (n : Node) → IsPlaced k n → All (Fits k) (become_leader n).1
  unfolding become_leader
  become_leader-Fits n p = heartbeats-Fits _ (record { id = p.id; peers = p.peers })

  step_down-IsPlaced : (t : ℕ) (n : Node) → IsPlaced k n → IsPlaced k (maybe_step_down t n)
  step_down-IsPlaced t n p = same-IsPlaced k n (maybe_step_down t n) (step_down-SameSite t n) p

  vote_reply-Fits :
      (from : ℕ) (reply : RequestVoteReply) (n : Node)
      → IsPlaced k n
      → All (Fits k) (handle_request_vote_reply from reply n).1
  unfolding handle_request_vote_reply
  vote_reply-Fits from reply n p =
      if_of (λ (o : Outcome). All (Fits k) o.1) (not (is_candidate m.role)) tt
        (if_of (λ (o : Outcome). All (Fits k) o.1) (has_majority (count_vote from reply m))
          (become_leader-Fits (count_vote from reply m) counted) tt)
    where
      m : Node
      m = maybe_step_down reply.term n

      counted : IsPlaced k (count_vote from reply (maybe_step_down reply.term n))
      counted =
          let q = step_down-IsPlaced reply.term n p in
          if_of (IsPlaced k) reply.vote_granted (record { id = q.id; peers = q.peers }) q

  append-Fits :
      (from : ℕ) (args : AppendEntriesArgs) (n : Node)
      → from < k
      → IsPlaced k n
      → All (Fits k) (handle_append_entries from args n).1
  unfolding handle_append_entries
  append-Fits from args n f p =
      let q = step_down-IsPlaced args.term n p in
      let m = maybe_step_down args.term n in
      if_of (λ (o : Outcome). All (Fits k) o.1) (ltb args.term m.current_term) ((q.id, f), tt)
        (if_of (λ (o : Outcome). All (Fits k) o.1) (not (is_consistent args m)) ((q.id, f), tt)
          ((q.id, f), tt))

  dispatch-Fits :
      (from : ℕ) (rpc : Rpc) (n : Node)
      → from < k
      → IsPlaced k n
      → All (Fits k) (dispatch from rpc n).1
  unfolding handle_request_vote handle_append_entries_reply
  dispatch-Fits from (request_vote args) n f p = (((step_down-IsPlaced args.term n p).id, f), tt)
  dispatch-Fits from (request_vote_reply reply) n f p = vote_reply-Fits from reply n p
  dispatch-Fits from (append_entries args) n f p = append-Fits from args n f p
  dispatch-Fits from (append_entries_reply reply) n f p =
      if_of (λ (o : Outcome). All (Fits k) o.1)
        (not (is_leader (maybe_step_down reply.term n).role)) tt
        (if_of (λ (o : Outcome). All (Fits k) o.1) reply.success tt tt)

  -- A node sends to its peers and to those that it hears from.
  pub handle-Fits :
      (e : Event) (n : Node) → Arrives k e → IsPlaced k n → All (Fits k) (handle e n).1
  unfolding handle start_election heartbeat_tick submit_command send_to_peers
  handle-Fits (receive msg) n f p =
      if_of (λ (o : Outcome). All (Fits k) o.1) n.alive (dispatch-Fits msg.from msg.rpc n f p) tt
  handle-Fits timeout n f p =
      if_of (λ (o : Outcome). All (Fits k) o.1) n.timer
        (if_of (λ (o : Outcome). All (Fits k) o.1) n.alive
          (ask-Fits (start_election (record n { timer = false })).0 n.peers p.id p.peers) tt)
        tt
  handle-Fits heartbeat n f p =
      if_of (All (Fits k)) (is_leader n.role && n.alive) (heartbeats-Fits n p) tt
  handle-Fits changed n f p = tt
  handle-Fits (submit cmd) n f p =
      if_of (λ (o : Outcome × Bool). All (Fits k) o.0.1) (is_leader n.role)
        (to_peers-Fits _ n.peers p.id p.peers) tt
  handle-Fits crash n f p = tt
  handle-Fits revive n f p = tt
