-- ===== src/Raft/Sound.antt =====
-- The next indexes of a leader, and the slices that it takes of its log.
use raft_visualizer.Prelude.{
  ℕ, ◌+◌, ◌-◌, ◌≤◌, ◌≡◌, ◌≢◌, refl, sym, subst, inl, inr, true, false, not, ◌&&◌, none, List, [],
  ◌∷◌, map, arith, ltb, ◌==◌, nat_eq, if◌then◌else◌, if_of, length, All, All-append, All-map_mono,
  Bool-cases, String,
}
use raft_visualizer.JsMap.{set, get-set}
use raft_visualizer.Raft.{
  Node, follower, Rpc, request_vote, request_vote_reply, append_entries, append_entries_reply,
  Outcome, Sent, RequestVoteArgs, RequestVoteReply, AppendEntriesArgs, AppendEntriesReply,
  is_leader, is_candidate, at, fill, new_node, send_append_entries, send_to_peers, send_heartbeats,
  maybe_step_down, become_leader, submit_command, kill, restart, heartbeat_tick,
}
use raft_visualizer.Raft.Election.{
  start_election, ask, grants, handle_request_vote, handle_request_vote_reply, count_vote,
  has_majority,
}
use raft_visualizer.Raft.Replication.{
  maybe_advance_commit_index, handle_append_entries, handle_append_entries_reply, accept,
  advance_last_applied, acknowledge, back_off, is_consistent, follow,
}
use raft_visualizer.Raft.Commit.{commit_from-Committed}
use raft_visualizer.Raft.Leader.{step_down-cases}
use raft_visualizer.Raft.Events.{
  Event, receive, timeout, heartbeat, changed, submit, crash, revive, handle, dispatch, run,
}

pub at-set : (m : List (ℕ × ℕ)) (k j v : ℕ) → at (set m k v) j ≡ (if k == j then v else at m j)
at-set m k j v = ground (arith, get-set m k j v)

fill-le :
    (ps : List ℕ) (v : ℕ) (m : List (ℕ × ℕ)) (p : ℕ) → 1 ≤ v → 1 ≤ at m p → 1 ≤ at (fill ps v m) p
fill-le [] v m p hv h = h
fill-le (q ∷ ps) v m p hv h = fill-le ps v (set m q v) p hv (ground (arith, at-set m q p v))

fill-All : (ps : List ℕ) (v : ℕ) (m : List (ℕ × ℕ)) → 1 ≤ v → All (λ p. 1 ≤ at (fill ps v m) p) ps
fill-All [] v m hv = tt
fill-All (q ∷ ps) v m hv =
    (fill-le ps v (set m q v) q hv (ground (arith, at-set m q q v)), fill-All ps v (set m q v) hv)

-- A leader's next indexes are 1 or more.
pub record IsReady (n : Node) : Type 0 where
  pub next : is_leader n.role ≡ true → All (λ p. 1 ≤ at n.next_index p) n.peers

-- No message is a panic.
abbrev pub IsSound : Sent → Type 0
IsSound = All (λ o. o ≢ none)

-- A step after which the node is ready, and that sent no panic.
pub record IsGood (o : Outcome) : Type 0 where
  pub ready : IsReady o.0
  pub sound : IsSound o.1

good : (m : Node) (s : Sent) → IsReady m → IsSound s → IsGood (m, s)
good m s r h = record { ready = r; sound = h }

to_peers-IsSound :
    (n : Node) (ps : List ℕ)
    → All (λ p. 1 ≤ at n.next_index p) ps
    → IsSound (map (send_append_entries n) ps)
unfolding send_append_entries
to_peers-IsSound n [] h = tt
to_peers-IsSound n (p ∷ ps) h = (ground (arith, h.0), to_peers-IsSound n ps h.1)

ask-IsSound : (n : Node) (ps : List ℕ) → IsSound (map (ask n) ps)
ask-IsSound n [] = tt
ask-IsSound n (p ∷ ps) = ((λ e. cc), ask-IsSound n ps)

heartbeats-IsSound : (n : Node) → IsReady n → IsSound (send_heartbeats n)
unfolding send_heartbeats send_to_peers
heartbeats-IsSound n r = elim (Bool-cases (is_leader n.role)) [
  | inl e ↦ if_of IsSound (is_leader n.role) (to_peers-IsSound n n.peers (r.next e)) tt
  | inr e ↦ rw (e, if◌then◌else◌) tt
]

fallen-IsReady : (m : Node) → m.role ≡ follower → IsReady m
fallen-IsReady m r = record { next = λ e. cc }

-- A change of other fields.
kept-IsReady :
    (n m : Node)
    → m.role ≡ n.role
    → m.next_index ≡ n.next_index
    → m.peers ≡ n.peers
    → IsReady n
    → IsReady m
kept-IsReady n m r i p h = record { next = rw (r, i, p) h.next }

become_leader-IsGood : (n : Node) → IsGood (become_leader n)
unfolding become_leader
become_leader-IsGood n =
    let ready = fill-All n.peers (length n.log + 1) [] (omega arith) in
    good _ _ (record { next = λ e. ready }) (heartbeats-IsSound _ (record { next = λ e. ready }))

down-IsReady : (t : ℕ) (n : Node) → IsReady n → IsReady (maybe_step_down t n)
down-IsReady t n r = elim (step_down-cases t n) [
  | inl down ↦ fallen-IsReady (maybe_step_down t n) down
  | inr same ↦ rw same r
]

vote-IsGood :
    (from : ℕ) (args : RequestVoteArgs) (n : Node)
    → IsReady n
    → IsGood (handle_request_vote from args n)
unfolding handle_request_vote
vote-IsGood from args n r = record {
  ready = if_of IsReady (grants args m) (kept-IsReady m _ refl refl refl ready) ready;
  sound = ((λ e. cc), tt);
}
  where
    m : Node
    m = maybe_step_down args.term n

    ready : IsReady m
    ready = down-IsReady args.term n r

vote_reply-IsGood :
    (from : ℕ) (reply : RequestVoteReply) (n : Node)
    → IsReady n
    → IsGood (handle_request_vote_reply from reply n)
unfolding handle_request_vote_reply
vote_reply-IsGood from reply n r =
    if_of IsGood (not (is_candidate m.role)) (good _ _ m-IsReady tt) (
      if_of IsGood (has_majority (count_vote from reply m)) (become_leader-IsGood _) (
        good _ _
          (if_of IsReady reply.vote_granted (kept-IsReady m _ refl refl refl m-IsReady) m-IsReady)
          tt))
  where
    m : Node
    m = maybe_step_down reply.term n

    m-IsReady : IsReady m
    m-IsReady = down-IsReady reply.term n r

append-IsGood :
    (from : ℕ) (args : AppendEntriesArgs) (n : Node)
    → IsReady n
    → IsGood (handle_append_entries from args n)
unfolding handle_append_entries accept advance_last_applied
append-IsGood from args n r =
    if_of IsGood (ltb args.term m.current_term)
      (record { ready = down-IsReady args.term n r; sound = ((λ e. cc), tt) })
      (if_of IsGood (not (is_consistent args m))
        (record { ready = fallen-IsReady (follow m) refl; sound = ((λ e. cc), tt) })
        (record { ready = fallen-IsReady _ (ground arith); sound = ((λ e. cc), tt) }))
  where
    m : Node
    m = maybe_step_down args.term n

set-All :
    (ps : List ℕ) (m : List (ℕ × ℕ)) (k v : ℕ)
    → 1 ≤ v
    → All (λ p. 1 ≤ at m p) ps
    → All (λ p. 1 ≤ at (set m k v) p) ps
set-All ps m k v hv h =
    All-map_mono (λ p. 1 ≤ at m p) (λ p. 1 ≤ at (set m k v) p) ps
      (λ p hp. ground (arith, at-set m k p v, hp)) h

back_off-IsReady : (peer : ℕ) (m : Node) → IsReady m → IsReady (back_off peer m)
back_off-IsReady peer m r = elim (Bool-cases (ltb 1 (at m.next_index peer))) [
  | inl high ↦
      rw (high, if◌then◌else◌)
        (record {
          next = λ l.
              set-All m.peers m.next_index peer (at m.next_index peer - 1) (ground (arith, high))
                (r.next l);
        })
  | inr low ↦ rw (low, if◌then◌else◌) r
]

append_reply-IsGood :
    (from : ℕ) (reply : AppendEntriesReply) (n : Node)
    → IsReady n
    → IsGood (handle_append_entries_reply from reply n)
unfolding handle_append_entries_reply maybe_advance_commit_index
append_reply-IsGood from reply n r = if_of IsGood (not (is_leader m.role)) (good _ _ m-IsReady tt) (
    if_of IsGood reply.success (good _ _ acked tt)
      (good _ _ (back_off-IsReady from m m-IsReady) tt))
  where
    m : Node
    m = maybe_step_down reply.term n

    m-IsReady : IsReady m
    m-IsReady = down-IsReady reply.term n r

    acked : IsReady (maybe_advance_commit_index (acknowledge from reply.match_index m))
    acked =
        let x = acknowledge from reply.match_index m in
        let (c, a, d, e) = commit_from-Committed (length m.log) x in
        let ready : IsReady x = record {
          next = λ l. set-All m.peers m.next_index from _ (omega arith) (m-IsReady.next l);
        } in
        subst IsReady (sym e) (kept-IsReady x _ refl refl refl ready)

dispatch-IsGood : (from : ℕ) (rpc : Rpc) (n : Node) → IsReady n → IsGood (dispatch from rpc n)
dispatch-IsGood from (request_vote args) n r = vote-IsGood from args n r
dispatch-IsGood from (request_vote_reply reply) n r = vote_reply-IsGood from reply n r
dispatch-IsGood from (append_entries args) n r = append-IsGood from args n r
dispatch-IsGood from (append_entries_reply reply) n r = append_reply-IsGood from reply n r

pub submit-IsGood : (cmd : String) (n : Node) → IsReady n → IsGood (submit_command cmd n).0
unfolding submit_command send_to_peers
submit-IsGood cmd n r = elim (Bool-cases (is_leader n.role)) [
  | inl l ↦
      rw (l, if◌then◌else◌)
        (good _ _ (kept-IsReady n _ refl refl refl r) (to_peers-IsSound _ n.peers (r.next l)))
  | inr l ↦ rw (l, if◌then◌else◌) (good _ _ r tt)
]

start_election-IsGood : (n : Node) → IsGood (start_election n)
unfolding start_election
start_election-IsGood n = record {
  ready = record { next = λ e. cc };
  sound = ask-IsSound (start_election n).0 n.peers;
}

pub handle-IsGood : (e : Event) (n : Node) → IsReady n → IsGood (handle e n)
unfolding handle start_election heartbeat_tick kill restart
handle-IsGood (receive msg) n r =
    if_of IsGood n.alive (dispatch-IsGood msg.from msg.rpc n r) (good _ _ r tt)
handle-IsGood timeout n r =
    if_of IsGood n.timer
      (if_of IsGood n.alive (start_election-IsGood (record n { timer = false }))
        (good _ _ (kept-IsReady n _ refl refl refl r) tt))
      (good _ _ r tt)
handle-IsGood heartbeat n r =
    good _ _ r (if_of IsSound (is_leader n.role && n.alive) (heartbeats-IsSound n r) tt)
handle-IsGood changed n r = good _ _ (kept-IsReady n _ refl refl refl r) tt
handle-IsGood (submit cmd) n r = submit-IsGood cmd n r
handle-IsGood crash n r = good _ _ (kept-IsReady n _ refl refl refl r) tt
handle-IsGood revive n r = good _ _ (record { next = λ e. cc }) tt

run-IsSound : (es : List Event) (n : Node) → IsReady n → IsSound (run es n).1
unfolding run
run-IsSound [] n r = tt
run-IsSound (e ∷ es) n r =
    let g = handle-IsGood e n r in
    All-append (λ o. o ≢ none) (handle e n).1 (run es (handle e n).0).1 g.sound
      (run-IsSound es (handle e n).0 g.ready)

-- In every run of a new node, whatever messages it receives, a leader slices its log at a valid
-- index: no event makes the node panic.
pub run-new_node-IsSound :
    (id : ℕ) (peers : List ℕ) (es : List Event) → IsSound (run es (new_node id peers)).1
unfolding new_node
run-new_node-IsSound id peers es = run-IsSound es (new_node id peers) (record { next = λ e. cc })
