-- ===== src/Simulator/Truth.antt =====
-- What the nodes send tells the truth about the votes cast.
use raft_visualizer.Prelude.{
  ℕ, ◌≡◌, refl, sym, subst, ap, ◌∙◌, inl, inr, Bool, true, false, not, ◌&&◌, Option, none, some,
  List, [], ◌∷◌, map, ltb, nat_eq, if_of, if◌then◌else◌, Bool-cases, All,
}
use raft_visualizer.Raft.{
  Node, Message, Rpc, request_vote, request_vote_reply, append_entries, append_entries_reply, Sent,
  Outcome, RequestVoteArgs, RequestVoteReply, AppendEntriesArgs, AppendEntriesReply, is_leader,
  is_candidate, maybe_step_down, become_leader, submit_command, heartbeat_tick, at,
  send_append_entries, send_heartbeats, send_to_peers,
}
use raft_visualizer.Raft.Election.{
  start_election, handle_request_vote, handle_request_vote_reply, has_majority, count_vote, ask,
}
use raft_visualizer.Raft.Replication.{
  handle_append_entries, handle_append_entries_reply, is_consistent,
}
use raft_visualizer.Raft.Events.{
  Event, receive, timeout, heartbeat, changed, submit, crash, revive, handle, dispatch,
}
use raft_visualizer.Raft.Ids.{handle-SameSite}
use raft_visualizer.Raft.Votes.{handle-KeepsVote}
use raft_visualizer.Raft.Routing.{Fits, Arrives, handle-Fits, zero_or_suc}
use raft_visualizer.Raft.Ballots.{handle-Tally}
use raft_visualizer.Simulator.Voting.{
  Cast, with_vote, IsHonest, IsTrue, IsTruthful, IsCurrent, Grows, with_vote_other, with_vote_own,
  with_vote-Grows, other-IsHonest, after-IsHonest,
}
use raft_visualizer.Simulator.Ghosts.{Comes, Sends, Ghost}

module _ (cast : Cast) where
  abbrev Tells : Option Message → Type 0
  Tells = Sends (λ msg. IsTrue cast msg msg.rpc)

  send-Tells : (n : Node) (p : ℕ) → Tells (send_append_entries n p)
  unfolding send_append_entries
  send-Tells n p = elim (zero_or_suc (at n.next_index p)) [
    | inl e ↦ rw (e, send_append_entries, Sends) tt
    | inr (prev, e) ↦ rw (e, send_append_entries, Sends) tt
  ]

  to_peers-Tells : (n : Node) (ps : List ℕ) → All Tells (map (send_append_entries n) ps)
  to_peers-Tells n [] = tt
  to_peers-Tells n (p ∷ ps) = (send-Tells n p, to_peers-Tells n ps)

  ask-Tells : (n : Node) (ps : List ℕ) → All Tells (map (ask n) ps)
  ask-Tells n [] = tt
  ask-Tells n (p ∷ ps) = (refl, ask-Tells n ps)

  heartbeats-Tells : (n : Node) → All Tells (send_heartbeats n)
  unfolding send_heartbeats send_to_peers
  heartbeats-Tells n = if_of (All Tells) (is_leader n.role) (to_peers-Tells n n.peers) tt

  vote-Tells :
      (from : ℕ) (args : RequestVoteArgs) (n : Node)
      → args.candidate_id ≡ from
      → (let m = (handle_request_vote from args n).0 in cast m.id m.current_term ≡ m.voted_for)
      → All Tells (handle_request_vote from args n).1
  unfolding handle_request_vote
  vote-Tells from args n same now = (
    λ g.
        let m = maybe_step_down args.term n in
        subst
          (λ b.
            (let x : Node =
                if b
                then record m { voted_for = some args.candidate_id; timer = true; dirty = true }
                else m in
              cast x.id x.current_term ≡ x.voted_for))
          g now
        ∙ ap some same,
    tt,
  )

  vote_reply-Tells :
      (from : ℕ) (reply : RequestVoteReply) (n : Node)
      → All Tells (handle_request_vote_reply from reply n).1
  unfolding handle_request_vote_reply become_leader
  vote_reply-Tells from reply n =
      let m = maybe_step_down reply.term n in
      if_of (λ (o : Outcome). All Tells o.1) (not (is_candidate m.role)) tt
        (if_of (λ (o : Outcome). All Tells o.1) (has_majority (count_vote from reply m))
          (heartbeats-Tells _) tt)

  append-Tells :
      (from : ℕ) (args : AppendEntriesArgs) (n : Node)
      → All Tells (handle_append_entries from args n).1
  unfolding handle_append_entries
  append-Tells from args n =
      let m = maybe_step_down args.term n in
      if_of (λ (o : Outcome). All Tells o.1) (ltb args.term m.current_term) (tt, tt)
        (if_of (λ (o : Outcome). All Tells o.1) (not (is_consistent args m)) (tt, tt) (tt, tt))

  append_reply-Tells :
      (from : ℕ) (reply : AppendEntriesReply) (n : Node)
      → All Tells (handle_append_entries_reply from reply n).1
  unfolding handle_append_entries_reply
  append_reply-Tells from reply n =
      if_of (λ (o : Outcome). All Tells o.1) (not (is_leader (maybe_step_down reply.term n).role))
        tt (if_of (λ (o : Outcome). All Tells o.1) reply.success tt tt)

  dispatch-Tells :
      (from to : ℕ) (rpc : Rpc) (n : Node) (old : Cast)
      → IsTrue old (record { from = from; to = to; rpc = rpc }) rpc
      → (let m = (dispatch from rpc n).0 in cast m.id m.current_term ≡ m.voted_for)
      → All Tells (dispatch from rpc n).1
  dispatch-Tells from to (request_vote args) n old t now = vote-Tells from args n t now
  dispatch-Tells from to (request_vote_reply reply) n old t now = vote_reply-Tells from reply n
  dispatch-Tells from to (append_entries args) n old t now = append-Tells from args n
  dispatch-Tells from to (append_entries_reply reply) n old t now = append_reply-Tells from reply n

  pub handle-Tells :
      (k : ℕ) (e : Event) (n : Node) (old : Cast)
      → Comes (IsTruthful k old) n.id e
      → (let m = (handle e n).0 in cast m.id m.current_term ≡ m.voted_for)
      → All Tells (handle e n).1
  unfolding handle start_election heartbeat_tick submit_command send_to_peers
  handle-Tells k (receive msg) n old c now = elim (Bool-cases n.alive) [
    | inl on ↦ subst Motive (sym on) (dispatch-Tells msg.from msg.to msg.rpc n old c.1.1) now
    | inr off ↦ subst Motive (sym off) (λ same. tt) now
  ]
    where
      Motive : Bool → Type 0
      Motive b =
          let (m, sent) = if b then dispatch msg.from msg.rpc n else (n, []) in
          cast m.id m.current_term ≡ m.voted_for → All Tells sent
  handle-Tells k timeout n old c now =
      if_of (λ (o : Outcome). All Tells o.1) n.timer
        (if_of (λ (o : Outcome). All Tells o.1) n.alive
          (ask-Tells (start_election (record n { timer = false })).0 n.peers) tt)
        tt
  handle-Tells k heartbeat n old c now =
      if_of (All Tells) (is_leader n.role && n.alive) (heartbeats-Tells n) tt
  handle-Tells k changed n old c now = tt
  handle-Tells k (submit cmd) n old c now =
      if_of (λ (o : Outcome × Bool). All Tells o.0.1) (is_leader n.role) (to_peers-Tells _ n.peers)
        tt
  handle-Tells k crash n old c now = tt
  handle-Tells k revive n old c now = tt

pub Fits-and :
    (k : ℕ) (cast : Cast) (sent : Sent)
    → All (Fits k) sent
    → All (Tells cast) sent
    → All (Sends (IsTruthful k cast)) sent
Fits-and k cast [] f t = tt
Fits-and k cast (none ∷ sent) f t = (tt, Fits-and k cast sent f.1 t.1)
Fits-and k cast (some m ∷ sent) f t = ((f.0.0, t.0), Fits-and k cast sent f.1 t.1)

pub later-IsTruthful :
    (k : ℕ) (cast later : Cast) (msg : Message)
    → Grows cast later
    → IsTruthful k cast msg
    → IsTruthful k later msg
later-IsTruthful k cast later msg grows (lt, h) = (lt, later-IsTrue msg.rpc h)
  where
    later-IsTrue : (rpc : Rpc) → IsTrue cast msg rpc → IsTrue later msg rpc
    later-IsTrue (request_vote args) h = h
    later-IsTrue (request_vote_reply reply) h = λ g. grows _ _ _ (h g)
    later-IsTrue (append_entries args) h = h
    later-IsTrue (append_entries_reply reply) h = h

pub arrives : (k i : ℕ) (cast : Cast) (e : Event) → Comes (IsTruthful k cast) i e → Arrives k e
arrives k i cast (receive msg) c = c.1.0
arrives k i cast timeout c = tt
arrives k i cast heartbeat c = tt
arrives k i cast changed c = tt
arrives k i cast (submit cmd) c = tt
arrives k i cast crash c = tt
arrives k i cast revive c = tt

-- The votes cast in a cluster of `k` nodes, while no granted vote of an earlier term is taken.
abbrev pub votes_cast : ℕ → Ghost
votes_cast k = record {
  State = Cast;
  AtNode = IsHonest k;
  InMessage = IsTruthful k;
  Allowed = IsCurrent;
  move = λ cast e n ok c h.
      let m = (handle e n).0 in
      let site = handle-SameSite e n in
      let keep = handle-KeepsVote e n in
      let grows = with_vote-Grows k cast n m h site.0 keep in
      (
        with_vote cast m,
        after-IsHonest k cast n m site.0 grows e (handle-Tally e n) keep site.1 h ok c,
        Fits-and k (with_vote cast m) (handle e n).1
            (handle-Fits k e n (arrives k n.id cast e c) h.placed)
            (handle-Tells (with_vote cast m) k e n cast c (with_vote_own cast m)),
        (λ o ne.
            other-IsHonest k cast (with_vote cast m) o
              (λ t. with_vote_other cast m o.id t (λ same. ne (same ∙ site.0))) grows),
        (λ msg. later-IsTruthful k cast (with_vote cast m) msg grows),
      );
}
