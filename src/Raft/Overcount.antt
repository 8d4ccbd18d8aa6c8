-- ===== src/Raft/Overcount.antt =====
-- What a follower's success says of its log.
use raft_visualizer.Prelude.{
  ℕ, ◌+◌, ◌≤◌, ◌<◌, ◌≡◌, refl, ap, ◌∙◌, true, false, List, [], ◌∷◌, arith, ltb, nat_eq,
  if◌then◌else◌, length, drop,
}
use raft_visualizer.Raft.{
  Node, LogEntry, leader, AppendEntriesArgs, AppendEntriesReply, Outcome, is_leader, at,
  maybe_step_down,
}
use raft_visualizer.Raft.Replication.{
  merge, accept, advance_last_applied, follow, reply_to, is_consistent, handle_append_entries,
  handle_append_entries_reply, acknowledge, maybe_advance_commit_index,
}
use raft_visualizer.Raft.Commit.{commit_from-Committed}
use raft_visualizer.Raft.Sound.{at-set}
use raft_visualizer.Raft.Exchange.{Matches, deliver, deliver-alive, exchange}
use raft_visualizer.Raft.Repair.{IsPaired, exchange-lem, args_from}

step_down-lem :
    (t : ℕ) (n : Node)
    → n.current_term ≤ t
    → ((maybe_step_down t n).current_term ≡ t)
      × ((maybe_step_down t n).log ≡ n.log)
      × ((maybe_step_down t n).id ≡ n.id)
unfolding maybe_step_down
step_down-lem t n le = (ground (arith, le), ground arith, ground arith)

handle-accepted :
    (from : ℕ) (args : AppendEntriesArgs) (n : Node)
    → n.current_term ≤ args.term
    → is_consistent args (maybe_step_down args.term n) ≡ true
    → let m = maybe_step_down args.term n in
      let done = accept args (follow m) in
      handle_append_entries from args n ≡ (
        record done { dirty = true },
        reply_to from m
            (record { term = m.current_term; success = true; match_index = length done.log }),
      )
unfolding handle_append_entries
handle-accepted from args n le c =
    let current : ltb args.term (maybe_step_down args.term n).current_term ≡ false =
      ground (arith, step_down-lem args.term n le) in
    rw (current, c, if◌then◌else◌) refl

-- A success sets the match index to what the reply says.
heard-success :
    (peer : ℕ) (reply : AppendEntriesReply) (l : Node)
    → l.role ≡ leader
    → reply.term ≡ l.current_term
    → reply.success ≡ true
    → at l.match_index peer ≤ reply.match_index
    → at (handle_append_entries_reply peer reply l).0.match_index peer ≡ reply.match_index
unfolding handle_append_entries_reply maybe_advance_commit_index maybe_step_down
heard-success peer reply l leads term s le =
    let x = acknowledge peer reply.match_index l in
    let (c, a, d, e) = commit_from-Committed (length l.log) x in
    let current : ltb l.current_term reply.term ≡ false = ground (arith, term) in
    let leads' : is_leader l.role ≡ true = ground (arith, leads) in
    let known : at x.match_index peer ≡ reply.match_index =
      ground (arith, le, at-set l.match_index peer peer reply.match_index) in
    rw (current, if◌then◌else◌, leads', s) (ap (λ (n : Node). at n.match_index peer) e ∙ known)

drop-length : (log : List LogEntry) → drop (length log) log ≡ []
drop-length [] = refl
drop-length (e ∷ log) = drop-length log

-- The log of a node that accepts a message without entries.
accept-log : (args : AppendEntriesArgs) (n : Node) → args.entries ≡ [] → (accept args n).log ≡ n.log
unfolding accept advance_last_applied merge
accept-log args n e =
    let none_new : merge (args.prev_log_index + 1) n.log args.entries ≡ n.log = rw e refl in
    ground (arith, none_new)

module _ (l f : Node) (p : IsPaired l f (length l.log))
    (c : is_consistent (args_from l (length l.log)) f ≡ true) where
  abbrev args : AppendEntriesArgs
  args = args_from l (length l.log)

  abbrev m : Node
  m = maybe_step_down l.current_term f

  abbrev done : Node
  done = accept args (follow m)

  abbrev reply : AppendEntriesReply
  reply = record { term = m.current_term; success = true; match_index = length done.log }

  m-lem : (m.current_term ≡ l.current_term) × (m.log ≡ f.log) × (m.id ≡ f.id)
  m-lem = step_down-lem l.current_term f p.term

  same_log : done.log ≡ f.log
  same_log = accept-log args (follow m) (drop-length l.log) ∙ m-lem.1

  accepted :
      handle_append_entries l.id args f ≡ (record done { dirty = true }, reply_to l.id m reply)
  accepted = handle-accepted l.id args f p.term (rw m-lem.1 c)

  exchanged :
      exchange (l, f) ≡ ((handle_append_entries_reply m.id reply l).0, record done { dirty = true })
  exchanged =
      exchange-lem l f (length l.log) p
      ∙ ap (λ (o : Outcome). ((deliver o.1 l).0, o.0)) accepted
      ∙ ap (λ (o : Outcome). (o.0, record done { dirty = true })) (deliver-alive _ l p.awake)

  vouched :
      at l.match_index f.id ≤ length f.log
      → (at (exchange (l, f)).0.match_index f.id ≡ length f.log) × ((exchange (l, f)).1.log ≡ f.log)
  vouched old = (
    ap (λ (q : Node × Node). at q.0.match_index f.id) exchanged
        ∙ ap (λ i. at (handle_append_entries_reply i reply l).0.match_index f.id) m-lem.2
        ∙ heard-success f.id reply l p.leads m-lem.0 refl (rw same_log old)
        ∙ ap length same_log,
    ap (λ (q : Node × Node). q.1.log) exchanged ∙ same_log,
  )

-- Let a live leader's next index for a live follower be just behind its own log, and the follower be
-- of no later term, pass the consistency check there, have a log that matches and is longer, and be known
-- for no index behind the leader's log. After one exchange, which carries no entries, the leader counts
-- the follower for an index behind its own log, and the follower's log is as it was.
pub exchange-overcounts :
    (l f : Node)
    → l.role ≡ leader
    → l.alive ≡ true
    → f.alive ≡ true
    → f.current_term ≤ l.current_term
    → at l.next_index f.id ≡ length l.log + 1
    → Matches f.log l.log
    → is_consistent (args_from l (length l.log)) f ≡ true
    → at l.match_index f.id ≤ length l.log
    → length l.log < length f.log
    → let (l', f') = exchange (l, f) in (length l.log < at l'.match_index f.id) × (f'.log ≡ f.log)
exchange-overcounts l f leads awake listens term next alike c old longer =
    let p : IsPaired l f (length l.log) = record {
      leads = leads;
      awake = awake;
      listens = listens;
      term = term;
      next = omega (arith, next);
      fits = omega arith;
      alike = alike;
    } in
    let (counts, same) = vouched l f p c (omega (arith, old, longer)) in
    (omega (arith, counts, longer), same)
