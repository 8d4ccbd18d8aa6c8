-- ===== src/Simulator/Matching.antt =====
-- The logs of a cluster's nodes against each other.
use raft_visualizer.Prelude.{
  ℕ, suc, ◌<◌, ◌≡◌, refl, subst, none, some, List, [], ◌∷◌, arith, nat_eq, length, All, Occurs,
  of_Occurs,
}
use mathlib.Core.Option.{none-ne-some}
use raft_visualizer.Raft.{
  Sent, Rpc, request_vote, request_vote_reply, append_entries, append_entries_reply, Node, Message,
  new_node, term_at, take,
}
use raft_visualizer.Raft.Events.{
  Event, receive, timeout, heartbeat, changed, submit, crash, revive, handle,
}
use raft_visualizer.Raft.Ids.{handle-SameSite}
use raft_visualizer.Raft.Votes.{handle-KeepsVote}
use raft_visualizer.Raft.Ballots.{handle-Tally}
use raft_visualizer.Raft.Written.{handle-Written}
use raft_visualizer.Raft.Ledger.{Ledger, Recorded, Extends, Recorded-mono, IsExcerpt-mono, take-eq}
use raft_visualizer.Simulator.{Cluster, new_cluster, range, peers_of}
use raft_visualizer.Simulator.Steps.{Step, steps}
use raft_visualizer.Simulator.Results.{IfSome}
use raft_visualizer.Simulator.Ghosts.{Ghost, Comes, Sends, AdmitsAll}
use raft_visualizer.Simulator.Held.{Holds}
use raft_visualizer.Simulator.Along.{steps-Holds}
use raft_visualizer.Simulator.Voting.{
  Cast, with_vote, IsHonest, IsTruthful, IsCurrent, with_vote-Grows,
}
use raft_visualizer.Simulator.Truth.{votes_cast}
use raft_visualizer.Simulator.Elections.{
  no_votes, new_node-IsHonest, AtNode-All, range-Nodes, empty-Boxes,
}
use raft_visualizer.Simulator.Quotes.{IsQuoted, handle-Quotes}
use raft_visualizer.Simulator.Books.{Book, IsKept, IsOrderly, turn}

-- The node with the votes cast and the book.
abbrev State : ℕ → Type 0
State k = (cast : Cast) × (book : Book) × IsKept k cast book

IsQuoted-mono :
    (ledger later : Ledger) (rpc : Rpc)
    → Extends ledger later
    → IsQuoted ledger rpc
    → IsQuoted later rpc
IsQuoted-mono ledger later (request_vote args) grows h = h
IsQuoted-mono ledger later (request_vote_reply reply) grows h = h
IsQuoted-mono ledger later (append_entries args) grows h = IsExcerpt-mono ledger later grows args h
IsQuoted-mono ledger later (append_entries_reply reply) grows h = h

Comes-split :
    (P Q : Message → Type 0) (i : ℕ) (e : Event)
    → Comes (λ msg. P msg × Q msg) i e
    → Comes P i e × Comes Q i e
Comes-split P Q i (receive msg) (at, (p, q)) = ((at, p), (at, q))
Comes-split P Q i timeout c = (tt, tt)
Comes-split P Q i heartbeat c = (tt, tt)
Comes-split P Q i changed c = (tt, tt)
Comes-split P Q i (submit cmd) c = (tt, tt)
Comes-split P Q i crash c = (tt, tt)
Comes-split P Q i revive c = (tt, tt)

Sends-and :
    (P Q : Message → Type 0) (sent : Sent)
    → All (Sends P) sent
    → All (Sends Q) sent
    → All (Sends (λ msg. P msg × Q msg)) sent
Sends-and P Q [] p q = tt
Sends-and P Q (none ∷ sent) p q = (tt, Sends-and P Q sent p.1 q.1)
Sends-and P Q (some msg ∷ sent) p q = ((p.0, q.0), Sends-and P Q sent p.1 q.1)

-- The votes cast and the logs written in a cluster of `k` nodes.
abbrev logs_written : ℕ → Ghost
logs_written k = record {
  State = State k;
  AtNode = λ (cast, book, kept_book) n. IsHonest k cast n × IsOrderly book n;
  InMessage = λ (cast, book, kept_book) msg. IsTruthful k cast msg × IsQuoted book.ledger msg.rpc;
  Allowed = IsCurrent;
  move = λ (cast, book, kept_book) e n ok c (honest, orderly).
      let m = (handle e n).0 in
      let (truthful, quoted) =
        Comes-split (IsTruthful k cast) (λ msg. IsQuoted book.ledger msg.rpc) n.id e c in
      let (now, after, sent, others, messages) = (votes_cast k).move cast e n ok truthful honest in
      let grows =
        with_vote-Grows k cast n m honest (handle-SameSite e n).0 (handle-KeepsVote e n) in
      let (later, now_kept, extends, now_orderly, rest) =
        turn k cast book n m (handle-SameSite e n).0 (handle-KeepsVote e n) grows honest kept_book
          orderly e (handle-Written e n) (handle-Tally e n) quoted in
      (
        (with_vote cast m, later, now_kept),
        (after, now_orderly),
        Sends-and _ _ (handle e n).1 sent (
            handle-Quotes later.ledger e n
              (Recorded-mono book.ledger later.ledger extends [] n.log orderly.recorded)
              now_orderly.recorded),
        (λ o ne (h, w). (others o ne h, rest o ne w)),
        (λ msg (h, q). (messages msg h, IsQuoted-mono book.ledger later.ledger msg.rpc extends q)),
      );
}

-- Nobody has written.
abbrev empty_book : Book
empty_book = record { ledger = λ t. []; writer = λ t. none }

new_node-IsOrderly : (i : ℕ) (ps : List ℕ) → IsOrderly empty_book (new_node i ps)
unfolding new_node
new_node-IsOrderly i ps = record {
  recorded = tt;
  leads = λ l w. refl;
  runs = λ c w. none-ne-some i w;
  ahead = λ t lt w. none-ne-some i w;
}

new_cluster-Holds : (k : ℕ) → Holds (logs_written k) (new_cluster k)
unfolding new_cluster new_node
new_cluster-Holds k =
    let kept_book : IsKept k no_votes empty_book = record {
      unwritten = λ t e. refl;
      elected = λ t w e. absurd (none-ne-some w e);
    } in
    let start : State k = (no_votes, empty_book, kept_book) in
    (
      start,
      record {
        nodes_lem =
            range-Nodes (logs_written k) start (λ i. new_node i (peers_of k i)) k k (λ i. refl)
              (λ i lt. (new_node-IsHonest k i lt, new_node-IsOrderly i (peers_of k i)))
              (omega arith);
        inboxes_lem = empty-Boxes (logs_written k) start 0 (range k);
      },
    )

-- Log matching. In a cluster of k nodes, after any run from the start in which no node takes a
-- granted vote of a term before its own, two nodes whose logs have entries of one term at one place
-- have the same log up to and with that entry.
pub logs_match :
    (k : ℕ) (ss : List (ℕ × Step)) (c : Cluster) (a b : Node) (i : ℕ)
    → steps ss (new_cluster k) ≡ some c
    → AdmitsAll IsCurrent ss (new_cluster k)
    → Occurs a c.nodes
    → Occurs b c.nodes
    → i < length a.log
    → i < length b.log
    → term_at a.log i ≡ term_at b.log i
    → take (suc i) a.log ≡ take (suc i) b.log
logs_match k ss c a b i run ok oa ob la lb same =
    let ((cast, book, kept_book), held) =
      subst (IfSome (Holds (logs_written k))) run
        (steps-Holds (logs_written k) ss (new_cluster k) ok (new_cluster-Holds k)) in
    let all = AtNode-All (logs_written k) (cast, book, kept_book) 0 c.nodes held.nodes_lem in
    let at : (o : Node) → Occurs o c.nodes → Recorded book.ledger [] o.log =
      λ o occurs. (of_Occurs _ c.nodes all occurs).1.recorded in
    take-eq book.ledger a.log b.log i (at a oa) (at b ob) la lb same
