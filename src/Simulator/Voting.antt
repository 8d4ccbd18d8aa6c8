-- ===== src/Simulator/Voting.antt =====
-- The votes cast in a cluster, as a ghost state: the candidate that each node has voted for in each
-- term.
use raft_visualizer.Prelude.{
  ℕ, ◌+◌, ◌*◌, ◌≤◌, ◌<◌, ◌≡◌, ◌≢◌, refl, sym, subst, ap, ap₂, ◌∙◌, inl, inr, true, ◌&&◌, Option,
  none, some, List, [], ◌∷◌, arith, ltb, ◌==◌, nat_eq, if◌then◌else◌, Bool-cases, length, All,
  All-append, All-map_mono, IsDistinct, includes, beq_self,
}
use mathlib.Core.Option.{none-ne-some}
use raft_visualizer.Raft.{
  Node, Message, follower, leader, Rpc, request_vote, request_vote_reply, at,
}
use raft_visualizer.Raft.Election.{majority, add_vote}
use raft_visualizer.Raft.Events.{Event}
use raft_visualizer.Raft.Votes.{KeepsVote}
use raft_visualizer.Raft.Routing.{IsPlaced, same-IsPlaced}
use raft_visualizer.Raft.Ballots.{Tally, retired, kept, began, counted, granted}
use raft_visualizer.Simulator.Ranges.{IsDistinct-append}
use raft_visualizer.Simulator.Ghosts.{Comes, IsAllowed}

-- The candidate that a node has voted for in a term.
abbrev pub Cast : Type 0
Cast = ℕ → ℕ → Option ℕ

-- The votes with that of the node in its term.
abbrev pub with_vote : Cast → Node → Cast
with_vote cast n v t = if (v == n.id) && (t == n.current_term) then n.voted_for else cast v t

-- The vote of `v`, one of the first `k`, in the term is for the candidate.
abbrev pub Backs : ℕ → Cast → ℕ → ℕ → ℕ → Type 0
Backs k cast t c v = (v < k) × (cast v t ≡ some c)

abbrev pub AreBacked : ℕ → Cast → Node → Type 0
AreBacked k cast n =
    IsDistinct n.votes_received × All (Backs k cast n.current_term n.id) n.votes_received

-- The node's vote is the one cast, and while it is not a follower the votes that it has counted were
-- cast for it.
pub record IsHonest (k : ℕ) (cast : Cast) (n : Node) : Type 0 where
  pub placed : IsPlaced k n
  pub size : length n.peers + 1 ≡ k
  pub future : (t : ℕ) → n.current_term < t → cast n.id t ≡ none
  pub now : cast n.id n.current_term ≡ n.voted_for
  pub votes : n.role ≢ follower → AreBacked k cast n
  pub won : n.role ≡ leader → k < 2 * length n.votes_received

abbrev pub IsTrue : Cast → Message → Rpc → Type 0
IsTrue cast msg (request_vote args) = args.candidate_id ≡ msg.from
IsTrue cast msg (request_vote_reply reply) =
    reply.vote_granted ≡ true → cast msg.from reply.term ≡ some msg.to
IsTrue cast msg _ = Unit

abbrev pub IsTruthful : ℕ → Cast → Message → Type 0
IsTruthful k cast msg = (msg.from < k) × IsTrue cast msg msg.rpc

-- A granted vote comes before the node has left its term behind.
abbrev pub IsTimely : Rpc → Node → Type 0
IsTimely (request_vote_reply reply) n = reply.vote_granted ≡ true → n.current_term ≤ reply.term
IsTimely _ n = Unit

abbrev pub IsCurrent : Message → Node → Type 0
IsCurrent msg n = IsTimely msg.rpc n

-- Every vote that was cast stands.
abbrev pub Grows : Cast → Cast → Type 0
Grows cast later = (v t c : ℕ) → cast v t ≡ some c → later v t ≡ some c

pub with_vote_other :
    (cast : Cast) (n : Node) (v t : ℕ) → v ≢ n.id → with_vote cast n v t ≡ cast v t
with_vote_other cast n v t ne = ground (arith, ne)

pub with_vote_own : (cast : Cast) (n : Node) → with_vote cast n n.id n.current_term ≡ n.voted_for
with_vote_own cast n = ground (arith, beq_self n.id)

pub with_vote-Grows :
    (k : ℕ) (cast : Cast) (n m : Node)
    → IsHonest k cast n
    → m.id ≡ n.id
    → KeepsVote n m
    → Grows cast (with_vote cast m)
with_vote-Grows k cast n m h id keep v t c e =
    elim (Bool-cases ((v == m.id) && (t == m.current_term))) [
      | inr other ↦ rw (other, if◌then◌else◌) e
      | inl own ↦ rw (own, if◌then◌else◌) (stands (ground (arith, own)) (ground (arith, own)))
    ]
  where
    stands : v ≡ m.id → t ≡ m.current_term → m.voted_for ≡ some c
    stands ev et = elim (Bool-cases (ltb n.current_term t)) [
      | inl later ↦ absurd (
          none-ne-some c
            (sym (h.future t (ground (arith, later))) ∙ ap (λ i. cast i t) (sym id ∙ sym ev) ∙ e))
      | inr past ↦
          let same : m.current_term ≡ n.current_term = ground (arith, keep.term, past, et) in
          keep.vote c same (sym h.now ∙ ap₂ cast (sym id ∙ sym ev) (sym same ∙ sym et) ∙ e)
    ]

-- A node that did nothing, with the vote of another.
pub other-IsHonest :
    (k : ℕ) (cast later : Cast) (n : Node)
    → ((t : ℕ) → later n.id t ≡ cast n.id t)
    → Grows cast later
    → IsHonest k cast n
    → IsHonest k later n
other-IsHonest k cast later n same grows h = record {
  placed = h.placed;
  size = h.size;
  future = λ t lt. same t ∙ h.future t lt;
  now = same n.current_term ∙ h.now;
  votes = λ r. (
    (h.votes r).0,
    All-map_mono _ _ n.votes_received (λ v b. (b.0, grows v _ _ b.1)) (h.votes r).1,
  );
  won = h.won;
}

-- One more vote, counted once.
add_vote-All :
    (P : ℕ → Type 0) (v : ℕ) (vs : List ℕ)
    → P v
    → IsDistinct vs × All P vs
    → IsDistinct (add_vote v vs) × All P (add_vote v vs)
add_vote-All P v vs p h = elim (Bool-cases (includes vs v)) [
  | inl again ↦ rw (again, if◌then◌else◌) h
  | inr first ↦
      rw (first, if◌then◌else◌)
        (IsDistinct-append vs v h.0 first, All-append P vs (v ∷ []) h.1 (p, tt))
]

module _ (k : ℕ) (cast : Cast) (n m : Node) (id : m.id ≡ n.id)
    (grows : Grows cast (with_vote cast m)) where
  -- Votes cast for the node in its term stand for it afterwards, while the term stays.
  still-AreBacked :
      (vs : List ℕ)
      → m.current_term ≡ n.current_term
      → m.votes_received ≡ vs
      → IsDistinct vs × All (Backs k cast n.current_term n.id) vs
      → AreBacked k (with_vote cast m) m
  still-AreBacked vs same eq (distinct, all) = (
    subst IsDistinct (sym eq) distinct,
    subst (All (Backs k (with_vote cast m) m.current_term m.id)) (sym eq) (
        All-map_mono _ _ vs
          (λ v b. (b.0, grows v m.current_term m.id (ap (cast v) same ∙ b.1 ∙ ap some (sym id))))
          all),
  )

  tally-AreBacked :
      (e : Event)
      → Tally e n m
      → IsHonest k cast n
      → IsPlaced k m
      → IsAllowed IsCurrent e n
      → Comes (IsTruthful k cast) n.id e
      → m.role ≢ follower
      → AreBacked k (with_vote cast m) m
  tally-AreBacked e (retired r) h p ok c ne = absurd (ne r)
  tally-AreBacked e (kept r t v) h p ok c ne =
      still-AreBacked n.votes_received t v (h.votes (λ f. ne (r ∙ f)))
  tally-AreBacked e (began r lt f v) h p ok c ne = (
    subst IsDistinct (sym v) (refl, tt),
    subst (All (Backs k (with_vote cast m) m.current_term m.id)) (sym v)
        ((p.id, with_vote_own cast m ∙ f), tt),
  )
  tally-AreBacked e (counted r t v w) h p ok c ne =
      still-AreBacked n.votes_received t v (h.votes (λ f. cc))
  tally-AreBacked _ (granted from to reply g le r t v w) h p ok (at, (lt, is_true)) ne =
      let now : n.current_term ≡ reply.term = omega (arith, ok g, le) in
      still-AreBacked (add_vote from n.votes_received) t v (
        add_vote-All (Backs k cast n.current_term n.id) from n.votes_received
          (lt, ap (cast from) now ∙ is_true g ∙ ap some at) (h.votes (λ f. cc)))

  majority-lt :
      length m.peers + 1 ≡ k
      → majority m ≤ length m.votes_received
      → k < 2 * length m.votes_received
  majority-lt size le = omega (arith, size, le)

  tally-won :
      (e : Event)
      → Tally e n m
      → IsHonest k cast n
      → length m.peers + 1 ≡ k
      → m.role ≡ leader
      → k < 2 * length m.votes_received
  tally-won e (retired r) h size l = cc
  tally-won e (kept r t v) h size l = rw v (h.won (sym r ∙ l))
  tally-won e (began r lt f v) h size l = cc
  tally-won e (counted r t v w) h size l = majority-lt size (w l)
  tally-won _ (granted from to reply g le r t v w) h size l = majority-lt size (w l)

  pub after-IsHonest :
      (e : Event)
      → Tally e n m
      → KeepsVote n m
      → m.peers ≡ n.peers
      → IsHonest k cast n
      → IsAllowed IsCurrent e n
      → Comes (IsTruthful k cast) n.id e
      → IsHonest k (with_vote cast m) m
  after-IsHonest e tally keep peers h ok c =
      let p = same-IsPlaced k n m (id, peers) h.placed in
      let size : length m.peers + 1 ≡ k = ap (λ ps. length ps + 1) peers ∙ h.size in
      record {
        placed = p;
        size = size;
        future = λ t lt.
            with_vote_later cast m t lt
            ∙ ap (λ i. cast i t) id
            ∙ h.future t (omega (arith, lt, keep.term));
        now = with_vote_own cast m;
        votes = tally-AreBacked e tally h p ok c;
        won = tally-won e tally h size;
      }
    where
      with_vote_later :
          (cast : Cast) (m : Node) (t : ℕ)
          → m.current_term < t
          → with_vote cast m m.id t ≡ cast m.id t
      with_vote_later cast m t lt = ground arith
