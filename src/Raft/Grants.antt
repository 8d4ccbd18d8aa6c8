-- ===== src/Raft/Grants.antt =====
-- The votes that a node grants, over its runs.
use raft_visualizer.Prelude.{
  ℕ, ◌≤◌, ◌+◌, ◌≡◌, refl, sym, ◌∙◌, ◌⊎◌, inl, inr, Bool, true, false, ◌&&◌, ◌||◌, Option, none,
  some, List, [], ◌∷◌, ◌++◌, map, arith, nat_eq, ◌==◌, if_of, any, All, length, String,
}
use mathlib.Core.Option.{some-injective}
use raft_visualizer.Raft.{
  Node, Message, Rpc, RequestVoteArgs, RequestVoteReply, AppendEntriesArgs, AppendEntriesReply,
  request_vote, request_vote_reply, append_entries, append_entries_reply, Sent, Outcome,
  send_append_entries, send_to_peers, send_heartbeats, maybe_step_down, become_leader,
  heartbeat_tick, submit_command, is_leader,
}
use raft_visualizer.Raft.Election.{
  start_election, ask, handle_request_vote, handle_request_vote_reply, count_vote,
}
use raft_visualizer.Raft.Replication.{handle_append_entries, handle_append_entries_reply}
use raft_visualizer.Raft.Events.{
  Event, receive, timeout, heartbeat, changed, submit, crash, revive, handle, dispatch, run,
}
use raft_visualizer.Raft.Votes.{handle-KeepsVote}

-- A message that grants a vote of the term to the candidate.
abbrev pub is_grant : ℕ → ℕ → Option Message → Bool
is_grant t c none = false
is_grant t c (some msg) = elim msg.rpc [
  | request_vote_reply reply ↦ reply.vote_granted && ((reply.term == t) && (msg.to == c))
  | _ ↦ false
]

-- A grant is among the messages.
abbrev pub grants : ℕ → ℕ → Sent → Bool
grants t c sent = any (is_grant t c) sent

-- A request for a vote comes from the candidate that it names.
abbrev pub AsksForItself : ℕ → Rpc → Type 0
AsksForItself from (request_vote args) = args.candidate_id ≡ from
AsksForItself from _ = Unit

abbrev pub IsHonest : Event → Type 0
IsHonest (receive msg) = AsksForItself msg.from msg.rpc
IsHonest _ = Unit

any-append : (p : Option Message → Bool) (xs ys : Sent) → any p (xs ++ ys) ≡ (any p xs || any p ys)
any-append p [] ys = refl
any-append p (x ∷ xs) ys = ground (arith, any-append p xs ys)

or_true : (a b : Bool) → (a || b) ≡ true → (a ≡ true) ⊎ (b ≡ true)
or_true true b h = inl refl
or_true false b h = inr h

module _ (t c : ℕ) where
  append-grants : (n : Node) (p : ℕ) → is_grant t c (send_append_entries n p) ≡ false
  unfolding send_append_entries
  append-grants n p = ground arith

  peers-grants : (n : Node) (ps : List ℕ) → grants t c (map (send_append_entries n) ps) ≡ false
  peers-grants n [] = refl
  peers-grants n (p ∷ ps) = ground (arith, append-grants n p, peers-grants n ps)

  asks-grants : (n : Node) → grants t c (start_election n).1 ≡ false
  unfolding start_election
  asks-grants n = by_peers n.peers
    where
      m : Node
      m = (start_election n).0

      by_peers : (ps : List ℕ) → grants t c (map (ask m) ps) ≡ false
      by_peers [] = refl
      by_peers (p ∷ ps) = by_peers ps

  submit-grants : (cmd : String) (n : Node) → grants t c (submit_command cmd n).0.1 ≡ false
  unfolding submit_command send_to_peers
  submit-grants cmd n =
      if_of (λ (o : Outcome × Bool). grants t c o.0.1 ≡ false) (is_leader n.role)
        (peers-grants
          (record n {
            log =
                n.log
                ++ record { index = length n.log + 1; term = n.current_term; command = cmd } ∷ [];
            dirty = true;
          })
          n.peers)
        refl

  leader-grants : (n : Node) → grants t c (become_leader n).1 ≡ false
  unfolding become_leader send_heartbeats send_to_peers
  leader-grants n = peers-grants _ n.peers

  vote_reply-grants :
      (from : ℕ) (reply : RequestVoteReply) (n : Node)
      → grants t c (handle_request_vote_reply from reply n).1 ≡ false
  unfolding handle_request_vote_reply
  vote_reply-grants from reply n =
      ground (arith, leader-grants (count_vote from reply (maybe_step_down reply.term n)))

  entries-grants :
      (from : ℕ) (args : AppendEntriesArgs) (n : Node)
      → grants t c (handle_append_entries from args n).1 ≡ false
  unfolding handle_append_entries
  entries-grants from args n = ground arith

  entries_reply-grants :
      (from : ℕ) (reply : AppendEntriesReply) (n : Node)
      → grants t c (handle_append_entries_reply from reply n).1 ≡ false
  unfolding handle_append_entries_reply
  entries_reply-grants from reply n = ground arith

  -- A vote that is granted is the node's vote in its term.
  abbrev Backed : Outcome → Type 0
  Backed o = grants t c o.1 ≡ true → (o.0.current_term ≡ t) × (o.0.voted_for ≡ some c)

  none-Backed : (o : Outcome) → grants t c o.1 ≡ false → Backed o
  none-Backed o h g = cc

  request-Backed :
      (from : ℕ) (args : RequestVoteArgs) (n : Node)
      → args.candidate_id ≡ from
      → Backed (handle_request_vote from args n)
  unfolding handle_request_vote
  request-Backed from args n h g = (ground (arith, h, g), ground (arith, h, g))

  dispatch-Backed :
      (from : ℕ) (rpc : Rpc) (n : Node) → AsksForItself from rpc → Backed (dispatch from rpc n)
  dispatch-Backed from (request_vote args) n h = request-Backed from args n h
  dispatch-Backed from (request_vote_reply reply) n h =
      none-Backed (handle_request_vote_reply from reply n) (vote_reply-grants from reply n)
  dispatch-Backed from (append_entries args) n h =
      none-Backed (handle_append_entries from args n) (entries-grants from args n)
  dispatch-Backed from (append_entries_reply reply) n h =
      none-Backed (handle_append_entries_reply from reply n) (entries_reply-grants from reply n)

  handle-Backed : (e : Event) (n : Node) → IsHonest e → Backed (handle e n)
  unfolding handle heartbeat_tick send_heartbeats send_to_peers
  handle-Backed (receive msg) n h =
      if_of (λ (o : Outcome). Backed o) n.alive (dispatch-Backed msg.from msg.rpc n h)
        (none-Backed (n, []) refl)
  handle-Backed timeout n h =
      let m : Node = record n { timer = false } in
      if_of (λ (o : Outcome). Backed o) n.timer
        (if_of (λ (o : Outcome). Backed o) n.alive (none-Backed (start_election m) (asks-grants m))
          (none-Backed (m, []) refl))
        (none-Backed (n, []) refl)
  handle-Backed heartbeat n h =
      none-Backed (handle heartbeat n) (ground (arith, peers-grants n n.peers))
  handle-Backed changed n h = none-Backed (handle changed n) refl
  handle-Backed (submit cmd) n h = none-Backed (handle (submit cmd) n) (submit-grants cmd n)
  handle-Backed crash n h = none-Backed (handle crash n) refl
  handle-Backed revive n h = none-Backed (handle revive n) refl

-- The grants of a run are of the node's term or of later ones, and in its term for nobody but the
-- candidate that it has voted for.
abbrev pub KeepsWord : Node → Sent → Type 0
KeepsWord n sent =
    (t c : ℕ)
    → grants t c sent ≡ true
    → (n.current_term ≤ t) × ((v : ℕ) → t ≡ n.current_term → n.voted_for ≡ some v → c ≡ v)

handle-KeepsWord : (e : Event) (n : Node) → IsHonest e → KeepsWord n (handle e n).1
handle-KeepsWord e n h t c g =
    let kept = handle-KeepsVote e n in
    let (term, vote) = handle-Backed t c e n h g in
    (
      omega (arith, kept.term, term),
      λ v now cast. some-injective c v (sym vote ∙ kept.vote v (term ∙ now) cast),
    )

-- In each term all the grants are for one candidate.
abbrev pub IsFaithful : Sent → Type 0
IsFaithful sent = (t a b : ℕ) → grants t a sent ≡ true → grants t b sent ≡ true → a ≡ b

run-KeepsWord : (es : List Event) (n : Node) → All IsHonest es → KeepsWord n (run es n).1
unfolding run
run-KeepsWord [] n h t c g = cc
run-KeepsWord (e ∷ es) n h t c g =
    let m = (handle e n).0 in
    let kept = handle-KeepsVote e n in
    elim (or_true _ _ (sym (any-append (is_grant t c) (handle e n).1 (run es m).1) ∙ g)) [
      | inl now ↦ handle-KeepsWord e n h.0 t c now
      | inr later ↦
          let (le, word) = run-KeepsWord es m h.1 t c later in
          (
            omega (arith, kept.term, le),
            λ v same cast.
                let stays : m.current_term ≡ n.current_term = omega (arith, kept.term, le, same) in
                word v (same ∙ sym stays) (kept.vote v stays cast),
          )
    ]

-- One grant is of an event, the other comes later in the run.
now-later :
    (e : Event) (es : List Event) (n : Node) (t a b : ℕ)
    → IsHonest e
    → All IsHonest es
    → grants t a (handle e n).1 ≡ true
    → grants t b (run es (handle e n).0).1 ≡ true
    → b ≡ a
now-later e es n t a b h hs now later =
    let (term, vote) = handle-Backed t a e n h now in
    (run-KeepsWord es (handle e n).0 hs t b later).1 a (sym term) vote

run-IsFaithful : (es : List Event) (n : Node) → All IsHonest es → IsFaithful (run es n).1
unfolding run
run-IsFaithful [] n h t a b p q = cc
run-IsFaithful (e ∷ es) n h t a b p q =
    let m = (handle e n).0 in
    elim (or_true _ _ (sym (any-append (is_grant t a) (handle e n).1 (run es m).1) ∙ p)) [
      | inl first ↦
          elim (or_true _ _ (sym (any-append (is_grant t b) (handle e n).1 (run es m).1) ∙ q)) [
            | inl second ↦
                some-injective a b
                  (sym (handle-Backed t a e n h.0 first).1 ∙ (handle-Backed t b e n h.0 second).1)
            | inr second ↦ sym (now-later e es n t a b h.0 h.1 first second)
          ]
      | inr first ↦
          elim (or_true _ _ (sym (any-append (is_grant t b) (handle e n).1 (run es m).1) ∙ q)) [
            | inl second ↦ now-later e es n t b a h.0 h.1 second first
            | inr second ↦ run-IsFaithful es m h.1 t a b first second
          ]
    ]

-- Over any run of a node in which each request for a vote comes from the candidate that it names,
-- crashes and restarts included: any two votes that it grants in one term are for the same candidate;
-- no grant is of a term before the node's own at the start; and a grant in that term is for the
-- candidate that the node has voted for, if it has voted.
pub grants-run :
    (es : List Event) (n : Node)
    → All IsHonest es
    → IsFaithful (run es n).1 × KeepsWord n (run es n).1
grants-run es n h = (run-IsFaithful es n h, run-KeepsWord es n h)
