-- ===== src/Raft/Stale.antt =====
-- Replies that come late, and replies that say more than the node has compared.
use raft_visualizer.Prelude.{
  ℕ, ◌+◌, ◌≤◌, ◌<◌, ◌≡◌, refl, sym, subst, ap, ◌∙◌, inl, inr, true, false, List, [], ◌∷◌, ◌++◌, map,
  arith, ltb, nat_eq, if◌then◌else◌, length, Bool-cases, includes, length-append,
}
use raft_visualizer.Raft.{
  Node, Message, leader, candidate, request_vote_reply, Outcome, is_candidate, maybe_step_down,
  become_leader,
}
use raft_visualizer.Raft.Election.{
  start_election, handle_request_vote_reply, has_majority, majority,
}
use raft_visualizer.Raft.Events.{Event, receive, timeout, handle, dispatch, run}

-- A vote that was granted in the term.
abbrev pub granted : ℕ → ℕ → ℕ → Event
granted id term from = receive (record {
  from = from;
  to = id;
  rpc = request_vote_reply (record { term = term; vote_granted = true });
})

-- The ids are not among the votes, and differ from each other.
abbrev pub IsFresh : List ℕ → List ℕ → Type 0
IsFresh votes [] = Unit
IsFresh votes (q ∷ qs) = (includes votes q ≡ false) × IsFresh (votes ++ q ∷ []) qs

-- The node is alive and leads in the term.
record IsElected (n : Node) (t : ℕ) : Type 0 where
  alive : n.alive ≡ true
  role : n.role ≡ leader
  term : n.current_term ≡ t

-- The node is alive and runs for the term.
record IsRunning (n : Node) (t : ℕ) : Type 0 where
  alive : n.alive ≡ true
  role : n.role ≡ candidate
  term : n.current_term ≡ t

same_term : (n : Node) (t k : ℕ) → n.current_term ≡ t → k ≤ t → maybe_step_down k n ≡ n
unfolding maybe_step_down
same_term n t k e le =
    let no_step : ltb n.current_term k ≡ false = ground (arith, e, le) in
    rw (no_step, if◌then◌else◌) refl

alive-receive :
    (msg : Message) (n : Node)
    → n.alive ≡ true
    → handle (receive msg) n ≡ dispatch msg.from msg.rpc n
unfolding handle
alive-receive msg n a = ap (λ b. if b then dispatch msg.from msg.rpc n else (n, [])) a

handle-granted-leader :
    (id k t q : ℕ) (n : Node) → k ≤ t → IsElected n t → handle (granted id k q) n ≡ (n, [])
unfolding handle_request_vote_reply
handle-granted-leader id k t q n le h =
    alive-receive _ n h.alive ∙ rw (stays, leads, if◌then◌else◌) refl
  where
    stays : maybe_step_down k n ≡ n
    stays = same_term n t k h.term le

    leads : is_candidate n.role ≡ false
    leads = ground (arith, h.role)

led :
    (id k t : ℕ) (qs : List ℕ) (n : Node)
    → k ≤ t
    → IsElected n t
    → IsElected (run (map (granted id k) qs) n).0 t
unfolding run
led id k t [] n le h = h
led id k t (q ∷ qs) n le h =
    subst (λ (o : Outcome). IsElected (run (map (granted id k) qs) o.0).0 t)
      (sym (handle-granted-leader id k t q n le h)) (led id k t qs n le h)

-- The node with one more vote.
abbrev voted : ℕ → Node → Node
voted q n = record n { votes_received = n.votes_received ++ q ∷ [] }

handle-granted-candidate :
    (id k t q : ℕ) (n : Node)
    → k ≤ t
    → IsRunning n t
    → includes n.votes_received q ≡ false
    → handle (granted id k q) n
      ≡ (if has_majority (voted q n) then become_leader (voted q n) else (voted q n, []))
unfolding handle_request_vote_reply
handle-granted-candidate id k t q n le h new =
    alive-receive _ n h.alive ∙ rw (stays, runs, new, if◌then◌else◌) refl
  where
    stays : maybe_step_down k n ≡ n
    stays = same_term n t k h.term le

    runs : is_candidate n.role ≡ true
    runs = ground (arith, h.role)

become_leader-IsElected : (n : Node) (t : ℕ) → IsRunning n t → IsElected (become_leader n).0 t
unfolding become_leader
become_leader-IsElected n t h = record { alive = h.alive; role = refl; term = h.term }

gather :
    (id k t : ℕ) (qs : List ℕ) (n : Node)
    → k ≤ t
    → IsRunning n t
    → IsFresh n.votes_received qs
    → length n.votes_received < majority n
    → majority n ≤ length n.votes_received + length qs
    → IsElected (run (map (granted id k) qs) n).0 t
unfolding run
gather id k t [] n le h fresh few enough = absurd (omega (arith, few, enough))
gather id k t (q ∷ qs) n le h fresh few enough =
    subst (λ (o : Outcome). IsElected (run (map (granted id k) qs) o.0).0 t)
      (sym (handle-granted-candidate id k t q n le h fresh.0))
      (elim (Bool-cases (has_majority (voted q n))) [
        | inl wins ↦
            rw (wins, if◌then◌else◌)
              (led id k t qs (become_leader (voted q n)).0 le
                (become_leader-IsElected (voted q n) t runs))
        | inr waits ↦
            rw (waits, if◌then◌else◌)
              (gather id k t qs (voted q n) le runs fresh.1 (ground (arith, waits))
                (omega (arith, more, enough)))
      ])
  where
    more : length (n.votes_received ++ q ∷ []) ≡ length n.votes_received + 1
    more = length-append n.votes_received (q ∷ [])

    runs : IsRunning (voted q n) t
    runs = record { alive = h.alive; role = h.role; term = h.term }

alive-timeout :
    (n : Node)
    → n.alive ≡ true
    → n.timer ≡ true
    → handle timeout n ≡ start_election (record n { timer = false })
unfolding handle
alive-timeout n a t =
    let m : Node = record n { timer = false } in
    ap (λ b. if b then if n.alive then start_election m else (m, []) else (n, [])) t
    ∙ ap (λ b. if b then start_election m else (m, [])) a

-- Votes of an earlier term count: when a live node with a peer times out, and then hears grants of
-- the term before from as many other nodes, no two the same, as make a majority with it, it leads in
-- the new term.
pub stale_votes-win :
    (n : Node) (qs : List ℕ)
    → n.alive ≡ true
    → n.timer ≡ true
    → 1 ≤ length n.peers
    → IsFresh (n.id ∷ []) qs
    → majority n ≤ 1 + length qs
    → let m = (run (timeout ∷ map (granted n.id n.current_term) qs) n).0 in
      (m.role ≡ leader) × (m.current_term ≡ n.current_term + 1)
unfolding run start_election
stale_votes-win n qs alive timed peers fresh enough =
    let m = (start_election (record n { timer = false })).0 in
    let h =
      gather n.id n.current_term (n.current_term + 1) qs m (omega arith)
        (record { alive = alive; role = refl; term = refl }) fresh (omega (arith, peers)) enough in
    subst
      (λ (o : Outcome).
        ((run (map (granted n.id n.current_term) qs) o.0).0.role ≡ leader)
        × ((run (map (granted n.id n.current_term) qs) o.0).0.current_term ≡ n.current_term + 1))
      (sym (alive-timeout n alive timed)) (h.role, h.term)
