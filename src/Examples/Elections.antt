-- ===== src/Examples/Elections.antt =====
-- Elections in a cluster of three nodes.
use raft_visualizer.Prelude.{
  ℕ, zero, suc, ◌<◌, ◌≡◌, refl, inl, inr, Option, none, some, List, [], ◌∷◌, map, length, arith,
  Occurs,
}
use raft_visualizer.Raft.{
  Node, Role, leader, follower, take, term_at, new_node, maybe_step_down, become_leader,
  send_append_entries, send_to_peers, send_heartbeats, submit_command,
}
use raft_visualizer.Raft.Election.{
  start_election, handle_request_vote, handle_request_vote_reply, candidate_log_up_to_date,
}
use raft_visualizer.Raft.Replication.{
  handle_append_entries, handle_append_entries_reply, accept, advance_last_applied, merge,
}
use raft_visualizer.Raft.Events.{handle}
use raft_visualizer.Simulator.{Cluster, new_cluster, route, route_all, submit}
use raft_visualizer.Simulator.Steps.{
  Step, take_message, election_timeout, submit_call, steps, step, node_step,
}
use raft_visualizer.Simulator.Ghosts.{AdmitsAll}
use raft_visualizer.Simulator.Voting.{IsCurrent}
use raft_visualizer.Simulator.Elections.{one_leader_a_term}
use raft_visualizer.Simulator.Matching.{logs_match}

-- Node 0 is elected by node 1 and hands it an entry.
abbrev reign : List (ℕ × Step)
reign =
    (1, election_timeout 0)
    ∷ (2, take_message 1)
    ∷ (3, take_message 0)
    ∷ (4, submit_call "x")
    ∷ (5, take_message 1)
    ∷ (6, take_message 1)
    ∷ []

abbrev result : Option Cluster → Cluster
result none = new_cluster 0
result (some c) = c

abbrev kingdom : Cluster
kingdom = result (steps reign (new_cluster 3))

abbrev node_of : ℕ → List Node → Node
node_of i [] = new_node 0 []
node_of zero (n ∷ ns) = n
node_of (suc i) (n ∷ ns) = node_of i ns

-- What the run comes to.
abbrev first : Node
first = node_of 0 kingdom.nodes

abbrev second : Node
second = node_of 1 kingdom.nodes

record IsSettled : Type 0 where
  reached : steps reign (new_cluster 3) ≡ some kingdom
  admitted : AdmitsAll IsCurrent reign (new_cluster 3)
  first_occurs : Occurs first kingdom.nodes
  second_occurs : Occurs second kingdom.nodes
  leads : first.role ≡ leader
  first_has : 0 < length first.log
  second_has : 0 < length second.log
  terms : term_at first.log 0 ≡ term_at second.log 0

settled : IsSettled
unfolding steps step node_step route route_all submit new_cluster new_node handle start_election
    handle_request_vote handle_request_vote_reply candidate_log_up_to_date maybe_step_down
    become_leader send_append_entries send_to_peers send_heartbeats submit_command
    handle_append_entries handle_append_entries_reply accept advance_last_applied merge
settled = record {
  reached = refl;
  admitted = (tt, (tt, ((λ g. omega arith), (tt, (tt, (tt, tt))))));
  first_occurs = inl refl;
  second_occurs = inr (inl refl);
  leads = refl;
  first_has = omega arith;
  second_has = omega arith;
  terms = refl;
}

one_leader_a_term_example : first ≡ first
one_leader_a_term_example =
    one_leader_a_term 3 reign kingdom first first settled.reached settled.admitted
      settled.first_occurs settled.first_occurs settled.leads settled.leads refl

logs_match_example : take 1 first.log ≡ take 1 second.log
logs_match_example =
    logs_match 3 reign kingdom first second 0 settled.reached settled.admitted settled.first_occurs
      settled.second_occurs settled.first_has settled.second_has settled.terms

-- Node 1 votes for node 0 in term 1 and for node 2 in term 2. Node 2 wins its term; node 0, a
-- candidate of term 2 by then, takes the vote of term 1, and wins as well.
abbrev schism : List (ℕ × Step)
schism =
    (1, election_timeout 0)
    ∷ (2, take_message 1)
    ∷ (3, election_timeout 2)
    ∷ (4, election_timeout 2)
    ∷ (5, election_timeout 0)
    ∷ (6, take_message 1)
    ∷ (7, take_message 1)
    ∷ (8, take_message 2)
    ∷ (9, take_message 2)
    ∷ (10, take_message 2)
    ∷ (11, take_message 2)
    ∷ (12, take_message 2)
    ∷ (13, take_message 0)
    ∷ []

abbrev standing : Node → Role × ℕ
standing n = (n.role, n.current_term)

two_leaders :
    map standing (result (steps schism (new_cluster 3))).nodes
    ≡ (leader, 2) ∷ (follower, 2) ∷ (leader, 2) ∷ []
unfolding steps step node_step route route_all submit new_cluster new_node handle start_election
    handle_request_vote handle_request_vote_reply candidate_log_up_to_date maybe_step_down
    become_leader send_append_entries send_to_peers send_heartbeats submit_command
    handle_append_entries handle_append_entries_reply accept advance_last_applied merge
two_leaders = refl
