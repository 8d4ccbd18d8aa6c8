-- ===== src/Simulator/Bounds.antt =====
-- The sizes that the simulator keeps, and the ids of its nodes.
use raft_visualizer.Prelude.{
  ℕ, zero, suc, ◌-◌, ◌≤◌, ◌≡◌, refl, sym, subst, ap, ◌∙◌, inl, inr, Bool, true, Option, none, some,
  List, [], ◌∷◌, ◌++◌, map, arith, ltb, nat_eq, if◌then◌else◌, if_of, length, filter,
  length-slice_last-le, All, Bool-cases, String, length-append,
}
use mathlib.Core.Option.{map as map_option, none-ne-some, some-injective, map-eq-some_iff}
use raft_visualizer.Raft.{Node, Message, Sent, submit_command, kill, restart, is_leader}
use raft_visualizer.Raft.Ids.{handle-SameSite}
use raft_visualizer.Raft.Events.{Event, receive, timeout, heartbeat, changed, handle}
use raft_visualizer.Simulator.Results.{IfSome, IfSome-found, IfSome-map, IfSome-elim}
use raft_visualizer.Simulator.{
  Cluster, InFlightMessage, put, prune, route, route_all, submit, submit_first, change, kill_node,
  restart_node, partition, heal, build_snapshot, is_cut, rpc_type_name, rpc_term,
}
use raft_visualizer.Simulator.Steps.{
  Step, take_message, election_timeout, heartbeat_tick as beat, notify, submit_call, kill_call,
  restart_call, partition_call, heal_call, emit, step, steps, node_step, node_at, take_first,
}

-- The ids of the nodes are `ids` in order, no inbox holds more than 128 messages, and at most 256
-- messages are in flight.
pub record IsBounded (ids : List ℕ) (c : Cluster) : Type 0 where
  pub ids_lem : map (λ (n : Node). n.id) c.nodes ≡ ids
  pub inboxes_bounds : All (λ b. length b ≤ 128) c.inboxes
  pub in_flight_bounds : length c.in_flight ≤ 256

put-bounds :
    (i : ℕ) (msg : Message) (bs cs : List (List Message))
    → put i msg bs ≡ some cs
    → All (λ b. length b ≤ 128) bs
    → All (λ b. length b ≤ 128) cs
put-bounds i msg [] cs e h = absurd (none-ne-some cs e)
put-bounds zero msg (b ∷ bs) cs e h =
    subst (All (λ b. length b ≤ 128)) (some-injective _ _ e)
      (ground (arith, h.0, length-append b (msg ∷ [])), h.1)
put-bounds (suc i) msg (b ∷ bs) cs e h =
    let (rest, found, eq) = (map-eq-some_iff (b ∷◌) (put i msg bs)).0 e in
    subst (All (λ b. length b ≤ 128)) eq (h.0, put-bounds i msg bs rest found h.1)

pub prune-le : (now : ℕ) (ms : List InFlightMessage) → length (prune now ms) ≤ 256
prune-le now ms = length-slice_last-le 256 (filter (λ m. ltb (now - m.sent_at) 150) ms)

route-IsBounded :
    (ids : List ℕ) (now : ℕ) (msg : Message) (c : Cluster)
    → IsBounded ids c
    → IfSome (IsBounded ids) (route now msg c)
unfolding route
route-IsBounded ids now msg c h =
    if_of (IfSome (IsBounded ids)) (is_cut c.partitioned msg.from msg.to)
      (record { ids_lem = h.ids_lem; inboxes_bounds = h.inboxes_bounds; in_flight_bounds = fits })
      (IfSome-map (IsBounded ids) _ (put msg.to msg c.inboxes) (
        IfSome-found _ (put msg.to msg c.inboxes) (λ boxes found. record {
          ids_lem = h.ids_lem;
          inboxes_bounds = put-bounds msg.to msg c.inboxes boxes found h.inboxes_bounds;
          in_flight_bounds = fits;
        })))
  where
    shown : InFlightMessage
    shown = record {
      from = msg.from;
      to = msg.to;
      type = rpc_type_name msg.rpc;
      term = rpc_term msg.rpc;
      sent_at = now;
    }

    fits : length (prune now (c.in_flight ++ shown ∷ [])) ≤ 256
    fits = prune-le now (c.in_flight ++ shown ∷ [])

route_all-IsBounded :
    (ids : List ℕ) (now : ℕ) (sent : Sent) (c : Cluster)
    → IsBounded ids c
    → IfSome (IsBounded ids) (route_all now sent c)
unfolding route_all
route_all-IsBounded ids now [] c h = h
route_all-IsBounded ids now (none ∷ sent) c h = tt
route_all-IsBounded ids now (some msg ∷ sent) c h =
    IfSome-elim (IsBounded ids) (IsBounded ids) (route now msg c) none (route_all now sent)
      (route-IsBounded ids now msg c h) tt (λ d k. route_all-IsBounded ids now sent d k)

ids-change :
    (i : ℕ) (f : Node → Node) (ns ms : List Node)
    → ((n : Node) → (f n).id ≡ n.id)
    → change i f ns ≡ some ms
    → map (λ (n : Node). n.id) ms ≡ map (λ (n : Node). n.id) ns
ids-change i f [] ms k e = absurd (none-ne-some ms e)
ids-change zero f (n ∷ ns) ms k e =
    ap (map (λ (n : Node). n.id)) (sym (some-injective _ _ e))
    ∙ ap (◌∷ map (λ (n : Node). n.id) ns) (k n)
ids-change (suc i) f (n ∷ ns) ms k e =
    let (rest, found, eq) = (map-eq-some_iff (n ∷◌) (change i f ns)).0 e in
    ap (map (λ (n : Node). n.id)) (sym eq) ∙ ap (n.id ∷◌) (ids-change i f ns rest k found)

-- Other nodes of the same ids.
nodes-IsBounded :
    (ids : List ℕ) (ms : List Node) (c : Cluster)
    → map (λ (n : Node). n.id) ms ≡ map (λ (n : Node). n.id) c.nodes
    → IsBounded ids c
    → IsBounded ids (record c { nodes = ms })
nodes-IsBounded ids ms c same h = record {
  ids_lem = same ∙ h.ids_lem;
  inboxes_bounds = h.inboxes_bounds;
  in_flight_bounds = h.in_flight_bounds;
}

-- A change of one node that keeps its id.
changed-IsBounded :
    (ids : List ℕ) (i : ℕ) (f : Node → Node) (c : Cluster)
    → ((n : Node) → (f n).id ≡ n.id)
    → IsBounded ids c
    → IfSome (IsBounded ids) (map_option (λ ns. record c { nodes = ns }) (change i f c.nodes))
changed-IsBounded ids i f c k h = IfSome-map (IsBounded ids) _ (change i f c.nodes) (
    IfSome-found _ (change i f c.nodes)
      (λ ms found. nodes-IsBounded ids ms c (ids-change i f c.nodes ms k found) h))

node_step-IsBounded :
    (ids : List ℕ) (now i : ℕ) (e : Event) (c : Cluster)
    → IsBounded ids c
    → IfSome (IsBounded ids) (node_step now i e c)
unfolding node_step
node_step-IsBounded ids now i e c h =
    IfSome-elim (IsBounded ids) (λ (n : Node). Unit) (node_at i c.nodes) (some c) _
      (IfSome-found _ (node_at i c.nodes) (λ n found. tt)) h
      (λ n u.
        IfSome-elim (IsBounded ids) SameIds (change i (λ m. (handle e m).0) c.nodes) (some c) _
          (IfSome-found SameIds (change i (λ m. (handle e m).0) c.nodes) (λ ms found.
            ids-change i (λ m. (handle e m).0) c.nodes ms (λ m. (handle-SameSite e m).0) found))
          h
          (λ ms same.
            route_all-IsBounded ids now (handle e n).1 _ (nodes-IsBounded ids ms c same h)))
  where
    SameIds : List Node → Type 0
    SameIds ms = map (λ (n : Node). n.id) ms ≡ map (λ (n : Node). n.id) c.nodes

ids-submit_first :
    (cmd : String) (ns : List Node)
    → map (λ (n : Node). n.id) (submit_first cmd ns).0 ≡ map (λ (n : Node). n.id) ns
unfolding submit_command
ids-submit_first cmd [] = refl
ids-submit_first cmd (n ∷ ns) = elim (Bool-cases (is_leader n.role)) [
  | inl l ↦ rw (l, if◌then◌else◌) refl
  | inr l ↦ rw (l, if◌then◌else◌) (ap (n.id ∷◌) (ids-submit_first cmd ns))
]

take_first-bounds :
    (i : ℕ) (bs : List (List Message))
    → All (λ b. length b ≤ 128) bs
    → IfSome
        (λ (r : Message × List (List Message)). All (λ b. length b ≤ 128) r.1)
        (take_first i bs)
take_first-bounds i [] h = tt
take_first-bounds zero ([] ∷ bs) h = tt
take_first-bounds zero ((msg ∷ b) ∷ bs) h = (omega (arith, h.0), h.1)
take_first-bounds (suc i) (b ∷ bs) h =
    IfSome-elim (λ (r : Message × List (List Message)). All (λ b. length b ≤ 128) r.1)
      (λ (r : Message × List (List Message)). All (λ b. length b ≤ 128) r.1) (take_first i bs) none
      _ (take_first-bounds i bs h.1) tt (λ r k. (h.0, k))

step-IsBounded :
    (ids : List ℕ) (now : ℕ) (s : Step) (c : Cluster)
    → IsBounded ids c
    → IfSome (IsBounded ids) (step now s c)
unfolding step submit kill_node restart_node partition heal build_snapshot kill restart
step-IsBounded ids now (take_message i) c h =
    IfSome-elim (IsBounded ids)
      (λ (r : Message × List (List Message)). All (λ b. length b ≤ 128) r.1)
      (take_first i c.inboxes) (some c) _ (take_first-bounds i c.inboxes h.inboxes_bounds) h
      (λ r k.
        node_step-IsBounded ids now i (receive r.0) (record c { inboxes = r.1 })
          (record {
            ids_lem = h.ids_lem;
            inboxes_bounds = k;
            in_flight_bounds = h.in_flight_bounds;
          }))
step-IsBounded ids now (election_timeout i) c h = node_step-IsBounded ids now i timeout c h
step-IsBounded ids now (beat i) c h = node_step-IsBounded ids now i heartbeat c h
step-IsBounded ids now (notify i) c h =
    node_step-IsBounded ids now i changed (record c { signalled = true })
      (record {
        ids_lem = h.ids_lem;
        inboxes_bounds = h.inboxes_bounds;
        in_flight_bounds = h.in_flight_bounds;
      })
step-IsBounded ids now (submit_call cmd) c h = IfSome-map (IsBounded ids) _ (map_option _ after) (
    IfSome-map (λ (r : Cluster × Bool). IsBounded ids r.0) _ after
      (route_all-IsBounded ids now sent.1.0 _
        (nodes-IsBounded ids sent.0 c (ids-submit_first cmd c.nodes) h)))
  where
    sent : List Node × (Sent × Bool)
    sent = submit_first cmd c.nodes

    after : Option Cluster
    after =
        route_all now (submit_first cmd c.nodes).1.0
          (record c { nodes = (submit_first cmd c.nodes).0 })
step-IsBounded ids now (kill_call id) c h = changed-IsBounded ids id kill c (λ n. refl) h
step-IsBounded ids now (restart_call id) c h = changed-IsBounded ids id restart c (λ n. refl) h
step-IsBounded ids now (partition_call group_a group_b) c h = record {
  ids_lem = h.ids_lem;
  inboxes_bounds = h.inboxes_bounds;
  in_flight_bounds = h.in_flight_bounds;
}
step-IsBounded ids now heal_call c h = record {
  ids_lem = h.ids_lem;
  inboxes_bounds = h.inboxes_bounds;
  in_flight_bounds = h.in_flight_bounds;
}
step-IsBounded ids now emit c h = record {
  ids_lem = h.ids_lem;
  inboxes_bounds = h.inboxes_bounds;
  in_flight_bounds = prune-le now c.in_flight;
}

pub steps-IsBounded :
    (ids : List ℕ) (ss : List (ℕ × Step)) (c : Cluster)
    → IsBounded ids c
    → IfSome (IsBounded ids) (steps ss c)
unfolding steps
steps-IsBounded ids [] c h = h
steps-IsBounded ids ((now, s) ∷ later) c h =
    IfSome-elim (IsBounded ids) (IsBounded ids) (step now s c) none (steps later)
      (step-IsBounded ids now s c h) tt (λ d k. steps-IsBounded ids later d k)
