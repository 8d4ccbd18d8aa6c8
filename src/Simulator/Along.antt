-- ===== src/Simulator/Along.antt =====
-- The invariants of Ghosts along the runs of a cluster.
use raft_visualizer.Prelude.{
  ℕ, zero, suc, ◌≡◌, ◌≢◌, sym, subst, inl, inr, Bool, true, Option, none, some, List, [], ◌∷◌,
  arith, nat_eq, if_of, Option-cases, All, String,
}
use mathlib.Core.Option.{map as map_option, none-ne-some, map-eq-some_iff}
use raft_visualizer.Raft.{Node, Message, Sent}
use raft_visualizer.Raft.Events.{
  Event, receive, timeout, heartbeat, changed, submit as submit_event, crash, revive, handle,
}
use raft_visualizer.Simulator.{
  Cluster, route, route_all, submit, submit_first, change, kill_node, restart_node, partition, heal,
  build_snapshot, put, is_cut,
}
use raft_visualizer.Simulator.Steps.{
  Step, take_message, election_timeout, heartbeat_tick as beat, notify, submit_call, kill_call,
  restart_call, partition_call, heal_call, emit, step, steps, node_step, node_at, take_first,
}
use raft_visualizer.Simulator.Results.{
  IfSome-mono, IfSome-both, IfSome-tt, IfSome, IfSome-elim, IfSome-found, IfSome-map,
}
use raft_visualizer.Simulator.Ghosts.{
  Comes, IsAllowed, Sends, Ghost, Admits, AdmitsAll, Taken, nobody, at_node, submit_first-Taken,
}
use raft_visualizer.Simulator.Held.{
  Boxes, IsHeld, Holds, node_at-Nodes, put-Boxes, take_first-Boxes, change-Nodes, Boxes-mono,
}

module _ (ghost : Ghost) where
  open ghost use {State, AtNode, InMessage, Allowed, move}

  put-IsHeld :
      (g : State) (msg : Message) (c : Cluster)
      → InMessage g msg
      → IsHeld ghost g c
      → IfSome (λ boxes. Boxes ghost g 0 boxes) (put msg.to msg c.inboxes)
  put-IsHeld g msg c m k = IfSome-found _ (put msg.to msg c.inboxes) (λ boxes found.
      put-Boxes ghost g 0 msg.to msg c.inboxes boxes found (omega arith) m k.inboxes_lem)

  route-IsHeld :
      (g : State) (now : ℕ) (msg : Message) (c : Cluster)
      → InMessage g msg
      → IsHeld ghost g c
      → IfSome (IsHeld ghost g) (route now msg c)
  unfolding route
  route-IsHeld g now msg c m k =
      if_of (IfSome (IsHeld ghost g)) (is_cut c.partitioned msg.from msg.to)
        (record { nodes_lem = k.nodes_lem; inboxes_lem = k.inboxes_lem })
        (IfSome-map (IsHeld ghost g) _ (put msg.to msg c.inboxes) (
          IfSome-mono _ _ (put msg.to msg c.inboxes)
            (λ boxes b. record { nodes_lem = k.nodes_lem; inboxes_lem = b })
            (put-IsHeld g msg c m k)))

  route_all-IsHeld :
      (g : State) (now : ℕ) (sent : Sent) (c : Cluster)
      → All (Sends (InMessage g)) sent
      → IsHeld ghost g c
      → IfSome (IsHeld ghost g) (route_all now sent c)
  unfolding route_all
  route_all-IsHeld g now [] c m k = k
  route_all-IsHeld g now (none ∷ sent) c m k = tt
  route_all-IsHeld g now (some msg ∷ sent) c m k =
      IfSome-elim (IsHeld ghost g) (IsHeld ghost g) (route now msg c) none (route_all now sent)
        (route-IsHeld g now msg c m.0 k) tt (λ d l. route_all-IsHeld g now sent d m.1 l)

  -- An event of the node at `i`, without the messages that it sends.
  event-IsHeld :
      (g : State) (e : Event) (i : ℕ) (n : Node) (ms : List Node) (c : Cluster)
      → node_at i c.nodes ≡ some n
      → change i (λ m. (handle e m).0) c.nodes ≡ some ms
      → IsAllowed Allowed e n
      → Comes (InMessage g) i e
      → IsHeld ghost g c
      → (h : State) × IsHeld ghost h (record c { nodes = ms })
        × All (Sends (InMessage h)) (handle e n).1
  event-IsHeld g e i n ms c found eq allowed comes k =
      let (at, a) = node_at-Nodes ghost g 0 i c.nodes n found k.nodes_lem in
      let id : n.id ≡ i = omega (arith, at) in
      let (h, after, sent, others, messages) =
        move g e n allowed (subst (λ j. Comes (InMessage g) j e) (sym id) comes) a in
      (
        h,
        record {
          nodes_lem = change-Nodes ghost g h e 0 i c.nodes ms n found eq after others k.nodes_lem;
          inboxes_lem = Boxes-mono ghost g h 0 c.inboxes messages k.inboxes_lem;
        },
        sent,
      )

  -- The same with its messages.
  sent-Holds :
      (g : State) (now : ℕ) (e : Event) (i : ℕ) (n : Node) (ms : List Node) (c : Cluster)
      → node_at i c.nodes ≡ some n
      → change i (λ m. (handle e m).0) c.nodes ≡ some ms
      → IsAllowed Allowed e n
      → Comes (InMessage g) i e
      → IsHeld ghost g c
      → IfSome (Holds ghost) (route_all now (handle e n).1 (record c { nodes = ms }))
  sent-Holds g now e i n ms c found eq allowed comes k =
      let (h, held, sent) = event-IsHeld g e i n ms c found eq allowed comes k in
      IfSome-mono (IsHeld ghost h) (Holds ghost) _ (λ d l. (h, l))
        (route_all-IsHeld h now (handle e n).1 _ sent held)

  node_step-Holds :
      (g : State) (now i : ℕ) (e : Event) (c : Cluster)
      → IfSome (IsAllowed Allowed e) (node_at i c.nodes)
      → Comes (InMessage g) i e
      → IsHeld ghost g c
      → IfSome (Holds ghost) (node_step now i e c)
  unfolding node_step
  node_step-Holds g now i e c allowed comes k =
      IfSome-elim (Holds ghost) (λ (n : Node). (node_at i c.nodes ≡ some n) × IsAllowed Allowed e n)
        (node_at i c.nodes) (some c) _
        (IfSome-found _ (node_at i c.nodes)
          (λ n found. (found, subst (IfSome (IsAllowed Allowed e)) found allowed)))
        (g, k)
        (λ n (found, ok).
          IfSome-elim (Holds ghost) (λ ms. change i (λ m. (handle e m).0) c.nodes ≡ some ms)
            (change i (λ m. (handle e m).0) c.nodes) (some c) _
            (IfSome-found _ (change i (λ m. (handle e m).0) c.nodes) (λ ms eq. eq)) (g, k)
            (λ ms eq. sent-Holds g now e i n ms c found eq ok comes k))

  -- A change by the simulator's call.
  call-Holds :
      (g : State) (e : Event) (i : ℕ) (c : Cluster)
      → ((n : Node) → IsAllowed Allowed e n)
      → Comes (InMessage g) i e
      → IsHeld ghost g c
      → IfSome
          (Holds ghost)
          (map_option (λ ns. record c { nodes = ns }) (change i (λ m. (handle e m).0) c.nodes))
  call-Holds g e i c allowed comes k =
      IfSome-map (Holds ghost) _ (change i (λ m. (handle e m).0) c.nodes) (
        IfSome-found _ (change i (λ m. (handle e m).0) c.nodes) (λ ms eq.
          elim (Option-cases (node_at i c.nodes)) [
            | inl missing ↦ absurd (changed_found i (λ m. (handle e m).0) c.nodes ms missing eq)
            | inr (n, found) ↦
                let (h, held, sent) = event-IsHeld g e i n ms c found eq (allowed n) comes k in
                (h, held)
          ]))
    where
      changed_found :
          (i : ℕ) (f : Node → Node) (ns ms : List Node)
          → node_at i ns ≡ none
          → change i f ns ≢ some ms
      changed_found i f [] ms m e = none-ne-some ms e
      changed_found zero f (n ∷ ns) ms m e = none-ne-some n (sym m)
      changed_found (suc i) f (n ∷ ns) ms m e =
          let (rest, found, same) = (map-eq-some_iff (n ∷◌) (change i f ns)).0 e in
          changed_found i f ns rest m found

  submit-Holds :
      (g : State) (now : ℕ) (cmd : String) (c : Cluster) (r : List Node × (Sent × Bool))
      → Taken cmd c.nodes r
      → IsHeld ghost g c
      → IfSome (Holds ghost) (route_all now r.1.0 (record c { nodes = r.0 }))
  unfolding route_all
  submit-Holds g now cmd c _ nobody k =
      (g, record { nodes_lem = k.nodes_lem; inboxes_lem = k.inboxes_lem })
  submit-Holds g now cmd c _ (at_node i n ms found eq) k =
      sent-Holds g now (submit_event cmd) i n ms c found eq tt tt k

  step-Holds :
      (g : State) (now : ℕ) (s : Step) (c : Cluster)
      → Admits Allowed s c
      → IsHeld ghost g c
      → IfSome (Holds ghost) (step now s c)
  unfolding step submit kill_node restart_node partition heal build_snapshot handle
  step-Holds g now (take_message i) c ok k =
      IfSome-elim (Holds ghost) _ (take_first i c.inboxes) (some c) _
        (IfSome-both _ _ (take_first i c.inboxes)
          (take_first-Boxes ghost g 0 i c.inboxes k.inboxes_lem) ok)
        (g, k)
        (λ r ((to, m, rest), allowed).
          node_step-Holds g now i (receive r.0) (record c { inboxes = r.1 }) allowed
            (omega (arith, to), m) (record { nodes_lem = k.nodes_lem; inboxes_lem = rest }))
  step-Holds g now (election_timeout i) c ok k =
      node_step-Holds g now i timeout c (IfSome-tt (node_at i c.nodes)) tt k
  step-Holds g now (beat i) c ok k =
      node_step-Holds g now i heartbeat c (IfSome-tt (node_at i c.nodes)) tt k
  step-Holds g now (notify i) c ok k =
      node_step-Holds g now i changed (record c { signalled = true })
        (IfSome-tt (node_at i c.nodes)) tt
        (record { nodes_lem = k.nodes_lem; inboxes_lem = k.inboxes_lem })
  step-Holds g now (submit_call cmd) c ok k = IfSome-map (Holds ghost) _ (map_option _ after) (
      IfSome-map (λ (r : Cluster × Bool). Holds ghost r.0) _ after
        (submit-Holds g now cmd c (submit_first cmd c.nodes) (submit_first-Taken cmd c.nodes) k))
    where
      after : Option Cluster
      after =
          route_all now (submit_first cmd c.nodes).1.0
            (record c { nodes = (submit_first cmd c.nodes).0 })
  step-Holds g now (kill_call id) c ok k = call-Holds g crash id c (λ n. tt) tt k
  step-Holds g now (restart_call id) c ok k = call-Holds g revive id c (λ n. tt) tt k
  step-Holds g now (partition_call group_a group_b) c ok k =
      (g, record { nodes_lem = k.nodes_lem; inboxes_lem = k.inboxes_lem })
  step-Holds g now heal_call c ok k =
      (g, record { nodes_lem = k.nodes_lem; inboxes_lem = k.inboxes_lem })
  step-Holds g now emit c ok k =
      (g, record { nodes_lem = k.nodes_lem; inboxes_lem = k.inboxes_lem })

  pub steps-Holds :
      (ss : List (ℕ × Step)) (c : Cluster)
      → AdmitsAll Allowed ss c
      → Holds ghost c
      → IfSome (Holds ghost) (steps ss c)
  unfolding steps
  steps-Holds [] c ok k = k
  steps-Holds ((now, s) ∷ later) c ok (g, k) =
      IfSome-elim (Holds ghost) _ (step now s c) none (steps later)
        (IfSome-both _ _ (step now s c) (step-Holds g now s c ok.0 k) ok.1) tt
        (λ d (l, rest). steps-Holds later d rest l)
