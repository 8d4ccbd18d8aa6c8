-- ===== src/Simulator/Totality.antt =====
-- The cluster's steps do not panic.
use raft_visualizer.Prelude.{
  ℕ, zero, suc, ◌<◌, ◌≡◌, ◌≢◌, refl, ap, ◌∙◌, Bool, true, not, Option, none, some, List, [], ◌∷◌,
  map, arith, ◌==◌, nat_eq, if_of, length, All, String,
}
use mathlib.Core.Option.{map as map_option}
use raft_visualizer.Raft.{Node, Message, Sent, new_node, submit_command, kill, restart}
use raft_visualizer.Raft.Ids.{handle-SameSite}
use raft_visualizer.Raft.Routing.{same-IsPlaced, Fits, Arrives, handle-Fits}
use raft_visualizer.Raft.Sound.{IsSound, handle-IsGood}
use raft_visualizer.Raft.Events.{
  Event, receive, timeout, heartbeat, changed, submit as submit_event, crash, revive, handle,
}
use raft_visualizer.Simulator.{
  Cluster, new_cluster, range, peers_of, route_all, submit, submit_first, change, kill_node,
  restart_node, partition, heal, build_snapshot,
}
use raft_visualizer.Simulator.Steps.{
  Step, take_message, election_timeout, heartbeat_tick as beat, notify, submit_call, kill_call,
  restart_call, partition_call, heal_call, emit, step, steps, node_step, node_at, take_first,
}
use raft_visualizer.Simulator.Results.{
  IfSome, IfSome-elim, Succeeds, Succeeds-map, Succeeds-elim, default-elim, not_none,
}
use raft_visualizer.Simulator.Ranges.{range-All, filter-All, length-range, length-map}
use raft_visualizer.Simulator.Delivery.{IsFit, AreFrom, IsSafe, route_all-Succeeds}

change-Succeeds :
    (k i : ℕ) (f : Node → Node) (ns : List Node)
    → ((n : Node) → IsFit k n → IsFit k (f n))
    → i < length ns
    → All (IsFit k) ns
    → Succeeds (λ ms. (length ms ≡ length ns) × All (IsFit k) ms) (change i f ns)
change-Succeeds k i f [] keeps h a = absurd (omega (arith, h))
change-Succeeds k zero f (n ∷ ns) keeps h a = (refl, (keeps n a.0, a.1))
change-Succeeds k (suc i) f (n ∷ ns) keeps h a =
    Succeeds-map (λ ms. (length ms ≡ suc (length ns)) × All (IsFit k) ms)
      (λ ms. (length ms ≡ length ns) × All (IsFit k) ms) (n ∷◌) (change i f ns)
      (change-Succeeds k i f ns keeps (omega (arith, h)) a.1) (λ ms r. (ap suc r.0, (a.0, r.1)))

node_at-IsFit :
    (k i : ℕ) (ns : List Node)
    → All (IsFit k) ns
    → IfSome (λ n. IsFit k n × (i < length ns)) (node_at i ns)
node_at-IsFit k i [] a = tt
node_at-IsFit k zero (n ∷ ns) a = (a.0, omega arith)
node_at-IsFit k (suc i) (n ∷ ns) a =
    IfSome-mono (node_at i ns) (λ m r. (r.0, omega (arith, r.1))) (node_at-IsFit k i ns a.1)
  where
    IfSome-mono :
        (o : Option Node)
        → ((m : Node) → IsFit k m × (i < length ns) → IsFit k m × (suc i < suc (length ns)))
        → IfSome (λ m. IsFit k m × (i < length ns)) o
        → IfSome (λ m. IsFit k m × (suc i < suc (length ns))) o
    IfSome-mono none f h = tt
    IfSome-mono (some m) f h = f m h

-- Other nodes, as many and as fit.
nodes-IsSafe :
    (k : ℕ) (ms : List Node) (c : Cluster)
    → (length ms ≡ length c.nodes) × All (IsFit k) ms
    → IsSafe k c
    → IsSafe k (record c { nodes = ms })
nodes-IsSafe k ms c h s = record {
  nodes_count = h.0 ∙ s.nodes_count;
  nodes_lem = h.1;
  inboxes_count = s.inboxes_count;
  inboxes_lem = s.inboxes_lem;
}

handle-IsFit : (k : ℕ) (e : Event) (n : Node) → IsFit k n → IsFit k (handle e n).0
handle-IsFit k e n (p, r) =
    (same-IsPlaced k n (handle e n).0 (handle-SameSite e n) p, (handle-IsGood e n r).ready)

node_step-Succeeds :
    (k now i : ℕ) (e : Event) (c : Cluster)
    → Arrives k e
    → IsSafe k c
    → Succeeds (IsSafe k) (node_step now i e c)
unfolding node_step
node_step-Succeeds k now i e c f s =
    default-elim (IsSafe k) (λ n. IsFit k n × (i < length c.nodes)) (node_at i c.nodes) (some c) _
      (node_at-IsFit k i c.nodes s.nodes_lem) s
      (λ n h.
        Succeeds-elim (IsSafe k) (λ ms. (length ms ≡ length c.nodes) × All (IsFit k) ms)
          (change i (λ m. (handle e m).0) c.nodes) (some c) _
          (change-Succeeds k i (λ m. (handle e m).0) c.nodes (handle-IsFit k e) h.1 s.nodes_lem)
          (λ ms r.
            route_all-Succeeds k now (handle e n).1 _ (handle-Fits k e n f h.0.0)
              (handle-IsGood e n h.0.1).sound (nodes-IsSafe k ms c r s)))

change_call-Succeeds :
    (k i : ℕ) (f : Node → Node) (c : Cluster)
    → ((n : Node) → IsFit k n → IsFit k (f n))
    → i < k
    → IsSafe k c
    → Succeeds (IsSafe k) (map_option (λ ns. record c { nodes = ns }) (change i f c.nodes))
change_call-Succeeds k i f c keeps h s =
    Succeeds-map (IsSafe k) (λ ms. (length ms ≡ length c.nodes) × All (IsFit k) ms) _
      (change i f c.nodes)
      (change-Succeeds k i f c.nodes keeps (omega (arith, h, s.nodes_count)) s.nodes_lem)
      (λ ms r. nodes-IsSafe k ms c r s)

-- What the scan of the nodes for a leader may leave and send.
abbrev Scanned : ℕ → ℕ → List Node × (Sent × Bool) → Type 0
Scanned k l (ms, (sent, taken)) =
    ((length ms ≡ l) × All (IsFit k) ms) × (All (Fits k) sent × IsSound sent)

submit_first-Scanned :
    (k : ℕ) (cmd : String) (ns : List Node)
    → All (IsFit k) ns
    → Scanned k (length ns) (submit_first cmd ns)
unfolding handle
submit_first-Scanned k cmd [] a = ((refl, tt), (tt, tt))
submit_first-Scanned k cmd (n ∷ ns) a =
    let e : Event = submit_event cmd in
    let (rest, sends) = submit_first-Scanned k cmd ns a.1 in
    if_of (Scanned k (suc (length ns))) (submit_command cmd n).1
      (
        (refl, (handle-IsFit k e n a.0, a.1)),
        (handle-Fits k e n tt a.0.0, (handle-IsGood e n a.0.1).sound),
      )
      ((ap suc rest.0, (a.0, rest.1)), sends)

submit-Succeeds :
    (k now : ℕ) (cmd : String) (c : Cluster)
    → IsSafe k c
    → Succeeds (λ (r : Cluster × Bool). IsSafe k r.0) (submit now cmd c)
unfolding submit
submit-Succeeds k now cmd c s =
    let (left, sends) = submit_first-Scanned k cmd c.nodes s.nodes_lem in
    Succeeds-map (λ (r : Cluster × Bool). IsSafe k r.0) (IsSafe k) _
      (route_all now (submit_first cmd c.nodes).1.0
        (record c { nodes = (submit_first cmd c.nodes).0 }))
      (route_all-Succeeds k now _ _ sends.0 sends.1 (nodes-IsSafe k _ c left s)) (λ d h. h)

take_first-AreFrom :
    (k i : ℕ) (bs : List (List Message))
    → AreFrom k bs
    → IfSome
        (λ (r : Message × List (List Message)).
          (r.0.from < k) × ((length r.1 ≡ length bs) × AreFrom k r.1))
        (take_first i bs)
take_first-AreFrom k i [] a = tt
take_first-AreFrom k zero ([] ∷ bs) a = tt
take_first-AreFrom k zero ((msg ∷ b) ∷ bs) a = (a.0.0, (refl, (a.0.1, a.1)))
take_first-AreFrom k (suc i) (b ∷ bs) a =
    IfSome-elim
      (λ (r : Message × List (List Message)).
        (r.0.from < k) × ((length r.1 ≡ suc (length bs)) × AreFrom k r.1))
      (λ (r : Message × List (List Message)).
        (r.0.from < k) × ((length r.1 ≡ length bs) × AreFrom k r.1))
      (take_first i bs) none _ (take_first-AreFrom k i bs a.1) tt
      (λ r h. (h.0, (ap suc h.1.0, (a.0, h.1.1))))

-- A call names a node that there is.
abbrev pub IsAddressed : ℕ → Step → Type 0
IsAddressed k (kill_call id) = id < k
IsAddressed k (restart_call id) = id < k
IsAddressed k _ = Unit

pub step-Succeeds :
    (k now : ℕ) (s : Step) (c : Cluster)
    → IsAddressed k s
    → IsSafe k c
    → Succeeds (IsSafe k) (step now s c)
unfolding step kill_node restart_node partition heal build_snapshot handle
step-Succeeds k now (take_message i) c a h =
    default-elim (IsSafe k)
      (λ (r : Message × List (List Message)).
        (r.0.from < k) × ((length r.1 ≡ length c.inboxes) × AreFrom k r.1))
      (take_first i c.inboxes) (some c) _ (take_first-AreFrom k i c.inboxes h.inboxes_lem) h
      (λ r t.
        node_step-Succeeds k now i (receive r.0) (record c { inboxes = r.1 }) t.0
          (record {
            nodes_count = h.nodes_count;
            nodes_lem = h.nodes_lem;
            inboxes_count = t.1.0 ∙ h.inboxes_count;
            inboxes_lem = t.1.1;
          }))
step-Succeeds k now (election_timeout i) c a h = node_step-Succeeds k now i timeout c tt h
step-Succeeds k now (beat i) c a h = node_step-Succeeds k now i heartbeat c tt h
step-Succeeds k now (notify i) c a h =
    node_step-Succeeds k now i changed (record c { signalled = true }) tt
      (record {
        nodes_count = h.nodes_count;
        nodes_lem = h.nodes_lem;
        inboxes_count = h.inboxes_count;
        inboxes_lem = h.inboxes_lem;
      })
step-Succeeds k now (submit_call cmd) c a h =
    Succeeds-map (IsSafe k) (λ (r : Cluster × Bool). IsSafe k r.0) _ (submit now cmd c)
      (submit-Succeeds k now cmd c h) (λ r t. t)
step-Succeeds k now (kill_call id) c a h =
    change_call-Succeeds k id kill c (handle-IsFit k crash) a h
step-Succeeds k now (restart_call id) c a h =
    change_call-Succeeds k id restart c (handle-IsFit k revive) a h
step-Succeeds k now (partition_call group_a group_b) c a h = record {
  nodes_count = h.nodes_count;
  nodes_lem = h.nodes_lem;
  inboxes_count = h.inboxes_count;
  inboxes_lem = h.inboxes_lem;
}
step-Succeeds k now heal_call c a h = record {
  nodes_count = h.nodes_count;
  nodes_lem = h.nodes_lem;
  inboxes_count = h.inboxes_count;
  inboxes_lem = h.inboxes_lem;
}
step-Succeeds k now emit c a h = record {
  nodes_count = h.nodes_count;
  nodes_lem = h.nodes_lem;
  inboxes_count = h.inboxes_count;
  inboxes_lem = h.inboxes_lem;
}

steps-Succeed :
    (k : ℕ) (ss : List (ℕ × Step)) (c : Cluster)
    → All (λ (s : ℕ × Step). IsAddressed k s.1) ss
    → IsSafe k c
    → Succeeds (IsSafe k) (steps ss c)
unfolding steps
steps-Succeed k [] c a h = h
steps-Succeed k ((now, s) ∷ later) c a h =
    Succeeds-elim (IsSafe k) (IsSafe k) (step now s c) none (steps later)
      (step-Succeeds k now s c a.0 h) (λ d t. steps-Succeed k later d a.1 t)

new_nodes-IsFit :
    (k : ℕ) (is : List ℕ)
    → All (λ i. i < k) is
    → All (IsFit k) (map (λ i. new_node i (peers_of k i)) is)
unfolding new_node
new_nodes-IsFit k [] h = tt
new_nodes-IsFit k (i ∷ is) h =
    let peers = filter-All (λ j. not (j == i)) k (range k) (range-All k k (omega arith)) in
    ((record { id = h.0; peers = peers }, record { next = λ e. cc }), new_nodes-IsFit k is h.1)

empty-AreFrom : (k : ℕ) (is : List ℕ) → AreFrom k (map (λ i. []) is)
empty-AreFrom k [] = tt
empty-AreFrom k (i ∷ is) = (tt, empty-AreFrom k is)

pub new_cluster-IsSafe : (k : ℕ) → IsSafe k (new_cluster k)
unfolding new_cluster
new_cluster-IsSafe k = record {
  nodes_count = length-map (λ i. new_node i (peers_of k i)) (range k) ∙ length-range k;
  nodes_lem = new_nodes-IsFit k (range k) (range-All k k (omega arith));
  inboxes_count = length-map (λ i. []) (range k) ∙ length-range k;
  inboxes_lem = empty-AreFrom k (range k);
}

-- A cluster in which every `Run` has begun does not panic: whatever its nodes, its timers and its callers do, in any order, as long
-- as each kill and restart names one of its nodes, every step of the run has a result.
pub steps-new_cluster :
    (k : ℕ) (ss : List (ℕ × Step))
    → All (λ (s : ℕ × Step). IsAddressed k s.1) ss
    → steps ss (new_cluster k) ≢ none
steps-new_cluster k ss a =
    not_none (IsSafe k) (steps ss (new_cluster k))
      (steps-Succeed k ss (new_cluster k) a (new_cluster-IsSafe k))
