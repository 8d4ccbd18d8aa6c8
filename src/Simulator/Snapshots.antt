-- ===== src/Simulator/Snapshots.antt =====
-- What the cluster shows to the browser.
use raft_visualizer.Prelude.{
  ℕ, ◌≤◌, ◌≡◌, refl, sym, subst, ap, ◌∙◌, some, List, [], ◌∷◌, map, arith, nat_eq, length, All,
  String, IsDistinct,
}
use raft_visualizer.Cluster.{RawNode}
use raft_visualizer.Store.{Store}
use raft_visualizer.Store.Update.{apply_state_update, raw_nodes, raw_in_flight}
use raft_visualizer.Store.Update.Idempotent.{apply_state_update_idem}
use raft_visualizer.Raft.{Node, Message, new_node}
use raft_visualizer.Simulator.{
  Cluster, new_cluster, range, peers_of, snapshot, build_snapshot, shown_message, prune,
}
use raft_visualizer.Simulator.Steps.{Step, steps}
use raft_visualizer.Simulator.Results.{IfSome}
use raft_visualizer.Simulator.Ranges.{range-IsDistinct, length-map}
use raft_visualizer.Simulator.Bounds.{IsBounded, steps-IsBounded, prune-le}

ids-new :
    (n : ℕ) (is : List ℕ) → map (λ (m : Node). m.id) (map (λ i. new_node i (peers_of n i)) is) ≡ is
unfolding new_node
ids-new n [] = refl
ids-new n (i ∷ is) = ap (i ∷◌) (ids-new n is)

empty-bounds : (is : List ℕ) → All (λ (b : List Message). length b ≤ 128) (map (λ i. []) is)
empty-bounds [] = tt
empty-bounds (i ∷ is) = (omega arith, empty-bounds is)

new_cluster-IsBounded : (n : ℕ) → IsBounded (range n) (new_cluster n)
unfolding new_cluster
new_cluster-IsBounded n = record {
  ids_lem = ids-new n (range n);
  inboxes_bounds = empty-bounds (range n);
  in_flight_bounds = omega arith;
}

reached-IsBounded :
    (n : ℕ) (ss : List (ℕ × Step)) (c : Cluster)
    → steps ss (new_cluster n) ≡ some c
    → IsBounded (range n) c
reached-IsBounded n ss c h =
    subst (IfSome (IsBounded (range n))) h
      (steps-IsBounded (range n) ss (new_cluster n) (new_cluster-IsBounded n))

ids-snapshot :
    (ns : List Node) → map (λ (r : RawNode). r.id) (map snapshot ns) ≡ map (λ (m : Node). m.id) ns
unfolding snapshot
ids-snapshot [] = refl
ids-snapshot (n ∷ ns) = ap (n.id ∷◌) (ids-snapshot ns)

snapshot_ids :
    (n now : ℕ) (c : Cluster)
    → IsBounded (range n) c
    → map (λ (r : RawNode). r.id) (raw_nodes (some (build_snapshot now c).1)) ≡ range n
unfolding build_snapshot
snapshot_ids n now c h = ids-snapshot c.nodes ∙ h.ids_lem

-- Whatever happens to a new cluster of `n` nodes, unless the program panics, no inbox holds more
-- than 128 messages, and every snapshot shows the nodes 0 to n - 1 in order and 256 messages at most.
pub bounds-build_snapshot :
    (n now : ℕ) (ss : List (ℕ × Step)) (c : Cluster)
    → steps ss (new_cluster n) ≡ some c
    → let p = some (build_snapshot now c).1 in
      All (λ (b : List Message). length b ≤ 128) c.inboxes
      × ((map (λ (r : RawNode). r.id) (raw_nodes p) ≡ range n) × (length (raw_in_flight p) ≤ 256))
unfolding build_snapshot
bounds-build_snapshot n now ss c h =
    let b = reached-IsBounded n ss c h in
    (
      b.inboxes_bounds,
      (
        snapshot_ids n now c b,
        subst (λ k. k ≤ 256) (sym (length-map shown_message (prune now c.in_flight)))
            (prune-le now c.in_flight),
      ),
    )

-- A browser that hears the same snapshot of the cluster twice keeps after the second time just what
-- it had after the first, whatever its store was: no line of the event log is told twice.
pub snapshot-apply_state_update_idem :
    (n now : ℕ) (ss : List (ℕ × Step)) (c : Cluster) (t1 t2 t3 t4 : String) (s : Store)
    → steps ss (new_cluster n) ≡ some c
    → let payload = some (build_snapshot now c).1 in
      apply_state_update t3 t4 payload (apply_state_update t1 t2 payload s)
      ≡ apply_state_update t1 t2 payload s
snapshot-apply_state_update_idem n now ss c t1 t2 t3 t4 s h =
    apply_state_update_idem t1 t2 t3 t4 (some (build_snapshot now c).1) s (
      subst IsDistinct (sym (snapshot_ids n now c (reached-IsBounded n ss c h)))
        (range-IsDistinct n))
