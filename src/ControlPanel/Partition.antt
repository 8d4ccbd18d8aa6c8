-- ===== src/ControlPanel/Partition.antt =====
-- The partition that the bar sends.
use raft_visualizer.Prelude.{
  ℕ, ◌≡◌, refl, sym, subst, false, not, ◌&&◌, ◌||◌, List, [], ◌∷◌, arith, includes, nat_eq,
}
use raft_visualizer.Store.{Store}
use raft_visualizer.Fault.{Fault}
use raft_visualizer.Groups.{alive_ids, group_b, partition_fault}
use raft_visualizer.Groups.Split.{includes-group_b}
use raft_visualizer.ControlPanel.{Panel, send_partition}

-- The two groups are disjoint, and a live node is in one of them.
abbrev pub Splits : Store → List (List ℕ) → Type 0
Splits s groups =
    (a : List ℕ) × (b : List ℕ) × (groups ≡ a ∷ b ∷ [])
    × ((id : ℕ)
        → ((includes a id && includes b id) ≡ false)
          × ((includes (alive_ids s) id && not (includes a id || includes b id)) ≡ false))

partition_fault-Splits : (s : Store) → Splits s (partition_fault s).partition_groups
partition_fault-Splits s = (
  s.partition_group_a,
  group_b s,
  refl,
  λ id. (ground (arith, includes-group_b s id), ground (arith, includes-group_b s id)),
)

sent_fault : (p : Panel) (f : Fault) → (send_partition p).1 ≡ f ∷ [] → f ≡ partition_fault p.store
unfolding send_partition
sent_fault p f e = ground (arith, e)

-- Whatever partition the bar sends, its command names two groups; no node is in both, and every
-- live node is in one of them.
pub send_partition-Splits :
    (p : Panel) (f : Fault) → (send_partition p).1 ≡ f ∷ [] → Splits p.store f.partition_groups
send_partition-Splits p f e =
    subst (λ g. Splits p.store g.partition_groups) (sym (sent_fault p f e))
      (partition_fault-Splits p.store)
