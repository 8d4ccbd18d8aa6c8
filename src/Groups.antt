-- ===== src/Groups.antt =====
-- The two groups of a partition as `ControlPanel.jsx` and `MobileFab.jsx` compute them (both in
-- frontend/src/components, in the same words).
pub mod Split
use raft_visualizer.Prelude.{
  ℕ, Bool, true, false, not, ◌&&◌, some, List, [], ◌∷◌, map, ltb, nat_eq, includes, filter, length,
}
use raft_visualizer.Cluster.{Node}
use raft_visualizer.Store.{Store, cancel_action, set_active_partition_groups}
use raft_visualizer.Fault.{Fault, FaultAction, fault}

abbrev pub alive_nodes : Store → List Node
alive_nodes s = filter (λ n. n.alive) s.nodes

abbrev pub alive_ids : Store → List ℕ
alive_ids s = map (λ n. n.id) (alive_nodes s)

unfoldable pub group_b : Store → List ℕ
group_b s = filter (λ id. not (includes s.partition_group_a id)) (alive_ids s)

unfoldable pub can_confirm_group_a : Store → Bool
can_confirm_group_a s =
    ltb 0 (length s.partition_group_a) && ltb (length s.partition_group_a) (length (alive_nodes s))

abbrev pub is_empty {ℓ} : {A : Type ℓ} → List A → Bool
is_empty [] = true
is_empty (x ∷ xs) = false

-- The command of a confirmed partition.
abbrev pub partition_fault : Store → Fault
partition_fault s = fault FaultAction.partition [] (s.partition_group_a ∷ group_b s ∷ []) []

-- The store after it, before the mode ends.
unfoldable pub remember_groups : Store → Store
remember_groups s =
    set_active_partition_groups (some (some s.partition_group_a ∷ some (group_b s) ∷ [])) s
