-- ===== src/Groups/Split.antt =====
-- Group A and Group B split the live nodes.
use raft_visualizer.Prelude.{
  ℕ, suc, ◌+◌, ◌≤◌, ◌<◌, ◌≡◌, refl, ◌≢◌, ◌↔◌, ap, true, not, ◌&&◌, List, [], ◌∷◌, map, nat_eq,
  arith, includes, length, IsDistinct, IsSubset, includes-filter, length-filter-not,
  length-filter-includes, length-IsSubset, filter, filter-IsDistinct, Bool-cases, inl, inr, false,
  ◌∙◌,
}
use raft_visualizer.Cluster.{Node}
use raft_visualizer.Store.{Store}
use raft_visualizer.Groups.{alive_nodes, alive_ids, group_b, can_confirm_group_a}

-- A node is in Group B exactly if it is live and not in Group A.
pub includes-group_b :
    (s : Store) (id : ℕ)
    → includes (group_b s) id ≡ (includes (alive_ids s) id && not (includes s.partition_group_a id))
unfolding group_b
includes-group_b s id = includes-filter (λ i. not (includes s.partition_group_a i)) (alive_ids s) id

length-map : (ns : List Node) → length (map (λ (n : Node). n.id) ns) ≡ length ns
length-map [] = refl
length-map (n ∷ ns) = ap suc (length-map ns)

-- The sizes add up where Group A holds live nodes only.
length-group_b :
    (s : Store)
    → IsDistinct (alive_ids s)
    → IsDistinct s.partition_group_a
    → IsSubset s.partition_group_a (alive_ids s)
    → length s.partition_group_a + length (group_b s) ≡ length (alive_nodes s)
unfolding group_b
length-group_b s di da sub = omega (
  arith,
  length-map (alive_nodes s),
  length-filter-not (includes s.partition_group_a) (alive_ids s),
  length-filter-includes s.partition_group_a (alive_ids s) da di sub,
)

nonempty_iff : (xs : List ℕ) → (0 < length xs) ↔ (xs ≢ [])
nonempty_iff [] = ((λ h. absurd (omega arith)), (λ h. absurd (h refl)))
nonempty_iff (x ∷ xs) = ((λ _. λ e. cc), (λ _. omega arith))

can_confirm_lem :
    (s : Store)
    → (can_confirm_group_a s ≡ true)
      ↔ ((0 < length s.partition_group_a) × (length s.partition_group_a < length (alive_nodes s)))
unfolding can_confirm_group_a
can_confirm_lem s = ground arith

-- While Group A names live nodes only, each once, and no two live nodes share an id, Group A can
-- be confirmed exactly if both groups have a node.
pub can_confirm_group_a_iff :
    (s : Store)
    → IsDistinct (alive_ids s)
    → IsDistinct s.partition_group_a
    → IsSubset s.partition_group_a (alive_ids s)
    → (can_confirm_group_a s ≡ true) ↔ ((s.partition_group_a ≢ []) × (group_b s ≢ []))
can_confirm_group_a_iff s di da sub = (
  (λ h.
      let (some_a, some_b) = (can_confirm_lem s).0 h in
      (
        (nonempty_iff s.partition_group_a).0 some_a,
        (nonempty_iff (group_b s)).0 (omega (arith, length-group_b s di da sub, some_b)),
      )),
  (λ h. (can_confirm_lem s).1 (
    (nonempty_iff s.partition_group_a).1 h.0,
    omega (arith, length-group_b s di da sub, (nonempty_iff (group_b s)).1 h.1),
  )),
)

-- The nodes of Group A that are live, and those that are not: a node that dies after it was chosen
-- stays in Group A.
abbrev pub live_members : Store → List ℕ
live_members s = filter (includes (alive_ids s)) s.partition_group_a

abbrev pub dead_members : Store → List ℕ
dead_members s = filter (λ id. not (includes (alive_ids s) id)) s.partition_group_a

-- The live nodes are those of Group B and the live ones of Group A.
length-live_members :
    (s : Store)
    → IsDistinct (alive_ids s)
    → IsDistinct s.partition_group_a
    → length (live_members s) + length (group_b s) ≡ length (alive_nodes s)
unfolding group_b
length-live_members s di da = omega (
  arith,
  length-map (alive_nodes s),
  length-filter-not (includes s.partition_group_a) (alive_ids s),
  length-IsSubset (live_members s) chosen (filter-IsDistinct (includes (alive_ids s)) _ da) (λ a h.
      includes-filter (includes s.partition_group_a) (alive_ids s) a
      ∙ ground (arith, h, includes-filter (includes (alive_ids s)) s.partition_group_a a)),
  length-IsSubset chosen (live_members s)
      (filter-IsDistinct (includes s.partition_group_a) (alive_ids s) di)
      (λ a h.
        includes-filter (includes (alive_ids s)) s.partition_group_a a
        ∙ ground (arith, h, includes-filter (includes s.partition_group_a) (alive_ids s) a)),
)
  where
    chosen : List ℕ
    chosen = filter (includes s.partition_group_a) (alive_ids s)

-- The test is wrong where nodes of Group A have died: let no two live nodes share an id, Group A name
-- no node twice and have a live node, and Group B have a node, but no more nodes than Group A has dead
-- ones. Then Group A cannot be confirmed, and without its dead nodes it could.
pub can_confirm_group_a_stale :
    (s : Store)
    → IsDistinct (alive_ids s)
    → IsDistinct s.partition_group_a
    → live_members s ≢ []
    → group_b s ≢ []
    → length (group_b s) ≤ length (dead_members s)
    → (can_confirm_group_a s ≡ false)
      × (can_confirm_group_a (record s { partition_group_a = live_members s }) ≡ true)
can_confirm_group_a_stale s di da some_a some_b many =
    let live = length-live_members s di da in
    let parts = length-filter-not (includes (alive_ids s)) s.partition_group_a in
    (
      elim (Bool-cases (can_confirm_group_a s)) [
        | inr refused ↦ refused
        | inl passed ↦ absurd (omega (arith, live, parts, many, ((can_confirm_lem s).0 passed).1))
      ],
      (can_confirm_lem (record s { partition_group_a = live_members s })).1 (
        (nonempty_iff (live_members s)).1 some_a,
        omega (arith, live, (nonempty_iff (group_b s)).1 some_b),
      ),
    )
