-- ===== src/Simulator/Submit.antt =====
-- Who takes a command.
use raft_visualizer.Prelude.{
  ℕ, zero, suc, ◌+◌, ◌≡◌, refl, sym, ap, ◌∙◌, inl, inr, Bool, true, false, arith, filter, ◌&&◌,
  ◌||◌, some, List, [], ◌∷◌, ◌++◌, String, if◌then◌else◌, any, Bool-cases, length,
}
use mathlib.Core.Option.{none-ne-some, some-injective, map-eq-some_iff}
use raft_visualizer.Raft.{Node, is_leader, submit_command, kill}
use raft_visualizer.Simulator.{Cluster, submit_first, change, kill_node}

-- The node has the role of a leader.
abbrev pub leads : Node → Bool
leads n = is_leader n.role

-- The entry goes to the log of the first node with the role, alive or not.
abbrev pub append_at_first : String → List Node → List Node
append_at_first cmd [] = []
append_at_first cmd (n ∷ ns) =
    if leads n
    then record n {
      log = n.log ++ record { index = length n.log + 1; term = n.current_term; command = cmd } ∷ [];
      dirty = true;
    }
      ∷ ns
    else n ∷ append_at_first cmd ns

-- A cluster takes a command exactly if some node has the role of a leader, alive or not, and then
-- appends it to the log of the first such node alone.
pub submit_first-any :
    (cmd : String) (ns : List Node)
    → ((submit_first cmd ns).1.1 ≡ any leads ns)
      × ((submit_first cmd ns).0 ≡ append_at_first cmd ns)
unfolding submit_command
submit_first-any cmd [] = (refl, refl)
submit_first-any cmd (n ∷ ns) =
    let (taken, logs) = submit_first-any cmd ns in
    elim (Bool-cases (is_leader n.role)) [
      | inl l ↦ rw (l, if◌then◌else◌) (refl, refl)
      | inr l ↦ rw (l, if◌then◌else◌) (taken, ap (n ∷◌) logs)
    ]

any-kill : (i : ℕ) (ns ms : List Node) → change i kill ns ≡ some ms → any leads ms ≡ any leads ns
unfolding kill
any-kill i [] ms h = absurd (none-ne-some ms h)
any-kill zero (n ∷ ns) ms h = ap (any leads) (sym (some-injective _ _ h))
any-kill (suc i) (n ∷ ns) ms h =
    let (rest, found, eq) = (map-eq-some_iff (n ∷◌) (change i kill ns)).0 h in
    ap (any leads) (sym eq) ∙ ap (leads n ||◌) (any-kill i ns rest found)

-- The node is alive and leads.
abbrev pub leads_alive : Node → Bool
leads_alive n = n.alive && leads n

-- The live nodes.
abbrev pub live : List Node → List Node
live ns = filter (λ n. n.alive) ns

live-append_at_first :
    (cmd : String) (ns : List Node)
    → any leads_alive ns ≡ false
    → live (append_at_first cmd ns) ≡ live ns
live-append_at_first cmd [] h = refl
live-append_at_first cmd (n ∷ ns) h = elim (Bool-cases (leads n)) [
  | inl l ↦
      let dead : n.alive ≡ false = ground (arith, h, l) in
      rw (l, if◌then◌else◌, dead, if◌then◌else◌) refl
  | inr l ↦
      let rest : any leads_alive ns ≡ false = ground (arith, h) in
      rw (l, if◌then◌else◌)
        (ap (λ ms. if n.alive then n ∷ ms else ms) (live-append_at_first cmd ns rest))
]

-- Where a node leads and is killed, and no live node leads then, the cluster takes a command all the
-- same: it says `true`, the first node with the role of a leader, which is dead, appends the entry,
-- and the live nodes are as they were.
pub taken-kill_node :
    (id : ℕ) (cmd : String) (c d : Cluster)
    → kill_node id c ≡ some d
    → any leads c.nodes ≡ true
    → any leads_alive d.nodes ≡ false
    → ((submit_first cmd d.nodes).1.1 ≡ true)
      × ((submit_first cmd d.nodes).0 ≡ append_at_first cmd d.nodes)
      × (live (submit_first cmd d.nodes).0 ≡ live d.nodes)
unfolding kill_node
taken-kill_node id cmd c d h led gone =
    let (ms, found, eq) =
      (map-eq-some_iff (λ ns. record c { nodes = ns }) (change id kill c.nodes)).0 h in
    let (taken, logs) = submit_first-any cmd d.nodes in
    (
      taken ∙ ap (λ (e : Cluster). any leads e.nodes) (sym eq) ∙ any-kill id c.nodes ms found ∙ led,
      logs,
      ap live logs ∙ live-append_at_first cmd d.nodes gone,
    )
