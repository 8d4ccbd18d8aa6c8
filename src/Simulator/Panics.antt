-- ===== src/Simulator/Panics.antt =====
-- The commands of a browser that make the program panic.
use raft_visualizer.Prelude.{
  ℕ, zero, suc, ◌≡◌, refl, ◌∙◌, Bool, true, false, Option, none, some, List, [], ◌∷◌, arith, leb,
  string_eq, length,
}
use mathlib.Core.Option.{map as map_option}
use raft_visualizer.Raft.{Node}
use raft_visualizer.Simulator.{Cluster, change}

-- There is no result.
abbrev pub panics : {A : Type 0} → Option A → Bool
panics none = true
panics (some x) = false

pub panics-map : {A B : Type 0} (f : A → B) (o : Option A) → panics (map_option f o) ≡ panics o
panics-map f none = refl
panics-map f (some x) = refl

abbrev nodes_after : Option (List Node) → ℕ → ℕ
nodes_after none k = k
nodes_after (some ms) k = length ms

-- A change of `nodes[id]`.
abbrev call : (Node → Node) → ℕ → Cluster → Option Cluster
call f id c = map_option (λ ns. record c { nodes = ns }) (change id f c.nodes)

pub panics-change :
    (i : ℕ) (f : Node → Node) (ns : List Node) → panics (change i f ns) ≡ leb (length ns) i
panics-change i f [] = ground arith
panics-change zero f (n ∷ ns) = ground arith
panics-change (suc i) f (n ∷ ns) =
    panics-map (n ∷◌) (change i f ns) ∙ panics-change i f ns ∙ ground arith
