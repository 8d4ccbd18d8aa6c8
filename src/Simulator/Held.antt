-- ===== src/Simulator/Held.antt =====
-- The invariants of Ghosts along the steps of a cluster.
use raft_visualizer.Prelude.{
  ℕ, zero, suc, ◌+◌, ◌<◌, ◌≡◌, ◌≢◌, sym, subst, ap, ◌∙◌, none, some, List, [], ◌∷◌, arith, ltb,
  nat_eq, if_of, length, All, All-append, All-map_mono,
}
use mathlib.Core.Option.{none-ne-some, some-injective, map-eq-some_iff}
use raft_visualizer.Raft.{Node, Message}
use raft_visualizer.Raft.Ids.{handle-SameSite}
use raft_visualizer.Raft.Events.{Event, handle}
use raft_visualizer.Simulator.{Cluster, change, put}
use raft_visualizer.Simulator.Steps.{node_at, take_first}
use raft_visualizer.Simulator.Results.{IfSome, IfSome-elim}
use raft_visualizer.Simulator.Ghosts.{Ghost}

module _ (ghost : Ghost) where
  open ghost use {State, AtNode, InMessage, Allowed, move}

  -- Every node of another id still fits.
  abbrev pub Others : State → State → ℕ → Type 0
  Others g h i = (m : Node) → m.id ≢ i → AtNode g m → AtNode h m

  -- The nodes have the ids from `i` on.
  abbrev pub Nodes : State → ℕ → List Node → Type 0
  Nodes g i [] = Unit
  Nodes g i (n ∷ ns) = ((n.id ≡ i) × AtNode g n) × Nodes g (suc i) ns

  -- A message stands in the inbox of the node it goes to.
  abbrev pub Boxes : State → ℕ → List (List Message) → Type 0
  Boxes g i [] = Unit
  Boxes g i (b ∷ bs) = All (λ (m : Message). (m.to ≡ i) × InMessage g m) b × Boxes g (suc i) bs

  pub record IsHeld (g : State) (c : Cluster) : Type 0 where
    pub nodes_lem : Nodes g 0 c.nodes
    pub inboxes_lem : Boxes g 0 c.inboxes

  abbrev pub Holds : Cluster → Type 0
  Holds c = (g : State) × IsHeld g c

  pub node_at-Nodes :
      (g : State) (j i : ℕ) (ns : List Node) (n : Node)
      → node_at i ns ≡ some n
      → Nodes g j ns
      → (n.id ≡ j + i) × AtNode g n
  node_at-Nodes g j i [] n f k = absurd (none-ne-some n f)
  node_at-Nodes g j zero (m ∷ ns) n f k =
      let same : m ≡ n = some-injective _ _ f in
      (omega (arith, k.0.0, ap (λ (x : Node). x.id) same), subst (AtNode g) same k.0.1)
  node_at-Nodes g j (suc i) (m ∷ ns) n f k =
      let (at, a) = node_at-Nodes g (suc j) i ns n f k.1 in (omega (arith, at), a)

  module _ (g h : State) where
    Nodes-Others : (i j : ℕ) (ns : List Node) → i < j → Others g h i → Nodes g j ns → Nodes h j ns
    Nodes-Others i j [] lt o a = tt
    Nodes-Others i j (n ∷ ns) lt o a = (
      (a.0.0, o n (omega (arith, lt, a.0.0)) a.0.1),
      Nodes-Others i (suc j) ns (omega (arith, lt)) o a.1,
    )

    pub Boxes-mono :
        (j : ℕ) (bs : List (List Message))
        → ((m : Message) → InMessage g m → InMessage h m)
        → Boxes g j bs
        → Boxes h j bs
    Boxes-mono j [] f a = tt
    Boxes-mono j (b ∷ bs) f a =
        (All-map_mono _ _ b (λ m r. (r.0, f m r.1)) a.0, Boxes-mono (suc j) bs f a.1)

    pub change-Nodes :
        (e : Event) (j i : ℕ) (ns ms : List Node) (n : Node)
        → node_at i ns ≡ some n
        → change i (λ m. (handle e m).0) ns ≡ some ms
        → AtNode h (handle e n).0
        → Others g h n.id
        → Nodes g j ns
        → Nodes h j ms
    change-Nodes e j i [] ms n f eq a o k = absurd (none-ne-some ms eq)
    change-Nodes e j zero (m ∷ ns) ms n f eq a o k =
        let same : m ≡ n = some-injective _ _ f in
        subst (Nodes h j) (some-injective _ _ eq) (
          (
            (handle-SameSite e m).0 ∙ k.0.0,
            subst (λ (x : Node). AtNode h (handle e x).0) (sym same) a,
          ),
          Nodes-Others n.id (suc j) ns (omega (arith, k.0.0, ap (λ (x : Node). x.id) same)) o k.1,
        )
    change-Nodes e j (suc i) (m ∷ ns) ms n f eq a o k =
        let (rest, found, same) =
          (map-eq-some_iff (m ∷◌) (change i (λ m. (handle e m).0) ns)).0 eq in
        subst (Nodes h j) same (
          (k.0.0, o m (omega (arith, k.0.0, (node_at-Nodes g (suc j) i ns n f k.1).0)) k.0.1),
          change-Nodes e (suc j) i ns rest n f found a o k.1,
        )

  module _ (g : State) where
    pub put-Boxes :
        (j i : ℕ) (msg : Message) (bs cs : List (List Message))
        → put i msg bs ≡ some cs
        → msg.to ≡ j + i
        → InMessage g msg
        → Boxes g j bs
        → Boxes g j cs
    put-Boxes j i msg [] cs e to m k = absurd (none-ne-some cs e)
    put-Boxes j zero msg (b ∷ bs) cs e to m k = subst (Boxes g j) (some-injective _ _ e) (
      if_of (All (λ (x : Message). (x.to ≡ j) × InMessage g x)) (ltb (length b) 128)
          (All-append _ b (msg ∷ []) k.0 ((omega (arith, to), m), tt)) k.0,
      k.1,
    )
    put-Boxes j (suc i) msg (b ∷ bs) cs e to m k =
        let (rest, found, same) = (map-eq-some_iff (b ∷◌) (put i msg bs)).0 e in
        subst (Boxes g j) same
          (k.0, put-Boxes (suc j) i msg bs rest found (omega (arith, to)) m k.1)

    pub take_first-Boxes :
        (j i : ℕ) (bs : List (List Message))
        → Boxes g j bs
        → IfSome
            (λ (r : Message × List (List Message)).
              (r.0.to ≡ j + i) × InMessage g r.0 × Boxes g j r.1)
            (take_first i bs)
    take_first-Boxes j i [] k = tt
    take_first-Boxes j zero ([] ∷ bs) k = tt
    take_first-Boxes j zero ((msg ∷ b) ∷ bs) k = (omega (arith, k.0.0.0), k.0.0.1, (k.0.1, k.1))
    take_first-Boxes j (suc i) (b ∷ bs) k =
        IfSome-elim
          (λ (r : Message × List (List Message)).
            (r.0.to ≡ j + suc i) × InMessage g r.0 × Boxes g j r.1)
          (λ (r : Message × List (List Message)).
            (r.0.to ≡ suc j + i) × InMessage g r.0 × Boxes g (suc j) r.1)
          (take_first i bs) none _ (take_first-Boxes (suc j) i bs k.1) tt
          (λ r (to, m, rest). (omega (arith, to), m, (k.0, rest)))
