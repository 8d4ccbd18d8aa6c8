-- ===== src/Simulator/Elections.antt =====
-- The leaders that a cluster elects.
use raft_visualizer.Prelude.{
  ℕ, zero, suc, ◌+◌, ◌*◌, ◌≤◌, ◌<◌, ◌≡◌, refl, sym, subst, ap, ◌∙◌, inl, inr, Bool, true, not, ◌&&◌,
  none, some, List, [], ◌∷◌, ◌++◌, map, arith, ltb, ◌==◌, nat_eq, if◌then◌else◌, Bool-cases, length,
  filter, All, All-map_mono, IsDistinct, includes, Occurs, of_Occurs, eq_of_beq, IsSubset,
  length-IsSubset, includes-filter, filter-IsDistinct, length-filter-not, length-filter-includes,
}
use mathlib.Core.Option.{some-injective}
use raft_visualizer.Raft.{Node, leader, new_node}
use raft_visualizer.Simulator.{Cluster, new_cluster, range, peers_of}
use raft_visualizer.Simulator.Steps.{Step, steps}
use raft_visualizer.Simulator.Results.{IfSome}
use raft_visualizer.Simulator.Ranges.{
  range-All, filter-All, length-range, length-map, includes-range, range-IsDistinct,
}
use raft_visualizer.Simulator.Ghosts.{Ghost, AdmitsAll}
use raft_visualizer.Simulator.Held.{Nodes, Boxes, Holds}
use raft_visualizer.Simulator.Along.{steps-Holds}
use raft_visualizer.Simulator.Voting.{Cast, Backs, IsHonest, IsCurrent}
use raft_visualizer.Simulator.Truth.{votes_cast}

All-includes : (P : ℕ → Type 0) (xs : List ℕ) (a : ℕ) → All P xs → includes xs a ≡ true → P a
All-includes P [] a all h = cc
All-includes P (x ∷ xs) a all h = elim (Bool-cases (x == a)) [
  | inl same ↦ subst P (eq_of_beq x a same) all.0
  | inr other ↦ All-includes P xs a all.1 (ground (arith, h, other))
]

range-IsSubset : (k : ℕ) (xs : List ℕ) → All (λ v. v < k) xs → IsSubset xs (range k)
range-IsSubset k xs all a h =
    includes-range k a ∙ ground (arith, All-includes (λ v. v < k) xs a all h)

-- Two majorities of the first `k` have a member in common.
common_member :
    (k : ℕ) (xs ys : List ℕ)
    → IsDistinct xs
    → IsDistinct ys
    → All (λ v. v < k) xs
    → All (λ v. v < k) ys
    → k < length xs + length ys
    → (v : ℕ) × (includes xs v ≡ true) × (includes ys v ≡ true)
common_member k xs ys dx dy ax ay many = member (filter (includes ys) xs) refl
  where
    fits :
        length (filter (λ v. not (includes ys v)) xs)
        ≤ length (filter (λ v. not (includes ys v)) (range k))
    fits = length-IsSubset _ _ (filter-IsDistinct _ xs dx) (λ a h.
        includes-filter _ (range k) a
        ∙ ground
            (arith, includes-filter (λ v. not (includes ys v)) xs a, h, range-IsSubset k xs ax a))

    some_left : length xs + length ys ≤ k + length (filter (includes ys) xs)
    some_left = omega (
      arith,
      fits,
      length-filter-not (includes ys) xs,
      length-filter-not (includes ys) (range k),
      length-range k,
      length-filter-includes ys (range k) dy (range-IsDistinct k) (range-IsSubset k ys ay),
    )

    member :
        (zs : List ℕ)
        → filter (includes ys) xs ≡ zs
        → (v : ℕ) × (includes xs v ≡ true) × (includes ys v ≡ true)
    member [] e = absurd (omega (arith, some_left, ap length e, many))
    member (z ∷ zs) e =
        let found : (includes xs z && includes ys z) ≡ true =
          sym (includes-filter (includes ys) xs z) ∙ ap (λ l. includes l z) e ∙ ground arith in
        (z, ground (arith, found), ground (arith, found))

-- The nodes of one id.
module _ (ghost : Ghost) where
  open ghost use {State, AtNode, InMessage}

  pub AtNode-All : (g : State) (j : ℕ) (ns : List Node) → Nodes ghost g j ns → All (AtNode g) ns
  AtNode-All g j [] h = tt
  AtNode-All g j (n ∷ ns) h = (h.0.1, AtNode-All g (suc j) ns h.1)

  Nodes-le :
      (g : State) (j : ℕ) (ns : List Node) (a : Node) → Nodes ghost g j ns → Occurs a ns → j ≤ a.id
  Nodes-le g j [] a h o = elim o [ ]
  Nodes-le g j (n ∷ ns) a h (inl e) = omega (arith, ap (λ (x : Node). x.id) e, h.0.0)
  Nodes-le g j (n ∷ ns) a h (inr o) = omega (arith, Nodes-le g (suc j) ns a h.1 o)

  pub eq_of_ids :
      (g : State) (j : ℕ) (ns : List Node) (a b : Node)
      → Nodes ghost g j ns
      → Occurs a ns
      → Occurs b ns
      → a.id ≡ b.id
      → a ≡ b
  eq_of_ids g j [] a b h o p e = elim o [ ]
  eq_of_ids g j (n ∷ ns) a b h (inl o) (inl p) e = o ∙ sym p
  eq_of_ids g j (n ∷ ns) a b h (inl o) (inr p) e =
      absurd (omega (arith, Nodes-le g (suc j) ns b h.1 p, ap (λ (x : Node). x.id) o, h.0.0, e))
  eq_of_ids g j (n ∷ ns) a b h (inr o) (inl p) e =
      absurd (omega (arith, Nodes-le g (suc j) ns a h.1 o, ap (λ (x : Node). x.id) p, h.0.0, e))
  eq_of_ids g j (n ∷ ns) a b h (inr o) (inr p) e = eq_of_ids g (suc j) ns a b h.1 o p e

  Nodes-append :
      (g : State) (j : ℕ) (ns : List Node) (n : Node)
      → Nodes ghost g j ns
      → n.id ≡ j + length ns
      → AtNode g n
      → Nodes ghost g j (ns ++ n ∷ [])
  Nodes-append g j [] n h e a = ((omega (arith, e), a), tt)
  Nodes-append g j (m ∷ ns) n h e a = (h.0, Nodes-append g (suc j) ns n h.1 (omega (arith, e)) a)

  -- The nodes of a cluster as it starts.
  pub range-Nodes :
      (g : State) (f : ℕ → Node) (k n : ℕ)
      → ((i : ℕ) → (f i).id ≡ i)
      → ((i : ℕ) → i < k → AtNode g (f i))
      → n ≤ k
      → Nodes ghost g 0 (map f (range n))
  range-Nodes g f k zero ids at le = tt
  range-Nodes g f k (suc n) ids at le = subst (Nodes ghost g 0) (sym (map-append f (range n) n)) (
      Nodes-append g 0 (map f (range n)) (f n) (range-Nodes g f k n ids at (omega (arith, le)))
        (omega (arith, ids n, length-map f (range n), length-range n)) (at n (omega (arith, le))))
    where
      map-append :
          (f : ℕ → Node) (xs : List ℕ) (x : ℕ) → map f (xs ++ x ∷ []) ≡ map f xs ++ f x ∷ []
      map-append f [] x = refl
      map-append f (y ∷ xs) x = ap (f y ∷◌) (map-append f xs x)

  pub empty-Boxes : (g : State) (j : ℕ) (is : List ℕ) → Boxes ghost g j (map (λ i. []) is)
  empty-Boxes g j [] = tt
  empty-Boxes g j (i ∷ is) = (tt, empty-Boxes g (suc j) is)

length-filter-append :
    (p : ℕ → Bool) (xs : List ℕ) (x : ℕ)
    → length (filter p (xs ++ x ∷ [])) ≡ length (filter p xs) + (if p x then 1 else 0)
length-filter-append p [] x = ground arith
length-filter-append p (y ∷ xs) x = ground (arith, length-filter-append p xs x)

length-others :
    (n i : ℕ) → length (filter (λ j. not (j == i)) (range n)) + (if ltb i n then 1 else 0) ≡ n
length-others zero i = ground arith
length-others (suc n) i =
    ground (arith, length-filter-append (λ j. not (j == i)) (range n) n, length-others n i)

length-peers_of : (k i : ℕ) → i < k → length (peers_of k i) + 1 ≡ k
length-peers_of k i lt = ground (arith, length-others k i, lt)

-- Nobody has voted.
abbrev pub no_votes : Cast
no_votes v t = none

pub new_node-IsHonest : (k i : ℕ) → i < k → IsHonest k no_votes (new_node i (peers_of k i))
unfolding new_node
new_node-IsHonest k i lt = record {
  placed = record {
    id = lt;
    peers = filter-All (λ j. not (j == i)) k (range k) (range-All k k (omega arith));
  };
  size = length-peers_of k i lt;
  future = λ t h. refl;
  now = refl;
  votes = λ r. absurd (r refl);
  won = λ r. cc;
}

new_cluster-Holds : (k : ℕ) → Holds (votes_cast k) (new_cluster k)
unfolding new_cluster new_node
new_cluster-Holds k = (
  no_votes,
  record {
    nodes_lem =
        range-Nodes (votes_cast k) no_votes (λ i. new_node i (peers_of k i)) k k (λ i. refl)
          (new_node-IsHonest k) (omega arith);
    inboxes_lem = empty-Boxes (votes_cast k) no_votes 0 (range k);
  },
)

-- More than half of the votes of the term were cast for the node.
abbrev pub HasQuorum : ℕ → Cast → ℕ → ℕ → Type 0
HasQuorum k cast t w =
    (vs : List ℕ) × (IsDistinct vs × All (Backs k cast t w) vs) × (k < 2 * length vs)

pub quorum-eq :
    (k : ℕ) (cast : Cast) (t w v : ℕ) → HasQuorum k cast t w → HasQuorum k cast t v → w ≡ v
quorum-eq k cast t w v (xs, (dx, ax), qx) (ys, (dy, ay), qy) =
    let (i, ix, iy) =
      common_member k xs ys dx dy (All-map_mono _ _ xs (λ v h. h.0) ax)
        (All-map_mono _ _ ys (λ v h. h.0) ay) (omega (arith, qx, qy)) in
    let bx : Backs k cast t w i = All-includes (Backs k cast t w) xs i ax ix in
    let by_y : Backs k cast t v i = All-includes (Backs k cast t v) ys i ay iy in
    some-injective _ _ (sym bx.1 ∙ by_y.1)

pub leader-HasQuorum :
    (k : ℕ) (cast : Cast) (n : Node)
    → IsHonest k cast n
    → n.role ≡ leader
    → HasQuorum k cast n.current_term n.id
leader-HasQuorum k cast n h l = (n.votes_received, h.votes (λ f. cc), h.won l)

-- Election safety. In a cluster of k nodes, after any run from the start in which no node takes a
-- granted vote of a term before its own, two nodes with the role of a leader in one term are the
-- same node.
pub one_leader_a_term :
    (k : ℕ) (ss : List (ℕ × Step)) (c : Cluster) (a b : Node)
    → steps ss (new_cluster k) ≡ some c
    → AdmitsAll IsCurrent ss (new_cluster k)
    → Occurs a c.nodes
    → Occurs b c.nodes
    → a.role ≡ leader
    → b.role ≡ leader
    → a.current_term ≡ b.current_term
    → a ≡ b
one_leader_a_term k ss c a b run ok oa ob la lb same =
    let (cast, held) =
      subst (IfSome (Holds (votes_cast k))) run
        (steps-Holds (votes_cast k) ss (new_cluster k) ok (new_cluster-Holds k)) in
    let all = AtNode-All (votes_cast k) cast 0 c.nodes held.nodes_lem in
    eq_of_ids (votes_cast k) cast 0 c.nodes a b held.nodes_lem oa ob (
      quorum-eq k cast b.current_term a.id b.id
        (subst (λ t. HasQuorum k cast t a.id) same
          (leader-HasQuorum k cast a (of_Occurs (IsHonest k cast) c.nodes all oa) la))
        (leader-HasQuorum k cast b (of_Occurs (IsHonest k cast) c.nodes all ob) lb))
