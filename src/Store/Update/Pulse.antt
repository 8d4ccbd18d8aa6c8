-- ===== src/Store/Update/Pulse.antt =====
-- Pulse tokens: `NodeCard` replays its transition when a node's token changes
-- (frontend/src/store/clusterStore.js, `applyStateUpdate` and `shouldPulse`).
use raft_visualizer.Prelude.{
  ℕ, suc, ◌≤◌, ◌<◌, ◌≡◌, refl, ◌≢◌, ◌↔◌, ◌⊎◌, inl, inr, Bool, true, false, Option, none, some, List,
  [], ◌∷◌, String, arith, ◌==◌, nat_eq, string_eq, if◌then◌else◌, All, Bool-cases, map, ap, Occurs,
  of_Occurs,
}
use raft_visualizer.JsMap.{get, last_value, get-set_all}
use raft_visualizer.Cluster.{Node, RawNode, Payload}
use raft_visualizer.Store.{Store}
use raft_visualizer.Store.Derive.{by_id}
use raft_visualizer.Store.Update.{
  next_nodes, next_node, should_pulse, old_pulse, apply_state_update, raw_nodes,
}

-- Every token was given out before the counter.
abbrev pub AreSpent : ℕ → List Node → Type 0
AreSpent seq = All (λ n. n.pulse_seq < seq)

old_pulse-lt :
    (o : Option Node) (ns : List Node) (k seq : ℕ)
    → old_pulse o < seq
    → AreSpent seq ns
    → old_pulse (last_value o (map (λ n. (n.id, n)) ns) k) < seq
old_pulse-lt o [] k seq p h = p
old_pulse-lt o (n ∷ ns) k seq p h =
    old_pulse-lt (if n.id == k then some n else o) ns k seq (ground arith) h.1

-- No known node has a token that is still to come.
old_pulse-by_id-lt :
    (ns : List Node) (k seq : ℕ) → 0 < seq → AreSpent seq ns → old_pulse (get (by_id ns) k) < seq
old_pulse-by_id-lt ns k seq p h =
    rw (get-set_all [] (map (λ n. (n.id, n)) ns) k) (old_pulse-lt none ns k seq p h)

abbrev after : Bool → ℕ → ℕ
after pulses seq = if pulses then suc seq else seq

after-le : (b : Bool) (seq : ℕ) → seq ≤ after b seq
after-le b seq = ground arith

next_nodes-le : (m : List (ℕ × Node)) (rs : List RawNode) (seq : ℕ) → seq ≤ (next_nodes m rs seq).1
unfolding next_nodes
next_nodes-le m [] seq = omega arith
next_nodes-le m (r ∷ rs) seq =
    let pulses = should_pulse (get m r.id) r in
    omega (arith, after-le pulses seq, next_nodes-le m rs (after pulses seq))

next_nodes-AreSpent :
    (m : List (ℕ × Node)) (rs : List RawNode) (seq : ℕ)
    → ((k : ℕ) → old_pulse (get m k) < seq)
    → AreSpent (next_nodes m rs seq).1 (next_nodes m rs seq).0
unfolding next_nodes
next_nodes-AreSpent m [] seq h = tt
next_nodes-AreSpent m (r ∷ rs) seq h =
    let pulses = should_pulse (get m r.id) r in
    (
      ground (arith, h r.id, next_nodes-le m rs (after pulses seq)),
      next_nodes-AreSpent m rs (after pulses seq) (λ k. omega (arith, h k, after-le pulses seq)),
    )

-- What an update means for the token of one node.
abbrev Replays : List (ℕ × Node) → Node → Type 0
Replays m n =
    (prev : Node)
    → get m n.id ≡ some prev
    → (n.pulse_seq ≢ prev.pulse_seq) ↔ ((prev.role ≢ n.role) ⊎ (prev.term ≢ n.term))

should_pulse_iff :
    (prev : Node) (r : RawNode)
    → (should_pulse (some prev) r ≡ true) ↔ ((prev.role ≢ r.role) ⊎ (prev.term ≢ r.term))
unfolding should_pulse
should_pulse_iff prev r = (
  (λ h. elim (Bool-cases (prev.role == r.role)) [
    | inl same ↦ inr (ground (arith, same))
    | inr other ↦ inl (ground (arith, other, string_eq.same_iff prev.role r.role))
  ]),
  (λ h. ground (arith, string_eq.same_iff prev.role r.role)),
)

next_nodes-Replays :
    (m : List (ℕ × Node)) (rs : List RawNode) (seq : ℕ)
    → ((k : ℕ) → old_pulse (get m k) < seq)
    → All (Replays m) (next_nodes m rs seq).0
unfolding next_nodes
next_nodes-Replays m [] seq h = tt
next_nodes-Replays m (r ∷ rs) seq h =
    let pulses = should_pulse (get m r.id) r in
    (
      replays pulses refl,
      next_nodes-Replays m rs (after pulses seq) (λ k. omega (arith, h k, after-le pulses seq)),
    )
  where
    replays :
        (b : Bool)
        → should_pulse (get m r.id) r ≡ b
        → Replays m (next_node r (if b then seq else old_pulse (get m r.id)))
    replays true e prev found = (
      (λ _. (should_pulse_iff prev r).0 (rw found at e)),
      (λ d same. absurd (omega (arith, h r.id, ap old_pulse found, same))),
    )
    replays false e prev found = (
      (λ ne. absurd (ne (ap old_pulse found))),
      (λ d same. cc (rw found at e, (should_pulse_iff prev r).1 d)),
    )

-- The counter of tokens starts at 1, so it is above 0 and above every token given out.
pub record AreFresh (nodes : List Node) (next_pulse_seq : ℕ) : Type 0 where
  pub positive : 0 < next_pulse_seq
  pub spent : AreSpent next_pulse_seq nodes

fresh : (ns : List Node) (seq : ℕ) → AreFresh ns seq → (k : ℕ) → old_pulse (get (by_id ns) k) < seq
fresh ns seq h k = old_pulse-by_id-lt ns k seq h.positive h.spent

pub next_nodes-AreFresh :
    (ns : List Node) (rs : List RawNode) (seq : ℕ)
    → AreFresh ns seq
    → AreFresh (next_nodes (by_id ns) rs seq).0 (next_nodes (by_id ns) rs seq).1
next_nodes-AreFresh ns rs seq h = record {
  positive = omega (arith, h.positive, next_nodes-le (by_id ns) rs seq);
  spent = next_nodes-AreSpent (by_id ns) rs seq (fresh ns seq h);
}

-- After an update the token of a node that was known before differs from its old one exactly if
-- the node's role or its term changed.
pub replays-apply_state_update :
    (t1 t2 : String) (payload : Option Payload) (s : Store) (n prev : Node)
    → AreFresh s.nodes s.next_pulse_seq
    → Occurs n (apply_state_update t1 t2 payload s).nodes
    → get (by_id s.nodes) n.id ≡ some prev
    → (n.pulse_seq ≢ prev.pulse_seq) ↔ ((prev.role ≢ n.role) ⊎ (prev.term ≢ n.term))
unfolding apply_state_update
replays-apply_state_update t1 t2 payload s n prev h o found =
    of_Occurs (Replays (by_id s.nodes)) _
      (next_nodes-Replays (by_id s.nodes) (raw_nodes payload) s.next_pulse_seq
        (fresh s.nodes s.next_pulse_seq h))
      o prev found
