-- ===== src/Simulator/Partitions.antt =====
-- What a partition cuts, and what a healed cluster delivers.
use raft_visualizer.Prelude.{
  ℕ, ◌≡◌, refl, ◌∙◌, inl, inr, Bool, ◌&&◌, ◌||◌, Option, none, some, List, [], ◌∷◌, ◌++◌, arith,
  ◌==◌, nat_eq, if◌then◌else◌, includes, Bool-cases,
}
use mathlib.Core.Option.{map as map_option}
use raft_visualizer.Raft.{Message}
use raft_visualizer.Simulator.{
  Cluster, is_cut, cut_from, cross, partition, heal, route, put, rpc_type_name, rpc_term, prune,
}

-- One node in each group.
abbrev pub crosses : List ℕ → List ℕ → ℕ → ℕ → Bool
crosses group_a group_b a b =
    (includes group_a a && includes group_b b) || (includes group_a b && includes group_b a)

is_cut-append :
    (ps qs : List (ℕ × ℕ)) (a b : ℕ) → is_cut (ps ++ qs) a b ≡ (is_cut ps a b || is_cut qs a b)
is_cut-append [] qs a b = refl
is_cut-append (p ∷ ps) qs a b = ground (arith, is_cut-append ps qs a b)

is_cut-cut_from :
    (x : ℕ) (group_b : List ℕ) (a b : ℕ)
    → is_cut (cut_from x group_b) a b
      ≡ (((x == a) && includes group_b b) || ((x == b) && includes group_b a))
is_cut-cut_from x [] a b = ground arith
is_cut-cut_from x (y ∷ group_b) a b = ground (arith, is_cut-cut_from x group_b a b)

is_cut-cross :
    (group_a group_b : List ℕ) (a b : ℕ)
    → is_cut (cross group_a group_b) a b ≡ crosses group_a group_b a b
is_cut-cross [] group_b a b = refl
is_cut-cross (x ∷ group_a) group_b a b =
    is_cut-append (cut_from x group_b) (cross group_a group_b) a b
    ∙ ground (arith, is_cut-cut_from x group_b a b, is_cut-cross group_a group_b a b)

-- The inboxes after a message.
abbrev pub inboxes_after : Option Cluster → Option (List (List Message))
inboxes_after = map_option (λ (c : Cluster). c.inboxes)

inboxes-map :
    (boxes : Option (List (List Message))) (c : Cluster)
    → inboxes_after (map_option (λ bs. record c { inboxes = bs }) boxes) ≡ boxes
inboxes-map none c = refl
inboxes-map (some boxes) c = refl

inboxes-route :
    (now : ℕ) (msg : Message) (c : Cluster)
    → inboxes_after (route now msg c)
      ≡ (if is_cut c.partitioned msg.from msg.to then some c.inboxes else put msg.to msg c.inboxes)
unfolding route
inboxes-route now msg c = elim (Bool-cases (is_cut c.partitioned msg.from msg.to)) [
  | inl cut ↦ rw (cut, if◌then◌else◌) refl
  | inr uncut ↦ rw (uncut, if◌then◌else◌) (inboxes-map (put msg.to msg c.inboxes) noted)
]
  where
    noted : Cluster
    noted = record c {
      in_flight = prune now (
          c.in_flight
          ++ record {
            from = msg.from;
            to = msg.to;
            type = rpc_type_name msg.rpc;
            term = rpc_term msg.rpc;
            sent_at = now;
          }
            ∷ []);
    }

-- A partition of two groups cuts the links between them in both directions, and no other: a message
-- between a node of each leaves the inboxes as they are, as one does whose link was cut before, and
-- any other message goes to its inbox as it did.
pub route-partition :
    (now : ℕ) (msg : Message) (group_a group_b : List ℕ) (c : Cluster)
    → inboxes_after (route now msg (partition group_a group_b c)) ≡ (
        if crosses group_a group_b msg.from msg.to
        then some c.inboxes
        else inboxes_after (route now msg c))
unfolding partition
route-partition now msg group_a group_b c =
    inboxes-route now msg (partition group_a group_b c)
    ∙ rw
        (
          is_cut-append c.partitioned (cross group_a group_b) msg.from msg.to,
          is_cut-cross group_a group_b msg.from msg.to,
          inboxes-route now msg c,
        )
        (ground arith)

-- Once healed, a cluster puts each message into its inbox, whatever was cut before.
pub route-heal :
    (now : ℕ) (msg : Message) (c : Cluster)
    → inboxes_after (route now msg (heal c)) ≡ put msg.to msg c.inboxes
unfolding heal
route-heal now msg c = inboxes-route now msg (heal c)
