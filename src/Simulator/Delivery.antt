-- ===== src/Simulator/Delivery.antt =====
-- Messages between nodes that there are reach an inbox.
use raft_visualizer.Prelude.{
  ℕ, zero, suc, ◌<◌, ◌≡◌, refl, ap, ◌∙◌, none, some, List, [], ◌∷◌, arith, ltb, nat_eq, if_of,
  length, All, All-append,
}
use raft_visualizer.Raft.{Node, Message, Sent}
use raft_visualizer.Raft.Routing.{IsPlaced, Fits}
use raft_visualizer.Raft.Sound.{IsReady, IsSound}
use raft_visualizer.Simulator.{Cluster, put, route, route_all, is_cut}
use raft_visualizer.Simulator.Results.{Succeeds, Succeeds-map, Succeeds-elim}

-- A node among the first `k` whose next indexes are fit.
abbrev pub IsFit : ℕ → Node → Type 0
IsFit k n = IsPlaced k n × IsReady n

-- Messages of the first `k` nodes.
abbrev pub AreFrom : ℕ → List (List Message) → Type 0
AreFrom k = All (All (λ (m : Message). m.from < k))

pub record IsSafe (k : ℕ) (c : Cluster) : Type 0 where
  pub nodes_count : length c.nodes ≡ k
  pub nodes_lem : All (IsFit k) c.nodes
  pub inboxes_count : length c.inboxes ≡ k
  pub inboxes_lem : AreFrom k c.inboxes

put-Succeeds :
    (k i : ℕ) (msg : Message) (bs : List (List Message))
    → i < length bs
    → msg.from < k
    → AreFrom k bs
    → Succeeds (λ cs. (length cs ≡ length bs) × AreFrom k cs) (put i msg bs)
put-Succeeds k i msg [] h f b = absurd (omega (arith, h))
put-Succeeds k zero msg (b ∷ bs) h f (hb, hs) = (
  refl,
  (
    if_of (All (λ (m : Message). m.from < k)) (ltb (length b) 128)
        (All-append (λ (m : Message). m.from < k) b (msg ∷ []) hb (f, tt)) hb,
    hs,
  ),
)
put-Succeeds k (suc i) msg (b ∷ bs) h f (hb, hs) =
    Succeeds-map (λ cs. (length cs ≡ suc (length bs)) × AreFrom k cs)
      (λ cs. (length cs ≡ length bs) × AreFrom k cs) (b ∷◌) (put i msg bs)
      (put-Succeeds k i msg bs (omega (arith, h)) f hs) (λ cs r. (ap suc r.0, (hb, r.1)))

route-Succeeds :
    (k now : ℕ) (msg : Message) (c : Cluster)
    → msg.from < k
    → msg.to < k
    → IsSafe k c
    → Succeeds (IsSafe k) (route now msg c)
unfolding route
route-Succeeds k now msg c f t s =
    if_of (Succeeds (IsSafe k)) (is_cut c.partitioned msg.from msg.to)
      (record {
        nodes_count = s.nodes_count;
        nodes_lem = s.nodes_lem;
        inboxes_count = s.inboxes_count;
        inboxes_lem = s.inboxes_lem;
      })
      (Succeeds-map (IsSafe k) (λ cs. (length cs ≡ length c.inboxes) × AreFrom k cs) _
        (put msg.to msg c.inboxes)
        (put-Succeeds k msg.to msg c.inboxes (omega (arith, t, s.inboxes_count)) f s.inboxes_lem)
        (λ cs r. record {
          nodes_count = s.nodes_count;
          nodes_lem = s.nodes_lem;
          inboxes_count = r.0 ∙ s.inboxes_count;
          inboxes_lem = r.1;
        }))

pub route_all-Succeeds :
    (k now : ℕ) (sent : Sent) (c : Cluster)
    → All (Fits k) sent
    → IsSound sent
    → IsSafe k c
    → Succeeds (IsSafe k) (route_all now sent c)
unfolding route_all
route_all-Succeeds k now [] c f g s = s
route_all-Succeeds k now (none ∷ sent) c f g s = absurd (g.0 refl)
route_all-Succeeds k now (some msg ∷ sent) c f g s =
    Succeeds-elim (IsSafe k) (IsSafe k) (route now msg c) none (route_all now sent)
      (route-Succeeds k now msg c f.0.0 f.0.1 s) (λ d t. route_all-Succeeds k now sent d f.1 g.1 t)
