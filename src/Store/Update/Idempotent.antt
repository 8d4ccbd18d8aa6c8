-- ===== src/Store/Update/Idempotent.antt =====
-- A payload that arrives twice changes the store once.
use raft_visualizer.Prelude.{
  ℕ, suc, ◌≤◌, ◌≡◌, refl, sym, ap, ◌∙◌, false, Option, some, List, [], ◌∷◌, ◌++◌, map, String,
  arith, nat_eq, string_eq, if◌then◌else◌, IsDistinct, All, length, slice_last, slice_last_all,
  length-slice_last-le, append-nil,
}
use raft_visualizer.JsMap.{get}
use raft_visualizer.Cluster.{Node, RawNode, Payload}
use raft_visualizer.Store.{Store}
use raft_visualizer.Store.Derive.{by_id}
use raft_visualizer.Store.Derive.Quiet.{derive_state_logs_self}
use raft_visualizer.Store.Update.Quiet.{diff_rpc_logs_self, get-by_id}
use raft_visualizer.Store.Update.{
  next_node, next_nodes, should_pulse, state_logs, fresh_logs, apply_state_update, raw_nodes,
  raw_in_flight,
}

-- The nodes are those of the payload, with some tokens.
abbrev IsCopy : List RawNode → List Node → Type 0
IsCopy [] [] = Unit
IsCopy [] (n ∷ ns) = ⊥
IsCopy (r ∷ rs) [] = ⊥
IsCopy (r ∷ rs) (n ∷ ns) = (n ≡ next_node r n.pulse_seq) × IsCopy rs ns

pub next_nodes-IsCopy :
    (m : List (ℕ × Node)) (rs : List RawNode) (seq : ℕ) → IsCopy rs (next_nodes m rs seq).0
unfolding next_nodes
next_nodes-IsCopy m [] seq = tt
next_nodes-IsCopy m (r ∷ rs) seq =
    (refl, next_nodes-IsCopy m rs (if should_pulse (get m r.id) r then suc seq else seq))

should_pulse-next_node : (r : RawNode) (k : ℕ) → should_pulse (some (next_node r k)) r ≡ false
unfolding should_pulse
should_pulse-next_node r k = ground (arith, string_eq.same_iff r.role r.role)

next_nodes_again :
    (m : List (ℕ × Node)) (rs : List RawNode) (ns : List Node) (seq : ℕ)
    → IsCopy rs ns
    → All (λ n. get m n.id ≡ some n) ns
    → next_nodes m rs seq ≡ (ns, seq)
unfolding next_nodes
next_nodes_again m [] [] seq c h = refl
next_nodes_again m [] (n ∷ ns) seq c h = elim c [ ]
next_nodes_again m (r ∷ rs) [] seq c h = elim c [ ]
next_nodes_again m (r ∷ rs) (n ∷ ns) seq c h =
    rw (found, should_pulse-next_node r n.pulse_seq, next_nodes_again m rs ns seq c.1 h.1)
      (ap (λ x. (x ∷ ns, seq)) (sym c.0))
  where
    found : get m r.id ≡ some (next_node r n.pulse_seq)
    found = ap (λ (x : Node). get m x.id) (sym c.0) ∙ h.0 ∙ ap some c.0

IsCopy-ids :
    (rs : List RawNode) (ns : List Node)
    → IsCopy rs ns
    → map (λ n. n.id) ns ≡ map (λ (r : RawNode). r.id) rs
IsCopy-ids [] [] c = refl
IsCopy-ids [] (n ∷ ns) c = elim c [ ]
IsCopy-ids (r ∷ rs) [] c = elim c [ ]
IsCopy-ids (r ∷ rs) (n ∷ ns) c = cc (ap (λ (x : Node). x.id) c.0, IsCopy-ids rs ns c.1)

state_logs_self :
    (time : String) (ns : List Node) (n : ℕ)
    → All (λ x. get (by_id ns) x.id ≡ some x) ns
    → state_logs time ns ns n ≡ record { next_event_id = n; logs = [] }
state_logs_self time [] n h = refl
state_logs_self time (x ∷ ns) n h = derive_state_logs_self time (x ∷ ns) n h

-- A store that holds what the payload says is left as it is.
settled :
    (t1 t2 : String) (payload : Option Payload) (s : Store)
    → next_nodes (by_id s.nodes) (raw_nodes payload) s.next_pulse_seq ≡ (s.nodes, s.next_pulse_seq)
    → slice_last 256 (raw_in_flight payload) ≡ s.in_flight
    → All (λ n. get (by_id s.nodes) n.id ≡ some n) s.nodes
    → length s.event_logs ≤ 60
    → apply_state_update t1 t2 payload s ≡ s
unfolding apply_state_update fresh_logs
settled t1 t2 payload s same_nodes same_in_flight index fits =
    rw
      (
        same_nodes,
        same_in_flight,
        state_logs_self t1 s.nodes s.next_event_id index,
        diff_rpc_logs_self t2 s.in_flight s.next_event_id,
        append-nil s.event_logs,
      )
      (ap (λ ls. record s { event_logs = ls }) (slice_last_all 60 s.event_logs fits))

-- A payload whose nodes have distinct ids, applied to the store that it left, changes nothing: no
-- node, no token, no line of the event log and no counter.
pub apply_state_update_idem :
    (t1 t2 t3 t4 : String) (payload : Option Payload) (s : Store)
    → IsDistinct (map (λ (r : RawNode). r.id) (raw_nodes payload))
    → apply_state_update t3 t4 payload (apply_state_update t1 t2 payload s)
      ≡ apply_state_update t1 t2 payload s
unfolding apply_state_update
apply_state_update_idem t1 t2 t3 t4 payload s h =
    settled t3 t4 payload _ (next_nodes_again _ _ _ _ copy index) refl index
      (length-slice_last-le 60 (s.event_logs ++ (fresh_logs t1 t2 s _ _).logs))
  where
    copy : IsCopy (raw_nodes payload) (apply_state_update t1 t2 payload s).nodes
    copy = next_nodes-IsCopy (by_id s.nodes) (raw_nodes payload) s.next_pulse_seq

    index :
        All
          (λ n. get (by_id (apply_state_update t1 t2 payload s).nodes) n.id ≡ some n)
          (apply_state_update t1 t2 payload s).nodes
    index = get-by_id _ (rw (IsCopy-ids _ _ copy) h)
