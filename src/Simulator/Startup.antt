-- ===== src/Simulator/Startup.antt =====
-- The start of a cluster. `New` (backend/simulator/cluster.go) starts a goroutine for the `Run`
-- of each node and does not wait for it: until `Run` has made the election timer (backend/raft/node.go),
-- the node takes no events, and `Kill` and `Restart` panic on the timer that is not there.
use raft_visualizer.Prelude.{
  ℕ, ◌≡◌, refl, ap, ◌∙◌, inl, inr, Bool, true, false, not, ◌&&◌, Option, none, some, List, [], ◌∷◌,
  arith, ltb, nat_eq, if◌then◌else◌, includes, Bool-cases,
}
use mathlib.Core.Option.{map as map_option}
use raft_visualizer.Raft.{Node, kill, restart}
use raft_visualizer.Simulator.{Cluster, new_cluster, change, kill_node, restart_node}
use raft_visualizer.Simulator.Steps.{
  Step, take_message, election_timeout, heartbeat_tick, notify, kill_call, restart_call, step,
}
use raft_visualizer.Simulator.Delivery.{IsSafe}
use raft_visualizer.Simulator.Results.{Succeeds, Succeeds-map}
use raft_visualizer.Simulator.Panics.{panics, panics-map, panics-change}
use raft_visualizer.Simulator.Totality.{IsAddressed, step-Succeeds, new_cluster-IsSafe}

-- The cluster, and the nodes whose `Run` has made its timer.
pub record Startup : Type 0 where
  pub cluster : Cluster
  pub running : List ℕ

-- The `Run` of a node begins, or a step at its time.
pub data Stage : Type 0 where
  launch : ℕ → Stage
  act : ℕ → Step → Stage

-- Whether the timer is there for a step that uses it.
abbrev pub is_ready : List ℕ → Step → Bool
is_ready running (take_message i) = includes running i
is_ready running (election_timeout i) = includes running i
is_ready running (heartbeat_tick i) = includes running i
is_ready running (notify i) = includes running i
is_ready running (kill_call id) = includes running id
is_ready running (restart_call id) = includes running id
is_ready running _ = true

-- A call stops or resets the timer of its node; the other steps are those of `Run`, and wait for it.
abbrev pub is_call : Step → Bool
is_call (kill_call id) = true
is_call (restart_call id) = true
is_call _ = false

-- `none` is a panic.
unfoldable pub stage : Stage → Startup → Option Startup
stage (launch i) s = some (record s { running = i ∷ s.running })
stage (act now st) s =
    if is_ready s.running st
    then map_option (λ c. record s { cluster = c }) (step now st s.cluster)
    else if is_call st
    then none
    else some s

unfoldable pub stages : List Stage → Startup → Option Startup
stages [] s = some s
stages (x ∷ later) s = elim (stage x s) [ none ↦ none | some t ↦ stages later t ]

-- The cluster that `New` returns.
unfoldable pub start : ℕ → Startup
start k = record { cluster = new_cluster k; running = [] }

-- A kill or a restart names one of the `k` nodes, whose `Run` has made its timer.
abbrev pub is_allowed : ℕ → List ℕ → Step → Bool
is_allowed k running (kill_call id) = ltb id k && includes running id
is_allowed k running (restart_call id) = ltb id k && includes running id
is_allowed k running _ = true

-- All kills and restarts of a run do.
abbrev pub are_allowed : ℕ → List ℕ → List Stage → Bool
are_allowed k running [] = true
are_allowed k running (launch i ∷ later) = are_allowed k (i ∷ running) later
are_allowed k running (act now st ∷ later) = is_allowed k running st && are_allowed k running later

-- The nodes that run are the same, and the cluster is fit for its next step.
abbrev Goes : ℕ → List ℕ → Startup → Type 0
Goes k running s = (s.running ≡ running) × IsSafe k s.cluster

is_allowed-IsAddressed :
    (k : ℕ) (running : List ℕ) (st : Step) → is_allowed k running st ≡ true → IsAddressed k st
is_allowed-IsAddressed k running (kill_call id) h = ground arith
is_allowed-IsAddressed k running (restart_call id) h = ground arith
is_allowed-IsAddressed k running _ h = tt

allowed-ready :
    (k : ℕ) (running : List ℕ) (st : Step)
    → is_allowed k running st ≡ true
    → (not (is_ready running st) && is_call st) ≡ false
allowed-ready k running (kill_call id) h = ground arith
allowed-ready k running (restart_call id) h = ground arith
allowed-ready k running _ h = ground arith

act-Succeeds :
    (k now : ℕ) (st : Step) (s : Startup)
    → IsSafe k s.cluster
    → is_allowed k s.running st ≡ true
    → Succeeds (Goes k s.running) (stage (act now st) s)
unfolding stage
act-Succeeds k now st s safe h = elim (Bool-cases (is_ready s.running st)) [
  | inl ready ↦
      rw (ready, if◌then◌else◌)
        (Succeeds-map (Goes k s.running) (IsSafe k) (λ c. record s { cluster = c })
          (step now st s.cluster)
          (step-Succeeds k now st s.cluster (is_allowed-IsAddressed k s.running st h) safe)
          (λ c t. (refl, t)))
  | inr early ↦
      let waits : is_call st ≡ false = ground (arith, early, allowed-ready k s.running st h) in
      rw (early, waits, if◌then◌else◌) (refl, safe)
]

-- A call whose node runs, but is not one of the cluster's, panics.
panics-call :
    (k id : ℕ) (f : Node → Node) (c : Cluster)
    → IsSafe k c
    → ltb id k ≡ false
    → panics (map_option (λ ns. record c { nodes = ns }) (change id f c.nodes)) ≡ true
panics-call k id f c safe h =
    panics-map (λ ns. record c { nodes = ns }) (change id f c.nodes)
    ∙ panics-change id f c.nodes
    ∙ ground (arith, safe.nodes_count, h)

panics-act :
    (k now : ℕ) (st : Step) (s : Startup)
    → IsSafe k s.cluster
    → is_allowed k s.running st ≡ false
    → panics (stage (act now st) s) ≡ true
unfolding stage step kill_node restart_node
panics-act k now (kill_call id) s safe h = elim (Bool-cases (includes s.running id)) [
  | inr early ↦ rw (early, if◌then◌else◌) refl
  | inl ready ↦
      rw (ready, if◌then◌else◌)
        (panics-map (λ c. record s { cluster = c }) (kill_node id s.cluster)
          ∙ panics-call k id kill s.cluster safe (ground (arith, h, ready)))
]
panics-act k now (restart_call id) s safe h = elim (Bool-cases (includes s.running id)) [
  | inr early ↦ rw (early, if◌then◌else◌) refl
  | inl ready ↦
      rw (ready, if◌then◌else◌)
        (panics-map (λ c. record s { cluster = c }) (restart_node id s.cluster)
          ∙ panics-call k id restart s.cluster safe (ground (arith, h, ready)))
]
panics-act k now _ s safe h = cc

panics-later :
    (o : Option Startup) (later : List Stage)
    → panics o ≡ true
    → panics (elim o [ none ↦ none | some t ↦ stages later t ]) ≡ true
panics-later none later h = refl
panics-later (some t) later h = cc

Goes-later :
    (k : ℕ) (running : List ℕ) (o : Option Startup) (later : List Stage)
    → Succeeds (Goes k running) o
    → ((t : Startup)
        → IsSafe k t.cluster
        → panics (stages later t) ≡ not (are_allowed k t.running later))
    → panics (elim o [ none ↦ none | some t ↦ stages later t ]) ≡ not (are_allowed k running later)
Goes-later k running none later h rest = absurd h
Goes-later k running (some t) later h rest = rest t h.1 ∙ ap (λ r. not (are_allowed k r later)) h.0

panics-stages :
    (k : ℕ) (ss : List Stage) (s : Startup)
    → IsSafe k s.cluster
    → panics (stages ss s) ≡ not (are_allowed k s.running ss)
unfolding stages stage
panics-stages k [] s safe = refl
panics-stages k (launch i ∷ later) s safe =
    panics-stages k later (record s { running = i ∷ s.running }) safe
panics-stages k (act now st ∷ later) s safe = elim (Bool-cases (is_allowed k s.running st)) [
  | inl fine ↦
      rw (fine, ◌&&◌)
        (Goes-later k s.running (stage (act now st) s) later (act-Succeeds k now st s safe fine)
          (panics-stages k later))
  | inr bad ↦
      rw (bad, ◌&&◌) (panics-later (stage (act now st) s) later (panics-act k now st s safe bad))
]

-- From the start of a cluster, whatever its nodes, its timers and its callers do, in any order, while
-- the `Run`s of the nodes begin one after another: the program panics exactly if some kill or restart
-- names no node of the cluster, or one whose `Run` has not made its election timer yet.
pub panics-start :
    (k : ℕ) (ss : List Stage) → panics (stages ss (start k)) ≡ not (are_allowed k [] ss)
unfolding start
panics-start k ss = panics-stages k ss (start k) (new_cluster-IsSafe k)
