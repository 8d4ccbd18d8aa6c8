-- ===== src/Server/Hooks.antt =====
-- The cluster runs while there are clients: what the two hooks of the hub achieve.
use raft_visualizer.Prelude.{
  ℕ, ◌≡◌, refl, sym, subst, ap, ◌∙◌, inl, inr, Bool, true, false, not, Option, none, some, List, [],
  ◌∷◌, ◌++◌, map, length, ltb, nat_eq, if_of, if◌then◌else◌, Bool-cases,
}
use raft_visualizer.Simulator.{Cluster, build_snapshot}
use raft_visualizer.Simulator.Steps.{Step, emit, step}
use raft_visualizer.Simulator.Results.{IfSome, IfSome-elim, IfSome-found, IfSome-map}
use raft_visualizer.Simulator.Faults.{FaultPayload, apply_fault}
use raft_visualizer.Server.{
  Server, Client, Call, stop_if_no_clients, stop, Event, connected, disconnected, called,
  fault_read, fault_due, stepped, signalled, sent, new_server, broadcast, offer, no_clients,
  register, has_client, without, unregister, on_first_client, proceed, run_call, read_fault,
  fault_loop, cluster_step, snapshot_loop, written, handle, run,
}

-- One thing after another: a client comes or goes and the hook that this calls is over before the
-- next, or something else happens.
pub data Turn : Type 0 where
  arrives leaves : ℕ → Turn
  command : FaultPayload → Turn
  obeyed : Turn
  stepped_to : Step → Turn
  shown : Turn
  delivered : ℕ → Turn

abbrev pub events_of : ℕ → Turn → List (ℕ × Event)
events_of now (arrives k) = (now, connected k) ∷ (now, called 0) ∷ []
events_of now (leaves k) = (now, disconnected k) ∷ (now, called 0) ∷ (now, called 0) ∷ []
events_of now (command payload) = (now, fault_read payload) ∷ []
events_of now obeyed = (now, fault_due) ∷ []
events_of now (stepped_to st) = (now, stepped st) ∷ []
events_of now shown = (now, signalled) ∷ []
events_of now (delivered k) = (now, sent k) ∷ []

abbrev pub turns : List (ℕ × Turn) → Server → Option Server
turns [] s = some s
turns ((now, t) ∷ later) s = elim (run (events_of now t) s) [ none ↦ none | some u ↦ turns later u ]

abbrev pub is_running : Option Cluster → Bool
is_running none = false
is_running (some c) = true

-- No call is under way, and the cluster runs exactly if there is a client.
pub record IsServed (s : Server) : Type 0 where
  pub quiet : s.calls ≡ []
  pub served : is_running s.cluster ≡ not (no_clients s.clients)

abbrev pub server : List Client → Option Cluster → List FaultPayload → List Call → Server
server cs cl fs calls = record { clients = cs; cluster = cl; fault_ch = fs; calls = calls }

module _ (now k : ℕ) (cl : Option Cluster) (fs : List FaultPayload) where
  arrives-IsServed :
      (cs : List Client)
      → is_running cl ≡ not (no_clients cs)
      → IsServed (run_call now 0 (register k (server cs cl fs [])))
  unfolding run_call register proceed on_first_client broadcast build_snapshot
  arrives-IsServed [] e = first cl e
    where
      first :
          (cl : Option Cluster)
          → is_running cl ≡ false
          → IsServed (run_call now 0 (register k (server [] cl fs [])))
      first none e = record { quiet = refl; served = refl }
      first (some c) e = cc
  arrives-IsServed (x ∷ cs) e = record { quiet = refl; served = e }

  unregister-stranger :
      (cs : List Client) (calls : List Call)
      → has_client k cs ≡ false
      → unregister k (server cs cl fs calls) ≡ server cs cl fs calls
  unfolding unregister
  unregister-stranger cs calls stranger = rw (stranger, if◌then◌else◌) refl

  unregister-client :
      (cs : List Client) (calls : List Call)
      → has_client k cs ≡ true
      → unregister k (server cs cl fs calls)
        ≡ server
            (without k cs)
            cl
            fs
            (if no_clients (without k cs) then calls ++ stop_if_no_clients ∷ [] else calls)
  unfolding unregister
  unregister-client cs calls known = rw (known, if◌then◌else◌) refl

  -- Whoever counts no clients goes on to stop.
  run_call-check :
      (cs : List Client)
      → no_clients cs ≡ true
      → run_call now 0 (server cs cl fs (stop_if_no_clients ∷ [])) ≡ server cs cl fs (stop ∷ [])
  unfolding run_call proceed
  run_call-check cs nobody =
      ap (λ b. if b then server cs cl fs (stop ∷ []) else server cs cl fs []) nobody

  left-IsServed :
      (cs : List Client)
      → is_running cl ≡ not (no_clients cs)
      → IsServed (run_call now 0 (run_call now 0 (unregister k (server cs cl fs []))))
  unfolding run_call proceed
  left-IsServed cs e = elim (Bool-cases (has_client k cs)) [
    | inr stranger ↦
        subst (λ s. IsServed (run_call now 0 (run_call now 0 s)))
          (sym (unregister-stranger cs [] stranger)) (record { quiet = refl; served = e })
    | inl known ↦
        subst (λ s. IsServed (run_call now 0 (run_call now 0 s)))
          (sym (unregister-client cs [] known))
          (elim (Bool-cases (no_clients (without k cs))) [
            | inl last ↦
                rw (last, if◌then◌else◌)
                  (subst (λ s. IsServed (run_call now 0 s))
                    (sym (run_call-check (without k cs) last))
                    (record { quiet = refl; served = ap not (sym last) }))
            | inr others ↦
                rw (others, if◌then◌else◌)
                  (record { quiet = refl; served = e ∙ ap not (somebody cs known ∙ sym others) })
          ])
  ]
    where
      somebody : (cs : List Client) → has_client k cs ≡ true → no_clients cs ≡ false
      somebody [] h = cc
      somebody (c ∷ cs) h = refl

no_clients-map : (f : Client → Client) (cs : List Client) → no_clients (map f cs) ≡ no_clients cs
no_clients-map f [] = refl
no_clients-map f (c ∷ cs) = refl

no_clients-written : (k : ℕ) (cs : List Client) → no_clients (written k cs) ≡ no_clients cs
no_clients-written k [] = refl
no_clients-written k (c ∷ cs) = refl

cluster_step-IsServed :
    (now : ℕ) (st : Step) (cs : List Client) (cl : Option Cluster) (fs : List FaultPayload)
    → is_running cl ≡ not (no_clients cs)
    → IfSome IsServed (cluster_step now st (server cs cl fs []))
unfolding cluster_step
cluster_step-IsServed now st cs none fs e = record { quiet = refl; served = e }
cluster_step-IsServed now st cs (some c) fs e =
    IfSome-map IsServed _ (step now st c)
      (IfSome-found _ (step now st c) (λ d found. record { quiet = refl; served = e }))

snapshot_loop-IsServed :
    (now : ℕ) (cs : List Client) (cl : Option Cluster) (fs : List FaultPayload)
    → is_running cl ≡ not (no_clients cs)
    → IfSome IsServed (snapshot_loop now (server cs cl fs []))
unfolding snapshot_loop broadcast
snapshot_loop-IsServed now cs none fs e = record { quiet = refl; served = e }
snapshot_loop-IsServed now cs (some c) fs e =
    IfSome-map IsServed _ after
      (broadcasted after (cluster_step-IsServed now emit cs (some c) fs e))
  where
    after : Option Server
    after = cluster_step now emit (server cs (some c) fs [])

    broadcasted :
        (o : Option Server)
        → IfSome IsServed o
        → IfSome (λ s. IsServed (broadcast (build_snapshot now c).1 s)) o
    broadcasted none h = tt
    broadcasted (some s) h = record {
      quiet = h.quiet;
      served = h.served ∙ ap not (sym (no_clients-map (offer (build_snapshot now c).1) s.clients));
    }

fault_loop-IsServed :
    (now : ℕ) (cs : List Client) (cl : Option Cluster) (fs : List FaultPayload)
    → is_running cl ≡ not (no_clients cs)
    → IfSome IsServed (fault_loop now (server cs cl fs []))
unfolding fault_loop
fault_loop-IsServed now cs cl [] e = record { quiet = refl; served = e }
fault_loop-IsServed now cs none (f ∷ fs) e = record { quiet = refl; served = e }
fault_loop-IsServed now cs (some c) (f ∷ fs) e =
    IfSome-map IsServed _ (apply_fault now f c)
      (IfSome-found _ (apply_fault now f c) (λ d found. record { quiet = refl; served = e }))

-- A run of one event.
alone :
    (o : Option Server)
    → IfSome IsServed o
    → IfSome IsServed (elim o [ none ↦ none | some t ↦ run [] t ])
unfolding run
alone none h = tt
alone (some s) h = h

turn-IsServed :
    (now : ℕ) (t : Turn) (cs : List Client) (cl : Option Cluster) (fs : List FaultPayload)
    → is_running cl ≡ not (no_clients cs)
    → IfSome IsServed (run (events_of now t) (server cs cl fs []))
unfolding run handle read_fault
turn-IsServed now (arrives k) cs cl fs e = arrives-IsServed now k cl fs cs e
turn-IsServed now (leaves k) cs cl fs e = left-IsServed now k cl fs cs e
turn-IsServed now (command payload) cs cl fs e =
    if_of IsServed (ltb (length fs) 16) (record { quiet = refl; served = e })
      (record { quiet = refl; served = e })
turn-IsServed now obeyed cs cl fs e = alone _ (fault_loop-IsServed now cs cl fs e)
turn-IsServed now (stepped_to st) cs cl fs e = alone _ (cluster_step-IsServed now st cs cl fs e)
turn-IsServed now shown cs cl fs e = alone _ (snapshot_loop-IsServed now cs cl fs e)
turn-IsServed now (delivered k) cs cl fs e = record {
  quiet = refl;
  served = e ∙ ap not (sym (no_clients-written k cs));
}

-- From the start on, with clients that come and go and each hook over before the next of them, and
-- whatever else happens between: the cluster runs exactly while there is a client.
pub turns-IsServed : (ts : List (ℕ × Turn)) (s : Server) → turns ts new_server ≡ some s → IsServed s
unfolding new_server
turns-IsServed ts s e =
    subst (IfSome IsServed) e (all ts new_server (record { quiet = refl; served = refl }))
  where
    all : (ts : List (ℕ × Turn)) (s : Server) → IsServed s → IfSome IsServed (turns ts s)
    all [] s h = h
    all ((now, t) ∷ later) s h =
        IfSome-elim IsServed IsServed (run (events_of now t) s) none (turns later)
          (subst
            (λ calls.
              IfSome IsServed (run (events_of now t) (server s.clients s.cluster s.fault_ch calls)))
            (sym h.quiet) (turn-IsServed now t s.clients s.cluster s.fault_ch h.served))
          tt (λ u k. all later u k)
