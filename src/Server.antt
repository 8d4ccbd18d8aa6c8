-- ===== src/Server.antt =====
-- The server between the browsers and the cluster: the hub of the WebSocket clients
-- (backend/ws/hub.go, with the buffer of backend/ws/handler.go) and the manager that runs the
-- cluster while there are clients (`clusterManager` and `faultLoop` of backend/main.go).
pub mod Hooks
pub mod Handover
use raft_visualizer.Prelude.{
  ℕ, zero, suc, Bool, true, false, not, Option, none, some, List, [], ◌∷◌, ◌++◌, map, filter,
  length, ltb, ◌==◌, nat_eq, if◌then◌else◌,
}
use mathlib.Core.Option.{map as map_option}
use raft_visualizer.Cluster.{Payload}
use raft_visualizer.Simulator.{Cluster, new_cluster, build_snapshot}
use raft_visualizer.Simulator.Steps.{Step, emit, step}
use raft_visualizer.Simulator.Faults.{FaultPayload, apply_fault}

-- A connection, with the snapshots in its `send` channel.
pub record Client : Type 0 where
  pub id : ℕ
  pub send : List Payload

-- A call of one of the two hooks that has begun and is not over: `EnsureRunning`,
-- `StopIfNoClients` before it has counted the clients, and after.
pub data Call : Type 0 where
  ensure_running stop_if_no_clients stop : Call

pub record Server : Type 0 where
  pub clients : List Client
  pub cluster : Option Cluster
  pub fault_ch : List FaultPayload
  pub calls : List Call

abbrev pub cluster_size : ℕ
cluster_size = 5

abbrev pub send_size : ℕ
send_size = 64

abbrev pub fault_size : ℕ
fault_size = 16

unfoldable pub new_server : Server
new_server = record { clients = []; cluster = none; fault_ch = []; calls = [] }

-- The send to one client, which drops the frame when the channel is full.
abbrev pub offer : Payload → Client → Client
offer payload c =
    if ltb (length c.send) send_size then record c { send = c.send ++ payload ∷ [] } else c

unfoldable pub broadcast : Payload → Server → Server
broadcast payload s = record s { clients = map (offer payload) s.clients }

abbrev pub no_clients : List Client → Bool
no_clients [] = true
no_clients (c ∷ cs) = false

-- A new connection has a new id.
unfoldable pub register : ℕ → Server → Server
register k s = record s {
  clients = s.clients ++ record { id = k; send = [] } ∷ [];
  calls = if no_clients s.clients then s.calls ++ ensure_running ∷ [] else s.calls;
}

abbrev pub has_client : ℕ → List Client → Bool
has_client k [] = false
has_client k (c ∷ cs) = if c.id == k then true else has_client k cs

abbrev pub without : ℕ → List Client → List Client
without k cs = filter (λ (c : Client). not (c.id == k)) cs

unfoldable pub unregister : ℕ → Server → Server
unregister k s =
    if has_client k s.clients
    then record s {
      clients = without k s.clients;
      calls =
          if no_clients (without k s.clients) then s.calls ++ stop_if_no_clients ∷ [] else s.calls;
    }
    else s

-- A cluster that is started pushes its first snapshot at once.
unfoldable pub on_first_client : ℕ → Server → Server
on_first_client now s = elim s.cluster [
  | some c ↦ s
  | none ↦
      let (c, payload) = build_snapshot now (new_cluster cluster_size) in
      broadcast payload (record s { cluster = some c })
]

-- `calls` without the one at `i`, and that one.
abbrev pub take_call : ℕ → List Call → Option (Call × List Call)
take_call i [] = none
take_call zero (call ∷ calls) = some (call, calls)
take_call (suc i) (call ∷ calls) =
    map_option (λ (r : Call × List Call). (r.0, call ∷ r.1)) (take_call i calls)

-- The next part of a call. The clients are counted under the hub's lock and the cluster is dropped
-- under the manager's, so that other calls may come between.
unfoldable pub proceed : ℕ → Call → Server → Server
proceed now ensure_running s = on_first_client now s
proceed now stop_if_no_clients s =
    if no_clients s.clients then record s { calls = stop ∷ s.calls } else s
proceed now stop s = record s { cluster = none }

unfoldable pub run_call : ℕ → ℕ → Server → Server
run_call now i s = elim (take_call i s.calls) [
  | none ↦ s
  | some (call, calls) ↦ proceed now call (record s { calls = calls })
]

-- A command is read from a client; it is dropped when the channel is full.
unfoldable pub read_fault : FaultPayload → Server → Server
read_fault payload s =
    if ltb (length s.fault_ch) fault_size
    then record s { fault_ch = s.fault_ch ++ payload ∷ [] }
    else s

-- One round of `faultLoop`. A command is ignored while no cluster runs. `none` is a panic.
unfoldable pub fault_loop : ℕ → Server → Option Server
fault_loop now s = elim s.fault_ch [
  | [] ↦ some s
  | fault ∷ rest ↦ elim s.cluster [
    | none ↦ some (record s { fault_ch = rest })
    | some c ↦
        map_option (λ d. record s { fault_ch = rest; cluster = some d }) (apply_fault now fault c)
  ]
]

-- A step of the cluster.
unfoldable pub cluster_step : ℕ → Step → Server → Option Server
cluster_step now st s = elim s.cluster [
  | none ↦ some s
  | some c ↦ map_option (λ d. record s { cluster = some d }) (step now st c)
]

-- A signal of the snapshot loop: the snapshot goes to every client.
unfoldable pub snapshot_loop : ℕ → Server → Option Server
snapshot_loop now s = elim s.cluster [
  | none ↦ some s
  | some c ↦ map_option (broadcast (build_snapshot now c).1) (cluster_step now emit s)
]

-- The write pump of a client takes the first snapshot of its channel.
abbrev pub written : ℕ → List Client → List Client
written k [] = []
written k (c ∷ cs) = (if c.id == k then record c { send = tail c.send } else c) ∷ written k cs
  where
    tail : List Payload → List Payload
    tail [] = []
    tail (p ∷ ps) = ps

pub data Event : Type 0 where
  connected disconnected : ℕ → Event
  called : ℕ → Event
  fault_read : FaultPayload → Event
  fault_due : Event
  stepped : Step → Event
  signalled : Event
  sent : ℕ → Event

-- `none` is a panic.
unfoldable pub handle : ℕ → Event → Server → Option Server
handle now (connected k) s = some (register k s)
handle now (disconnected k) s = some (unregister k s)
handle now (called i) s = some (run_call now i s)
handle now (fault_read payload) s = some (read_fault payload s)
handle now fault_due s = fault_loop now s
handle now (stepped st) s = cluster_step now st s
handle now signalled s = snapshot_loop now s
handle now (sent k) s = some (record s { clients = written k s.clients })

unfoldable pub run : List (ℕ × Event) → Server → Option Server
run [] s = some s
run ((now, e) ∷ later) s = elim (handle now e s) [ none ↦ none | some t ↦ run later t ]
