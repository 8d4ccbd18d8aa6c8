-- ===== src/Store/Update.antt =====
-- `applyStateUpdate`: how a payload of the backend enters the store
-- (frontend/src/store/clusterStore.js).
pub mod Quiet
pub mod Idempotent
pub mod Numbers
pub mod Pulse
pub mod Shown
use raft_visualizer.Prelude.{
  ℕ, suc, Bool, false, not, ◌||◌, Option, none, some, List, [], ◌∷◌, ◌++◌, map, String, leb, ◌==◌,
  string_eq, nat_eq, if◌then◌else◌, slice_last,
}
use raft_visualizer.JsMap.{get}
use raft_visualizer.Cluster.{RawEntry, RawNode, Entry, Node, Message, Payload, EventLog}
use raft_visualizer.Store.{Store}
use raft_visualizer.Store.Logs.{Emitter}
use raft_visualizer.Store.Diff.{diff_rpc_logs}
use raft_visualizer.Store.Derive.{by_id, derive_state_logs}

unfoldable pub should_pulse : Option Node → RawNode → Bool
should_pulse none next = false
should_pulse (some prev) next = not (prev.role == next.role) || not (prev.term == next.term)

-- `prevNode?.pulseSeq ?? 0`
abbrev pub old_pulse : Option Node → ℕ
old_pulse none = 0
old_pulse (some prev) = prev.pulse_seq

abbrev pub mark_committed : ℕ → RawEntry → Entry
mark_committed commit_index entry = record { raw = entry; committed = leb entry.index commit_index }

-- `n.log ?? []`
abbrev pub entries : Option (List RawEntry) → List RawEntry
entries none = []
entries (some log) = log

abbrev pub next_node : RawNode → ℕ → Node
next_node n pulse_seq = record {
  status = n.status;
  pulse_seq = pulse_seq;
  log = map (mark_committed n.commit_index) (entries n.log);
}

-- The nodes with their pulse tokens, and the counter `nextPulseSeq` after them.
unfoldable pub next_nodes : List (ℕ × Node) → List RawNode → ℕ → List Node × ℕ
unfolding should_pulse
next_nodes prev_by_id [] next_pulse_seq = ([], next_pulse_seq)
next_nodes prev_by_id (n ∷ rest) next_pulse_seq =
    let prev = get prev_by_id n.id in
    let pulses = should_pulse prev n in
    let (ns, seq) =
      next_nodes prev_by_id rest (if pulses then suc next_pulse_seq else next_pulse_seq) in
    (next_node n (if pulses then next_pulse_seq else old_pulse prev) ∷ ns, seq)

abbrev pub array_or_empty {ℓ} : {A : Type ℓ} → Option (List A) → List A
array_or_empty none = []
array_or_empty (some xs) = xs

-- `Array.isArray(payload?.nodes) ? payload.nodes : []`
abbrev pub raw_nodes : Option Payload → List RawNode
raw_nodes none = []
raw_nodes (some p) = array_or_empty p.nodes

abbrev pub raw_in_flight : Option Payload → List Message
raw_in_flight none = []
raw_in_flight (some p) = array_or_empty p.in_flight

-- The state lines, if there was a state before.
abbrev pub state_logs : String → List Node → List Node → ℕ → Emitter
state_logs time [] ns next_event_id = record { next_event_id = next_event_id; logs = [] }
state_logs time (p ∷ ps) ns next_event_id = derive_state_logs time (p ∷ ps) ns next_event_id

-- `freshLogs`. The two times are the readings of the clock in `deriveStateLogs` and in
-- `diffRPCLogs`.
pub fresh_logs : String → String → Store → List Node → List Message → Emitter
fresh_logs state_time rpc_time s ns next_in_flight =
    let derived = state_logs state_time s.nodes ns s.next_event_id in
    let rpcs = diff_rpc_logs rpc_time s.in_flight next_in_flight derived.next_event_id in
    record { next_event_id = rpcs.next_event_id; logs = derived.logs ++ rpcs.logs }

unfoldable pub apply_state_update : String → String → Option Payload → Store → Store
apply_state_update state_time rpc_time payload s =
    let next_in_flight = slice_last 256 (raw_in_flight payload) in
    let (ns, seq) = next_nodes (by_id s.nodes) (raw_nodes payload) s.next_pulse_seq in
    let fresh = fresh_logs state_time rpc_time s ns next_in_flight in
    record s {
      nodes = ns;
      in_flight = next_in_flight;
      event_logs = slice_last 60 (s.event_logs ++ fresh.logs);
      next_event_id = fresh.next_event_id;
      next_pulse_seq = seq;
    }
