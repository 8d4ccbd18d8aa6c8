-- ===== src/Socket.antt =====
-- The hook that owns the WebSocket (frontend/src/hooks/useRaftWS.js): its refs, the sockets and
-- timers that it holds in the browser, and its handlers. Sockets and timers are numbered in the
-- order of their creation.
pub mod Events
pub mod Phase
pub mod Batch
pub mod Life
pub mod Unmount
pub mod Coalesce
pub mod Feeds
use Prim.Native.String.{◌++◌ as join}
use raft_visualizer.Prelude.{
  ℕ, suc, Bool, true, false, not, ◌&&◌, ◌||◌, Option, none, some, List, [], ◌∷◌, ◌++◌, String, ◌==◌,
  nat_eq, string_eq, if◌then◌else◌, includes, filter,
}
use raft_visualizer.Cluster.{Payload}
use raft_visualizer.Fault.{Text, Fault}
use raft_visualizer.Store.{
  Store, connecting, connected, reconnecting, set_ws_status, set_send_fault,
  set_send_client_command,
}
use raft_visualizer.Store.Update.{apply_state_update}

-- `env` is `import.meta.env.VITE_WS_URL`; an empty text counts as none.
pub get_ws_url : Option String → String → String → String
get_ws_url none protocol host =
    join (if protocol == "https:" then "wss" else "ws") (join "://" (join host "/ws"))
get_ws_url (some env) protocol host =
    if env == ""
    then join (if protocol == "https:" then "wss" else "ws") (join "://" (join host "/ws"))
    else env

-- The data of a message: no JSON or no object, a type that the hook ignores, or a state. `none`
-- is a payload that is null or missing.
pub data Frame : Type 0 where
  garbage other : Frame
  state_update : Option Payload → Frame

-- What the hook writes to the socket.
pub data Outgoing : Type 0 where
  fault_inject : Fault → Outgoing
  client_command : Text → Outgoing

pub record Hook : Type 0 where
  pub store : Store
  -- the refs
  pub ws : Option ℕ
  pub timer : Option ℕ
  pub disposed : Bool
  pub is_mobile : Bool
  pub flush_timer : Option ℕ
  pub pending_payload : Option Payload
  -- the browser: sockets that are open, sockets that have not fired `close` to a handler yet, and
  -- timers that have not fired
  pub open_sockets : List ℕ
  pub unclosed : List ℕ
  pub timers : List ℕ
  pub flush_timers : List ℕ
  pub next_socket : ℕ
  pub next_timer : ℕ

abbrev pub remove : ℕ → List ℕ → List ℕ
remove k xs = filter (λ x. not (x == k)) xs

-- `clearTimeout(ref.current)`
abbrev pub clear : Option ℕ → List ℕ → List ℕ
clear none xs = xs
clear (some k) xs = remove k xs

-- `wsRef.current === ws`, for a socket
abbrev pub is_current : Option ℕ → ℕ → Bool
is_current none k = false
is_current (some j) k = j == k

-- The test on top of the socket's handlers.
abbrev pub ignores : Hook → ℕ → Bool
ignores h k = h.disposed || not (is_current h.ws k)

unfoldable pub connect : Hook → Hook
connect h = if h.disposed then h else record h {
  store = set_ws_status connecting h.store;
  ws = some h.next_socket;
  unclosed = h.next_socket ∷ h.unclosed;
  next_socket = suc h.next_socket;
}

-- The times are those of `applyStateUpdate`.
unfoldable pub schedule_state_apply : String → String → Option Payload → Hook → Hook
schedule_state_apply t1 t2 payload h =
    if not h.is_mobile
    then record h { store = apply_state_update t1 t2 payload h.store }
    else elim h.flush_timer [
      | some k ↦ record h { pending_payload = payload }
      | none ↦ record h {
        pending_payload = payload;
        flush_timer = some h.next_timer;
        flush_timers = h.next_timer ∷ h.flush_timers;
        next_timer = suc h.next_timer;
      }
    ]

-- The callback of the flush timer.
unfoldable pub flush : String → String → Hook → Hook
flush t1 t2 h = elim h.pending_payload [
  | none ↦ record h { flush_timer = none; pending_payload = none }
  | some p ↦ record h {
    flush_timer = none;
    pending_payload = none;
    store = apply_state_update t1 t2 (some p) h.store;
  }
]

unfoldable pub on_open : ℕ → Hook → Hook
on_open k h = if ignores h k then h else record h { store = set_ws_status connected h.store }

unfoldable pub on_message : ℕ → String → String → Frame → Hook → Hook
on_message k t1 t2 garbage h = h
on_message k t1 t2 other h = h
on_message k t1 t2 (state_update payload) h =
    if ignores h k then h else schedule_state_apply t1 t2 payload h

unfoldable pub on_close : ℕ → Hook → Hook
on_close k h = if ignores h k then h else record h {
  store = set_ws_status reconnecting h.store;
  timer = some h.next_timer;
  timers = h.next_timer ∷ h.timers;
  next_timer = suc h.next_timer;
}

-- `ws.close()`: the socket is no longer open; its `close` event comes later.
abbrev pub close_socket : ℕ → Hook → Hook
close_socket k h = record h { open_sockets = remove k h.open_sockets }

unfoldable pub on_error : ℕ → Hook → Hook
on_error k h = if ignores h k then h else close_socket k h

-- `wsRef.current?.readyState === WebSocket.OPEN`
abbrev pub is_ready : Hook → Bool
is_ready h = elim h.ws [ none ↦ false | some k ↦ includes h.open_sockets k ]

unfoldable pub send_fault : Fault → Hook → List Outgoing
send_fault f h = if is_ready h then fault_inject f ∷ [] else []

unfoldable pub send_client_command : Text → Hook → List Outgoing
send_client_command command h = if is_ready h then client_command command ∷ [] else []

-- The effect, with the media query's answer.
unfoldable pub mount : Bool → Hook → Hook
unfolding connect
mount matches h = connect (record h {
  disposed = false;
  is_mobile = matches;
  store = set_send_client_command true (set_send_fault true h.store);
})

-- The cleanup without its last lines, which close the socket.
abbrev pub release : Hook → Hook
release h = record h {
  disposed = true;
  timers = clear h.timer h.timers;
  timer = none;
  flush_timers = clear h.flush_timer h.flush_timers;
  flush_timer = none;
  pending_payload = none;
  store = set_send_client_command false (set_send_fault false h.store);
  ws = none;
}

-- A socket whose `onclose` is null fires no `close` to the hook.
unfoldable pub unmount : Hook → Hook
unmount h = elim h.ws [
  | none ↦ release h
  | some k ↦ record (close_socket k (release h)) { unclosed = remove k h.unclosed }
]
