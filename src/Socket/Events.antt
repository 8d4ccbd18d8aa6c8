-- ===== src/Socket/Events.antt =====
-- Runs of the hook: what the browser, the backend and the page do to it, in any order
-- (frontend/src/hooks/useRaftWS.js).
use raft_visualizer.Prelude.{ℕ, Bool, List, [], ◌∷◌, ◌++◌, String, nat_eq, if◌then◌else◌, includes}
use raft_visualizer.Fault.{Text, Fault}
use raft_visualizer.Socket.{
  Hook, Frame, Outgoing, remove, connect, flush, on_open, on_message, on_close, on_error,
  send_fault, send_client_command, mount, unmount,
}

pub data Event : Type 0 where
  -- of the socket k
  opened closed errored : ℕ → Event
  message : ℕ → String → String → Frame → Event
  -- of the timer k
  reconnect_due : ℕ → Event
  flush_due : ℕ → String → String → Event
  -- of the media query
  media_change : Bool → Event
  -- of the page
  unmounted : Event
  mounted : Bool → Event
  fault : Fault → Event
  command : Text → Event

-- The browser fires a socket's `open` before its `close` only, `close` once, and a timer once and
-- only while it is pending.
unfoldable pub handle : Event → Hook → Hook
handle (opened k) h =
    if includes h.unclosed k then on_open k (record h { open_sockets = k ∷ h.open_sockets }) else h
handle (closed k) h =
    if includes h.unclosed k
    then on_close k
        (record h { unclosed = remove k h.unclosed; open_sockets = remove k h.open_sockets })
    else h
handle (errored k) h = on_error k h
handle (message k t1 t2 frame) h = on_message k t1 t2 frame h
handle (reconnect_due k) h =
    if includes h.timers k then connect (record h { timers = remove k h.timers }) else h
handle (flush_due k t1 t2) h =
    if includes h.flush_timers k
    then flush t1 t2 (record h { flush_timers = remove k h.flush_timers })
    else h
handle (media_change matches) h = if h.disposed then h else record h { is_mobile = matches }
handle unmounted h = unmount h
handle (mounted matches) h = if h.disposed then mount matches h else h
handle (fault f) h = h
handle (command c) h = h

unfoldable pub outgoing : Event → Hook → List Outgoing
outgoing (fault f) h = send_fault f h
outgoing (command c) h = send_client_command c h
outgoing _ h = []

unfoldable pub run : List Event → Hook → Hook
run [] h = h
run (e ∷ es) h = run es (handle e h)

unfoldable pub sent : List Event → Hook → List Outgoing
sent [] h = []
sent (e ∷ es) h = outgoing e h ++ sent es (handle e h)
