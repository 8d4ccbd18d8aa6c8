-- ===== src/Socket/Life.antt =====
-- The life of the hook over whole runs of events.
use raft_visualizer.Prelude.{
  ℕ, ◌≡◌, refl, Bool, false, Option, none, some, List, [], ◌∷◌, arith, nat_eq,
}
use raft_visualizer.Store.{Store, set_ws_status, set_send_fault, set_send_client_command}
use raft_visualizer.Socket.{
  Hook, garbage, other, state_update, connect, flush, on_open, on_message, on_close, on_error,
  mount, unmount, schedule_state_apply,
}
use raft_visualizer.Socket.Events.{
  Event, opened, closed, errored, message, reconnect_due, flush_due, media_change, unmounted,
  mounted, fault, command, handle, run,
}
use raft_visualizer.Socket.Phase.{
  Phase, linked, on_open-Phase, on_close-Phase, on_error-Phase, reconnect-Phase, unmount-Phase,
  mount-Phase,
}
use raft_visualizer.Socket.Batch.{message-Phase, flush-Phase, media-Phase}

abbrev pub pending : Option ℕ → List ℕ
pending none = []
pending (some k) = k ∷ []

-- The flush timer that the hook remembers is the one that is pending, so that no update is held
-- back for ever.
pub record IsValid (h : Hook) : Type 0 where
  pub phase : Phase h
  pub flushes : h.flush_timers ≡ pending h.flush_timer

handle-Phase : (e : Event) (h : Hook) → Phase h → Phase (handle e h)
handle-Phase (opened k) h p = on_open-Phase k h p
handle-Phase (closed k) h p = on_close-Phase k h p
handle-Phase (errored k) h p = on_error-Phase k h p
handle-Phase (message k t1 t2 frame) h p = message-Phase k t1 t2 frame h p
handle-Phase (reconnect_due k) h p = reconnect-Phase k h p
handle-Phase (flush_due k t1 t2) h p = flush-Phase k t1 t2 h p
handle-Phase (media_change matches) h p = media-Phase matches h p
handle-Phase unmounted h p = unmount-Phase h p
handle-Phase (mounted matches) h p = mount-Phase matches h p
handle-Phase (fault f) h p = unfold handle in p
handle-Phase (command c) h p = unfold handle in p

handle-flushes :
    (e : Event) (h : Hook)
    → h.flush_timers ≡ pending h.flush_timer
    → (handle e h).flush_timers ≡ pending (handle e h).flush_timer
unfolding handle on_open on_close on_error connect flush on_message schedule_state_apply unmount
    mount
handle-flushes (opened k) h p = ground arith
handle-flushes (closed k) h p = ground arith
handle-flushes (errored k) h p = ground arith
handle-flushes (message k t1 t2 garbage) h p = p
handle-flushes (message k t1 t2 other) h p = p
handle-flushes (message k t1 t2 (state_update payload)) h p = ground arith
handle-flushes (reconnect_due k) h p = ground arith
handle-flushes (flush_due k t1 t2) h p = ground arith
handle-flushes (media_change matches) h p = ground arith
handle-flushes unmounted h p = ground arith
handle-flushes (mounted matches) h p = ground arith
handle-flushes (fault f) h p = p
handle-flushes (command c) h p = p

pub handle-IsValid : (e : Event) {h : Hook} → IsValid h → IsValid (handle e h)
handle-IsValid e {h} v = record {
  phase = handle-Phase e h v.phase;
  flushes = handle-flushes e h v.flushes;
}

run-IsValid : (es : List Event) {h : Hook} → IsValid h → IsValid (run es h)
unfolding run
run-IsValid [] v = v
run-IsValid (e ∷ es) {h} v = run-IsValid es {h = handle e h} (handle-IsValid e v)

-- The refs before the effect runs.
abbrev pub blank : Store → Hook
blank s = record {
  store = s;
  ws = none;
  timer = none;
  disposed = false;
  is_mobile = false;
  flush_timer = none;
  pending_payload = none;
  open_sockets = [];
  unclosed = [];
  timers = [];
  flush_timers = [];
  next_socket = 0;
  next_timer = 0;
}

mount-IsValid : (s : Store) (matches : Bool) → IsValid (mount matches (blank s))
unfolding mount set_ws_status set_send_fault set_send_client_command
mount-IsValid s matches = record { phase = linked 0 refl refl refl refl (λ e. cc); flushes = refl }

-- From the first mount on, whatever the browser, the backend and the page do: the hook is
-- unmounted and holds no socket, no timer and no payload; or exactly one socket has not closed, it
-- is the current one, and no reconnect is pending; or none is left, exactly one timer will open
-- the next, and the status says so. The flush timer that the hook remembers is the pending one.
pub run-mount-IsValid :
    (s : Store) (matches : Bool) (es : List Event) → IsValid (run es (mount matches (blank s)))
run-mount-IsValid s matches es = run-IsValid es (mount-IsValid s matches)
