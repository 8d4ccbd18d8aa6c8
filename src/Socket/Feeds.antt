-- ===== src/Socket/Feeds.antt =====
-- The hook and the store: what the hook does to the store it does by the store's calls.
use raft_visualizer.Prelude.{
  ℕ, suc, Bool, true, false, not, Option, none, some, List, [], ◌∷◌, String, if◌then◌else◌,
  includes, nat_eq,
}
use raft_visualizer.Cluster.{Payload}
use raft_visualizer.Store.{
  connecting, connected, reconnecting, init, set_send_fault, set_send_client_command,
}
use raft_visualizer.Store.Action.{Action, step}
use raft_visualizer.Store.Invariant.{step-IsValid, init-IsValid}
use raft_visualizer.Store.Invariant as Invariant
use raft_visualizer.Socket.{
  Hook, Frame, garbage, other, state_update, remove, ignores, connect, schedule_state_apply, flush,
  on_open, on_message, on_close, on_error, close_socket, mount, release, unmount,
}
use raft_visualizer.Socket.Events.{
  Event, opened, closed, errored, message, reconnect_due, flush_due, media_change, unmounted,
  mounted, fault, command, handle, run,
}
use raft_visualizer.Socket.Life.{blank}

abbrev Keeps : Hook → Type 0
Keeps h = Invariant.IsValid h.store

if-Keeps : (b : Bool) (g h : Hook) → Keeps g → Keeps h → Keeps (if b then g else h)
if-Keeps true g h v w = v
if-Keeps false g h v w = w

connect-Keeps : (h : Hook) → Keeps h → Keeps (connect h)
unfolding connect step
connect-Keeps h v = if-Keeps h.disposed _ _ v (step-IsValid (Action.ws connecting) v)

schedule-Keeps :
    (t1 t2 : String) (payload : Option Payload) (h : Hook)
    → Keeps h
    → Keeps (schedule_state_apply t1 t2 payload h)
unfolding schedule_state_apply step
schedule-Keeps t1 t2 payload h v =
    if-Keeps (not h.is_mobile) _ _ (step-IsValid (Action.update t1 t2 payload) v)
      (by_timer h.flush_timer)
  where
    by_timer :
        (o : Option ℕ)
        → Keeps (elim o [
          | some k ↦ record h { pending_payload = payload }
          | none ↦ record h {
            pending_payload = payload;
            flush_timer = some h.next_timer;
            flush_timers = h.next_timer ∷ h.flush_timers;
            next_timer = suc h.next_timer;
          }
        ])
    by_timer none = v
    by_timer (some k) = v

flush-Keeps : (t1 t2 : String) (h : Hook) → Keeps h → Keeps (flush t1 t2 h)
unfolding flush step
flush-Keeps t1 t2 h v = by_payload h.pending_payload
  where
    by_payload :
        (o : Option Payload)
        → Keeps (elim o [
          | none ↦ record h { flush_timer = none; pending_payload = none }
          | some p ↦ record h {
            flush_timer = none;
            pending_payload = none;
            store = step (Action.update t1 t2 (some p)) h.store;
          }
        ])
    by_payload none = v
    by_payload (some p) = step-IsValid (Action.update t1 t2 (some p)) v

on_message-Keeps :
    (k : ℕ) (t1 t2 : String) (frame : Frame) (h : Hook)
    → Keeps h
    → Keeps (on_message k t1 t2 frame h)
unfolding on_message
on_message-Keeps k t1 t2 garbage h v = v
on_message-Keeps k t1 t2 other h v = v
on_message-Keeps k t1 t2 (state_update payload) h v =
    if-Keeps (ignores h k) _ _ v (schedule-Keeps t1 t2 payload h v)

mount-Keeps : (matches : Bool) (h : Hook) → Keeps h → Keeps (mount matches h)
unfolding mount step
mount-Keeps matches h v =
    connect-Keeps
      (record h {
        disposed = false;
        is_mobile = matches;
        store = set_send_client_command true (set_send_fault true h.store);
      })
      (step-IsValid (Action.command_sender true) (step-IsValid (Action.fault_sender true) v))

unmount-Keeps : (h : Hook) → Keeps h → Keeps (unmount h)
unfolding unmount step
unmount-Keeps h v = by_socket h.ws
  where
    released : Keeps (release h)
    released =
        step-IsValid (Action.command_sender false) (step-IsValid (Action.fault_sender false) v)

    by_socket :
        (o : Option ℕ)
        → Keeps (elim o [
          | none ↦ release h
          | some k ↦ record (close_socket k (release h)) { unclosed = remove k h.unclosed }
        ])
    by_socket none = released
    by_socket (some k) = released

handle-Keeps : (e : Event) (h : Hook) → Keeps h → Keeps (handle e h)
unfolding handle on_open on_close on_error step
handle-Keeps (opened k) h v =
    if-Keeps (includes h.unclosed k) _ _
      (if-Keeps (ignores h k) _ _ v (step-IsValid (Action.ws connected) v)) v
handle-Keeps (closed k) h v =
    if-Keeps (includes h.unclosed k) _ _
      (if-Keeps (ignores h k) _ _ v (step-IsValid (Action.ws reconnecting) v)) v
handle-Keeps (errored k) h v = if-Keeps (ignores h k) _ _ v v
handle-Keeps (message k t1 t2 frame) h v = on_message-Keeps k t1 t2 frame h v
handle-Keeps (reconnect_due k) h v = if-Keeps (includes h.timers k) _ _ (connect-Keeps _ v) v
handle-Keeps (flush_due k t1 t2) h v =
    if-Keeps (includes h.flush_timers k) _ _ (flush-Keeps t1 t2 _ v) v
handle-Keeps (media_change matches) h v = if-Keeps h.disposed _ _ v v
handle-Keeps unmounted h v = unmount-Keeps h v
handle-Keeps (mounted matches) h v = if-Keeps h.disposed _ _ (mount-Keeps matches h v) v
handle-Keeps (fault f) h v = v
handle-Keeps (command c) h v = v

run-Keeps : (es : List Event) (h : Hook) → Keeps h → Keeps (run es h)
unfolding run
run-Keeps [] h v = v
run-Keeps (e ∷ es) h v = run-Keeps es (handle e h) (handle-Keeps e h v)

-- The hook keeps the invariant of the store: from the first mount over a new store on, whatever the
-- browser, the backend and the page do to the hook, the event log and the feed stay bounded, the
-- ids of the lines consecutive, the pulse tokens fresh, the language the stored one, and Group A
-- without a repetition and empty outside a partition.
pub run-mount-StoreIsValid :
    (stored : Option String) (matches : Bool) (es : List Event)
    → Invariant.IsValid (run es (mount matches (blank (init stored)))).store
run-mount-StoreIsValid stored matches es =
    run-Keeps es _ (mount-Keeps matches (blank (init stored)) (init-IsValid stored))
