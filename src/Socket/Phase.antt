-- ===== src/Socket/Phase.antt =====
-- The life of the connection: after every run of events the hook is unmounted, or holds one socket
-- that has not closed, or waits for one timer that opens the next.
use raft_visualizer.Prelude.{
  ℕ, ◌≡◌, ◌≢◌, inl, inr, Bool, true, false, none, some, [], ◌∷◌, arith, Bool-cases, nat_eq, ◌==◌,
}
use raft_visualizer.Store.{reconnecting, set_ws_status, set_send_fault, set_send_client_command}
use raft_visualizer.Socket.{Hook, connect, on_open, on_close, on_error, mount, unmount}
use raft_visualizer.Socket.Events.{
  opened, closed, errored, reconnect_due, unmounted, mounted, handle,
}

pub data Phase (h : Hook) : Type 0 where
  -- Nothing is left: no socket, no timer, no payload.
  gone :
      h.disposed ≡ true
      → h.ws ≡ none
      → h.unclosed ≡ []
      → h.timers ≡ []
      → h.flush_timer ≡ none
      → h.pending_payload ≡ none
      → Phase h
  -- One socket is alive, and it is the current one.
  linked :
      (k : ℕ)
      → h.disposed ≡ false
      → h.ws ≡ some k
      → h.unclosed ≡ k ∷ []
      → h.timers ≡ []
      → h.store.ws_status ≢ reconnecting
      → Phase h
  -- No socket is alive, and one timer will open the next.
  waiting :
      (k : ℕ)
      → h.disposed ≡ false
      → h.timer ≡ some k
      → h.timers ≡ k ∷ []
      → h.unclosed ≡ []
      → h.store.ws_status ≡ reconnecting
      → Phase h

pub on_open-Phase : (k : ℕ) (h : Hook) → Phase h → Phase (handle (opened k) h)
unfolding handle on_open set_ws_status
on_open-Phase k h (gone d w u t f p) =
    gone (ground arith) (ground arith) (ground arith) (ground arith) (ground arith) (ground arith)
on_open-Phase k h (linked j d w u t s) =
    linked j (ground arith) (ground arith) (ground arith) (ground arith) (ground arith)
on_open-Phase k h (waiting j d w u t s) =
    waiting j (ground arith) (ground arith) (ground arith) (ground arith) (ground arith)

pub on_close-Phase : (k : ℕ) (h : Hook) → Phase h → Phase (handle (closed k) h)
unfolding handle on_close set_ws_status
on_close-Phase k h (gone d w u t f p) =
    gone (ground arith) (ground arith) (ground arith) (ground arith) (ground arith) (ground arith)
on_close-Phase k h (linked j d w u t s) = elim (Bool-cases (j == k)) [
  | inl e ↦
      waiting h.next_timer (ground arith) (ground arith) (ground arith) (ground arith)
        (ground arith)
  | inr e ↦ linked j (ground arith) (ground arith) (ground arith) (ground arith) (ground arith)
]
on_close-Phase k h (waiting j d w u t s) =
    waiting j (ground arith) (ground arith) (ground arith) (ground arith) (ground arith)

pub on_error-Phase : (k : ℕ) (h : Hook) → Phase h → Phase (handle (errored k) h)
unfolding handle on_error
on_error-Phase k h (gone d w u t f p) =
    gone (ground arith) (ground arith) (ground arith) (ground arith) (ground arith) (ground arith)
on_error-Phase k h (linked j d w u t s) =
    linked j (ground arith) (ground arith) (ground arith) (ground arith) (ground arith)
on_error-Phase k h (waiting j d w u t s) =
    waiting j (ground arith) (ground arith) (ground arith) (ground arith) (ground arith)

pub reconnect-Phase : (k : ℕ) (h : Hook) → Phase h → Phase (handle (reconnect_due k) h)
unfolding handle connect set_ws_status
reconnect-Phase k h (gone d w u t f p) =
    gone (ground arith) (ground arith) (ground arith) (ground arith) (ground arith) (ground arith)
reconnect-Phase k h (linked j d w u t s) =
    linked j (ground arith) (ground arith) (ground arith) (ground arith) (ground arith)
reconnect-Phase k h (waiting j d w t u s) = elim (Bool-cases (j == k)) [
  | inl e ↦
      linked h.next_socket (ground arith) (ground arith) (ground arith) (ground arith)
        (ground arith)
  | inr e ↦ waiting j (ground arith) (ground arith) (ground arith) (ground arith) (ground arith)
]

pub unmount-Phase : (h : Hook) → Phase h → Phase (handle unmounted h)
unfolding handle unmount set_send_fault set_send_client_command
unmount-Phase h (gone d w u t f p) =
    gone (ground arith) (ground arith) (ground arith) (ground arith) (ground arith) (ground arith)
unmount-Phase h (linked j d w u t s) =
    gone (ground arith) (ground arith) (ground arith) (ground arith) (ground arith) (ground arith)
unmount-Phase h (waiting j d w t u s) =
    gone (ground arith) (ground arith) (ground arith) (ground arith) (ground arith) (ground arith)

pub mount-Phase : (matches : Bool) (h : Hook) → Phase h → Phase (handle (mounted matches) h)
unfolding handle mount set_send_fault set_send_client_command set_ws_status
mount-Phase matches h (gone d w u t f p) =
    linked h.next_socket (ground arith) (ground arith) (ground arith) (ground arith) (ground arith)
mount-Phase matches h (linked j d w u t s) =
    linked j (ground arith) (ground arith) (ground arith) (ground arith) (ground arith)
mount-Phase matches h (waiting j d w u t s) =
    waiting j (ground arith) (ground arith) (ground arith) (ground arith) (ground arith)
