-- ===== src/Socket/Batch.antt =====
-- State messages and the flush timer of the mobile page leave the connection alone.
use raft_visualizer.Prelude.{
  ℕ, ◌≡◌, refl, sym, subst, Bool, true, Option, none, some, arith, nat_eq, String,
}
use raft_visualizer.Cluster.{Payload}
use raft_visualizer.Store.{Store}
use raft_visualizer.Store.Update.{apply_state_update}
use raft_visualizer.Socket.{
  Hook, Frame, garbage, other, state_update, flush, on_message, schedule_state_apply,
}
use raft_visualizer.Socket.Events.{message, flush_due, media_change, handle}
use raft_visualizer.Socket.Phase.{Phase, gone, linked, waiting}

-- A state update leaves the connection's status.
ws_status-apply_state_update :
    (t1 t2 : String) (payload : Option Payload) (s : Store)
    → (apply_state_update t1 t2 payload s).ws_status ≡ s.ws_status
unfolding apply_state_update
ws_status-apply_state_update t1 t2 payload s = refl

-- Updates and timers of the mobile batch keep these fields.
record SameLink (g h : Hook) : Type 0 where
  disposed : g.disposed ≡ h.disposed
  ws : g.ws ≡ h.ws
  timer : g.timer ≡ h.timer
  timers : g.timers ≡ h.timers
  unclosed : g.unclosed ≡ h.unclosed
  status : g.store.ws_status ≡ h.store.ws_status

module _ (k : ℕ) (t1 t2 : String) (h : Hook) where
  message-SameLink : (frame : Frame) → SameLink (on_message k t1 t2 frame h) h
  unfolding on_message schedule_state_apply
  message-SameLink garbage = record {
    disposed = refl;
    ws = refl;
    timer = refl;
    timers = refl;
    unclosed = refl;
    status = refl;
  }
  message-SameLink other = record {
    disposed = refl;
    ws = refl;
    timer = refl;
    timers = refl;
    unclosed = refl;
    status = refl;
  }
  message-SameLink (state_update payload) = record {
    disposed = ground arith;
    ws = ground arith;
    timer = ground arith;
    timers = ground arith;
    unclosed = ground arith;
    status = ground (arith, ws_status-apply_state_update t1 t2 payload h.store);
  }

flush-SameLink : (k : ℕ) (t1 t2 : String) (h : Hook) → SameLink (handle (flush_due k t1 t2) h) h
unfolding handle flush
flush-SameLink k t1 t2 h = record {
  disposed = ground arith;
  ws = ground arith;
  timer = ground arith;
  timers = ground arith;
  unclosed = ground arith;
  status = by_payload h.pending_payload refl;
}
  where
    by_payload :
        (o : Option Payload)
        → h.pending_payload ≡ o
        → (handle (flush_due k t1 t2) h).store.ws_status ≡ h.store.ws_status
    by_payload none e = ground arith
    by_payload (some p) e = ground (arith, ws_status-apply_state_update t1 t2 (some p) h.store)

-- A hook that is unmounted ignores messages.
pub message_ignored :
    (k : ℕ) (t1 t2 : String) (frame : Frame) (h : Hook)
    → h.disposed ≡ true
    → on_message k t1 t2 frame h ≡ h
unfolding on_message
message_ignored k t1 t2 garbage h d = refl
message_ignored k t1 t2 other h d = refl
message_ignored k t1 t2 (state_update payload) h d = ground arith

pub message-Phase :
    (k : ℕ) (t1 t2 : String) (frame : Frame) (h : Hook)
    → Phase h
    → Phase (handle (message k t1 t2 frame) h)
unfolding handle
message-Phase k t1 t2 frame h (gone d w u t f p) =
    subst Phase (sym (message_ignored k t1 t2 frame h d)) (gone d w u t f p)
message-Phase k t1 t2 frame h (linked j d w u t s) =
    let same = message-SameLink k t1 t2 h frame in
    linked j (ground arith) (ground arith) (ground arith) (ground arith) (ground arith)
message-Phase k t1 t2 frame h (waiting j d w t u s) =
    let same = message-SameLink k t1 t2 h frame in
    waiting j (ground arith) (ground arith) (ground arith) (ground arith) (ground arith)

flush_gone :
    (k : ℕ) (t1 t2 : String) (h : Hook)
    → h.flush_timer ≡ none
    → h.pending_payload ≡ none
    → ((handle (flush_due k t1 t2) h).flush_timer ≡ none)
      × ((handle (flush_due k t1 t2) h).pending_payload ≡ none)
unfolding handle flush
flush_gone k t1 t2 h f p = (ground arith, ground arith)

pub flush-Phase :
    (k : ℕ) (t1 t2 : String) (h : Hook) → Phase h → Phase (handle (flush_due k t1 t2) h)
flush-Phase k t1 t2 h (gone d w u t f p) =
    let same = flush-SameLink k t1 t2 h in
    let (f', p') = flush_gone k t1 t2 h f p in
    gone (ground arith) (ground arith) (ground arith) (ground arith) f' p'
flush-Phase k t1 t2 h (linked j d w u t s) =
    let same = flush-SameLink k t1 t2 h in
    linked j (ground arith) (ground arith) (ground arith) (ground arith) (ground arith)
flush-Phase k t1 t2 h (waiting j d w t u s) =
    let same = flush-SameLink k t1 t2 h in
    waiting j (ground arith) (ground arith) (ground arith) (ground arith) (ground arith)

pub media-Phase : (matches : Bool) (h : Hook) → Phase h → Phase (handle (media_change matches) h)
unfolding handle
media-Phase matches h (gone d w u t f p) =
    gone (ground arith) (ground arith) (ground arith) (ground arith) (ground arith) (ground arith)
media-Phase matches h (linked j d w u t s) =
    linked j (ground arith) (ground arith) (ground arith) (ground arith) (ground arith)
media-Phase matches h (waiting j d w t u s) =
    waiting j (ground arith) (ground arith) (ground arith) (ground arith) (ground arith)
