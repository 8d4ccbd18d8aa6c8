-- ===== src/Store/Update/Numbers.antt =====
-- The ids of the lines that one update emits, and of those that it keeps.
use raft_visualizer.Prelude.{
  ℕ, ◌+◌, ◌-◌, ◌≤◌, ◌≡◌, List, [], ◌∷◌, ◌++◌, String, arith, length, length-append, drop,
  length-drop, slice_last,
}
use raft_visualizer.Cluster.{Node, Message, EventLog}
use raft_visualizer.Store.{Store}
use raft_visualizer.Store.Logs.{Emitter}
use raft_visualizer.Store.Logs.Numbering.{
  IsRun, IsRun-append, IsRun-drop, IsNumbered, empty-IsNumbered,
}
use raft_visualizer.Store.Derive.Numbers.{derive_state_logs-IsNumbered}
use raft_visualizer.Store.Diff.Numbers.{diff_rpc_logs-IsNumbered}
use raft_visualizer.Store.Update.{state_logs, fresh_logs}

state_logs-IsNumbered :
    (time : String) (prev next : List Node) (n : ℕ) → IsNumbered n (state_logs time prev next n)
state_logs-IsNumbered time [] next n = empty-IsNumbered n
state_logs-IsNumbered time (p ∷ ps) next n = derive_state_logs-IsNumbered time (p ∷ ps) next n

-- One pass after another.
IsNumbered-append :
    (n : ℕ) (a b : Emitter)
    → IsNumbered n a
    → IsNumbered a.next_event_id b
    → IsNumbered n (record { next_event_id = b.next_event_id; logs = a.logs ++ b.logs })
IsNumbered-append n a b ha hb = record {
  run = IsRun-append n a.logs b.logs ha.run (rw ha.next at hb.run);
  next = omega (arith, ha.next, hb.next, length-append a.logs b.logs);
}

pub fresh_logs-IsNumbered :
    (t1 t2 : String) (s : Store) (ns : List Node) (ms : List Message)
    → IsNumbered s.next_event_id (fresh_logs t1 t2 s ns ms)
unfolding fresh_logs
fresh_logs-IsNumbered t1 t2 s ns ms =
    IsNumbered-append s.next_event_id (state_logs t1 s.nodes ns s.next_event_id) _
      (state_logs-IsNumbered t1 s.nodes ns s.next_event_id)
      (diff_rpc_logs-IsNumbered t2 s.in_flight ms
        (state_logs t1 s.nodes ns s.next_event_id).next_event_id)

-- The lines are the last ones before the counter.
pub record IsRecent (ls : List EventLog) (next_event_id : ℕ) : Type 0 where
  pub fits : length ls ≤ next_event_id
  pub run : IsRun (next_event_id - length ls) ls

pub slice_last-IsRecent :
    (k : ℕ) (ls : List EventLog) (n : ℕ) (em : Emitter)
    → IsRecent ls n
    → IsNumbered n em
    → IsRecent (slice_last k (ls ++ em.logs)) em.next_event_id
slice_last-IsRecent k ls n em h e = record {
  fits = omega (arith, h.fits, e.next, len, rest);
  run = rw start (IsRun-drop cut (n - length ls) all (omega arith) joined);
}
  where
    all : List EventLog
    all = ls ++ em.logs

    cut : ℕ
    cut = length all - k

    len : length all ≡ length ls + length em.logs
    len = length-append ls em.logs

    rest : length (drop cut all) ≡ length all - cut
    rest = length-drop cut all

    joined : IsRun (n - length ls) all
    joined =
        let e' : n ≡ n - length ls + length ls = omega (arith, h.fits) in
        IsRun-append (n - length ls) ls em.logs h.run (rw e' at e.run)

    start : em.next_event_id - length (drop cut all) ≡ n - length ls + cut
    start = omega (arith, h.fits, e.next, len, rest)
