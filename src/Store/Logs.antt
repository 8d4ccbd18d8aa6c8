-- ===== src/Store/Logs.antt =====
-- Emission of event log lines: `makeLog` with its counter, and `logs.push(makeLog(...))`
-- (frontend/src/store/clusterStore.js).
pub mod Numbering
use raft_visualizer.Prelude.{ℕ, suc, List, [], ◌∷◌, ◌++◌, String}
use raft_visualizer.Cluster.{EventLog, Level}

-- The counter `nextEventId` and the array under construction.
pub record Emitter : Type 0 where
  pub next_event_id : ℕ
  pub logs : List EventLog

abbrev pub make_log : ℕ → ℕ → ℕ → String → ℕ → Level → String → EventLog
make_log id from to event_type term level time = record {
  id = id;
  time = time;
  from = from;
  to = to;
  event_type = event_type;
  term = term;
  level = level;
}

abbrev pub push_log : ℕ → ℕ → String → ℕ → Level → String → Emitter → Emitter
push_log from to event_type term level time em = record {
  next_event_id = suc em.next_event_id;
  logs = em.logs ++ make_log em.next_event_id from to event_type term level time ∷ [];
}
