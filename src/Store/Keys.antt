-- ===== src/Store/Keys.antt =====
-- The ids of the lines of the event log, which `EventStream.jsx` uses as keys
-- (frontend/src/components/EventStream.jsx).
use raft_visualizer.Prelude.{
  ℕ, suc, ◌<◌, ◌≡◌, refl, false, Option, List, [], ◌∷◌, map, String, arith, nat_eq, includes,
  IsDistinct,
}
use raft_visualizer.Cluster.{EventLog}
use raft_visualizer.Store.{init}
use raft_visualizer.Store.Logs.Numbering.{IsRun}
use raft_visualizer.Store.Action.{Action, run}
use raft_visualizer.Store.Invariant.{run-init-IsValid}

abbrev pub event_ids : List EventLog → List ℕ
event_ids = map (λ l. l.id)

-- A later run does not hold an earlier id.
IsRun-absent :
    (n k : ℕ) (ls : List EventLog) → k < n → IsRun n ls → includes (event_ids ls) k ≡ false
IsRun-absent n k [] h r = refl
IsRun-absent n k (l ∷ ls) h r = ground (arith, h, r.0, IsRun-absent (suc n) k ls (omega arith) r.1)

IsRun-IsDistinct : (n : ℕ) (ls : List EventLog) → IsRun n ls → IsDistinct (event_ids ls)
IsRun-IsDistinct n [] r = tt
IsRun-IsDistinct n (l ∷ ls) r =
    (IsRun-absent (suc n) l.id ls (omega (arith, r.0)) r.1, IsRun-IsDistinct (suc n) ls r.1)

-- Whatever calls are made of a new store, no two lines of its event log have the same id.
pub event_ids-IsDistinct :
    (stored : Option String) (calls : List Action)
    → IsDistinct (event_ids (run calls (init stored)).event_logs)
event_ids-IsDistinct stored calls =
    IsRun-IsDistinct _ _ (run-init-IsValid stored calls).feed.recent.run
