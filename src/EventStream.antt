-- ===== src/EventStream.antt =====
-- The event log as the page shows it, and the scrolling to its end
-- (frontend/src/components/EventStream.jsx).
use raft_visualizer.Prelude.{ℕ, Bool, List, [], ◌∷◌, map, String, ◌==◌, nat_eq, if◌then◌else◌}
use raft_visualizer.Cluster.{EventLog, Level}
use raft_visualizer.Store.{Store}
use raft_visualizer.Texts.{event_copy}

-- A line: `[time] [nodeA → nodeB] [type] [t4]`, by its parts.
pub record Line : Type 0 where
  pub key : ℕ
  pub level : Level
  pub time : String
  pub route : ℕ × ℕ
  pub type : String
  pub term : ℕ

unfoldable pub line : EventLog → Line
line ev = record {
  key = ev.id;
  level = ev.level;
  time = ev.time;
  route = (ev.from, ev.to);
  type = ev.event_type;
  term = ev.term;
}

pub data Body : Type 0 where
  empty : String → Body
  lines : List Line → Body

pub record Stream : Type 0 where
  pub fill : Bool
  pub title : String
  pub body : Body

abbrev pub body_of : List EventLog → String → Body
body_of [] text = empty text
body_of (ev ∷ events) text = lines (map line (ev ∷ events))

unfoldable pub stream : Bool → Store → Stream
stream fill s = record {
  fill = fill;
  title = (event_copy s.lang).title;
  body = body_of s.event_logs (event_copy s.lang).empty;
}

-- The list's element, in whole pixels.
pub record Element : Type 0 where
  pub scroll_top : ℕ
  pub scroll_height : ℕ

-- The effect on a change of the number of lines.
unfoldable pub scroll_effect : ℕ → ℕ → Element → Element
scroll_effect before now el =
    if before == now then el else record el { scroll_top = el.scroll_height }
