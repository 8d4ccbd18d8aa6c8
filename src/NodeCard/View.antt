-- ===== src/NodeCard/View.antt =====
-- What a node's card shows (the markup of frontend/src/components/NodeCard.jsx, without the hidden
-- handles).
use raft_visualizer.Prelude.{ℕ, Option, none, some, List, String, if◌then◌else◌}
use raft_visualizer.Cluster.{Node}
use raft_visualizer.Store.{Store, Lang, en, zh}
use raft_visualizer.NodeCard.{Style, class_names}

unfoldable pub dead_badge_label : Lang → String
dead_badge_label zh = "故障"
dead_badge_label en = "offline"

-- The text under the id: `t` and the term, or the badge of a dead node.
pub data Meta : Type 0 where
  term : ℕ → Meta
  badge : String → Meta

-- `key` has the two numbers of the key: a new pulse makes a new element.
pub record Card : Type 0 where
  pub key : ℕ × ℕ
  pub class_names : List Style
  pub id : ℕ
  pub note : Meta

unfoldable pub card : Store → Option Node → Option Card
card s none = none
card s (some n) = some (record {
  key = (n.id, n.pulse_seq);
  class_names = class_names s n;
  id = n.id;
  note = if n.alive then term n.term else badge (dead_badge_label s.lang);
})
