-- ===== src/LogPanel/View.antt =====
-- What the panel of the selected node shows (the markup of frontend/src/components/LogPanel.jsx,
-- without its styles).
use raft_visualizer.Prelude.{ℕ, Bool, Option, none, some, List, [], ◌∷◌, map, String}
use raft_visualizer.Cluster.{Node, Entry}
use raft_visualizer.Fault.{Text, trim}
use raft_visualizer.Groups.{is_empty}
use raft_visualizer.Store.{Store, Lang}
use raft_visualizer.Texts.{log_copy}
use raft_visualizer.LogPanel.{shown_node, shown_entries, role_text, VoteText, format_voted_for}

-- A cell's label and its value.
pub record StatGrid : Type 0 where
  pub role : String × String
  pub term : String × ℕ
  pub commit : String × ℕ
  pub voted_for : String × VoteText

pub data Stats : Type 0 where
  grid : StatGrid → Stats
  placeholder : String → Stats

unfoldable pub node_stats : Option Node → Lang → Stats
node_stats none lang = placeholder (log_copy lang).click_node
node_stats (some n) lang = grid (record {
  role = ((log_copy lang).role, role_text n lang);
  term = ((log_copy lang).term, n.term);
  commit = ((log_copy lang).commit, n.commit_index);
  voted_for = ((log_copy lang).voted_for, format_voted_for n);
})

pub record Line : Type 0 where
  pub is_committed : Bool
  pub index : ℕ
  pub term : ℕ
  pub command : String

abbrev pub line : Entry → Line
line e = record {
  is_committed = e.committed;
  index = e.raw.index;
  term = e.raw.term;
  command = e.raw.command;
}

pub data Entries : Type 0 where
  no_node : Entries
  no_entries : String → Entries
  lines : List Line → Entries

unfoldable pub log_entries : Option Node → Lang → Entries
log_entries none lang = no_node
log_entries (some n) lang = elim n.log [
  | [] ↦ no_entries (log_copy lang).no_entries
  | _ ∷ _ ↦ lines (map line (shown_entries n))
]

-- `commandInput` with a function: its two texts, where `none` is one that is not given.
pub record CommandInput : Type 0 where
  pub placeholder : Option String
  pub send_label : Option String

pub record CommandBar : Type 0 where
  pub value : Text
  pub placeholder : String
  pub is_disabled : Bool
  pub send_label : String

-- `text ?? other`
abbrev or_else : Option String → String → String
or_else none other = other
or_else (some text) other = text

unfoldable pub command_bar : CommandInput → Text → CommandBar
command_bar input cmd_text = record {
  value = cmd_text;
  placeholder = or_else input.placeholder "type a command...";
  is_disabled = is_empty (trim cmd_text);
  send_label = or_else input.send_label "send";
}

pub record View : Type 0 where
  pub stats_title : String
  pub stats : Stats
  pub entries_title : String
  pub bar : Option CommandBar
  pub entries : Entries

unfoldable pub view : Option CommandInput → Text → Store → View
view input cmd_text s = record {
  stats_title = (log_copy s.lang).node_stats;
  stats = node_stats (shown_node s) s.lang;
  entries_title = (log_copy s.lang).log_entries;
  bar = elim input [ none ↦ none | some i ↦ some (command_bar i cmd_text) ];
  entries = log_entries (shown_node s) s.lang;
}
