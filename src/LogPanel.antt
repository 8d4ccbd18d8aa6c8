-- ===== src/LogPanel.antt =====
-- The panel of the selected node: its statistics, its log and the command line of the mobile page
-- (frontend/src/components/LogPanel.jsx, and the labels of frontend/src/i18n/uiText.js).
pub mod Shown
pub mod View
use mathlib.Core.List.{reverse}
use raft_visualizer.Prelude.{
  ℕ, Bool, true, false, not, ◌||◌, Option, none, some, List, [], ◌∷◌, String, ◌==◌, nat_eq,
  string_eq, if◌then◌else◌, find,
}
use raft_visualizer.Cluster.{Node, Entry, Vote, absent, no_vote, cast}
use raft_visualizer.Fault.{Text, trim}
use raft_visualizer.Groups.{is_empty}
use raft_visualizer.Store.{Store, Lang, en, zh, WsStatus, connecting, connected, reconnecting}

abbrev pub has_id : ℕ → Node → Bool
has_id id n = n.id == id

-- The node that the panel shows. `Number(null)` is 0, so without a selection the search is for the
-- node 0.
unfoldable pub shown_node : Store → Option Node
shown_node s = find (has_id (elim s.selected_node_id [ none ↦ 0 | some id ↦ id ])) s.nodes

-- The text of the cell by its kind: a dash, `self`, or a node and a term.
pub data VoteText : Type 0 where
  dash self : VoteText
  node_at_term : ℕ → ℕ → VoteText

unfoldable pub format_voted_for : Node → VoteText
format_voted_for n = elim n.voted_for [
  | absent ↦ dash
  | no_vote ↦ dash
  | cast id ↦ if id == n.id then self else node_at_term id n.term
]

pub is_zh : Lang → Bool
is_zh en = false
is_zh zh = true

unfoldable pub role_label : String → Lang → String
role_label role zh =
    if role == "leader"
    then "领导者 Leader"
    else if role == "candidate"
    then "候选者 Candidate"
    else "跟随者 Follower"
role_label role en =
    if role == "leader" then "Leader" else if role == "candidate" then "Candidate" else "Follower"

unfoldable pub dead_label : Lang → String
dead_label zh = "故障 Dead"
dead_label en = "Offline"

-- The cell of the role.
unfoldable pub role_text : Node → Lang → String
role_text n lang = if n.alive then role_label n.role lang else dead_label lang

unfoldable pub ws_status_label : WsStatus → Lang → String
ws_status_label connected zh = "已连接 Connected"
ws_status_label connecting zh = "连接中 Connecting"
ws_status_label reconnecting zh = "重连中 Reconnecting"
ws_status_label connected en = "Connected"
ws_status_label connecting en = "Connecting"
ws_status_label reconnecting en = "Reconnecting"

-- Newest first.
unfoldable pub shown_entries : Node → List Entry
shown_entries n = reverse n.log

-- The command line: its text after the call, and the command given to `onSubmit`.
unfoldable pub submit_command : Bool → Text → Text × Option Text
submit_command has_command_input cmd_text =
    if not has_command_input
    then (cmd_text, none)
    else (let command = trim cmd_text in
        if is_empty command then (cmd_text, none) else ([], some command))
