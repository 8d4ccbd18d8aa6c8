-- ===== src/Texts.antt =====
-- The tables of copy in two languages (frontend/src/i18n/uiText.js).
pub mod Control
pub mod Tutorial
use raft_visualizer.Prelude.{String}
use raft_visualizer.Store.{Lang, en, zh}

-- `lang === 'zh' ? a : b`
abbrev pub by_lang {ℓ} : {A : Type ℓ} → Lang → A → A → A
by_lang zh a b = a
by_lang en a b = b

pub record AppCopy : Type 0 where
  pub title : String
  pub sub : String
  pub back : String
  pub leader : String
  pub node : String
  pub term : String
  pub alive : String
  pub event_log_toggle : String
  pub lang_toggle : String

unfoldable pub app_copy : Lang → AppCopy
app_copy zh = record {
  title = "Raft 共识 Raft Consensus";
  sub = "作者 Odie Yang";
  back = "返回引导页 Back";
  leader = "领导者 Leader";
  node = "节点 node";
  term = "任期 term";
  alive = "存活 alive";
  event_log_toggle = "事件日志 Event Log";
  lang_toggle = "EN";
}
app_copy en = record {
  title = "Raft Consensus";
  sub = "By Odie Yang";
  back = "Back";
  leader = "Leader";
  node = "node";
  term = "Term";
  alive = "Alive";
  event_log_toggle = "Event Log";
  lang_toggle = "ZH";
}

pub record EventCopy : Type 0 where
  pub title : String
  pub empty : String

unfoldable pub event_copy : Lang → EventCopy
event_copy zh = record { title = "事件日志 EVENT LOG"; empty = "等待集群事件 Waiting for cluster events..." }
event_copy en = record { title = "EVENT LOG"; empty = "Waiting for cluster events..." }

pub record LogCopy : Type 0 where
  pub node_stats : String
  pub role : String
  pub term : String
  pub commit : String
  pub voted_for : String
  pub click_node : String
  pub log_entries : String
  pub no_entries : String

unfoldable pub log_copy : Lang → LogCopy
log_copy zh = record {
  node_stats = "节点状态 Node Stats";
  role = "角色 Role";
  term = "任期 Term";
  commit = "提交 Commit";
  voted_for = "投票给 Voted For";
  click_node = "点击节点查看状态 Click a node to inspect state";
  log_entries = "日志条目 Log Entries";
  no_entries = "— submit a cmd to append the first entry —";
}
log_copy en = record {
  node_stats = "Node Stats";
  role = "Role";
  term = "Term";
  commit = "Commit";
  voted_for = "Voted For";
  click_node = "Click a node to inspect state";
  log_entries = "Log Entries";
  no_entries = "— submit a cmd to append the first entry —";
}
