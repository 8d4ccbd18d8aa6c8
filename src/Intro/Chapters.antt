-- ===== src/Intro/Chapters.antt =====
-- The chapters of the landing page (`CHAPTERS` of frontend/src/components/IntroLanding.jsx), as the
-- texts that JSX makes of them.
use raft_visualizer.Prelude.{List, [], ◌∷◌, String}

-- A run of text, plain or as code.
pub data Inline : Type 0 where
  text code : String → Inline

pub record Chapter : Type 0 where
  pub id : String
  pub nav_zh : String
  pub nav_en : String
  pub title_zh : String
  pub title_en : String
  pub subtitle_zh : String
  pub subtitle_en : String
  pub summary_zh : String
  pub summary_en : String
  pub body_zh : List Inline
  pub body_en : List Inline

abbrev pub chapter_01 : Chapter
chapter_01 = record {
  id = "01";
  nav_zh = "为什么需要 Consensus";
  nav_en = "Why Consensus Matters";
  title_zh = "为什么需要 Consensus";
  title_en = "Why Consensus Exists";
  subtitle_zh = "没有共识就没有一致性";
  subtitle_en = "Consistency Before Availability";
  summary_zh = "没有共识，副本状态会分叉。";
  summary_en = "Without consensus, replicas diverge.";
  body_zh =
      text "分布式系统把状态复制到多个节点以获得可用性，但只要出现消息乱序、延迟或节点故障， 历史就可能分叉。Raft 通过 "
      ∷ code "quorum"
      ∷ text " 规则和严格的日志顺序，避免"
      ∷ code "split-brain"
      ∷ text " 带来的不一致。"
      ∷ [];
  body_en =
      text
        "Replication improves availability, but failures and out-of-order delivery can split history across nodes. Raft uses strict log ordering and"
      ∷ code "quorum"
      ∷ text " semantics to prevent "
      ∷ code "split-brain"
      ∷ text " state."
      ∷ [];
}

abbrev pub chapter_02 : Chapter
chapter_02 = record {
  id = "02";
  nav_zh = "Raft 设计目标";
  nav_en = "Raft Design Goal";
  title_zh = "Raft 设计目标";
  title_en = "Raft Design Goal";
  subtitle_zh = "可理解性优先于复杂技巧";
  subtitle_en = "Understandability as a Constraint";
  summary_zh = "可理解性优先于复杂技巧。";
  summary_en = "Understandability is a first-class goal.";
  body_zh =
      text "Raft 的核心是“可理解的共识”：单一领导者模型、清晰的任期推进和一致的日志检查。 它把复杂性收敛到 "
      ∷ code "Leader"
      ∷ text "，让协议在工程上更容易验证、调试与教学。"
      ∷ [];
  body_en =
      text
        "Raft optimizes for understandability: strong leadership, explicit term progression, and deterministic log checks. By concentrating authority in the "
      ∷ code "Leader"
      ∷ text ", the protocol is easier to reason about and debug."
      ∷ [];
}

abbrev pub chapter_03 : Chapter
chapter_03 = record {
  id = "03";
  nav_zh = "角色模型 Role Model";
  nav_en = "Role Model";
  title_zh = "角色模型 Role Model";
  title_en = "Role Model";
  subtitle_zh = "三种角色与单调任期";
  subtitle_en = "Follower, Candidate, Leader";
  summary_zh = "三态切换，任期单调递增。";
  summary_en = "Three roles, monotonically increasing terms.";
  body_zh =
      text "每个节点只在 "
      ∷ code "Follower"
      ∷ text "、"
      ∷ code "Candidate"
      ∷ text "、"
      ∷ code "Leader"
      ∷ text " 三种角色中切换。任何节点看到更高"
      ∷ code "term"
      ∷ text " 都会立即降级，保证旧领导不会长期干扰系统。"
      ∷ [];
  body_en =
      text "Each node is always one of "
      ∷ code "Follower"
      ∷ text ", "
      ∷ code "Candidate"
      ∷ text ", or "
      ∷ code "Leader"
      ∷ text ". Seeing a higher "
      ∷ code "term"
      ∷ text " forces an immediate step-down, which prevents stale leaders from persisting."
      ∷ [];
}

abbrev pub chapter_04 : Chapter
chapter_04 = record {
  id = "04";
  nav_zh = "选举流程 Election";
  nav_en = "Election Flow";
  title_zh = "选举流程 Election";
  title_en = "Election Flow";
  subtitle_zh = "超时、投票、当选";
  subtitle_en = "Timeout, Vote, Leader";
  summary_zh = "超时触发投票，多数票选主。";
  summary_en = "Timeouts trigger voting; majority elects leader.";
  body_zh =
      text "Follower 在选举超时后提升任期并发送 "
      ∷ code "RequestVote"
      ∷ text "。 拿到多数票的节点成为 Leader，并通过周期性 "
      ∷ code "heartbeat"
      ∷ text "抑制新一轮选举。"
      ∷ [];
  body_en =
      text "A timed-out follower increments term and sends "
      ∷ code "RequestVote"
      ∷ text ". Majority support promotes it to leader, and periodic "
      ∷ code "heartbeat"
      ∷ text "traffic keeps followers from starting competing elections."
      ∷ [];
}

abbrev pub chapter_05 : Chapter
chapter_05 = record {
  id = "05";
  nav_zh = "复制流程 Replication";
  nav_en = "Replication Flow";
  title_zh = "复制流程 Replication";
  title_en = "Replication Flow";
  subtitle_zh = "先写主节点，再向多数复制";
  subtitle_en = "AppendEntries and Commit";
  summary_zh = "先写 Leader，再向多数复制。";
  summary_en = "Leader first, then majority replication.";
  body_zh =
      text "客户端命令先追加到 Leader 日志，再通过 "
      ∷ code "AppendEntries"
      ∷ text "复制到 Follower。达到多数确认后，Leader 推进 "
      ∷ code "commitIndex"
      ∷ text "， 集群才把该命令视为已提交。"
      ∷ [];
  body_en =
      text "Client commands are appended on the leader first, then replicated via"
      ∷ code "AppendEntries"
      ∷ text ". Once a majority acknowledges, the leader advances "
      ∷ code "commitIndex"
      ∷ text " and the entry becomes committed."
      ∷ [];
}

abbrev pub chapter_06 : Chapter
chapter_06 = record {
  id = "06";
  nav_zh = "安全性 Safety";
  nav_en = "Safety";
  title_zh = "安全性 Safety";
  title_en = "Safety";
  subtitle_zh = "已提交条目不会回退";
  subtitle_en = "Committed Means Durable";
  summary_zh = "已提交日志不会回退。";
  summary_en = "Committed entries do not roll back.";
  body_zh =
      text "Raft 依赖日志匹配性质与多数派约束来确保安全性：已提交条目不会因 Leader 切换而丢失。只有日志足够新的节点才能赢得选举，这保证了"
      ∷ code "leader completeness"
      ∷ text "。"
      ∷ [];
  body_en =
      text
        "Safety comes from log matching plus majority constraints: committed entries survive leader changes. Elections require up-to-date logs, which enforces"
      ∷ code "leader completeness"
      ∷ text "."
      ∷ [];
}

abbrev pub chapter_07 : Chapter
chapter_07 = record {
  id = "07";
  nav_zh = "故障处理 Faults";
  nav_en = "Fault Handling";
  title_zh = "故障处理 Faults";
  title_en = "Fault Handling";
  subtitle_zh = "崩溃、分区与恢复";
  subtitle_en = "Crash, Partition, Recovery";
  summary_zh = "支持 crash / restart / partition / heal。";
  summary_en = "Crash, restart, partition, and heal are first-class.";
  body_zh =
      text "这个演示把故障作为主路径：你可以主动触发 "
      ∷ code "kill"
      ∷ text "、"
      ∷ code "restart"
      ∷ text "、"
      ∷ code "partition"
      ∷ text "、"
      ∷ code "heal"
      ∷ text "， 直接观察法定人数、重选与日志修复行为。"
      ∷ [];
  body_en =
      text "Faults are part of the core workflow here: trigger "
      ∷ code "kill"
      ∷ text ","
      ∷ code "restart"
      ∷ text ", "
      ∷ code "partition"
      ∷ text ", and "
      ∷ code "heal"
      ∷ text " to observe quorum boundaries, re-election, and log repair in real time."
      ∷ [];
}

abbrev pub chapter_08 : Chapter
chapter_08 = record {
  id = "08";
  nav_zh = "你将看到什么";
  nav_en = "What You Will See";
  title_zh = "你将看到什么";
  title_en = "What You Will See";
  subtitle_zh = "从理论到实时信号";
  subtitle_en = "From Theory to Runtime Signals";
  summary_zh = "状态、日志、RPC 与事件全可见。";
  summary_en = "State, logs, RPC flow, and events are visible.";
  body_zh =
      text "进入演示后，你会看到角色变化、term 推进、日志复制、提交状态和在途 RPC 动画。 底部控制栏可实时提交 "
      ∷ code "submit cmd"
      ∷ text " 并注入故障，完整观察协议行为。"
      ∷ [];
  body_en =
      text
        "In the live demo, you will inspect role transitions, term progression, replication, commit status, and in-flight RPC animation. The control bar lets you issue "
      ∷ code "submit cmd"
      ∷ text " and inject faults instantly."
      ∷ [];
}

abbrev pub chapters : List Chapter
chapters =
    chapter_01 ∷ chapter_02 ∷ chapter_03 ∷ chapter_04 ∷ chapter_05 ∷ chapter_06 ∷ chapter_07
    ∷ chapter_08 ∷ []
