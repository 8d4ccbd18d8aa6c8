-- ===== src/HintCard/View.antt =====
-- What the hint card shows (the markup of frontend/src/components/HintCard.jsx, without its styles).
use raft_visualizer.Prelude.{Option, none, some, List, [], ◌∷◌, String, if◌then◌else◌}
use raft_visualizer.Store.{Lang}
use raft_visualizer.Texts.{by_lang}
use raft_visualizer.HintCard.{Hint}

pub data Swatch : Type 0 where
  leader follower candidate dead : Swatch

pub record Guide : Type 0 where
  pub title : String
  pub close : String
  pub legend : List (Swatch × String)
  pub tips : List (String × String)
  -- A section of commands, with the line above and the three parts of the line below them.
  pub commands_title : String
  pub commands_line : String
  pub commands : List (String × String)
  pub commands_note : String × (String × String)
  pub raft_title : String
  pub raft : List (String × String)

abbrev legend : Lang → List (Swatch × String)
legend lang =
    (
      leader,
      by_lang lang "Leader 领导者 — 所有写请求都先到这里" "Leader — all client writes go through this node",
    )
    ∷ (
      follower,
      by_lang lang "Follower 跟随者 — 被动接收并复制日志"
          "Follower — passively receives replicated log entries",
    )
    ∷ (
      candidate,
      by_lang lang "Candidate 候选者 — 正在发起选举" "Candidate — currently campaigning for leadership",
    )
    ∷ (dead, by_lang lang "Dead 故障节点 — 模拟 crash" "Offline — simulated crash state")
    ∷ []

abbrev tips : Lang → List (String × String)
tips lang =
    (
      "1.",
      by_lang lang "点击任意 node，在右侧面板查看状态和日志。"
          "Click any node to inspect its state and log in the right panel.",
    )
    ∷ (
      "2.",
      by_lang lang "使用底部控制栏执行 submit cmd、kill/restart、partition/heal。"
          "Use the bottom control bar to submit commands and inject failures.",
    )
    ∷ (
      "3.",
      by_lang lang "连线上的 moving dots 是 in-flight RPC：深色偏选举，浅色偏心跳复制。"
          "Moving dots indicate in-flight RPC traffic: darker for election, lighter for heartbeat/replication.",
    )
    ∷ []

abbrev commands : Lang → List (String × String)
commands lang =
    (
      "set x=1",
      by_lang lang "基础写入示例，观察日志从 Leader 复制到 Followers。"
          "Basic write example to observe Leader-to-Follower replication.",
    )
    ∷ (
      "set user:42 status=online",
      by_lang lang "模拟业务状态更新，验证长文本命令的复制行为。"
          "Simulates an application state update with a longer payload.",
    )
    ∷ (
      "transfer A->B 20",
      by_lang lang "模拟交易命令，观察何时从 pending 变 committed。"
          "Represents a transactional command; watch pending entries become committed.",
    )
    ∷ (
      "config featureX=true",
      by_lang lang "模拟配置变更，适合测试连续提交。"
          "Represents a configuration update for repeated-commit testing.",
    )
    ∷ []

abbrev raft : Lang → List (String × String)
raft lang =
    (
      by_lang lang "角色 Role：" "Roles:",
      by_lang lang "节点在 Follower / Candidate / Leader 三态之间切换。"
          "Nodes transition among Follower, Candidate, and Leader states.",
    )
    ∷ (
      by_lang lang "选主 Election：" "Leader Election:",
      by_lang lang "Follower 选举超时后发起投票，获得多数票即成为 Leader。"
          "A follower starts an election on timeout and becomes leader after winning a majority vote.",
    )
    ∷ (
      by_lang lang "日志复制 Replication：" "Log Replication:",
      by_lang lang "客户端命令写入 Leader，再通过 AppendEntries 复制到其他节点。"
          "Client commands are accepted by the leader and replicated via AppendEntries.",
    )
    ∷ (
      by_lang lang "提交 Commit：" "Commit Rule:",
      by_lang lang "日志被多数节点确认后才 committed，随后可对外可见。"
          "An entry is committed only after majority replication and then becomes externally visible.",
    )
    ∷ (
      by_lang lang "容错 Fault Tolerance：" "Fault Tolerance:",
      by_lang lang "5 节点集群可容忍最多 2 个节点失效，仍可维持共识。"
          "A 5-node cluster tolerates up to 2 node failures while preserving consensus.",
    )
    ∷ []

unfoldable pub guide : Lang → Guide
guide lang = record {
  title = by_lang lang "玩法教程 Guide" "Guide";
  close = by_lang lang "关闭 close" "dismiss";
  legend = legend lang;
  tips = tips lang;
  commands_title = by_lang lang "submit cmd 可输入内容" "What `Submit Cmd` Accepts";
  commands_line =
      by_lang lang "`submit cmd` 接受任意文本字符串。后端不会解析业务语义，只把它当作 log entry 复制到集群。"
        "`Submit Cmd` accepts arbitrary text. The backend does not execute business logic; it only replicates the command as a Raft log entry.";
  commands = commands lang;
  commands_note = (
    by_lang lang "命令会出现在右侧 " "Commands appear in ",
    (
      "log entries",
      by_lang lang "：灰点表示未提交，绿点表示已被多数节点确认提交。"
          ": gray indicates uncommitted, green indicates majority-committed.",
    ),
  );
  raft_title = by_lang lang "Raft 算法速览" "Raft Quick Primer";
  raft = raft lang;
}

-- Nothing once the card is dismissed.
unfoldable pub hint_card : Hint → Lang → Option Guide
hint_card h lang = if h.dismissed then none else some (guide lang)
