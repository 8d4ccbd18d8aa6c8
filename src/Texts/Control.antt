-- ===== src/Texts/Control.antt =====
-- The copy of the control bar and of its tutorial (`controlCopy` of frontend/src/i18n/uiText.js).
use raft_visualizer.Prelude.{List, [], ◌∷◌, String}
use raft_visualizer.Store.{Lang, en, zh}

pub record CmdExample : Type 0 where
  pub cmd : String
  pub detail : String

pub record ControlCopy : Type 0 where
  pub tutorial : String
  pub tutorial_close : String
  pub tutorial_title : String
  pub tutorial_intro : String
  pub tutorial_cmds : String
  pub tutorial_cmd_examples : List CmdExample
  pub tutorial_how : String
  pub tutorial_how_items : List String
  pub tutorial_raft : String
  pub tutorial_raft_items : List String
  pub submit_to_leader : String
  pub cmd_placeholder : String
  pub send : String
  pub submit_cmd : String
  pub kill_node : String
  pub kill_selecting : String
  pub restart : String
  pub restart_selecting : String
  pub partition : String
  pub partition_step_a : String
  pub partition_step_b : String
  pub partition_choose_hint : String
  pub partition_preview_a : String
  pub partition_preview_b : String
  pub confirm_group_a : String
  pub heal : String
  pub heal_selecting : String
  pub esc_hint : String
  pub cancel : String
  pub confirm_partition : String

unfoldable pub control_copy : Lang → ControlCopy
control_copy zh = record {
  tutorial = "教程 Tutorial";
  tutorial_close = "关闭教程";
  tutorial_title = "玩法与命令教程";
  tutorial_intro = "可随时打开，快速查看命令写法、实验路径和可观察到的 Raft 行为。";
  tutorial_cmds = "常用 submit cmd 示例";
  tutorial_cmd_examples =
      record { cmd = "set x=1"; detail = "追加一条写入日志；多数复制后会显示 committed。" }
      ∷ record { cmd = "set y=2"; detail = "继续写入可观察 log index 连续递增。" }
      ∷ record { cmd = "inc counter"; detail = "语义化命令便于区分各次复制与提交。" }
      ∷ record { cmd = "transfer node3"; detail = "任意字符串都可作为命令载荷参与复制。" }
      ∷ [];
  tutorial_how = "推荐玩法";
  tutorial_how_items =
      "先看当前 Leader、term、commitIndex，再提交 2~3 条命令建立基线。" ∷ "点击 kill node 杀掉 Leader，观察多数派如何触发新一轮选举。"
      ∷ "执行 partition，把集群拆成 2 组，观察少数派无法提交新日志。" ∷ "执行 heal / restart 后继续 submit cmd，观察日志回补与角色收敛。"
      ∷ [];
  tutorial_raft = "这些操作如何体现 Raft";
  tutorial_raft_items =
      "Leader Election：election timeout 会把 Follower 推进为 Candidate 并请求投票。"
      ∷ "Log Replication：只有 Leader 接收客户端命令并用 AppendEntries 复制到 followers。"
      ∷ "Safety：已提交日志在 leader 切换后依然保留，体现 leader completeness。"
      ∷ "Fault Tolerance：crash、partition、heal、restart 共同展示 quorum 约束。" ∷ [];
  submit_to_leader = "提交命令到 Leader";
  cmd_placeholder = "例如: set x=1";
  send = "发送 Send";
  submit_cmd = "提交命令 submit cmd";
  kill_node = "故障注入 kill node";
  kill_selecting = "选择目标节点 —";
  restart = "恢复 restart";
  restart_selecting = "选择恢复节点 —";
  partition = "网络分区 partition";
  partition_step_a = "步骤 1 / 2：选择 Group A（可多选）";
  partition_step_b = "步骤 2 / 2：预览分组并确认分区";
  partition_choose_hint = "点击画布节点进行分组；再次点击可取消";
  partition_preview_a = "Group A";
  partition_preview_b = "Group B";
  confirm_group_a = "确认 Group A";
  heal = "网络恢复 heal";
  heal_selecting = "选择要修复的节点 —";
  esc_hint = "ESC 取消";
  cancel = "取消 Cancel";
  confirm_partition = "执行分区 Partition";
}
control_copy en = record {
  tutorial = "Tutorial";
  tutorial_close = "Close Tutorial";
  tutorial_title = "How to Play & Command Guide";
  tutorial_intro =
      "Open this panel anytime for command patterns, interaction flow, and Raft signals to watch.";
  tutorial_cmds = "Useful submit cmd examples";
  tutorial_cmd_examples =
      record {
        cmd = "set x=1";
        detail = "Appends a write entry; it turns committed after majority replication.";
      }
      ∷ record {
        cmd = "set y=2";
        detail = "Adds a second entry so you can inspect monotonically increasing log indexes.";
      }
      ∷ record {
        cmd = "inc counter";
        detail = "A semantic command that makes replication steps easy to trace in the log.";
      }
      ∷ record {
        cmd = "transfer node3";
        detail = "Any opaque string works; the protocol replicates bytes, not command meaning.";
      }
      ∷ [];
  tutorial_how = "Recommended interactions";
  tutorial_how_items =
      "Start by reading leader, term, and commitIndex, then submit 2-3 commands as baseline traffic."
      ∷ "Use kill node on the leader and watch a new election complete with majority voting."
      ∷ "Use partition to split the cluster and verify minority side cannot commit fresh entries."
      ∷ "Use heal or restart, then submit again to observe convergence and log repair." ∷ [];
  tutorial_raft = "How this demonstrates Raft";
  tutorial_raft_items =
      "Leader Election: election timeout promotes a follower to candidate, then majority grants leadership."
      ∷ "Log Replication: the leader accepts client commands and ships them via AppendEntries."
      ∷ "Safety: committed entries survive leadership changes, showing leader completeness in practice."
      ∷ "Fault Tolerance: crash, partition, heal, and restart expose quorum boundaries and recovery."
      ∷ [];
  submit_to_leader = "Submit command to leader";
  cmd_placeholder = "e.g. set x=1";
  send = "Send";
  submit_cmd = "Submit Cmd";
  kill_node = "Kill Node";
  kill_selecting = "Select target node —";
  restart = "Restart";
  restart_selecting = "Select target node —";
  partition = "Partition";
  partition_step_a = "Step 1 / 2: select Group A (multi-select)";
  partition_step_b = "Step 2 / 2: preview groups and confirm";
  partition_choose_hint = "Click nodes on canvas to toggle Group A membership";
  partition_preview_a = "Group A";
  partition_preview_b = "Group B";
  confirm_group_a = "Confirm Group A";
  heal = "Heal";
  heal_selecting = "Select target node —";
  esc_hint = "ESC to cancel";
  cancel = "Cancel";
  confirm_partition = "Partition";
}
