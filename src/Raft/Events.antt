-- ===== src/Raft/Events.antt =====
-- What happens to a node: its inbox, its two timers, its signals and the simulator's calls, one at
-- a time (`Run` and `handleMessage` of backend/raft/node.go).
use raft_visualizer.Prelude.{ℕ, false, List, [], ◌∷◌, ◌++◌, String, if◌then◌else◌}
use raft_visualizer.Raft.{
  Node, Message, Rpc, request_vote, request_vote_reply, append_entries, append_entries_reply,
  Outcome, heartbeat_tick, submit_command, kill, restart,
}
use raft_visualizer.Raft.Election.{start_election, handle_request_vote, handle_request_vote_reply}
use raft_visualizer.Raft.Replication.{handle_append_entries, handle_append_entries_reply}

abbrev pub dispatch : ℕ → Rpc → Node → Outcome
dispatch from (request_vote args) n = handle_request_vote from args n
dispatch from (request_vote_reply reply) n = handle_request_vote_reply from reply n
dispatch from (append_entries args) n = handle_append_entries from args n
dispatch from (append_entries_reply reply) n = handle_append_entries_reply from reply n

pub data Event : Type 0 where
  receive : Message → Event
  timeout heartbeat changed : Event
  submit : String → Event
  crash revive : Event

-- The election timer fires while it runs. A crashed node drops messages and ignores the timer: `Run`
-- tests `alive` before it calls the handler, which takes the lock. The test and the handler are one
-- step here; Raft/Race has a crash between them.
unfoldable pub handle : Event → Node → Outcome
handle (receive msg) n = if n.alive then dispatch msg.from msg.rpc n else (n, [])
handle timeout n =
    if n.timer
    then if n.alive
      then start_election (record n { timer = false })
      else (record n { timer = false }, [])
    else (n, [])
handle heartbeat n = heartbeat_tick n
handle changed n = (record n { dirty = false }, [])
handle (submit cmd) n = (submit_command cmd n).0
handle crash n = (kill n, [])
handle revive n = (restart n, [])

-- A run of a node, with everything that it sent.
unfoldable pub run : List Event → Node → Outcome
run [] n = (n, [])
run (e ∷ es) n = let (m, now) = handle e n in let (last, later) = run es m in (last, now ++ later)
