-- ===== src/Raft.antt =====
-- The backend's Raft node: the data of its log and of its messages (backend/raft/types.go), and its
-- state with the helpers that the handlers share (backend/raft/node.go). Terms, indexes and ids are
-- naturals. A node's lock makes each handler one step.
pub mod Election
pub mod Replication
pub mod Events
pub mod Votes
pub mod Grants
pub mod Merge
pub mod Commit
pub mod Leader
pub mod Sound
pub mod Exchange
pub mod Repair
pub mod Timers
pub mod Stale
pub mod Flags
pub mod Race
pub mod Overcount
pub mod Ids
pub mod Routing
pub mod Ballots
pub mod Written
pub mod Ledger
use raft_visualizer.Prelude.{
  ℕ, zero, suc, ◌+◌, ◌-◌, Bool, true, false, Option, none, some, List, [], ◌∷◌, map, String, ltb,
  leb, ◌&&◌, nat_eq, if◌then◌else◌, length, drop, ◌++◌,
}
use raft_visualizer.JsMap.{get, set}

pub data Role : Type 0 where
  follower candidate leader : Role

unfoldable pub role_name : Role → String
role_name follower = "follower"
role_name candidate = "candidate"
role_name leader = "leader"

abbrev pub is_leader : Role → Bool
is_leader leader = true
is_leader _ = false

abbrev pub is_candidate : Role → Bool
is_candidate candidate = true
is_candidate _ = false

pub record LogEntry : Type 0 where
  pub index : ℕ
  pub term : ℕ
  pub command : String

pub record RequestVoteArgs : Type 0 where
  pub term : ℕ
  pub candidate_id : ℕ
  pub last_log_index : ℕ
  pub last_log_term : ℕ

pub record RequestVoteReply : Type 0 where
  pub term : ℕ
  pub vote_granted : Bool

pub record AppendEntriesArgs : Type 0 where
  pub term : ℕ
  pub leader_id : ℕ
  pub prev_log_index : ℕ
  pub prev_log_term : ℕ
  pub entries : List LogEntry
  pub leader_commit : ℕ

pub record AppendEntriesReply : Type 0 where
  pub term : ℕ
  pub success : Bool
  pub match_index : ℕ

-- The type of a message with the payload that belongs to it.
pub data Rpc : Type 0 where
  request_vote : RequestVoteArgs → Rpc
  request_vote_reply : RequestVoteReply → Rpc
  append_entries : AppendEntriesArgs → Rpc
  append_entries_reply : AppendEntriesReply → Rpc

pub record Message : Type 0 where
  pub from : ℕ
  pub to : ℕ
  pub rpc : Rpc

-- `voted_for` is `none` for -1. The votes received are the keys of the map, all of whose values are
-- true. `heartbeat` tells whether `heartbeatStop` is a channel, `timer` whether the election timer
-- runs, and `dirty` whether `changeCh` holds a signal.
pub record Node : Type 0 where
  pub id : ℕ
  pub peers : List ℕ
  pub current_term : ℕ
  pub voted_for : Option ℕ
  pub log : List LogEntry
  pub commit_index : ℕ
  pub last_applied : ℕ
  pub next_index : List (ℕ × ℕ)
  pub match_index : List (ℕ × ℕ)
  pub role : Role
  pub votes_received : List ℕ
  pub alive : Bool
  pub heartbeat : Bool
  pub timer : Bool
  pub dirty : Bool

-- A handler's node and what it sent, in order. A `none` in place of a message is a panic of the
-- code: an index of a slice that is out of range.
abbrev pub Sent : Type 0
Sent = List (Option Message)

abbrev pub Outcome : Type 0
Outcome = Node × Sent

-- A node whose `Run` has made its election timer. `NewNode` leaves the timer to `Run`; until then no
-- event reads it, and Simulator/Startup has the calls that panic for want of it.
unfoldable pub new_node : ℕ → List ℕ → Node
new_node id peers = record {
  id = id;
  peers = peers;
  current_term = 0;
  voted_for = none;
  log = [];
  commit_index = 0;
  last_applied = 0;
  next_index = [];
  match_index = [];
  role = follower;
  votes_received = [];
  alive = true;
  heartbeat = false;
  timer = true;
  dirty = false;
}

-- `m[k]` of a map of integers: 0 for a key that is not there.
abbrev pub at : List (ℕ × ℕ) → ℕ → ℕ
at m k = elim (get m k) [ none ↦ 0 | some v ↦ v ]

-- `log[k].Term`, where `k` is in range.
abbrev pub term_at : List LogEntry → ℕ → ℕ
term_at [] k = 0
term_at (e ∷ log) zero = e.term
term_at (e ∷ log) (suc k) = term_at log k

-- `log[:k]`
abbrev pub take : ℕ → List LogEntry → List LogEntry
take zero log = []
take (suc k) [] = []
take (suc k) (e ∷ log) = e ∷ take k log

abbrev pub last_log_index : Node → ℕ
last_log_index n = length n.log

abbrev pub last_term : List LogEntry → ℕ
last_term [] = 0
last_term (e ∷ []) = e.term
last_term (_ ∷ e ∷ log) = last_term (e ∷ log)

abbrev pub last_log_term : Node → ℕ
last_log_term n = last_term n.log

unfoldable pub maybe_step_down : ℕ → Node → Node
maybe_step_down incoming_term n =
    if ltb n.current_term incoming_term
    then record n {
      heartbeat = if is_leader n.role then false else n.heartbeat;
      current_term = incoming_term;
      role = follower;
      voted_for = none;
      dirty = true;
    }
    else n

-- The term of the entry before the ones that are sent.
abbrev pub prev_term : ℕ → List LogEntry → ℕ
prev_term prev_index log =
    if ltb 0 prev_index && leb prev_index (length log) then term_at log (prev_index - 1) else 0

-- What `sendAppendEntries` sends. With a next index of 0 the code slices the log from -1.
unfoldable pub send_append_entries : Node → ℕ → Option Message
send_append_entries n peer = elim (at n.next_index peer) [
  | zero ↦ none
  | suc prev_index ↦ some (record {
    from = n.id;
    to = peer;
    rpc = append_entries (record {
      term = n.current_term;
      leader_id = n.id;
      prev_log_index = prev_index;
      prev_log_term = prev_term prev_index n.log;
      entries = drop prev_index n.log;
      leader_commit = n.commit_index;
    });
  })
]

unfoldable pub send_to_peers : Node → Sent
send_to_peers n = map (send_append_entries n) n.peers

unfoldable pub send_heartbeats : Node → Sent
send_heartbeats n = if is_leader n.role then send_to_peers n else []

abbrev pub fill : List ℕ → ℕ → List (ℕ × ℕ) → List (ℕ × ℕ)
fill [] v m = m
fill (p ∷ peers) v m = fill peers v (set m p v)

unfoldable pub become_leader : Node → Outcome
become_leader n =
    let elected : Node = record n {
      role = leader;
      next_index = fill n.peers (last_log_index n + 1) [];
      match_index = fill n.peers 0 [];
      dirty = true;
    } in
    (record elected { heartbeat = true }, send_heartbeats elected)

-- One tick of the heartbeat loop.
unfoldable pub heartbeat_tick : Node → Outcome
heartbeat_tick n = (n, if is_leader n.role && n.alive then send_heartbeats n else [])

unfoldable pub submit_command : String → Node → Outcome × Bool
submit_command cmd n =
    if is_leader n.role
    then (let m : Node = record n {
      log = n.log ++ record { index = length n.log + 1; term = n.current_term; command = cmd } ∷ [];
      dirty = true;
    } in
        ((m, send_to_peers m), true))
    else ((n, []), false)

unfoldable pub kill : Node → Node
kill n = record n { alive = false; heartbeat = false; timer = false; dirty = true }

unfoldable pub restart : Node → Node
restart n = record n { alive = true; role = follower; timer = true; dirty = true }
