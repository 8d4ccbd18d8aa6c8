-- ===== src/Simulator.antt =====
-- The simulator (backend/simulator/cluster.go): the nodes, the message bus between them, the faults
-- and the snapshots. Times are milliseconds. A step of a node routes all that it sends before
-- another step begins.
pub mod Steps
pub mod Faults
pub mod Bounds
pub mod Partitions
pub mod Submit
pub mod Snapshots
pub mod Delivery
pub mod Totality
pub mod Startup
pub mod Ghosts
pub mod Held
pub mod Along
pub mod Voting
pub mod Truth
pub mod Elections
pub mod Quotes
pub mod Books
pub mod Matching
pub mod Results
pub mod Ranges
pub mod Panics
use raft_visualizer.Prelude.{
  ℕ, zero, suc, ◌+◌, ◌-◌, Bool, true, false, not, ◌&&◌, ◌||◌, Option, none, some, List, [], ◌∷◌,
  ◌++◌, map, String, ltb, ◌==◌, nat_eq, if◌then◌else◌, length, filter, any, slice_last,
}
use mathlib.Core.Option.{map as map_option}
use raft_visualizer.Cluster.{
  Vote, no_vote, cast, RawEntry, RawNode, Message as ShownMessage, Payload,
}
use raft_visualizer.Raft.{
  Node, Message, LogEntry, Rpc, request_vote, request_vote_reply, append_entries,
  append_entries_reply, Sent, new_node, role_name, submit_command, kill, restart,
}
use raft_visualizer.Raft.Events.{Event, receive, handle}

pub record InFlightMessage : Type 0 where
  pub from : ℕ
  pub to : ℕ
  pub type : String
  pub term : ℕ
  pub sent_at : ℕ

-- `partitioned` has the keys of the map, all of whose values are true. `signalled` tells whether
-- `snapshotCh` holds a signal.
pub record Cluster : Type 0 where
  pub nodes : List Node
  pub inboxes : List (List Message)
  pub partitioned : List (ℕ × ℕ)
  pub in_flight : List InFlightMessage
  pub signalled : Bool

abbrev pub in_flight_ttl : ℕ
in_flight_ttl = 150

abbrev pub max_in_flight : ℕ
max_in_flight = 256

abbrev pub inbox_size : ℕ
inbox_size = 128

-- `range n`
abbrev pub range : ℕ → List ℕ
range zero = []
range (suc n) = range n ++ n ∷ []

abbrev pub peers_of : ℕ → ℕ → List ℕ
peers_of n i = filter (λ j. not (j == i)) (range n)

-- The cluster once the `Run` of every node has made its timer.
unfoldable pub new_cluster : ℕ → Cluster
new_cluster n = record {
  nodes = map (λ i. new_node i (peers_of n i)) (range n);
  inboxes = map (λ i. []) (range n);
  partitioned = [];
  in_flight = [];
  signalled = false;
}

abbrev pub rpc_type_name : Rpc → String
rpc_type_name (request_vote _) = "RequestVote"
rpc_type_name (request_vote_reply _) = "RequestVoteReply"
rpc_type_name (append_entries _) = "AppendEntries"
rpc_type_name (append_entries_reply _) = "AppendEntriesReply"

abbrev pub rpc_term : Rpc → ℕ
rpc_term (request_vote args) = args.term
rpc_term (request_vote_reply reply) = reply.term
rpc_term (append_entries args) = args.term
rpc_term (append_entries_reply reply) = reply.term

abbrev pub prune : ℕ → List InFlightMessage → List InFlightMessage
prune now ms = slice_last max_in_flight (filter (λ m. ltb (now - m.sent_at) in_flight_ttl) ms)

-- `partitioned[{a,b}]`
abbrev pub is_cut : List (ℕ × ℕ) → ℕ → ℕ → Bool
is_cut pairs a b = any (λ (p : ℕ × ℕ). (p.0 == a) && (p.1 == b)) pairs

-- The send to an inbox, which drops the message when the inbox is full. `none` is an index that is
-- out of range.
abbrev pub put : ℕ → Message → List (List Message) → Option (List (List Message))
put i msg [] = none
put zero msg (inbox ∷ rest) =
    some ((if ltb (length inbox) inbox_size then inbox ++ msg ∷ [] else inbox) ∷ rest)
put (suc i) msg (inbox ∷ rest) = map_option (inbox ∷◌) (put i msg rest)

unfoldable pub route : ℕ → Message → Cluster → Option Cluster
route now msg c =
    let shown : InFlightMessage = record {
      from = msg.from;
      to = msg.to;
      type = rpc_type_name msg.rpc;
      term = rpc_term msg.rpc;
      sent_at = now;
    } in
    let noted : Cluster = record c { in_flight = prune now (c.in_flight ++ shown ∷ []) } in
    if is_cut c.partitioned msg.from msg.to
    then some noted
    else map_option (λ boxes. record noted { inboxes = boxes }) (put msg.to msg noted.inboxes)

-- Everything that a node sent. A panic of the node is one of the program.
unfoldable pub route_all : ℕ → Sent → Cluster → Option Cluster
route_all now [] c = some c
route_all now (none ∷ ms) c = none
route_all now (some m ∷ ms) c = elim (route now m c) [ none ↦ none | some d ↦ route_all now ms d ]

-- The nodes with a command at the first that takes it.
abbrev pub submit_first : String → List Node → List Node × (Sent × Bool)
submit_first cmd [] = ([], ([], false))
submit_first cmd (n ∷ ns) =
    let ((m, sent), taken) = submit_command cmd n in
    let (rest, others) = submit_first cmd ns in
    if taken then (m ∷ ns, (sent, true)) else (n ∷ rest, others)

unfoldable pub submit : ℕ → String → Cluster → Option (Cluster × Bool)
submit now cmd c =
    let (ns, (sent, taken)) = submit_first cmd c.nodes in
    map_option (λ d. (d, taken)) (route_all now sent (record c { nodes = ns }))

-- The change of `nodes[id]`. `none` is an index that is out of range.
abbrev pub change : ℕ → (Node → Node) → List Node → Option (List Node)
change i f [] = none
change zero f (n ∷ ns) = some (f n ∷ ns)
change (suc i) f (n ∷ ns) = map_option (n ∷◌) (change i f ns)

unfoldable pub kill_node : ℕ → Cluster → Option Cluster
kill_node id c = map_option (λ ns. record c { nodes = ns }) (change id kill c.nodes)

unfoldable pub restart_node : ℕ → Cluster → Option Cluster
restart_node id c = map_option (λ ns. record c { nodes = ns }) (change id restart c.nodes)

abbrev pub cut_from : ℕ → List ℕ → List (ℕ × ℕ)
cut_from a [] = []
cut_from a (b ∷ group_b) = (a, b) ∷ (b, a) ∷ cut_from a group_b

-- The two keys of each pair of members.
abbrev pub cross : List ℕ → List ℕ → List (ℕ × ℕ)
cross [] group_b = []
cross (a ∷ group_a) group_b = cut_from a group_b ++ cross group_a group_b

unfoldable pub partition : List ℕ → List ℕ → Cluster → Cluster
partition group_a group_b c = record c {
  partitioned = c.partitioned ++ cross group_a group_b;
  signalled = true;
}

unfoldable pub heal : Cluster → Cluster
heal c = record c { partitioned = []; signalled = true }

abbrev pub shown_vote : Option ℕ → Vote
shown_vote none = no_vote
shown_vote (some id) = cast id

abbrev pub shown_entry : LogEntry → RawEntry
shown_entry e = record { index = e.index; term = e.term; command = e.command }

-- A node as the frontend receives it.
unfoldable pub snapshot : Node → RawNode
snapshot n = record {
  status = record {
    id = n.id;
    role = role_name n.role;
    term = n.current_term;
    alive = n.alive;
    voted_for = shown_vote n.voted_for;
    commit_index = n.commit_index;
    last_applied = n.last_applied;
  };
  log = some (map shown_entry n.log);
}

abbrev pub shown_message : InFlightMessage → ShownMessage
shown_message m = record { from = m.from; to = m.to; type = m.type; term = m.term }

unfoldable pub build_snapshot : ℕ → Cluster → Cluster × Payload
build_snapshot now c =
    let live = prune now c.in_flight in
    (
      record c { in_flight = live },
      record { nodes = some (map snapshot c.nodes); in_flight = some (map shown_message live) },
    )
