-- ===== src/Lib.antt =====
-- raft-visualizer: a simulated Raft cluster (backend) and the page that shows it and injects faults
-- into it (frontend/src). The simulator routes the messages of its nodes, and pushes a snapshot of the
-- nodes and of the messages in flight over a WebSocket; the hook `useRaftWS` hands it to the store;
-- the components read the store, change it by its actions, and send commands through the functions
-- that the hook puts there, which reach the simulator as faults and client commands.
--
-- Files and the code that they model:
--   Cluster       the nodes, messages and lines of the event log (backend/raft/types.go as JSON,
--                 and `makeLog`, `rpcSig` of frontend/src/store/clusterStore.js)
--   JsMap         `Map` of JavaScript, in insertion order
--   Store         frontend/src/store/clusterStore.js: the state and its small actions; Store/Logs is
--                 `makeLog`, Store/Diff `diffRPCLogs`, Store/Derive `deriveStateLogs`, Store/Update
--                 `applyStateUpdate`, Store/Action all calls of the store as steps, Store/Keys the
--                 keys of the lines in frontend/src/components/EventStream.jsx
--   Fault         the arguments of `sendFault` and `sendClientCommand`, and `trim`
--   Socket        frontend/src/hooks/useRaftWS.js; Socket/Events has the events of the browser, the
--                 backend and the page, and runs of them
--   Canvas        frontend/src/components/ClusterView.jsx: clicks, edges and the first fit
--   NodeCard      frontend/src/components/NodeCard.jsx
--   EventStream   frontend/src/components/EventStream.jsx
--   Groups        the two groups of a partition, in ControlPanel.jsx and MobileFab.jsx
--   ControlPanel  frontend/src/components/ControlPanel.jsx; ControlPanel/Flow is the desktop page, on
--                 which the bar, the canvas and the payloads share the store
--   MobileFab     frontend/src/components/MobileFab.jsx
--   Drawer        frontend/src/components/MobileDrawer.jsx
--   HintCard      frontend/src/components/HintCard.jsx
--   Intro         frontend/src/components/IntroLanding.jsx
--   LogPanel      frontend/src/components/LogPanel.jsx, with labels of frontend/src/i18n/uiText.js;
--                 LogPanel/View, like the View of other components, is what the component shows
--   Texts         the tables of copy of frontend/src/i18n/uiText.js, and the tutorial that the bar
--                 and the drawer share; Intro/Chapters has the copy of the landing page
--   Page          frontend/src/App.jsx, the live page; Page/App is the switch between it and the
--                 landing page
--   Raft          backend/raft: types.go and the state of node.go; Raft/Election is election.go,
--                 Raft/Replication is replication.go, Raft/Events what `Run` and the calls of the
--                 simulator do to a node; Raft/Exchange is a tick of a live leader's
--                 heartbeat loop for one follower, with the answer; Raft/Grants the votes of a run, Raft/Race a kill between
--                 the test of `alive` and a handler;
--                 Raft/Ballots and Raft/Written say what an event does to a node's votes and log
--   Simulator     backend/simulator/cluster.go: routing, faults and snapshots; Simulator/Steps are the
--                 steps of a cluster, Simulator/Startup its start, in which the `Run`s of the nodes
--                 begin one after another, Simulator/Faults is `ApplyFault` of backend/main.go. An
--                 invariant of a cluster that speaks of the past (the votes cast, the logs written)
--                 has a history that no node keeps: Simulator/Ghosts, /Held and /Along carry it along
--                 the steps, Simulator/Elections and /Matching use it
--   Server        backend/ws/hub.go, and the manager of the cluster in backend/main.go: clients, hooks,
--                 and the commands on their way to `ApplyFault`
--   Prelude       shared tests, lists and sets; Examples the theorems at concrete inputs
--
-- State and operations. A component's state is a record, each handler a function on it, and a run a
-- list of events from the left. What a handler reads of the outside world (the formatted time, the
-- media query, a height) is an argument. Each of the two functions that the hook puts into the store
-- is kept as a Boolean, whether it is there, since all its state is the hook's. Sockets and timers
-- are numbered in the order of their creation; the browser keeps those that are pending, and fires
-- one at most once. Time is the order of events, so that the delays (2000 ms, 66 ms, 400 ms, 250 ms,
-- 90 ms) may be overtaken in any way.
--
-- The backend. A node's lock makes each handler one step: a function from the node to the new node
-- and the list of what it sends, in order. `Run` reads `alive` before the handler takes the lock; here
-- the test and the handler are one step, a kill that comes between the two, so that the dead node
-- handles one more message or timeout, is no step of the cluster, but stands in Raft/Race for a node. `new_node` is a node whose `Run` has
-- made its election timer; only Simulator/Startup has the time before, in which the timer is not read. A panic of the code (an index out of range) is `none` in
-- that list, and in the result of a step of the cluster. The election timer, the heartbeat loop and
-- the signal of a change are Booleans, and any of them may fire at any moment, so that a run has no
-- assumption on times; the loop's tick may come whether or not the loop was stopped. All that a node
-- sends in a step is routed before the next step of the cluster. An inbox holds 128 messages, and 256
-- in flight are kept, as in the code; the clock of the expiry is an argument. The two hooks of the
-- hub are calls that are under way between the steps of the server, so that others may come between
-- the count of the clients and the stop of the cluster.
--
-- Numbers. Ids, terms and indexes of the JSON are naturals; a vote of -1 and a missing one are
-- constructors. Lengths on the screen are whole pixels (hundredths on the landing page), measured
-- from an origin above everything; a difference that the code compares by `Math.abs` is the sum of
-- both truncated ones. A signature `from|to|type|term` is the tuple of its parts. A text that is
-- trimmed is the list of its UTF-16 code units; other texts are native strings. No definition needs
-- fuel: each loop of the code runs over a list, or down from an index.
--
-- Not modelled: the markup of the mobile button, and all styles; coordinates and paths of the canvas, which are
-- floating point; what a fit of React Flow does; `formatEvent`, which nothing calls; the sockets of
-- the server, their deadlines and pings, its JSON and its HTTP handlers; the end of the nodes'
-- goroutines at a shutdown; React itself, of which an effect is a function that an
-- event calls.
pub mod Prelude
pub mod JsMap
pub mod Cluster
pub mod Store
pub mod Fault
pub mod Canvas
pub mod NodeCard
pub mod EventStream
pub mod Groups
pub mod ControlPanel
pub mod MobileFab
pub mod Socket
pub mod Drawer
pub mod HintCard
pub mod Intro
pub mod LogPanel
pub mod Page
pub mod Texts
pub mod Raft
pub mod Simulator
pub mod Server
pub mod Examples
