-- ===== src/Simulator/Ghosts.antt =====
-- Invariants of a cluster that mention more than its state: what is proved of a single node's
-- events holds along the steps of the cluster.
use raft_visualizer.Prelude.{
  ℕ, zero, suc, ◌≡◌, ◌≢◌, refl, ap, Bool, true, false, Option, none, some, List, [], ◌∷◌, nat_eq,
  if_of, All, String,
}
use mathlib.Core.Option.{map as map_option}
use raft_visualizer.Raft.{Node, Message, Sent, submit_command}
use raft_visualizer.Raft.Events.{Event, receive, submit as submit_event, handle}
use raft_visualizer.Simulator.{Cluster, submit_first, change}
use raft_visualizer.Simulator.Steps.{Step, take_message, step, node_at, take_first}
use raft_visualizer.Simulator.Results.{IfSome}

-- What a message arrives with.
abbrev pub Comes : (Message → Type 0) → ℕ → Event → Type 0
Comes P i (receive msg) = (msg.to ≡ i) × P msg
Comes P i _ = Unit

-- A message arrives only where it is allowed.
abbrev pub IsAllowed : (Message → Node → Type 0) → Event → Node → Type 0
IsAllowed P (receive msg) n = P msg n
IsAllowed P _ n = Unit

abbrev pub Sends : (Message → Type 0) → Option Message → Type 0
Sends P none = Unit
Sends P (some m) = P m

-- A ghost state, what holds of each node and of each message on its way under it, and the move to
-- the next ghost state that an event makes possible.
pub record Ghost : Type 1 where
  pub State : Type 0
  pub AtNode : State → Node → Type 0
  pub InMessage : State → Message → Type 0
  pub Allowed : Message → Node → Type 0
  pub move :
      (g : State) (e : Event) (n : Node)
      → IsAllowed Allowed e n
      → Comes (InMessage g) n.id e
      → AtNode g n
      → (h : State) × (AtNode h (handle e n).0)
        × (All (Sends (InMessage h)) (handle e n).1)
        × ((m : Node) → m.id ≢ n.id → AtNode g m → AtNode h m)
        × ((m : Message) → InMessage g m → InMessage h m)

-- What a step may not do: hand a node a message that is not allowed there.
abbrev pub Admits : (Message → Node → Type 0) → Step → Cluster → Type 0
Admits P (take_message i) c =
    IfSome (λ (r : Message × List (List Message)). IfSome (P r.0) (node_at i c.nodes))
      (take_first i c.inboxes)
Admits P _ c = Unit

-- None of the run's steps does.
abbrev pub AdmitsAll : (Message → Node → Type 0) → List (ℕ × Step) → Cluster → Type 0
AdmitsAll P [] c = Unit
AdmitsAll P ((now, s) ∷ later) c = Admits P s c × IfSome (AdmitsAll P later) (step now s c)

-- The node that takes a command, if there is one.
pub data Taken (cmd : String) (ns : List Node) : List Node × (Sent × Bool) → Type 0 where
  nobody : Taken cmd ns (ns, ([], false))
  at_node :
      (i : ℕ) (n : Node) (ms : List Node)
      → node_at i ns ≡ some n
      → change i (λ m. (handle (submit_event cmd) m).0) ns ≡ some ms
      → Taken cmd ns (ms, ((handle (submit_event cmd) n).1, true))

Taken-cons :
    (cmd : String) (n : Node) (ns : List Node) (r : List Node × (Sent × Bool))
    → Taken cmd ns r
    → Taken cmd (n ∷ ns) (n ∷ r.0, r.1)
Taken-cons cmd n ns _ nobody = nobody
Taken-cons cmd n ns _ (at_node i m ms found e) =
    at_node (suc i) m (n ∷ ms) found (ap (map_option (n ∷◌)) e)

pub submit_first-Taken : (cmd : String) (ns : List Node) → Taken cmd ns (submit_first cmd ns)
unfolding handle submit_command
submit_first-Taken cmd [] = nobody
submit_first-Taken cmd (n ∷ ns) =
    if_of (Taken cmd (n ∷ ns)) (submit_command cmd n).1 (at_node zero n _ refl refl)
      (Taken-cons cmd n ns _ (submit_first-Taken cmd ns))
