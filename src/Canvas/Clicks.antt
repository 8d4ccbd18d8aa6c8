-- ===== src/Canvas/Clicks.antt =====
-- The cards highlight the nodes on which a click acts: `NodeCard.jsx` and `ClusterView.jsx` decide
-- it separately.
use raft_visualizer.Prelude.{
  subst, ℕ, ◌≡◌, refl, sym, inl, inr, true, false, not, ◌||◌, Option, none, some, List, [], ◌∷◌,
  ◌++◌, ◌==◌, ◌&&◌, ◌∙◌, ◌⊎◌, if◌then◌else◌, append-nil, nat_eq, arith, includes, any, Bool-cases,
  includes-append, includes-filter,
}
use raft_visualizer.Cluster.{Node}
use raft_visualizer.Store.{
  Store, ActionMode, kill, restart, heal, cmd, partition_select, partition_confirm, is_selecting,
  toggled, toggle_partition_group_a_node, cancel_action, clear_active_partition_groups,
}
use raft_visualizer.Fault.{Fault, FaultAction, fault}
use raft_visualizer.NodeCard.{selectable, selectable_in, in_known_partition}
use raft_visualizer.Socket.{Hook, Outgoing, fault_inject, is_ready, send_fault}
use raft_visualizer.Canvas.{
  Outcome, partitioned_set, add_group, add_groups, handle_action_click, click_in, click_kill,
  click_restart, click_heal, click_select, outcome,
}

includes-add_group :
    (set group : List ℕ) (id : ℕ)
    → includes (add_group set group) id ≡ (includes set id || includes group id)
includes-add_group set [] id = ground arith
includes-add_group set (x ∷ group) id = ground (
  arith,
  includes-append set x id,
  includes-add_group set group id,
  includes-add_group (set ++ x ∷ []) group id,
)

includes-add_groups :
    (set : List ℕ) (groups : List (List ℕ)) (id : ℕ)
    → includes (add_groups set groups) id ≡ (includes set id || any (λ g. includes g id) groups)
includes-add_groups set [] id = ground arith
includes-add_groups set (g ∷ groups) id =
    ground (arith, includes-add_group set g id, includes-add_groups (add_group set g) groups id)

-- The canvas's set and the card's search agree.
in_known_partition_lem :
    (s : Store) (node : Node)
    → includes (partitioned_set s.active_partition_groups) node.id ≡ in_known_partition s node
unfolding partitioned_set
in_known_partition_lem s node = includes-add_groups [] s.active_partition_groups node.id

-- A click on a card that is not highlighted, in a mode, sends nothing and leaves the store.
pub handle_action_click_inert :
    (node : Node) (s : Store)
    → selectable s node ≡ false
    → ((handle_action_click node s).store ≡ s) × ((handle_action_click node s).handed ≡ [])
unfolding handle_action_click selectable
handle_action_click_inert node s h = by_mode s.action_mode h
  where
    by_mode :
        (m : Option ActionMode)
        → selectable_in m s node ≡ false
        → ((click_in m node s).store ≡ s) × ((click_in m node s).handed ≡ [])
    by_mode none h = (refl, refl)
    by_mode (some kill) h = ground arith
    by_mode (some restart) h = ground arith
    by_mode (some heal) h = ground (arith, in_known_partition_lem s node)
    by_mode (some cmd) h = (refl, refl)
    by_mode (some partition_select) h = ground arith
    by_mode (some partition_confirm) h = (refl, refl)

-- A toggle moves the node in or out, and leaves the others.
includes-toggled :
    (group : List ℕ) (id a : ℕ)
    → includes (toggled group id) a ≡ (if a == id then not (includes group a) else includes group a)
includes-toggled group id a = elim (Bool-cases (includes group id)) [
  | inl e ↦
      rw (e, toggled)
        (includes-filter (λ x. not (x == id)) group a ∙ by_id (Bool-cases (a == id)) e)
  | inr e ↦ rw (e, toggled) (ground (arith, e, includes-append group id a))
]
  where
    by_id :
        ((a == id) ≡ true) ⊎ ((a == id) ≡ false)
        → includes group id ≡ true
        → (includes group a && not (a == id))
          ≡ (if a == id then not (includes group a) else includes group a)
    by_id (inl same) e = ground (arith, same, e)
    by_id (inr other) e = ground (arith, other)

-- What goes to the backend of the commands that were handed to the hook.
unfoldable pub posted : List Fault → Hook → List Outgoing
posted [] h = []
posted (f ∷ fs) h = send_fault f h ++ posted fs h

-- The command suits the node: a live one is killed, a dead one is restarted, and a heal is sent
-- from a live node of a known partition, which is then forgotten.
pub data Suits (node : Node) (s : Store) (o : Outcome) : Fault → Type 0 where
  kills : node.alive ≡ true → Suits node s o (fault FaultAction.kill (node.id ∷ []) [] [])
  restarts : node.alive ≡ false → Suits node s o (fault FaultAction.restart (node.id ∷ []) [] [])
  heals :
      node.alive ≡ true
      → in_known_partition s node ≡ true
      → o.store.active_partition_groups ≡ []
      → Suits node s o (fault FaultAction.heal [] [] [])

-- A click acts on the store of the hook: it ends the mode and hands the hook one command that suits
-- the node, which goes to the backend exactly if the socket is open; or it moves the live node into
-- Group A or out of it, changes nothing else, and hands over nothing.
pub data Acts (node : Node) (h : Hook) (o : Outcome) : Type 0 where
  sends :
      (f : Fault)
      → o.handed ≡ f ∷ []
      → posted o.handed h ≡ (if is_ready h then fault_inject f ∷ [] else [])
      → Suits node h.store o f
      → o.store.action_mode ≡ none
      → Acts node h o
  toggles :
      o.handed ≡ []
      → is_selecting h.store.action_mode ≡ true
      → node.alive ≡ true
      → ((a : ℕ)
          → includes o.store.partition_group_a a ≡ (
              if a == node.id
              then not (includes h.store.partition_group_a a)
              else includes h.store.partition_group_a a))
      → record o.store { partition_group_a = h.store.partition_group_a } ≡ h.store
      → Acts node h o

-- A click that sends, by what it comes to.
sent-Acts :
    (node : Node) (h : Hook) (f : Fault) {o : Outcome} (t : Store)
    → o ≡ outcome t (f ∷ []) true
    → t.action_mode ≡ none
    → Suits node h.store (outcome t (f ∷ []) true) f
    → Acts node h o
unfolding posted send_fault
sent-Acts node h f t e mode suits =
    subst (Acts node h) (sym e) (sends f refl (append-nil (send_fault f h)) suits mode)

module _ (node : Node) (h : Hook) (injected : h.store.send_fault ≡ true) where
  abbrev s : Store
  s = h.store

  kill-Acts : node.alive ≡ true → Acts node h (click_kill node s)
  unfolding cancel_action
  kill-Acts k = sent-Acts node h _ (cancel_action s) (ground arith) refl (kills k)

  restart-Acts : node.alive ≡ false → Acts node h (click_restart node s)
  unfolding cancel_action
  restart-Acts k = sent-Acts node h _ (cancel_action s) (ground arith) refl (restarts k)

  heal-Acts : (not node.alive || in_known_partition s node) ≡ true → Acts node h (click_heal node s)
  unfolding cancel_action clear_active_partition_groups
  heal-Acts k = elim (Bool-cases node.alive) [
    | inr dead ↦ sent-Acts node h _ (cancel_action s) (ground arith) refl (restarts dead)
    | inl live ↦
        let known : in_known_partition s node ≡ true = ground arith in
        sent-Acts node h _ (cancel_action (clear_active_partition_groups s))
          (ground (arith, in_known_partition_lem s node, known)) refl (heals live known refl)
  ]

  select-Acts :
      is_selecting s.action_mode ≡ true → node.alive ≡ true → Acts node h (click_select node s)
  unfolding toggle_partition_group_a_node
  select-Acts m k =
      subst (Acts node h) (sym e)
        (toggles refl m k (includes-toggled s.partition_group_a node.id) refl)
    where
      e :
          click_select node s
          ≡ outcome (record s { partition_group_a = toggled s.partition_group_a node.id }) [] true
      e = ground arith

  by_mode :
      (m : Option ActionMode)
      → s.action_mode ≡ m
      → selectable_in m s node ≡ true
      → Acts node h (click_in m node s)
  by_mode none e k = cc
  by_mode (some kill) e k = kill-Acts k
  by_mode (some restart) e k = restart-Acts (ground arith)
  by_mode (some heal) e k = heal-Acts k
  by_mode (some cmd) e k = cc
  by_mode (some partition_select) e k = select-Acts (ground arith) k
  by_mode (some partition_confirm) e k = cc

-- While the hook has injected its function, a click on a card that is highlighted acts: it hands the
-- hook exactly one command, which suits the node and goes to the backend if and only if the socket is
-- open, and ends the mode; or, in the first step of a partition, it moves the live node into Group A
-- or out of it, leaves the other nodes of Group A and all else of the store as they are, and hands
-- over nothing.
pub handle_action_click-Acts :
    (node : Node) (h : Hook)
    → h.store.send_fault ≡ true
    → selectable h.store node ≡ true
    → Acts node h (handle_action_click node h.store)
unfolding handle_action_click selectable
handle_action_click-Acts node h injected k = by_mode node h injected h.store.action_mode refl k
