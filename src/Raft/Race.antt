-- ===== src/Raft/Race.antt =====
-- `Run` (backend/raft/node.go) reads `alive` before the handler of a message takes the node's lock: a
-- crash may come between the two.
use raft_visualizer.Prelude.{
  ℕ, ◌≡◌, refl, ap, ap₂, subst, ◌∙◌, inl, inr, Bool, true, false, List, [], ◌∷◌, ◌++◌, nat_eq,
  if◌then◌else◌, Bool-cases, if_of, sym,
}
use raft_visualizer.Raft.{
  Node, Rpc, Outcome, kill, restart, heartbeat_tick, submit_command, is_leader, send_heartbeats,
  send_to_peers, send_append_entries,
}
use raft_visualizer.Raft.Election.{start_election}
use raft_visualizer.Raft.Events.{
  Event, receive, timeout, heartbeat, changed, submit, crash, revive, dispatch, handle, run,
}
use raft_visualizer.Raft.Flags.{
  with_flags, core, Alike, dispatch-Alike, timer-dispatch, alive-dispatch,
}

-- What a node does with an event when it is killed between the test of `alive` in `Run` and the
-- handler: the handler of the message, or the election, on a dead node.
unfoldable pub raced : Event → Node → Outcome
raced (receive msg) n = if n.alive then dispatch msg.from msg.rpc (kill n) else (kill n, [])
raced timeout n =
    if n.timer
    then if n.alive
      then start_election (kill (record n { timer = false }))
      else (kill (record n { timer = false }), [])
    else (kill n, [])
raced e n = let (m, sent) = handle e n in (kill m, sent)

-- The node is killed after the event.
abbrev pub then_killed : Event → Node → Outcome
then_killed e n = (kill (handle e n).0, (handle e n).1)

if-Alike :
    (b : Bool) (o o' p p' : Outcome)
    → Alike o (kill p.0, p.1)
    → Alike o' (kill p'.0, p'.1)
    → Alike (if b then o else o') (kill (if b then p else p').0, (if b then p else p').1)
if-Alike true o o' p p' g h = g
if-Alike false o o' p p' g h = h

raced-Alike : (e : Event) (n : Node) → Alike (raced e n) (then_killed e n)
unfolding raced handle kill start_election
raced-Alike (receive msg) n =
    if-Alike n.alive (dispatch msg.from msg.rpc (kill n)) (kill n, []) (dispatch msg.from msg.rpc n)
      (n, []) (dispatch-Alike false false false true msg.from msg.rpc n) (refl, refl)
raced-Alike timeout n =
    let m : Node = record n { timer = false } in
    if-Alike n.timer (if n.alive then start_election (kill m) else (kill m, [])) (kill n, [])
      (if n.alive then start_election m else (m, [])) (n, [])
      (if-Alike n.alive (start_election (kill m)) (kill m, []) (start_election m) (m, [])
        (refl, refl) (refl, refl))
      (refl, refl)
raced-Alike heartbeat n = (refl, refl)
raced-Alike changed n = (refl, refl)
raced-Alike (submit cmd) n = (refl, refl)
raced-Alike crash n = (refl, refl)
raced-Alike revive n = (refl, refl)

-- Nodes that differ in their heartbeat loops and signals, and while they are dead in their timers.
pub record Twin (x y : Node) : Type 0 where
  same : core x ≡ core y
  alive : x.alive ≡ y.alive
  timer : y.alive ≡ true → x.timer ≡ y.timer

-- Twins that have sent the same.
abbrev Twins : Outcome → Outcome → Type 0
Twins o p = Twin o.0 p.0 × (o.1 ≡ p.1)

if-Twins :
    (b : Bool) (o o' p p' : Outcome)
    → (b ≡ true → Twins o p)
    → (b ≡ false → Twins o' p')
    → Twins (if b then o else o') (if b then p else p')
if-Twins true o o' p p' g h = g refl
if-Twins false o o' p p' g h = h refl

module _ (h t d : Bool) where
  -- The node with another loop, signal and timer.
  abbrev twin : Node → Node
  twin n = with_flags n.alive h t d n

  twin-Twin : (n : Node) → (n.alive ≡ true → t ≡ n.timer) → Twin (twin n) n
  twin-Twin n timed = record { same = refl; alive = refl; timer = timed }

  dispatch-Twins :
      (from : ℕ) (rpc : Rpc) (n : Node)
      → t ≡ n.timer
      → Twins (dispatch from rpc (twin n)) (dispatch from rpc n)
  dispatch-Twins from rpc n timed =
      let (same, sent) = dispatch-Alike n.alive h t d from rpc n in
      (
        record {
          same = same;
          alive = alive-dispatch from rpc (twin n) ∙ sym (alive-dispatch from rpc n);
          timer = λ on.
              ap (λ k. (dispatch from rpc (with_flags n.alive h k d n)).0.timer) timed
              ∙ timer-dispatch n.alive h d from rpc n;
        },
        sent,
      )

timeout-Twins :
    (a h h' t t' d d' : Bool) (n : Node)
    → (a ≡ true → t ≡ t')
    → Twins (handle timeout (with_flags a h t d n)) (handle timeout (with_flags a h' t' d' n))
unfolding handle start_election
timeout-Twins true h h' true true d d' n timed =
    (record { same = refl; alive = refl; timer = λ on. refl }, refl)
timeout-Twins true h h' false false d d' n timed =
    (record { same = refl; alive = refl; timer = λ on. refl }, refl)
timeout-Twins true h h' true false d d' n timed = cc (timed refl)
timeout-Twins true h h' false true d d' n timed = cc (timed refl)
timeout-Twins false h h' true true d d' n timed =
    (record { same = refl; alive = refl; timer = λ on. refl }, refl)
timeout-Twins false h h' true false d d' n timed =
    (record { same = refl; alive = refl; timer = λ on. refl }, refl)
timeout-Twins false h h' false true d d' n timed =
    (record { same = refl; alive = refl; timer = λ on. refl }, refl)
timeout-Twins false h h' false false d d' n timed =
    (record { same = refl; alive = refl; timer = λ on. refl }, refl)

module _ (h t d : Bool) where
  handle-twin :
      (e : Event) (n : Node)
      → (n.alive ≡ true → t ≡ n.timer)
      → Twins (handle e (twin h t d n)) (handle e n)
  unfolding handle heartbeat_tick submit_command kill restart send_heartbeats send_to_peers
      send_append_entries
  handle-twin (receive msg) n timed =
      if-Twins n.alive (dispatch msg.from msg.rpc (twin h t d n)) (twin h t d n, [])
        (dispatch msg.from msg.rpc n) (n, [])
        (λ on. dispatch-Twins h t d msg.from msg.rpc n (timed on))
        (λ off. (twin-Twin h t d n timed, refl))
  handle-twin timeout n timed = timeout-Twins n.alive h n.heartbeat t n.timer d n.dirty n timed
  handle-twin heartbeat n timed = (twin-Twin h t d n timed, refl)
  handle-twin changed n timed = (record { same = refl; alive = refl; timer = timed }, refl)
  handle-twin (submit cmd) n timed = elim (Bool-cases (is_leader n.role)) [
    | inl l ↦
        rw (handle, submit_command, l, if◌then◌else◌)
          (record { same = refl; alive = refl; timer = timed }, refl)
    | inr l ↦
        rw (handle, submit_command, l, if◌then◌else◌)
          (record { same = refl; alive = refl; timer = timed }, refl)
  ]
  handle-twin crash n timed = (record { same = refl; alive = refl; timer = λ on. refl }, refl)
  handle-twin revive n timed = (record { same = refl; alive = refl; timer = λ on. refl }, refl)

Twin-eq : (x y : Node) → Twin x y → x ≡ with_flags y.alive x.heartbeat x.timer x.dirty y
Twin-eq x y w =
    ap (with_flags x.alive x.heartbeat x.timer x.dirty) w.same
    ∙ ap (λ a. with_flags a x.heartbeat x.timer x.dirty y) w.alive

-- An event keeps twins twins, and they send the same.
handle-Twins : (e : Event) (x y : Node) → Twin x y → Twins (handle e x) (handle e y)
handle-Twins e x y w =
    subst (λ n. Twins (handle e n) (handle e y)) (sym (Twin-eq x y w))
      (handle-twin x.heartbeat x.timer x.dirty e y w.timer)

run-Twins : (es : List Event) (x y : Node) → Twin x y → Twins (run es x) (run es y)
unfolding run
run-Twins [] x y w = (w, refl)
run-Twins (e ∷ es) x y w =
    let (now, sent) = handle-Twins e x y w in
    let (last, later) = run-Twins es (handle e x).0 (handle e y).0 now in
    (last, ap₂ ◌++◌ sent later)

alive-raced : (e : Event) (n : Node) → (raced e n).0.alive ≡ false
unfolding raced kill start_election
alive-raced (receive msg) n =
    if_of (λ (o : Outcome). o.0.alive ≡ false) n.alive (alive-dispatch msg.from msg.rpc (kill n))
      refl
alive-raced timeout n =
    if_of (λ (o : Outcome). o.0.alive ≡ false) n.timer
      (if_of (λ (o : Outcome). o.0.alive ≡ false) n.alive refl refl) refl
alive-raced heartbeat n = refl
alive-raced changed n = refl
alive-raced (submit cmd) n = refl
alive-raced crash n = refl
alive-raced revive n = refl

-- A kill that comes between the test of `alive` and the handler is as good as a kill right after the
-- handler: whatever happens to the node later, in both cases it has sent the same messages, in the
-- same order, and is the same node at the end, but for its heartbeat loop and its signal of a change
-- and, while it is dead, its election timer.
pub raced-Twins :
    (e : Event) (es : List Event) (n : Node)
    → let o = raced e n in
      let p = then_killed e n in
      ((o.1 ++ (run es o.0).1) ≡ (p.1 ++ (run es p.0).1)) × Twin (run es o.0).0 (run es p.0).0
unfolding kill
raced-Twins e es n =
    let (same, sent) = raced-Alike e n in
    let (last, later) =
      run-Twins es (raced e n).0 (then_killed e n).0
        (record { same = same; alive = alive-raced e n; timer = λ on. cc }) in
    (ap₂ ◌++◌ sent later, last)
