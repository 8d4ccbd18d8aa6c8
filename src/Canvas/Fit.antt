-- ===== src/Canvas/Fit.antt =====
-- The fit of the canvas when the first nodes are there (`FitViewOnLoad` of
-- frontend/src/components/ClusterView.jsx).
use raft_visualizer.Prelude.{
  ℕ, ◌+◌, ◌≤◌, ◌≡◌, refl, Bool, true, false, not, ◌&&◌, ◌||◌, List, [], ◌∷◌, arith, ltb, ◌==◌,
  nat_eq, if◌then◌else◌,
}

abbrev pub max_attempts : ℕ
max_attempts = 24

-- `fitted` is the ref. Of the last run of the effect: whether it waits for a frame or for the promise
-- of a fit, and how many fits it has asked for.
pub record Fit : Type 0 where
  pub fitted : Bool
  pub running : Bool
  pub frame : Bool
  pub waiting : Bool
  pub attempts : ℕ

abbrev pub start : Fit
start = record { fitted = false; running = false; frame = false; waiting = false; attempts = 0 }

-- The cleanup of the last run: `cancelled`, and no frame.
unfoldable pub cleanup : Fit → Fit
cleanup f = record f { running = false; frame = false; waiting = false }

-- The effect, for a node count that has changed.
unfoldable pub effect : ℕ → Fit → Fit
effect node_count f =
    let g = cleanup f in
    if (node_count == 0) || g.fitted
    then g
    else record g { running = true; frame = true; attempts = 0 }

-- `tryFit`, by its frame.
unfoldable pub try_fit : Fit → Fit
try_fit f =
    if not f.frame
    then f
    else if f.fitted
    then record f { frame = false }
    else record f { frame = false; waiting = true; attempts = f.attempts + 1 }

-- The promise of the last fit ends, by its result; an error is like `false`.
unfoldable pub settled : Bool → Fit → Fit
settled ok f =
    if not f.waiting
    then f
    else if f.fitted
    then record f { waiting = false }
    else if ok
    then record f { waiting = false; fitted = true }
    else record f { waiting = false; frame = ltb f.attempts max_attempts }

pub data Event : Type 0 where
  counted : ℕ → Event
  frame unmounted : Event
  settle : Bool → Event

unfoldable pub handle : Event → Fit → Fit
handle (counted node_count) f = effect node_count f
handle frame f = try_fit f
handle unmounted f = cleanup f
handle (settle ok) f = settled ok f

unfoldable pub run : List Event → Fit → Fit
run [] f = f
run (e ∷ es) f = run es (handle e f)

-- A run asks for 24 fits at most, one at a time, and none once the canvas is fitted or the run has
-- ended.
pub record IsBounded (f : Fit) : Type 0 where
  pub attempts : f.attempts ≤ 24
  pub frame : f.frame ≡ true → f.attempts + 1 ≤ 24
  pub alone : (f.frame && f.waiting) ≡ false
  pub quiet : ((f.fitted || not f.running) && (f.frame || f.waiting)) ≡ false

cleanup-IsBounded : (f : Fit) → IsBounded f → IsBounded (cleanup f)
unfolding cleanup
cleanup-IsBounded f h = record {
  attempts = ground (arith, h.attempts, h.frame, h.quiet);
  frame = λ e. ground (arith, h.attempts, h.frame, h.quiet, e);
  alone = ground (arith, h.alone, h.quiet);
  quiet = ground (arith, h.alone, h.quiet);
}

effect-IsBounded : (node_count : ℕ) (f : Fit) → IsBounded f → IsBounded (effect node_count f)
unfolding effect cleanup
effect-IsBounded node_count f h = record {
  attempts = ground (arith, h.attempts, h.frame, h.quiet);
  frame = λ e. ground (arith, h.attempts, h.frame, h.quiet, e);
  alone = ground (arith, h.alone, h.quiet);
  quiet = ground (arith, h.alone, h.quiet);
}

try_fit-IsBounded : (f : Fit) → IsBounded f → IsBounded (try_fit f)
unfolding try_fit
try_fit-IsBounded f h = record {
  attempts = ground (arith, h.attempts, h.frame, h.quiet);
  frame = λ e. ground (arith, h.attempts, h.frame, h.quiet, e);
  alone = ground (arith, h.alone, h.quiet);
  quiet = ground (arith, h.alone, h.quiet);
}

settled-IsBounded : (ok : Bool) (f : Fit) → IsBounded f → IsBounded (settled ok f)
unfolding settled
settled-IsBounded ok f h = record {
  attempts = ground (arith, h.attempts, h.frame, h.quiet);
  frame = λ e. ground (arith, h.attempts, h.frame, h.quiet, e);
  alone = ground (arith, h.alone, h.quiet);
  quiet = ground (arith, h.alone, h.quiet);
}

handle-IsBounded : (e : Event) (f : Fit) → IsBounded f → IsBounded (handle e f)
unfolding handle
handle-IsBounded (counted node_count) f h = effect-IsBounded node_count f h
handle-IsBounded frame f h = try_fit-IsBounded f h
handle-IsBounded unmounted f h = cleanup-IsBounded f h
handle-IsBounded (settle ok) f h = settled-IsBounded ok f h

run-IsBounded : (es : List Event) (f : Fit) → IsBounded f → IsBounded (run es f)
unfolding run
run-IsBounded [] f h = h
run-IsBounded (e ∷ es) f h = run-IsBounded es (handle e f) (handle-IsBounded e f h)

-- In every run of events each run of the effect asks for at most 24 fits; it waits for a frame or for
-- the end of a fit, not for both, and for nothing once a fit has succeeded or the run has ended.
pub run-start-IsBounded : (es : List Event) → IsBounded (run es start)
run-start-IsBounded es =
    run-IsBounded es start
      (record { attempts = omega arith; frame = λ e. cc; alone = refl; quiet = refl })
