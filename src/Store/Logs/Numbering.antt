-- ===== src/Store/Logs/Numbering.antt =====
-- Event ids: every line that a pass emits takes the next number.
use raft_visualizer.Prelude.{
  ℕ, zero, suc, ◌+◌, ◌≤◌, ◌≡◌, Bool, List, [], ◌∷◌, ◌++◌, String, arith, length, length-append,
  drop, if◌then◌else◌,
}
use raft_visualizer.Cluster.{EventLog, signature_eq, Level}
use raft_visualizer.Store.Logs.{Emitter, push_log}

-- The ids are n, n + 1, n + 2 and so on.
abbrev pub IsRun : ℕ → List EventLog → Type 0
IsRun n [] = Unit
IsRun n (l ∷ ls) = (l.id ≡ n) × IsRun (suc n) ls

pub IsRun-append :
    (n : ℕ) (xs ys : List EventLog) → IsRun n xs → IsRun (n + length xs) ys → IsRun n (xs ++ ys)
IsRun-append n [] ys hx hy = let e : n + 0 ≡ n = omega arith in rw e at hy
IsRun-append n (x ∷ xs) ys hx hy =
    let e : n + suc (length xs) ≡ suc n + length xs = omega arith in
    (hx.0, IsRun-append (suc n) xs ys hx.1 (rw e at hy))

pub IsRun-drop :
    (k n : ℕ) (xs : List EventLog) → k ≤ length xs → IsRun n xs → IsRun (n + k) (drop k xs)
IsRun-drop zero n xs h r = let e : n + 0 ≡ n = omega arith in rw e r
IsRun-drop (suc k) n [] h r = absurd (omega arith)
IsRun-drop (suc k) n (x ∷ xs) h r =
    let e : n + suc k ≡ suc n + k = omega arith in rw e (IsRun-drop k (suc n) xs (omega arith) r.1)

-- The lines are numbered from `n`, and the counter stands behind them.
pub record IsNumbered (n : ℕ) (em : Emitter) : Type 0 where
  pub run : IsRun n em.logs
  pub next : em.next_event_id ≡ n + length em.logs

pub empty-IsNumbered : (n : ℕ) → IsNumbered n (record { next_event_id = n; logs = [] })
empty-IsNumbered n = record { run = tt; next = omega arith }

pub push_log-IsNumbered :
    (n from to : ℕ) (event_type : String) (term : ℕ) (level : Level) (time : String) {em : Emitter}
    → IsNumbered n em
    → IsNumbered n (push_log from to event_type term level time em)
push_log-IsNumbered n from to event_type term level time {em} h = record {
  run = IsRun-append n em.logs _ h.run (h.next, tt);
  next = omega (arith, h.next, length-append em.logs (_ ∷ []));
}

pub if-IsNumbered :
    (n : ℕ) (b : Bool) {x y : Emitter}
    → IsNumbered n x
    → IsNumbered n y
    → IsNumbered n (if b then x else y)
if-IsNumbered n b hx hy = ground arith
