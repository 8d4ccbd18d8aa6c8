-- ===== src/Page/Refit.antt =====
-- The refit of the canvas waits for the last change.
use raft_visualizer.Prelude.{
  ℕ, ◌≡◌, refl, ◌⊎◌, inl, inr, Bool, some, List, [], ◌∷◌, arith, ◌==◌, nat_eq, Bool-cases,
}
use raft_visualizer.Page.{
  MobilePage, Event, node_selected, effect, due, schedule_mobile_refit, refit_due, refit_effect,
  on_node_selected, on_pane_tap, handle, run, start,
}

-- No refit is pending, or one, and it is the one that the ref names.
abbrev pub IsSingle : MobilePage → Type 0
IsSingle p = (p.timers ≡ []) ⊎ ((k : ℕ) × (p.timers ≡ k ∷ []) × (p.fit_timer ≡ some k))

schedule-IsSingle : (p : MobilePage) → IsSingle p → IsSingle (schedule_mobile_refit p)
unfolding schedule_mobile_refit
schedule-IsSingle p (inl e) = inr (p.next_timer, ground (arith, e), refl)
schedule-IsSingle p (inr (k, e, f)) = inr (p.next_timer, ground (arith, e, f), refl)

due-IsSingle : (j : ℕ) (p : MobilePage) → IsSingle p → IsSingle (refit_due j p)
unfolding refit_due
due-IsSingle j p (inl e) = inl (ground (arith, e))
due-IsSingle j p (inr (k, e, f)) = elim (Bool-cases (k == j)) [
  | inl same ↦ inl (ground (arith, e, same))
  | inr other ↦ inr (k, ground (arith, e, other), ground (arith, f))
]

pub handle-IsSingle : (e : Event) (p : MobilePage) → IsSingle p → IsSingle (handle e p)
unfolding handle on_node_selected on_pane_tap refit_effect
handle-IsSingle node_selected p v = schedule-IsSingle _ v
handle-IsSingle effect p v = ground (arith, schedule-IsSingle p v)
handle-IsSingle (due k) p v = due-IsSingle k p v
handle-IsSingle _ p v = v

run-IsSingle : (es : List Event) (p : MobilePage) → IsSingle p → IsSingle (run es p)
unfolding run
run-IsSingle [] p v = v
run-IsSingle (e ∷ es) p v = run-IsSingle es (handle e p) (handle-IsSingle e p v)

-- After any events on the mobile page at most one refit of the canvas is pending, and it is the
-- one that the page would cancel.
pub run-start-IsSingle : (mobile : Bool) (es : List Event) → IsSingle (run es (start mobile))
unfolding start
run-start-IsSingle mobile es = run-IsSingle es (start mobile) (inl refl)
