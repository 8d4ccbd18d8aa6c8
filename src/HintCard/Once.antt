-- ===== src/HintCard/Once.antt =====
-- The card is shown until it is dismissed, and not again.
use raft_visualizer.Prelude.{
  ℕ, ◌≡◌, ◌≢◌, refl, true, Option, none, some, List, [], ◌∷◌, String, nat_eq, string_eq, arith, All,
}
use raft_visualizer.HintCard.{
  Hint, Event, pressed, reopened, selected, read_dismissed, open_card, dismiss, on_selection,
  reopen, handle, run,
}

handle-stored :
    (e : Event) (h : Hint)
    → read_dismissed h.stored ≡ h.dismissed
    → read_dismissed (handle e h).stored ≡ (handle e h).dismissed
unfolding handle dismiss on_selection reopen read_dismissed
handle-stored pressed h v = refl
handle-stored reopened h v = refl
handle-stored (selected k) h v = ground arith

run-stored :
    (es : List Event) (h : Hint)
    → read_dismissed h.stored ≡ h.dismissed
    → read_dismissed (run es h).stored ≡ (run es h).dismissed
unfolding run
run-stored [] h v = v
run-stored (e ∷ es) h v = run-stored es (handle e h) (handle-stored e h v)

-- After any events a reload of the page shows the card exactly if it is shown now.
pub run-open_card-reload :
    (stored : Option String) (k j : Option ℕ) (es : List Event)
    → (open_card (run es (open_card stored k)).stored j).dismissed
      ≡ (run es (open_card stored k)).dismissed
unfolding open_card
run-open_card-reload stored k j es = run-stored es (open_card stored k) refl

abbrev pub IsNoReopen : Event → Type 0
IsNoReopen reopened = ⊥
IsNoReopen _ = Unit

handle-dismissed :
    (e : Event) (h : Hint) → IsNoReopen e → h.dismissed ≡ true → (handle e h).dismissed ≡ true
unfolding handle dismiss on_selection
handle-dismissed pressed h n d = refl
handle-dismissed reopened h n d = elim n [ ]
handle-dismissed (selected k) h n d = ground arith

run-dismissed :
    (es : List Event) (h : Hint)
    → All IsNoReopen es
    → h.dismissed ≡ true
    → (run es h).dismissed ≡ true
unfolding run
run-dismissed [] h n d = d
run-dismissed (e ∷ es) h n d = run-dismissed es (handle e h) n.1 (handle-dismissed e h n.0 d)

selected-dismissed :
    (k : ℕ) (h : Hint) → h.prev_selected ≢ some k → (handle (selected (some k)) h).dismissed ≡ true
unfolding handle on_selection
selected-dismissed k h ne = by_prev h.prev_selected refl
  where
    by_prev : (o : Option ℕ) → h.prev_selected ≡ o → (on_selection (some k) h).dismissed ≡ true
    by_prev none e = ground arith
    by_prev (some j) e = ground arith

-- Once a node is selected that was not selected before, the card stays dismissed through all later
-- events but a request to see it again.
pub run-selected-dismissed :
    (k : ℕ) (es : List Event) (h : Hint)
    → h.prev_selected ≢ some k
    → All IsNoReopen es
    → (run (selected (some k) ∷ es) h).dismissed ≡ true
unfolding run
run-selected-dismissed k es h ne n =
    run-dismissed es (handle (selected (some k)) h) n (selected-dismissed k h ne)
