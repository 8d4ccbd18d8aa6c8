-- ===== src/HintCard.antt =====
-- The hint card and its flag in `localStorage` (frontend/src/components/HintCard.jsx).
pub mod Once
pub mod View
use raft_visualizer.Prelude.{
  ℕ, Bool, true, false, not, ◌&&◌, Option, none, some, List, [], ◌∷◌, String, ◌==◌, nat_eq,
  string_eq, if◌then◌else◌,
}

pub record Hint : Type 0 where
  pub dismissed : Bool
  pub prev_selected : Option ℕ
  -- `localStorage.getItem(DISMISSED_KEY)`
  pub stored : Option String

-- The initial state of `dismissed`.
unfoldable pub read_dismissed : Option String → Bool
read_dismissed none = false
read_dismissed (some s) = s == "true"

-- The card mounts over what is stored and what is selected.
unfoldable pub open_card : Option String → Option ℕ → Hint
open_card stored selected = record {
  dismissed = read_dismissed stored;
  prev_selected = selected;
  stored = stored;
}

abbrev pub same_selection : Option ℕ → Option ℕ → Bool
same_selection none none = true
same_selection (some a) (some b) = a == b
same_selection _ _ = false

abbrev pub is_node : Option ℕ → Bool
is_node none = false
is_node (some k) = true

-- The button.
unfoldable pub dismiss : Hint → Hint
dismiss h = record h { stored = some "true"; dismissed = true }

-- The effect that runs when the selection or the flag has changed.
unfoldable pub on_selection : Option ℕ → Hint → Hint
on_selection selected h =
    if not h.dismissed && (not (same_selection h.prev_selected selected) && is_node selected)
    then record h { stored = some "true"; dismissed = true; prev_selected = selected }
    else record h { prev_selected = selected }

-- The event `raft:reopen-hint`.
unfoldable pub reopen : Hint → Hint
reopen h = record h { stored = none; dismissed = false }

pub data Event : Type 0 where
  pressed reopened : Event
  selected : Option ℕ → Event

unfoldable pub handle : Event → Hint → Hint
handle pressed h = dismiss h
handle reopened h = reopen h
handle (selected k) h = on_selection k h

unfoldable pub run : List Event → Hint → Hint
run [] h = h
run (e ∷ es) h = run es (handle e h)
