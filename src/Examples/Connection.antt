-- ===== src/Examples/Connection.antt =====
-- Runs of the WebSocket hook.
use raft_visualizer.Prelude.{◌≡◌, refl, true, false, none, some, List, [], ◌∷◌, ◌++◌}
use raft_visualizer.Socket.{state_update}
use raft_visualizer.Socket.Events.{
  Event, opened, closed, message, reconnect_due, flush_due, media_change, unmounted, command,
  handle, run, sent,
}
use raft_visualizer.Socket.Life.{IsValid, blank, run-mount-IsValid}
use raft_visualizer.Socket.{Hook, mount}
use raft_visualizer.Socket.Unmount.{run-unmounted}
use raft_visualizer.Socket.Coalesce.{burst, flush-burst, flush_stale}
use raft_visualizer.Store.Update.{apply_state_update}
use raft_visualizer.Store.Update.Shown.{shown, reported}
use raft_visualizer.Examples.Data.{page, elected, earlier, hook}

-- A connection that is lost and opened again.
abbrev trip : List Event
trip =
    opened 0
    ∷ message 0 "a" "b" (state_update (some earlier))
    ∷ closed 0
    ∷ reconnect_due 0
    ∷ opened 1
    ∷ []

run-mount-IsValid_example : IsValid (run trip (mount true (blank page)))
run-mount-IsValid_example = run-mount-IsValid page true trip

abbrev leftovers : List Event
leftovers =
    closed 1
    ∷ message 1 "a" "b" (state_update (some elected))
    ∷ flush_due 7 "a" "b"
    ∷ command (120 ∷ [])
    ∷ []

run-unmounted_example :
    ((run leftovers (handle unmounted (run trip (mount true (blank page))))).store
      ≡ (handle unmounted (run trip (mount true (blank page)))).store)
    × (sent leftovers (handle unmounted (run trip (mount true (blank page)))) ≡ [])
run-unmounted_example =
    run-unmounted (run trip (mount true (blank page))) leftovers (run-mount-IsValid page true trip)
      (tt, (tt, (tt, (tt, tt))))

flush-burst_example :
    (run
      (burst 3 "t" (some earlier ∷ none ∷ some elected ∷ []) ++ flush_due 7 "a" "b" ∷ [])
      hook).store
    ≡ apply_state_update "a" "b" (some elected) page
flush-burst_example =
    flush-burst hook 3 refl refl "t" "a" "b" (some earlier) (none ∷ some elected ∷ []) elected refl
      refl

-- The hook while it holds the earlier payload back.
abbrev holding_earlier : Hook
holding_earlier = record hook {
  pending_payload = some earlier;
  flush_timer = some 7;
  flush_timers = 7 ∷ [];
  next_timer = 8;
}

flush_stale_example :
    shown
      (run
        (media_change false
          ∷ message 3 "a" "b" (state_update (some elected))
          ∷ flush_due 7 "c" "d"
          ∷ [])
        holding_earlier).store.nodes
    ≡ reported (some earlier)
flush_stale_example =
    flush_stale holding_earlier 3 refl refl "a" "b" "c" "d" earlier elected 7 refl refl refl
