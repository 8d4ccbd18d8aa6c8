-- ===== src/Page/App.antt =====
-- The switch between the landing page and the demo (`App`, `LiveDemoApp` and `useIsMobile` of
-- frontend/src/App.jsx).
pub mod Tidy
use raft_visualizer.Prelude.{ℕ, Bool, true, false, Option, none, some, List, [], ◌∷◌, ◌++◌}
use raft_visualizer.Store.{Store, toggle_lang}
use raft_visualizer.Socket.{Hook}
use raft_visualizer.Socket.Events.{Event, mounted, unmounted, handle}
use raft_visualizer.Page.{MobilePage, cleared, refit_effect, handle as handle_page, start}
use raft_visualizer.Page as Page

-- `demo` is the state of the live page while it is shown. `hook` is what `useRaftWS` holds, and
-- `refits` the refit timers that pages left behind in the browser.
pub record App : Type 0 where
  pub demo : Option MobilePage
  pub hook : Hook
  pub refits : List ℕ

-- The page before the demo is started for the first time.
unfoldable pub open_app : Store → App
open_app s = record {
  demo = none;
  hook = record {
    store = s;
    ws = none;
    timer = none;
    disposed = true;
    is_mobile = false;
    flush_timer = none;
    pending_payload = none;
    open_sockets = [];
    unclosed = [];
    timers = [];
    flush_timers = [];
    next_socket = 0;
    next_timer = 0;
  };
  refits = [];
}

-- The live page mounts, with the media query's answer: the effects of the hook and of the refit.
unfoldable pub on_start : Bool → App → App
on_start matches app = elim app.demo [
  | some p ↦ app
  | none ↦ record app {
    demo = some (refit_effect (start matches));
    hook = handle (mounted matches) app.hook;
  }
]

-- The cleanup of the refit timer.
unfoldable pub release_refit : MobilePage → List ℕ
release_refit p = cleared p.fit_timer p.timers

unfoldable pub on_back : App → App
on_back app = elim app.demo [
  | none ↦ app
  | some p ↦ record app {
    demo = none;
    hook = handle unmounted app.hook;
    refits = release_refit p ++ app.refits;
  }
]

-- What happens to the live page while it is shown.
unfoldable pub on_page : Page.Event → App → App
on_page e app = elim app.demo [ none ↦ app | some p ↦ record app { demo = some (handle_page e p) } ]

-- The button for the language is on both pages.
unfoldable pub on_toggle_lang : App → App
on_toggle_lang app = record app { hook = record app.hook { store = toggle_lang app.hook.store } }

-- `browser` is an event of the sockets, the timers and the media query.
pub data AppEvent : Type 0 where
  started : Bool → AppEvent
  went_back toggled_lang : AppEvent
  browser : Event → AppEvent
  page : Page.Event → AppEvent

unfoldable pub handle_app : AppEvent → App → App
handle_app (started matches) app = on_start matches app
handle_app went_back app = on_back app
handle_app toggled_lang app = on_toggle_lang app
handle_app (browser e) app = record app { hook = handle e app.hook }
handle_app (page e) app = on_page e app

unfoldable pub run_app : List AppEvent → App → App
run_app [] app = app
run_app (e ∷ es) app = run_app es (handle_app e app)
