-- ===== src/Page/App/Tidy.antt =====
-- What the demo leaves behind when the user goes back.
use raft_visualizer.Prelude.{
  ℕ, ◌≡◌, refl, sym, subst, ap, ◌∙◌, inl, inr, Bool, true, false, Option, none, some, List, [], ◌∷◌,
  ◌++◌, arith, nat_eq, All, beq_self,
}
use raft_visualizer.Store.{Store, toggle_lang}
use raft_visualizer.Socket.{
  Hook, on_open, on_close, on_error, on_message, connect, flush, schedule_state_apply, mount,
  unmount, garbage, other, state_update,
}
use raft_visualizer.Socket.Events.{
  Event, opened, closed, errored, message, reconnect_due, flush_due, media_change, unmounted,
  mounted, fault, command, handle,
}
use raft_visualizer.Socket.Phase.{Phase, gone, linked, waiting}
use raft_visualizer.Socket.Life.{IsValid, pending, handle-IsValid}
use raft_visualizer.Socket.Unmount.{IsLeftover}
use raft_visualizer.Page.{
  MobilePage, cleared, effect, start, refit_effect, schedule_mobile_refit, handle as handle_page,
  run,
}
use raft_visualizer.Page.Refit.{IsSingle, handle-IsSingle}
use raft_visualizer.Page as Page
use raft_visualizer.Page.App.{
  App, AppEvent, started, went_back, toggled_lang, browser, page, open_app, on_start, on_back,
  on_page, on_toggle_lang, release_refit, handle_app, run_app,
}

-- The hook is mounted exactly while the demo is shown.
abbrev IsAttended : Option MobilePage → Hook → Type 0
IsAttended none h = h.disposed ≡ true
IsAttended (some p) h = (h.disposed ≡ false) × IsSingle p

record IsTidy (app : App) : Type 0 where
  valid : IsValid app.hook
  attended : IsAttended app.demo app.hook
  refits : app.refits ≡ []

-- The events that the app lets through to the hook: mounting is its own.
abbrev pub IsOutside : AppEvent → Type 0
IsOutside (browser e) = IsLeftover e
IsOutside _ = Unit

disposed-handle : (e : Event) (h : Hook) → IsLeftover e → (handle e h).disposed ≡ h.disposed
unfolding handle on_open on_close on_error on_message connect flush schedule_state_apply
disposed-handle (opened k) h n = ground arith
disposed-handle (closed k) h n = ground arith
disposed-handle (errored k) h n = ground arith
disposed-handle (message k t1 t2 garbage) h n = refl
disposed-handle (message k t1 t2 other) h n = refl
disposed-handle (message k t1 t2 (state_update payload)) h n = ground arith
disposed-handle (reconnect_due k) h n = ground arith
disposed-handle (flush_due k t1 t2) h n = ground arith
disposed-handle (media_change matches) h n = ground arith
disposed-handle unmounted h n = elim n [ ]
disposed-handle (mounted matches) h n = elim n [ ]
disposed-handle (fault f) h n = refl
disposed-handle (command c) h n = refl

disposed-unmounted : (h : Hook) → (handle unmounted h).disposed ≡ true
unfolding handle unmount
disposed-unmounted h = ground arith

disposed-mounted :
    (matches : Bool) (h : Hook) → h.disposed ≡ true → (handle (mounted matches) h).disposed ≡ false
unfolding handle mount connect
disposed-mounted matches h d = ground (arith, d)

toggle_lang-IsValid : (h : Hook) → IsValid h → IsValid (record h { store = toggle_lang h.store })
unfolding toggle_lang
toggle_lang-IsValid h v = record { phase = phase v.phase; flushes = v.flushes }
  where
    phase : Phase h → Phase (record h { store = toggle_lang h.store })
    phase (gone d w u t f p) = gone d w u t f p
    phase (linked k d w u t s) = linked k d w u t s
    phase (waiting k d t w u s) = waiting k d t w u s

release_refit-nil : (p : MobilePage) → IsSingle p → release_refit p ≡ []
unfolding release_refit
release_refit-nil p (inl e) = nothing p.fit_timer p.timers e
  where
    nothing : (o : Option ℕ) (ts : List ℕ) → ts ≡ [] → cleared o ts ≡ []
    nothing none ts e = e
    nothing (some k) ts e = ground (arith, e)
release_refit-nil p (inr (k, e, f)) = ground (arith, e, f, beq_self k)

module _ (h : Hook) (valid : IsValid h) where
  start-IsTidy :
      (matches : Bool) (d : Option MobilePage)
      → IsAttended d h
      → IsTidy (on_start matches (record { demo = d; hook = h; refits = [] }))
  unfolding on_start refit_effect start handle_page
  start-IsTidy matches (some p) a = record { valid = valid; attended = a; refits = refl }
  start-IsTidy matches none a = record {
    valid = handle-IsValid (mounted matches) valid;
    attended = (disposed-mounted matches h a, handle-IsSingle effect (start matches) (inl refl));
    refits = refl;
  }

  back-IsTidy :
      (d : Option MobilePage)
      → IsAttended d h
      → IsTidy (on_back (record { demo = d; hook = h; refits = [] }))
  unfolding on_back
  back-IsTidy none a = record { valid = valid; attended = a; refits = refl }
  back-IsTidy (some p) a = record {
    valid = handle-IsValid unmounted valid;
    attended = disposed-unmounted h;
    refits = ap (◌++ []) (release_refit-nil p a.1);
  }

  page-IsTidy :
      (e : Page.Event) (d : Option MobilePage)
      → IsAttended d h
      → IsTidy (on_page e (record { demo = d; hook = h; refits = [] }))
  unfolding on_page
  page-IsTidy e none a = record { valid = valid; attended = a; refits = refl }
  page-IsTidy e (some p) a = record {
    valid = valid;
    attended = (a.0, handle-IsSingle e p a.1);
    refits = refl;
  }

-- A hook that is mounted just as before.
same-IsAttended :
    (d : Option MobilePage) (h g : Hook) → g.disposed ≡ h.disposed → IsAttended d h → IsAttended d g
same-IsAttended none h g e a = e ∙ a
same-IsAttended (some p) h g e a = (e ∙ a.0, a.1)

handle_app-IsTidy :
    (e : AppEvent) (app : App) → IsOutside e → IsTidy app → IsTidy (handle_app e app)
unfolding handle_app on_toggle_lang
handle_app-IsTidy (started matches) app o t =
    subst (λ r. IsTidy (on_start matches (record { demo = app.demo; hook = app.hook; refits = r })))
      (sym t.refits) (start-IsTidy app.hook t.valid matches app.demo t.attended)
handle_app-IsTidy went_back app o t =
    subst (λ r. IsTidy (on_back (record { demo = app.demo; hook = app.hook; refits = r })))
      (sym t.refits) (back-IsTidy app.hook t.valid app.demo t.attended)
handle_app-IsTidy toggled_lang app o t = record {
  valid = toggle_lang-IsValid app.hook t.valid;
  attended = same-IsAttended app.demo app.hook _ refl t.attended;
  refits = t.refits;
}
handle_app-IsTidy (browser e) app o t = record {
  valid = handle-IsValid e t.valid;
  attended = same-IsAttended app.demo app.hook _ (disposed-handle e app.hook o) t.attended;
  refits = t.refits;
}
handle_app-IsTidy (page e) app o t =
    subst (λ r. IsTidy (on_page e (record { demo = app.demo; hook = app.hook; refits = r })))
      (sym t.refits) (page-IsTidy app.hook t.valid e app.demo t.attended)

run_app-IsTidy :
    (es : List AppEvent) (app : App) → All IsOutside es → IsTidy app → IsTidy (run_app es app)
unfolding run_app
run_app-IsTidy [] app o t = t
run_app-IsTidy (e ∷ es) app o t =
    run_app-IsTidy es (handle_app e app) o.1 (handle_app-IsTidy e app o.0 t)

open_app-IsTidy : (s : Store) → IsTidy (open_app s)
unfolding open_app
open_app-IsTidy s = record {
  valid = record { phase = gone refl refl refl refl refl refl; flushes = refl };
  attended = refl;
  refits = refl;
}

-- What of the demo can still reach the page: sockets that have not closed, and pending timers.
abbrev pub left_over : App → List ℕ
left_over app = app.hook.unclosed ++ (app.hook.timers ++ (app.hook.flush_timers ++ app.refits))

gone_left_over : (app : App) → IsTidy app → app.demo ≡ none → left_over app ≡ []
gone_left_over app t e = nothing t.valid.phase (subst (λ d. IsAttended d app.hook) e t.attended)
  where
    nothing : Phase app.hook → app.hook.disposed ≡ true → left_over app ≡ []
    nothing (gone d w u ts f p) off =
        let flushes : app.hook.flush_timers ≡ [] = t.valid.flushes ∙ ap pending f in
        rw (u, ts, flushes, t.refits) refl
    nothing (linked k d w u ts s) off = cc
    nothing (waiting k d ts w u s) off = cc

-- However often the user starts the demo and goes back, and whatever happens in between: on the
-- landing page no socket, reconnect, held-back payload or refit of the demo is left.
pub run_app-left_over :
    (s : Store) (es : List AppEvent)
    → All IsOutside es
    → (run_app es (open_app s)).demo ≡ none
    → left_over (run_app es (open_app s)) ≡ []
run_app-left_over s es o e =
    gone_left_over (run_app es (open_app s)) (run_app-IsTidy es (open_app s) o (open_app-IsTidy s))
      e
