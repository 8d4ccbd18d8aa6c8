-- ===== src/Intro/Sections.antt =====
-- The exit timers of the mobile sections.
use raft_visualizer.Prelude.{
  ◌≡◌, refl, Bool, not, ◌&&◌, List, [], ◌∷◌, ◌==◌, String, string_eq, arith, includes,
}
use raft_visualizer.JsMap.{get-set}
use raft_visualizer.Intro.{
  idle, visible, exiting, Landing, state_of, is_exiting, delete, enter, leave, exit_due, on_entry,
  mark_animated, rendered, Event, entry, due, render, resize, handle, run, start,
}

includes-delete :
    (id j : String) (ids : List String)
    → includes (delete id ids) j ≡ (includes ids j && not (j == id))
includes-delete id j [] = refl
includes-delete id j (x ∷ ids) = ground (
  arith,
  string_eq.same_iff x id,
  string_eq.same_iff x j,
  string_eq.same_iff j id,
  includes-delete id j ids,
)

-- A section is on its way out exactly while its timer is pending.
abbrev pub IsTimed : Landing → Type 0
IsTimed l = (id : String) → is_exiting (state_of l.sections id) ≡ includes l.timers id

module _ (id : String) (l : Landing) (v : IsTimed l) where
  enter-IsTimed : IsTimed (enter id l)
  unfolding enter
  enter-IsTimed j = ground (
    arith,
    v j,
    v id,
    string_eq.same_iff j id,
    string_eq.same_iff id j,
    includes-delete id j l.timers,
    get-set l.sections id j visible,
  )

  leave-IsTimed : IsTimed (leave id l)
  unfolding leave
  leave-IsTimed j = ground (
    arith,
    v j,
    string_eq.same_iff j id,
    string_eq.same_iff id j,
    includes-delete id j l.timers,
    get-set l.sections id j exiting,
  )

  exit_due-IsTimed : IsTimed (exit_due id l)
  unfolding exit_due
  exit_due-IsTimed j = ground (
    arith,
    v j,
    v id,
    string_eq.same_iff j id,
    string_eq.same_iff id j,
    includes-delete id j l.timers,
    get-set l.sections id j idle,
  )

  animated-IsTimed : IsTimed (mark_animated id l)
  unfolding mark_animated
  animated-IsTimed j = ground (arith, v j)

handle-IsTimed : (e : Event) (l : Landing) → IsTimed l → IsTimed (handle e l)
unfolding handle on_entry rendered
handle-IsTimed (entry id shows) l v = λ j.
    ground (arith, v j, animated-IsTimed id l v j, enter-IsTimed id l v j, leave-IsTimed id l v j)
handle-IsTimed (due id) l v = exit_due-IsTimed id l v
handle-IsTimed render l v = v
handle-IsTimed (resize mobile) l v = v

run-IsTimed : (es : List Event) (l : Landing) → IsTimed l → IsTimed (run es l)
unfolding run
run-IsTimed [] l v = v
run-IsTimed (e ∷ es) l v = run-IsTimed es (handle e l) (handle-IsTimed e l v)

-- After any entries, timers, renders and changes of the screen, a section is on its way out
-- exactly while its exit timer is pending: none stays there for ever, and none is cut short.
pub run-start-IsTimed : (mobile : Bool) (es : List Event) → IsTimed (run es (start mobile))
unfolding start
run-start-IsTimed mobile es = run-IsTimed es (start mobile) (λ id. refl)
