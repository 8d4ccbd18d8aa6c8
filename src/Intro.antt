-- ===== src/Intro.antt =====
-- The landing page: which chapters are animated, the state of the sections on a mobile screen, and
-- the chapter that the navigation marks (frontend/src/components/IntroLanding.jsx).
pub mod Chapters
pub mod Sections
pub mod Active
pub mod View
pub mod Letters
pub mod Scroll
use raft_visualizer.Prelude.{
  ℕ, ◌+◌, ◌-◌, ◌*◌, min, Bool, true, false, not, ◌&&◌, Option, none, some, List, [], ◌∷◌, ◌++◌,
  ◌==◌, String, string_eq, ltb, if◌then◌else◌, includes, filter,
}
use raft_visualizer.JsMap.{get, set}

pub data SectionState : Type 0 where
  idle visible exiting : SectionState

-- `state_ref` is `mobileStateRef.current`, which follows `sections` when React has rendered. The
-- ids in `timers` are those with a pending exit timer: each timer that is set is kept under its id,
-- and each that fires or is cleared is deleted or replaced there.
pub record Landing : Type 0 where
  pub is_mobile : Bool
  pub animated : List String
  pub sections : List (String × SectionState)
  pub state_ref : List (String × SectionState)
  pub timers : List String

-- `map[id] ?? 'idle'`
abbrev pub state_of : List (String × SectionState) → String → SectionState
state_of m id = elim (get m id) [ none ↦ idle | some s ↦ s ]

abbrev pub is_visible : SectionState → Bool
is_visible visible = true
is_visible _ = false

abbrev pub is_exiting : SectionState → Bool
is_exiting exiting = true
is_exiting _ = false

unfoldable pub mark_animated : String → Landing → Landing
mark_animated id l =
    if includes l.animated id then l else record l { animated = l.animated ++ id ∷ [] }

-- `timers.delete(id)`
abbrev pub delete : String → List String → List String
delete id ids = filter (λ x. not (x == id)) ids

-- A section comes into view on a mobile screen.
unfoldable pub enter : String → Landing → Landing
enter id l = record l {
  timers = if includes l.timers id then delete id l.timers else l.timers;
  sections = if is_visible (state_of l.sections id) then l.sections else set l.sections id visible;
}

-- A section goes out of view on a mobile screen: its exit timer is set anew.
unfoldable pub leave : String → Landing → Landing
leave id l =
    if not (is_visible (state_of l.state_ref id))
    then l
    else record l { sections = set l.sections id exiting; timers = id ∷ delete id l.timers }

-- One entry of the observer's callback.
unfoldable pub on_entry : String → Bool → Landing → Landing
on_entry id is_intersecting l =
    if not l.is_mobile
    then (if is_intersecting then mark_animated id l else l)
    else if is_intersecting
    then enter id l
    else leave id l

-- The callback of an exit timer.
unfoldable pub exit_due : String → Landing → Landing
exit_due id l =
    if includes l.timers id
    then record l {
      sections = if is_exiting (state_of l.sections id) then set l.sections id idle else l.sections;
      timers = delete id l.timers;
    }
    else l

-- The effect after a render.
unfoldable pub rendered : Landing → Landing
rendered l = record l { state_ref = l.sections }

pub data Event : Type 0 where
  entry : String → Bool → Event
  due : String → Event
  render : Event
  resize : Bool → Event

unfoldable pub handle : Event → Landing → Landing
handle (entry id is_intersecting) l = on_entry id is_intersecting l
handle (due id) l = exit_due id l
handle render l = rendered l
handle (resize mobile) l = record l { is_mobile = mobile }

unfoldable pub run : List Event → Landing → Landing
run [] l = l
run (e ∷ es) l = run es (handle e l)

pub start : Bool → Landing
start mobile = record {
  is_mobile = mobile;
  animated = [];
  sections = [];
  state_ref = [];
  timers = [];
}

-- A chapter's box, in hundredths of a pixel from a common origin above all boxes.
pub record Box : Type 0 where
  pub id : String
  pub top : ℕ
  pub bottom : ℕ

-- `rootRect.top + Math.min(220, rootRect.height * 0.28)`; the height is in whole pixels.
pub probe_y : ℕ → ℕ → ℕ
probe_y root_top root_height = root_top + min 22000 (root_height * 28)

abbrev pub distance : ℕ → ℕ → ℕ
distance a b = (a - b) + (b - a)

-- Whether a chapter beats the best distance so far; `none` is infinity.
abbrev pub beats : ℕ → Option ℕ → Bool
beats dist none = true
beats dist (some best) = ltb dist best

-- The loop over the mounted chapters.
pub best_chapter : ℕ → String → Option ℕ → List Box → String × Option ℕ
best_chapter probe best_id best_dist [] = (best_id, best_dist)
best_chapter probe best_id best_dist (c ∷ cs) =
    let wins = not (ltb (c.bottom + 2400) probe) in
    let dist = distance c.top probe in
    let take = wins && beats dist best_dist in
    best_chapter probe (if take then c.id else best_id) (if take then some dist else best_dist) cs

-- `first` is the id of the first chapter.
pub active_chapter : ℕ → String → List Box → String
unfolding best_chapter
active_chapter probe first boxes = (best_chapter probe first none boxes).0
