-- ===== src/Intro/Scroll.antt =====
-- The frame in which the navigation follows the scrolling, and what the landing page releases on
-- unmounting (frontend/src/components/IntroLanding.jsx).
use raft_visualizer.Prelude.{
  ℕ, suc, ◌≡◌, refl, inl, inr, ◌⊎◌, not, Option, none, some, List, [], ◌∷◌, arith, filter, String,
  ◌==◌, nat_eq, string_eq, includes, if◌then◌else◌, Bool-cases, beq_self,
}
use raft_visualizer.Intro.{Landing, Box, active_chapter}

-- `raf_id`, the frames that the browser has not run, and the chapter that is marked.
pub record Scroller : Type 0 where
  pub raf_id : Option ℕ
  pub frames : List ℕ
  pub next_frame : ℕ
  pub active_id : String

-- `first` is the id of the first chapter.
unfoldable pub update_active : ℕ → String → List Box → Scroller → Scroller
update_active probe first boxes s = record s { active_id = active_chapter probe first boxes }

unfoldable pub on_scroll : Scroller → Scroller
on_scroll s = elim s.raf_id [
  | some k ↦ s
  | none ↦ record s {
    raf_id = some s.next_frame;
    frames = s.next_frame ∷ s.frames;
    next_frame = suc s.next_frame;
  }
]

abbrev pub remove : ℕ → List ℕ → List ℕ
remove k xs = filter (λ x. not (x == k)) xs

-- The callback of a frame.
unfoldable pub frame_due : ℕ → ℕ → String → List Box → Scroller → Scroller
frame_due k probe first boxes s =
    if includes s.frames k
    then update_active probe first boxes (record s { frames = remove k s.frames; raf_id = none })
    else s

-- The cleanup.
unfoldable pub release_frame : Scroller → Scroller
release_frame s = elim s.raf_id [ none ↦ s | some k ↦ record s { frames = remove k s.frames } ]

-- The cleanup of the exit timers.
unfoldable pub release_timers : Landing → Landing
release_timers l = record l { timers = [] }

-- The element that is scrolled into view: none if the chapter is not mounted.
unfoldable pub scroll_to_chapter : String → List String → Option String
scroll_to_chapter id mounted = if includes mounted id then some id else none

pub data Event : Type 0 where
  scrolled : Event
  due : ℕ → ℕ → String → List Box → Event

unfoldable pub handle : Event → Scroller → Scroller
handle scrolled s = on_scroll s
handle (due k probe first boxes) s = frame_due k probe first boxes s

unfoldable pub run : List Event → Scroller → Scroller
run [] s = s
run (e ∷ es) s = run es (handle e s)

-- Listening starts with the chapter that is marked.
unfoldable pub start : String → Scroller
start active_id = record { raf_id = none; frames = []; next_frame = 0; active_id = active_id }

-- No frame is pending, or the one that is remembered.
abbrev pub IsSingle : Scroller → Type 0
IsSingle s =
    ((s.raf_id ≡ none) × (s.frames ≡ [])) ⊎ ((k : ℕ) × (s.raf_id ≡ some k) × (s.frames ≡ k ∷ []))

handle-IsSingle : (e : Event) (s : Scroller) → IsSingle s → IsSingle (handle e s)
unfolding handle on_scroll frame_due update_active
handle-IsSingle scrolled s (inl (r, f)) =
    inr (s.next_frame, ground (arith, r), ground (arith, r, f))
handle-IsSingle scrolled s (inr (k, r, f)) = inr (k, ground (arith, r), ground (arith, r, f))
handle-IsSingle (due j probe first boxes) s (inl (r, f)) =
    inl (ground (arith, r, f), ground (arith, r, f))
handle-IsSingle (due j probe first boxes) s (inr (k, r, f)) = elim (Bool-cases (k == j)) [
  | inl same ↦ inl (ground (arith, f, same), ground (arith, f, same))
  | inr other ↦ inr (k, ground (arith, r, f, other), ground (arith, f, other))
]

run-IsSingle : (es : List Event) (s : Scroller) → IsSingle s → IsSingle (run es s)
unfolding run
run-IsSingle [] s h = h
run-IsSingle (e ∷ es) s h = run-IsSingle es (handle e s) (handle-IsSingle e s h)

release_frame-nil : (s : Scroller) → IsSingle s → (release_frame s).frames ≡ []
unfolding release_frame
release_frame-nil s (inl (r, f)) = ground (arith, r, f)
release_frame-nil s (inr (k, r, f)) = ground (arith, r, f, beq_self k)

-- However the page is scrolled, at most one frame is asked for at a time, and after unmounting none
-- is left.
pub run-start-frames :
    (id : String) (es : List Event)
    → IsSingle (run es (start id)) × ((release_frame (run es (start id))).frames ≡ [])
unfolding start
run-start-frames id es =
    let h = run-IsSingle es (start id) (inl (refl, refl)) in
    (h, release_frame-nil (run es (start id)) h)
