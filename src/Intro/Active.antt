-- ===== src/Intro/Active.antt =====
-- The chapter that the navigation marks.
use raft_visualizer.Prelude.{
  ℕ, ◌+◌, ◌≤◌, ◌<◌, ◌≡◌, refl, subst, ◌⊎◌, inl, inr, Bool, true, not, ◌&&◌, Option, none, some,
  List, [], ◌∷◌, String, arith, ltb, All, Bool-cases, Occurs,
}
use raft_visualizer.Intro.{Box, distance, beats, best_chapter, active_chapter}

-- A chapter counts unless it ends more than 24 pixels above the probe.
abbrev pub IsNear : ℕ → Box → Type 0
IsNear probe c = probe ≤ c.bottom + 2400

-- No chapter that counts is nearer than the distance.
abbrev pub NoneNearer : ℕ → ℕ → List Box → Type 0
NoneNearer probe dist = All (λ c. (c.bottom + 2400 < probe) ⊎ (dist ≤ distance c.top probe))

-- One of the chapters has this id, counts, and is at this distance.
abbrev At : ℕ → String → ℕ → List Box → Type 0
At probe id dist cs =
    (c : Box) × Occurs c cs × (id ≡ c.id) × IsNear probe c × (dist ≡ distance c.top probe)

-- What the loop makes of a chapter that it has already.
abbrev Improves : ℕ → String → ℕ → String × Option ℕ → List Box → Type 0
Improves probe id best r cs =
    (d : ℕ) × (r.1 ≡ some d)
    × (d ≤ best)
    × NoneNearer probe d cs
    × (((r.0 ≡ id) × (d ≡ best)) ⊎ At probe r.0 d cs)

abbrev takes : ℕ → Option ℕ → Box → Bool
takes probe best c = not (ltb (c.bottom + 2400) probe) && beats (distance c.top probe) best

best-Improves :
    (probe : ℕ) (id : String) (best : ℕ) (cs : List Box)
    → Improves probe id best (best_chapter probe id (some best) cs) cs
unfolding best_chapter
best-Improves probe id best [] = (best, refl, omega arith, tt, inl (refl, refl))
best-Improves probe id best (c ∷ cs) = elim (Bool-cases (takes probe (some best) c)) [
  | inl e ↦
      let (d, h, le, n, w) = best-Improves probe c.id (distance c.top probe) cs in
      (
        d,
        rw (e, best_chapter) h,
        ground (arith, e, le),
        (inr le, n),
        rw (e, best_chapter) (inr (mine d w (ground (arith, e)))),
      )
  | inr e ↦
      let (d, h, le, n, w) = best-Improves probe id best cs in
      (d, rw (e, best_chapter) h, le, (ground (arith, e, le), n), rw (e, best_chapter) (theirs d w))
]
  where
    mine :
        (d : ℕ) {r : String}
        → ((r ≡ c.id) × (d ≡ distance c.top probe)) ⊎ At probe r d cs
        → IsNear probe c
        → At probe r d (c ∷ cs)
    mine d (inl (same, eq)) near = (c, inl refl, same, near, eq)
    mine d (inr (b, at, same, near, eq)) _ = (b, inr at, same, near, eq)

    theirs :
        (d : ℕ) {r : String}
        → ((r ≡ id) × (d ≡ best)) ⊎ At probe r d cs
        → ((r ≡ id) × (d ≡ best)) ⊎ At probe r d (c ∷ cs)
    theirs d (inl w) = inl w
    theirs d (inr (b, at, same, near, eq)) = inr (b, inr at, same, near, eq)

-- A chapter is chosen among the boxes, or none counts and the first one stays.
abbrev pub IsChosen : ℕ → String → String × Option ℕ → List Box → Type 0
IsChosen probe first r cs =
    (All (λ c. c.bottom + 2400 < probe) cs × (r.0 ≡ first))
    ⊎ ((c : Box) × Occurs c cs
        × (r.0 ≡ c.id)
        × IsNear probe c
        × NoneNearer probe (distance c.top probe) cs)

-- The first chapter that counts starts the comparison.
started-IsChosen :
    (probe : ℕ) (first : String) (c : Box) (cs : List Box)
    → takes probe none c ≡ true
    → {r : String × Option ℕ} → Improves probe c.id (distance c.top probe) r cs
    → IsChosen probe first r (c ∷ cs)
started-IsChosen probe first c cs e (d, h, le, n, inl (same, eq)) = inr (
  c,
  inl refl,
  same,
  ground (arith, e),
  (inr (omega arith), subst (λ t. NoneNearer probe t cs) eq n),
)
started-IsChosen probe first c cs e (d, h, le, n, inr (b, at, same, near, eq)) =
    inr (
      b,
      inr at,
      same,
      near,
      (inr (omega (arith, le, eq)), subst (λ t. NoneNearer probe t cs) eq n),
    )

best-IsChosen :
    (probe : ℕ) (first : String) (cs : List Box)
    → IsChosen probe first (best_chapter probe first none cs) cs
unfolding best_chapter
best-IsChosen probe first [] = inl (tt, refl)
best-IsChosen probe first (c ∷ cs) = elim (Bool-cases (takes probe none c)) [
  | inl e ↦
      rw (e, best_chapter)
        (started-IsChosen probe first c cs e (best-Improves probe c.id (distance c.top probe) cs))
  | inr e ↦
      rw (e, best_chapter)
        (elim (best-IsChosen probe first cs) [
          | inl (none_near, same) ↦ inl ((ground (arith, e), none_near), same)
          | inr (b, at, same, near, n) ↦ inr (b, inr at, same, near, (inl (ground (arith, e)), n))
        ])
]

-- The navigation marks a chapter that counts and whose top is nearest to the probe among those
-- that count, or, if none counts, the first chapter.
pub active_chapter-IsChosen :
    (probe : ℕ) (first : String) (boxes : List Box)
    → (All (λ c. c.bottom + 2400 < probe) boxes × (active_chapter probe first boxes ≡ first))
      ⊎ ((c : Box) × Occurs c boxes
          × (active_chapter probe first boxes ≡ c.id)
          × IsNear probe c
          × NoneNearer probe (distance c.top probe) boxes)
unfolding active_chapter
active_chapter-IsChosen probe first boxes = best-IsChosen probe first boxes
