-- ===== src/Fault/Trim.antt =====
-- `trim` (used by frontend/src/components/ControlPanel.jsx and LogPanel.jsx).
use mathlib.Core.List.{reverse, reverse-reverse, reverse-append}
use raft_visualizer.Prelude.{
  ◌≡◌, refl, sym, ◌∙◌, ap, inl, inr, false, [], ◌∷◌, ◌++◌, arith, Bool-cases, subst,
}
use raft_visualizer.Fault.{Text, is_space, trim_start, trim}

-- The text does not begin with white space.
abbrev pub IsStarted : Text → Type 0
IsStarted [] = Unit
IsStarted (c ∷ s) = is_space c ≡ false

trim_start-IsStarted : (s : Text) → IsStarted (trim_start s)
unfolding trim_start
trim_start-IsStarted [] = tt
trim_start-IsStarted (c ∷ s) = ground (arith, trim_start-IsStarted s)

trim_start_started : (s : Text) → IsStarted s → trim_start s ≡ s
unfolding trim_start
trim_start_started [] h = refl
trim_start_started (c ∷ s) h = ground arith

-- What is cut off.
trim_start-suffix : (s : Text) → (cut : Text) × (s ≡ cut ++ trim_start s)
unfolding trim_start
trim_start-suffix [] = ([], refl)
trim_start-suffix (c ∷ s) = elim (Bool-cases (is_space c)) [
  | inl e ↦ let (cut, h) = trim_start-suffix s in (c ∷ cut, rw e (ap (c ∷◌) h))
  | inr e ↦ ([], rw e refl)
]

IsStarted-prefix : (s t : Text) → IsStarted (s ++ t) → IsStarted s
IsStarted-prefix [] t h = tt
IsStarted-prefix (c ∷ s) t h = h

trim_end-IsStarted : (s : Text) → IsStarted s → IsStarted (reverse (trim_start (reverse s)))
trim_end-IsStarted s h =
    let (cut, e) = trim_start-suffix (reverse s) in
    let e' : s ≡ reverse (trim_start (reverse s)) ++ reverse cut =
      sym (reverse-reverse s) ∙ ap reverse e ∙ reverse-append cut (trim_start (reverse s)) in
    IsStarted-prefix _ (reverse cut) (subst IsStarted e' h)

-- A trimmed text begins and ends with no white space.
pub trim-IsStarted : (s : Text) → IsStarted (trim s) × IsStarted (reverse (trim s))
unfolding trim
trim-IsStarted s = (
  trim_end-IsStarted (trim_start s) (trim_start-IsStarted s),
  rw (reverse-reverse (trim_start (reverse (trim_start s))))
      (trim_start-IsStarted (reverse (trim_start s))),
)

-- Trimming a second time changes nothing.
pub trim_idem : (s : Text) → trim (trim s) ≡ trim s
trim_idem s =
    unfold trim in
    (ap (λ t. reverse (trim_start (reverse t))) (trim_start_started (trim s) (trim-IsStarted s).0)
      ∙ ap reverse (trim_start_started (reverse (trim s)) (trim-IsStarted s).1)
      ∙ reverse-reverse (trim s))
