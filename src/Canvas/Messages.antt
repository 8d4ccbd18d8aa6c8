-- ===== src/Canvas/Messages.antt =====
-- The message that an edge animates.
use raft_visualizer.Prelude.{
  suc, ◌-◌, ◌≡◌, refl, ap, subst, ◌⊎◌, inl, inr, Bool, true, false, ◌&&◌, List, [], ◌∷◌, ◌++◌,
  arith, ◌==◌, nat_eq, string_eq, if◌then◌else◌, filter, length, All, Bool-cases, slice_last,
}
use raft_visualizer.Cluster.{Message}
use raft_visualizer.Canvas.{Edge, edge_messages}

-- An AppendEntries on the edge.
abbrev pub is_append : Edge → Message → Bool
is_append e m = (m.from == e.source) && ((m.to == e.target) && (m.type == "AppendEntries"))

-- The last element that passes the test, or none if no element does.
abbrev pub IsLast : (Message → Bool) → List Message → List Message → Type 0
IsLast p ms out =
    ((out ≡ []) × All (λ m. p m ≡ false) ms)
    ⊎ ((before : List Message) × (m : Message) × (after : List Message) × (ms ≡ before ++ m ∷ after)
        × (p m ≡ true)
        × All (λ x. p x ≡ false) after
        × (out ≡ m ∷ []))

filter-nil : (p : Message → Bool) (ms : List Message) → All (λ m. p m ≡ false) ms → filter p ms ≡ []
filter-nil p [] h = refl
filter-nil p (m ∷ ms) h = rw (h.0, filter) (filter-nil p ms h.1)

slice_last-cons :
    (x m : Message) (ms : List Message) → slice_last 1 ms ≡ m ∷ [] → slice_last 1 (x ∷ ms) ≡ m ∷ []
slice_last-cons x m [] h = cc
slice_last-cons x m (y ∷ ms) h =
    let e : suc (suc (length ms)) - 1 ≡ suc (suc (length ms) - 1) = omega arith in rw e h

-- What one more message in front makes of the last one.
miss-IsLast :
    (p : Message → Bool) (x : Message) (ms out : List Message)
    → p x ≡ false
    → IsLast p ms out
    → IsLast p (x ∷ ms) out
miss-IsLast p x ms out miss (inl (none_out, rest)) = inl (none_out, (miss, rest))
miss-IsLast p x ms out miss (inr (before, m, after, split, hit, rest, one)) =
    inr (x ∷ before, m, after, ap (x ∷◌) split, hit, rest, one)

hit-IsLast :
    (p : Message → Bool) (x : Message) (ms : List Message)
    → p x ≡ true
    → IsLast p ms (slice_last 1 (filter p ms))
    → IsLast p (x ∷ ms) (slice_last 1 (x ∷ filter p ms))
hit-IsLast p x ms hit (inl (none_out, rest)) =
    inr ([], x, ms, refl, hit, rest, ap (λ ys. slice_last 1 (x ∷ ys)) (filter-nil p ms rest))
hit-IsLast p x ms hit (inr (before, m, after, split, later, rest, one)) =
    inr (x ∷ before, m, after, ap (x ∷◌) split, later, rest, slice_last-cons x m (filter p ms) one)

filter-cons :
    (p : Message → Bool) (x : Message) (ms : List Message) (b : Bool)
    → p x ≡ b
    → (if b then x ∷ filter p ms else filter p ms) ≡ filter p (x ∷ ms)
filter-cons p x ms b e = rw (e, filter) refl

slice_last-filter-IsLast :
    (p : Message → Bool) (ms : List Message) → IsLast p ms (slice_last 1 (filter p ms))
slice_last-filter-IsLast p [] = inl (refl, tt)
slice_last-filter-IsLast p (x ∷ ms) = elim (Bool-cases (p x)) [
  | inl hit ↦
      subst (λ ys. IsLast p (x ∷ ms) (slice_last 1 ys)) (filter-cons p x ms true hit)
        (hit-IsLast p x ms hit (slice_last-filter-IsLast p ms))
  | inr miss ↦
      subst (λ ys. IsLast p (x ∷ ms) (slice_last 1 ys)) (filter-cons p x ms false miss)
        (miss-IsLast p x ms _ miss (slice_last-filter-IsLast p ms))
]

-- An edge animates the last AppendEntries among the messages in flight that goes along it, and
-- nothing if there is none.
pub edge_messages-IsLast :
    (e : Edge) (in_flight : List Message)
    → IsLast (is_append e) in_flight (edge_messages e in_flight)
unfolding edge_messages
edge_messages-IsLast e in_flight = slice_last-filter-IsLast (is_append e) in_flight
