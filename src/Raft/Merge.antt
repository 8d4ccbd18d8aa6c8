-- ===== src/Raft/Merge.antt =====
-- The loop of `handleAppendEntries` over the entries, by what it does to the rest of the log.
use raft_visualizer.Prelude.{
  ℕ, zero, suc, ◌-◌, ◌≤◌, ◌≡◌, refl, sym, ap, ◌∙◌, inl, inr, List, [], ◌∷◌, ◌++◌, arith, ◌==◌,
  nat_eq, if◌then◌else◌, length, drop, append-nil, append_assoc, length-append, Bool-cases,
}
use raft_visualizer.Raft.{LogEntry, term_at, take}
use raft_visualizer.Raft.Replication.{place, merge}

-- The entries against the log from their place on: as long as the terms agree the log stays, and
-- from the first conflict, or the end of the log, on it is the entries that are left.
abbrev pub merged : List LogEntry → List LogEntry → List LogEntry
merged rest [] = rest
merged [] (e ∷ es) = e ∷ es
merged (x ∷ rest) (e ∷ es) = if x.term == e.term then x ∷ merged rest es else e ∷ es

merged-nil : (es : List LogEntry) → merged [] es ≡ es
merged-nil [] = refl
merged-nil (e ∷ es) = refl

take-append : (a r : List LogEntry) → take (length a) (a ++ r) ≡ a
take-append [] r = refl
take-append (x ∷ a) r = ap (x ∷◌) (take-append a r)

term_at-append : (a r : List LogEntry) (x : LogEntry) → term_at (a ++ x ∷ r) (length a) ≡ x.term
term_at-append [] r x = refl
term_at-append (y ∷ a) r x = term_at-append a r x

length-snoc : (a : List LogEntry) (x : LogEntry) → length (a ++ x ∷ []) ≡ suc (length a)
length-snoc a x = omega (arith, length-append a (x ∷ []))

place-end : (a : List LogEntry) (e : LogEntry) → place (suc (length a)) e (a ++ []) ≡ a ++ e ∷ []
place-end a e = rw (append-nil a) (ground arith)

place-middle :
    (a r : List LogEntry) (x e : LogEntry)
    → place (suc (length a)) e (a ++ x ∷ r) ≡ (if x.term == e.term then a ++ x ∷ r else a ++ e ∷ [])
place-middle a r x e =
    let i : suc (length a) - 1 ≡ length a = omega arith in
    rw (i, term_at-append a r x, take-append a (x ∷ r)) (ground (arith, length-append a (x ∷ r)))

-- One more element of the log is passed.
pass :
    (a r es : List LogEntry) (x : LogEntry)
    → merge (suc (length (a ++ x ∷ []))) ((a ++ x ∷ []) ++ r) es ≡ (a ++ x ∷ []) ++ merged r es
    → merge (suc (suc (length a))) (a ++ x ∷ r) es ≡ a ++ x ∷ merged r es
pass a r es x h =
    rw (length-snoc a x, append_assoc a (x ∷ []) r, append_assoc a (x ∷ []) (merged r es)) at h

merge-append : (a r es : List LogEntry) → merge (suc (length a)) (a ++ r) es ≡ a ++ merged r es
unfolding merge
merge-append a r [] = refl
merge-append a [] (e ∷ es) =
    ap (λ l. merge (suc (suc (length a))) l es) (place-end a e)
    ∙ pass a [] es e (merge-append (a ++ e ∷ []) [] es)
    ∙ ap (λ l. a ++ e ∷ l) (merged-nil es)
merge-append a (x ∷ r) (e ∷ es) = elim (Bool-cases (x.term == e.term)) [
  | inl same ↦
      ap (λ l. merge (suc (suc (length a))) l es)
        (rw (same, if◌then◌else◌) at (place-middle a r x e))
      ∙ pass a r es x (merge-append (a ++ x ∷ []) r es)
      ∙ rw (same, if◌then◌else◌) refl
  | inr other ↦
      ap (λ l. merge (suc (suc (length a))) l es)
        (rw (other, if◌then◌else◌) at (place-middle a r x e))
      ∙ pass a [] es e (merge-append (a ++ e ∷ []) [] es)
      ∙ ap (λ l. a ++ e ∷ l) (merged-nil es)
      ∙ rw (other, if◌then◌else◌) refl
]

pub take-drop : (k : ℕ) (log : List LogEntry) → take k log ++ drop k log ≡ log
take-drop zero log = refl
take-drop (suc k) [] = refl
take-drop (suc k) (e ∷ log) = ap (e ∷◌) (take-drop k log)

pub length-take : (k : ℕ) (log : List LogEntry) → k ≤ length log → length (take k log) ≡ k
length-take zero log h = refl
length-take (suc k) [] h = absurd (omega arith)
length-take (suc k) (e ∷ log) h = omega (arith, length-take k log (omega arith))

-- Where the log reaches to the entry before the new ones, the loop is the merge of those into the
-- rest of the log behind it.
pub merge-merged :
    (prev : ℕ) (log es : List LogEntry)
    → prev ≤ length log
    → merge (suc prev) log es ≡ take prev log ++ merged (drop prev log) es
merge-merged prev log es h =
    ap (λ k. merge (suc k) log es) (sym (length-take prev log h))
    ∙ ap (λ l. merge (suc (length (take prev log))) l es) (sym (take-drop prev log))
    ∙ merge-append (take prev log) (drop prev log) es

merged_self : (es : List LogEntry) → merged es es ≡ es
merged_self [] = refl
merged_self (e ∷ es) = ground (arith, merged_self es)

merged_idem : (r es : List LogEntry) → merged (merged r es) es ≡ merged r es
merged_idem r [] = refl
merged_idem [] (e ∷ es) = ground (arith, merged_self es)
merged_idem (x ∷ r) (e ∷ es) = ground (arith, merged_idem r es, merged_self es)

pub length-merged-le : (r es : List LogEntry) → length es ≤ length (merged r es)
length-merged-le r [] = omega arith
length-merged-le [] (e ∷ es) = omega arith
length-merged-le (x ∷ r) (e ∷ es) = ground (arith, length-merged-le r es)

take-prefix :
    (k : ℕ) (log r : List LogEntry) → k ≤ length log → take k (take k log ++ r) ≡ take k log
take-prefix zero log r h = refl
take-prefix (suc k) [] r h = absurd (omega arith)
take-prefix (suc k) (e ∷ log) r h = ap (e ∷◌) (take-prefix k log r (omega arith))

drop-prefix : (k : ℕ) (log r : List LogEntry) → k ≤ length log → drop k (take k log ++ r) ≡ r
drop-prefix zero log r h = refl
drop-prefix (suc k) [] r h = absurd (omega arith)
drop-prefix (suc k) (e ∷ log) r h = drop-prefix k log r (omega arith)

-- Entries that arrive twice behind the same entry change the log once.
pub merge_idem :
    (prev : ℕ) (log es : List LogEntry)
    → prev ≤ length log
    → merge (suc prev) (merge (suc prev) log es) es ≡ merge (suc prev) log es
merge_idem prev log es h =
    merge-merged prev (merge (suc prev) log es) es longer
    ∙ rw
        (
          merge-merged prev log es h,
          take-prefix prev log (merged (drop prev log) es) h,
          drop-prefix prev log (merged (drop prev log) es) h,
          merged_idem (drop prev log) es,
        )
        refl
  where
    longer : prev ≤ length (merge (suc prev) log es)
    longer = rw (merge-merged prev log es h) (
        omega (
          arith,
          length-append (take prev log) (merged (drop prev log) es),
          length-take prev log h,
        ))
