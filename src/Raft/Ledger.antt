-- ===== src/Raft/Ledger.antt =====
-- Logs whose entries were all written by the leaders of their terms.
use raft_visualizer.Prelude.{
  ℕ, zero, suc, ◌+◌, ◌-◌, ◌≤◌, ◌<◌, ◌≡◌, refl, sym, subst, ap, ap₂, ◌∙◌, inl, inr, ◌⊎◌, List, [],
  ◌∷◌, ◌++◌, arith, nat_eq, ◌==◌, if◌then◌else◌, Bool-cases, length, drop, length-append,
  append-nil, append_assoc, eq_of_beq,
}
use raft_visualizer.Raft.{LogEntry, AppendEntriesArgs, term_at, take}
use raft_visualizer.Raft.Replication.{merge}
use raft_visualizer.Raft.Merge.{merged, merge-merged, take-drop, length-take}
use raft_visualizer.Raft.Written.{Reaches}
use raft_visualizer.Raft.Routing.{zero_or_suc}

abbrev pub IsPrefix : List LogEntry → List LogEntry → Type 0
IsPrefix a c = (r : List LogEntry) × (c ≡ a ++ r)

-- The log that the leader of each term has written.
abbrev pub Ledger : Type 0
Ledger = ℕ → List LogEntry

-- Behind the entries before it, each entry ends a prefix of what its term's leader has written.
abbrev pub Recorded : Ledger → List LogEntry → List LogEntry → Type 0
Recorded ledger front [] = Unit
Recorded ledger front (e ∷ log) =
    IsPrefix (front ++ e ∷ []) (ledger e.term) × Recorded ledger (front ++ e ∷ []) log

abbrev pub Extends : Ledger → Ledger → Type 0
Extends ledger later = (t : ℕ) → IsPrefix (ledger t) (later t)

cons-injective : (x y : LogEntry) (a b : List LogEntry) → x ∷ a ≡ y ∷ b → (x ≡ y) × (a ≡ b)
cons-injective x y a b e = (cc, cc)

-- Two prefixes of one length are the same.
pub prefix-eq : (a b c : List LogEntry) → IsPrefix a c → IsPrefix b c → length a ≡ length b → a ≡ b
prefix-eq [] [] c p q e = refl
prefix-eq [] (y ∷ b) c p q e = absurd (omega (arith, e))
prefix-eq (x ∷ a) [] c p q e = absurd (omega (arith, e))
prefix-eq (x ∷ a) (y ∷ b) [] p q e = cc
prefix-eq (x ∷ a) (y ∷ b) (z ∷ c) (r, p) (s, q) e =
    let (zx, ca) = cons-injective z x c (a ++ r) p in
    let (zy, cb) = cons-injective z y c (b ++ s) q in
    ap₂ (λ h t. h ∷ t) (sym zx ∙ zy) (prefix-eq a b c (r, ca) (s, cb) (omega (arith, e)))

prefix_trans : (a b c : List LogEntry) → IsPrefix a b → IsPrefix b c → IsPrefix a c
prefix_trans a b c (r, p) (s, q) = (r ++ s, q ∙ ap (◌++ s) p ∙ append_assoc a r s)

last-eq : (front : List LogEntry) (x y : LogEntry) → front ++ x ∷ [] ≡ front ++ y ∷ [] → x ≡ y
last-eq [] x y e = (cons-injective x y [] [] e).0
last-eq (z ∷ front) x y e = last-eq front x y (cons-injective z z _ _ e).1

module _ (ledger : Ledger) where
  pub Recorded-append :
      (front a b : List LogEntry)
      → Recorded ledger front a
      → Recorded ledger (front ++ a) b
      → Recorded ledger front (a ++ b)
  Recorded-append front [] b ha hb = subst (λ f. Recorded ledger f b) (append-nil front) hb
  Recorded-append front (x ∷ a) b ha hb = (
    ha.0,
    Recorded-append (front ++ x ∷ []) a b ha.1
        (subst (λ f. Recorded ledger f b) (sym (append_assoc front (x ∷ []) a)) hb),
  )

  pub Recorded-split :
      (front a b : List LogEntry)
      → Recorded ledger front (a ++ b)
      → Recorded ledger front a × Recorded ledger (front ++ a) b
  Recorded-split front [] b h = (tt, subst (λ f. Recorded ledger f b) (sym (append-nil front)) h)
  Recorded-split front (x ∷ a) b h =
      let (ha, hb) = Recorded-split (front ++ x ∷ []) a b h.1 in
      ((h.0, ha), subst (λ f. Recorded ledger f b) (append_assoc front (x ∷ []) a) hb)

  -- What an entry of the log vouches for.
  pub take-IsPrefix :
      (front log : List LogEntry) (i : ℕ)
      → Recorded ledger front log
      → i < length log
      → IsPrefix (front ++ take (suc i) log) (ledger (term_at log i))
  take-IsPrefix front [] i h lt = absurd (omega (arith, lt))
  take-IsPrefix front (x ∷ log) zero h lt = h.0
  take-IsPrefix front (x ∷ log) (suc i) h lt =
      subst (λ l. IsPrefix l (ledger (term_at log i)))
        (append_assoc front (x ∷ []) (take (suc i) log))
        (take-IsPrefix (front ++ x ∷ []) log i h.1 (omega (arith, lt)))

  merged-Recorded :
      (front rest es : List LogEntry)
      → Recorded ledger front rest
      → Recorded ledger front es
      → Recorded ledger front (merged rest es)
  merged-Recorded front rest [] hr he = hr
  merged-Recorded front [] (e ∷ es) hr he = he
  merged-Recorded front (x ∷ rest) (e ∷ es) hr he = elim (Bool-cases (x.term == e.term)) [
    | inr other ↦ rw (other, if◌then◌else◌) he
    | inl same ↦
        let term : x.term ≡ e.term = eq_of_beq x.term e.term same in
        let alike : x ≡ e = last-eq front x e (
          prefix-eq (front ++ x ∷ []) (front ++ e ∷ []) (ledger x.term) hr.0
            (subst (λ t. IsPrefix (front ++ e ∷ []) (ledger t)) (sym term) he.0)
            (length-append front (x ∷ []) ∙ sym (length-append front (e ∷ [])))) in
        rw (same, if◌then◌else◌)
          (
            hr.0,
            merged-Recorded (front ++ x ∷ []) rest es hr.1
                (subst (λ y. Recorded ledger (front ++ y ∷ []) es) (sym alike) he.1),
          )
  ]

  -- The entries with those before them, as a leader sends them.
  abbrev pub IsExcerpt : AppendEntriesArgs → Type 0
  IsExcerpt args =
      (args.entries ≡ [])
      ⊎ ((front : List LogEntry) × (length front ≡ args.prev_log_index)
          × ((0 < length front) → term_at front (args.prev_log_index - 1) ≡ args.prev_log_term)
          × Recorded ledger [] (front ++ args.entries))

  -- Two logs that have entries of one term at one place are the same up to it.
  pub take-eq :
      (a b : List LogEntry) (i : ℕ)
      → Recorded ledger [] a
      → Recorded ledger [] b
      → i < length a
      → i < length b
      → term_at a i ≡ term_at b i
      → take (suc i) a ≡ take (suc i) b
  take-eq a b i ha hb la lb same =
      prefix-eq (take (suc i) a) (take (suc i) b) (ledger (term_at a i))
        (take-IsPrefix [] a i ha la)
        (subst (λ t. IsPrefix (take (suc i) b) (ledger t)) (sym same) (take-IsPrefix [] b i hb lb))
        (length-take (suc i) a (omega (arith, la))
          ∙ sym (length-take (suc i) b (omega (arith, lb))))

  -- A log that reaches to the entry before the excerpt agrees with the excerpt's leader up to there.
  front-eq :
      (log front : List LogEntry) (args : AppendEntriesArgs)
      → Recorded ledger [] log
      → Recorded ledger [] front
      → length front ≡ args.prev_log_index
      → ((0 < length front) → term_at front (args.prev_log_index - 1) ≡ args.prev_log_term)
      → Reaches log args
      → (args.prev_log_index ≤ length log) × (take args.prev_log_index log ≡ front)
  front-eq log front args hl hf size term reach = elim (zero_or_suc args.prev_log_index) [
    | inl z ↦ (omega (arith, z), ap (λ k. take k log) z ∙ sym (nil_of front (size ∙ z)))
    | inr (i, s) ↦
        let (le, at) = reached s reach in
        let back : args.prev_log_index - 1 ≡ i = omega (arith, s) in
        (
          le,
          ap (λ k. take k log) s
              ∙ take-eq log front i hl hf (omega (arith, le, s)) (omega (arith, size, s)) (
                  ap (term_at log) (sym back)
                  ∙ at
                  ∙ sym (term (omega (arith, size, s)))
                  ∙ ap (term_at front) back)
              ∙ take_all (suc i) front (omega (arith, size, s)),
        )
  ]
    where
      nil_of : (xs : List LogEntry) → length xs ≡ 0 → xs ≡ []
      nil_of [] e = refl
      nil_of (x ∷ xs) e = absurd (omega (arith, e))

      take_all : (k : ℕ) (xs : List LogEntry) → length xs ≤ k → take k xs ≡ xs
      take_all zero [] h = refl
      take_all zero (x ∷ xs) h = absurd (omega (arith, h))
      take_all (suc k) [] h = refl
      take_all (suc k) (x ∷ xs) h = ap (x ∷◌) (take_all k xs (omega (arith, h)))

      reached :
          {i : ℕ}
          → args.prev_log_index ≡ suc i
          → Reaches log args
          → (args.prev_log_index ≤ length log)
            × (term_at log (args.prev_log_index - 1) ≡ args.prev_log_term)
      reached s (inl z) = absurd (omega (arith, s, z))
      reached s (inr r) = r

  -- What a follower's log is after such an excerpt.
  pub merge-Recorded :
      (log : List LogEntry) (args : AppendEntriesArgs)
      → Recorded ledger [] log
      → IsExcerpt args
      → Reaches log args
      → Recorded ledger [] (merge (args.prev_log_index + 1) log args.entries)
  unfolding merge
  merge-Recorded log args h (inl nothing) reach =
      subst (λ es. Recorded ledger [] (merge (args.prev_log_index + 1) log es)) (sym nothing) h
  merge-Recorded log args h (inr (front, size, term, excerpt)) reach =
      let (hf, he) = Recorded-split [] front args.entries excerpt in
      let (le, same) = front-eq log front args h hf size term reach in
      let step : args.prev_log_index + 1 ≡ suc args.prev_log_index = omega arith in
      let (ht, hd) =
        Recorded-split [] (take args.prev_log_index log) (drop args.prev_log_index log)
          (subst (Recorded ledger []) (sym (take-drop args.prev_log_index log)) h) in
      subst (Recorded ledger [])
        (sym (
          ap (λ k. merge k log args.entries) step
          ∙ merge-merged args.prev_log_index log args.entries le))
        (Recorded-append [] (take args.prev_log_index log)
          (merged (drop args.prev_log_index log) args.entries) ht
          (merged-Recorded (take args.prev_log_index log) (drop args.prev_log_index log)
            args.entries hd (subst (λ f. Recorded ledger f args.entries) (sym same) he)))

module _ (ledger later : Ledger) (grows : Extends ledger later) where
  pub Recorded-mono :
      (front log : List LogEntry) → Recorded ledger front log → Recorded later front log
  Recorded-mono front [] h = tt
  Recorded-mono front (x ∷ log) h = (
    prefix_trans (front ++ x ∷ []) (ledger x.term) (later x.term) h.0 (grows x.term),
    Recorded-mono (front ++ x ∷ []) log h.1,
  )

  pub IsExcerpt-mono : (args : AppendEntriesArgs) → IsExcerpt ledger args → IsExcerpt later args
  IsExcerpt-mono args (inl nothing) = inl nothing
  IsExcerpt-mono args (inr (front, size, term, excerpt)) =
      inr (front, size, term, Recorded-mono [] (front ++ args.entries) excerpt)
