-- ===== src/Simulator/Books.antt =====
-- What the leaders of a cluster have written, event by event.
use raft_visualizer.Prelude.{
  ℕ, ◌+◌, ◌<◌, ◌≡◌, ◌≢◌, refl, sym, subst, ap, ◌∙◌, inl, inr, true, false, Option, none, some, List,
  [], ◌∷◌, ◌++◌, arith, ◌==◌, nat_eq, if◌then◌else◌, Bool-cases, Option-cases, length, All-map_mono,
  eq_of_beq, beq_self, append-nil,
}
use mathlib.Core.Option.{some-injective, none-ne-some}
use raft_visualizer.Raft.{Node, LogEntry, leader, candidate}
use raft_visualizer.Raft.Events.{Event}
use raft_visualizer.Raft.Votes.{KeepsVote}
use raft_visualizer.Raft.Ballots.{Tally, retired, kept, began, counted, granted}
use raft_visualizer.Raft.Written.{Written, untouched, appended, accepted}
use raft_visualizer.Raft.Ledger.{
  Ledger, Recorded, IsPrefix, Extends, Recorded-append, Recorded-mono, merge-Recorded,
}
use raft_visualizer.Simulator.Ghosts.{Comes}
use raft_visualizer.Simulator.Voting.{Cast, with_vote, IsHonest, Grows}
use raft_visualizer.Simulator.Elections.{HasQuorum, quorum-eq, leader-HasQuorum}
use raft_visualizer.Simulator.Quotes.{IsQuoted}

-- What the leaders have written, and which node wrote in each term.
pub record Book : Type 0 where
  pub ledger : Ledger
  pub writer : ℕ → Option ℕ

-- Only a node with a quorum has written.
pub record IsKept (k : ℕ) (cast : Cast) (book : Book) : Type 0 where
  pub unwritten : (t : ℕ) → book.writer t ≡ none → book.ledger t ≡ []
  pub elected : (t w : ℕ) → book.writer t ≡ some w → HasQuorum k cast t w

-- Every entry of the node's log is in the book, and what the node has written as the leader of its
-- term is its log.
pub record IsOrderly (book : Book) (n : Node) : Type 0 where
  pub recorded : Recorded book.ledger [] n.log
  pub leads :
      n.role ≡ leader → book.writer n.current_term ≡ some n.id → book.ledger n.current_term ≡ n.log
  pub runs : n.role ≡ candidate → book.writer n.current_term ≢ some n.id
  pub ahead : (t : ℕ) → n.current_term < t → book.writer t ≢ some n.id

later-IsKept :
    (k : ℕ) (cast later : Cast) (book : Book)
    → Grows cast later
    → IsKept k cast book
    → IsKept k later book
later-IsKept k cast later book grows h = record {
  unwritten = h.unwritten;
  elected = λ t w e.
      let (vs, (d, all), q) = h.elected t w e in
      (vs, (d, All-map_mono _ _ vs (λ v b. (b.0, grows v t w b.1)) all), q);
}

-- The book is as before, and so is the log of a node that leads.
module _ (book : Book) (n m : Node) (id : m.id ≡ n.id) where
  still_written : {t u : ℕ} → u ≡ t → book.writer u ≡ some m.id → book.writer t ≡ some n.id
  still_written same w = ap book.writer (sym same) ∙ w ∙ ap some id

  same-IsOrderly :
      (e : Event)
      → Tally e n m
      → KeepsVote n m
      → Recorded book.ledger [] m.log
      → (m.role ≡ leader → m.log ≡ n.log)
      → IsOrderly book n
      → IsOrderly book m
  same-IsOrderly e tally keep recorded log h = record {
    recorded = recorded;
    leads = leads e tally;
    runs = runs e tally;
    ahead = λ t lt w. h.ahead t (omega (arith, keep.term, lt)) (w ∙ ap some id);
  }
    where
      leads :
          (e : Event)
          → Tally e n m
          → m.role ≡ leader
          → book.writer m.current_term ≡ some m.id
          → book.ledger m.current_term ≡ m.log
      leads e (retired r) l w = cc
      leads e (kept r t v) l w =
          ap book.ledger t ∙ h.leads (sym r ∙ l) (still_written t w) ∙ sym (log l)
      leads e (began r lt f v) l w = cc
      leads e (counted r t v won) l w = absurd (h.runs r (still_written t w))
      leads _ (granted from to reply g le r t v won) l w = absurd (h.runs r (still_written t w))

      runs : (e : Event) → Tally e n m → m.role ≡ candidate → book.writer m.current_term ≢ some m.id
      runs e (retired r) c w = cc
      runs e (kept r t v) c w = h.runs (sym r ∙ c) (still_written t w)
      runs e (began r lt f v) c w = h.ahead m.current_term lt (w ∙ ap some id)
      runs e (counted r t v won) c w = h.runs r (still_written t w)
      runs _ (granted from to reply g le r t v won) c w = h.runs r (still_written t w)

-- The book with the log that the leader of a term has now.
abbrev pub with_log : Book → ℕ → ℕ → List LogEntry → Book
with_log book t w log = record {
  ledger = λ u. if u == t then log else book.ledger u;
  writer = λ u. if u == t then some w else book.writer u;
}

other-IsOrderly :
    (book : Book) (t w : ℕ) (log : List LogEntry) (o : Node)
    → Extends book.ledger (with_log book t w log).ledger
    → o.id ≢ w
    → IsOrderly book o
    → IsOrderly (with_log book t w log) o
other-IsOrderly book t w log o grows ne h = record {
  recorded = Recorded-mono book.ledger (with_log book t w log).ledger grows [] o.log h.recorded;
  leads = λ l wr. elim (Bool-cases (o.current_term == t)) [
    | inl same ↦ absurd (ne (some-injective _ _ (sym (rw (same, if◌then◌else◌) at wr))))
    | inr other ↦ rw (other, if◌then◌else◌) (h.leads l (mine o.current_term wr))
  ];
  runs = λ c wr. h.runs c (mine o.current_term wr);
  ahead = λ u lt wr. h.ahead u lt (mine u wr);
}
  where
    mine : (u : ℕ) → (with_log book t w log).writer u ≡ some o.id → book.writer u ≡ some o.id
    mine u wr = elim (Bool-cases (u == t)) [
      | inl same ↦ absurd (ne (some-injective _ _ (sym (rw (same, if◌then◌else◌) at wr))))
      | inr other ↦ rw (other, if◌then◌else◌) at wr
    ]

-- A leader has written one more entry.
module _ (k : ℕ) (cast : Cast) (book : Book) (n m : Node) (x : LogEntry)
    (honest : IsHonest k cast n) (kept_book : IsKept k cast book) (orderly : IsOrderly book n)
    (role : n.role ≡ leader) (log : m.log ≡ n.log ++ x ∷ []) where
  abbrev longer : Book
  longer = with_log book n.current_term n.id m.log

  -- What the term's leader had written before is a prefix of the log.
  written_before : IsPrefix (book.ledger n.current_term) m.log
  written_before = elim (Option-cases (book.writer n.current_term)) [
    | inl nobody ↦ (m.log, sym (ap (◌++ m.log) (kept_book.unwritten n.current_term nobody)))
    | inr (w, somebody) ↦
        let same : w ≡ n.id =
          quorum-eq k cast n.current_term w n.id (kept_book.elected n.current_term w somebody)
            (leader-HasQuorum k cast n honest role) in
        (x ∷ [], log ∙ sym (ap (◌++ x ∷ []) (orderly.leads role (somebody ∙ ap some same))))
  ]

  longer-Extends : Extends book.ledger longer.ledger
  longer-Extends t = elim (Bool-cases (t == n.current_term)) [
    | inl same ↦
        rw (same, if◌then◌else◌)
          (subst (λ u. IsPrefix (book.ledger u) m.log) (sym (eq_of_beq t n.current_term same))
            written_before)
    | inr other ↦ rw (other, if◌then◌else◌) ([], sym (append-nil (book.ledger t)))
  ]

  longer-IsKept : IsKept k cast longer
  longer-IsKept = record {
    unwritten = λ t e. elim (Bool-cases (t == n.current_term)) [
      | inl same ↦ absurd (none-ne-some n.id (sym (rw (same, if◌then◌else◌) at e)))
      | inr other ↦
          rw (other, if◌then◌else◌) (kept_book.unwritten t (rw (other, if◌then◌else◌) at e))
    ];
    elected = λ t w e. elim (Bool-cases (t == n.current_term)) [
      | inl same ↦
          subst (λ u. HasQuorum k cast u w) (sym (eq_of_beq t n.current_term same))
            (subst (HasQuorum k cast n.current_term)
              (some-injective _ _ (rw (same, if◌then◌else◌) at e))
              (leader-HasQuorum k cast n honest role))
      | inr other ↦ kept_book.elected t w (rw (other, if◌then◌else◌) at e)
    ];
  }

  longer-IsOrderly :
      m.id ≡ n.id
      → m.role ≡ n.role
      → m.current_term ≡ n.current_term
      → x.term ≡ n.current_term
      → IsOrderly longer m
  longer-IsOrderly id same_role term stamp = record {
    recorded = subst (Recorded longer.ledger []) (sym log) (
        Recorded-append longer.ledger [] n.log (x ∷ [])
          (Recorded-mono book.ledger longer.ledger longer-Extends [] n.log orderly.recorded)
          (([], rw (stamped, if◌then◌else◌) (log ∙ sym (append-nil (n.log ++ x ∷ [])))), tt));
    leads = λ l w. rw (now, if◌then◌else◌) refl;
    runs = λ c w. cc;
    ahead = λ t lt w.
        orderly.ahead t (omega (arith, lt, term))
          ((rw (past t lt, if◌then◌else◌) at w) ∙ ap some id);
  }
    where
      now : (m.current_term == n.current_term) ≡ true
      now = ap (◌== n.current_term) term ∙ beq_self n.current_term

      stamped : (x.term == n.current_term) ≡ true
      stamped = ap (◌== n.current_term) stamp ∙ beq_self n.current_term

      past : (t : ℕ) → m.current_term < t → (t == n.current_term) ≡ false
      past t lt = ground (arith, lt, term)

-- What an event makes of the book.
module _ (k : ℕ) (cast : Cast) (book : Book) (n m : Node) (id : m.id ≡ n.id) (keep : KeepsVote n m)
    (grows : Grows cast (with_vote cast m)) (honest : IsHonest k cast n)
    (kept_book : IsKept k cast book) (orderly : IsOrderly book n) where
  abbrev pub Turn : Type 0
  Turn =
      (later : Book) × IsKept k (with_vote cast m) later
      × Extends book.ledger later.ledger
      × IsOrderly later m
      × ((o : Node) → o.id ≢ n.id → IsOrderly book o → IsOrderly later o)

  same_book :
      (e : Event)
      → Tally e n m
      → Recorded book.ledger [] m.log
      → (m.role ≡ leader → m.log ≡ n.log)
      → Turn
  same_book e tally recorded log = (
    book,
    later-IsKept k cast (with_vote cast m) book grows kept_book,
    (λ t. ([], sym (append-nil (book.ledger t)))),
    same-IsOrderly book n m id e tally keep recorded log orderly,
    (λ o ne h. h),
  )

  pub turn :
      (e : Event)
      → Written e n m
      → Tally e n m
      → Comes (λ msg. IsQuoted book.ledger msg.rpc) n.id e
      → Turn
  turn e (untouched log) tally c =
      same_book e tally (subst (Recorded book.ledger []) (sym log) orderly.recorded) (λ l. log)
  turn _ (accepted from to args role reach log) tally c =
      same_book _ tally
        (subst (Recorded book.ledger []) (sym log)
          (merge-Recorded book.ledger n.log args orderly.recorded c.1 reach))
        (λ l. cc)
  turn _ (appended cmd role same_role term log) tally c =
      let x : LogEntry = record {
        index = length n.log + 1;
        term = n.current_term;
        command = cmd;
      } in
      let extends = longer-Extends k cast book n m x honest kept_book orderly role log in
      (
        with_log book n.current_term n.id m.log,
        later-IsKept k cast (with_vote cast m) _ grows
            (longer-IsKept k cast book n m x honest kept_book orderly role log),
        extends,
        longer-IsOrderly k cast book n m x honest kept_book orderly role log id same_role term refl,
        (λ o ne h. other-IsOrderly book n.current_term n.id m.log o extends ne h),
      )
