-- ===== src/Raft/Repair.antt =====
-- How the exchange of AppendEntries messages repairs a follower's log.
use raft_visualizer.Prelude.{
  ℕ, zero, suc, ◌+◌, ◌-◌, ◌≤◌, ◌≡◌, refl, sym, subst, ap, ◌∙◌, inl, inr, true, false, some,
  if◌then◌else◌, ◌&&◌, List, [], ◌∷◌, ◌++◌, arith, nat_eq, length, drop, length-append, Bool-cases,
}
use raft_visualizer.Raft.{
  Node, LogEntry, leader, append_entries, AppendEntriesArgs, AppendEntriesReply, Outcome, at,
  term_at, take, prev_term, send_append_entries, maybe_step_down, is_leader,
}
use raft_visualizer.Raft.Replication.{
  merge, accept, advance_last_applied, follow, reply_to, is_consistent, handle_append_entries,
  handle_append_entries_reply, back_off,
}
use raft_visualizer.Raft.Merge.{merged, merge-merged, take-drop}
use raft_visualizer.Raft.Sound.{at-set}
use raft_visualizer.Raft.Exchange.{
  deliver, deliver-alive, exchange, exchanges, Matches, take-append-more, take-merged,
}

-- What a leader sends from the next index `suc prev`.
abbrev pub args_from : Node → ℕ → AppendEntriesArgs
args_from l prev = record {
  term = l.current_term;
  leader_id = l.id;
  prev_log_index = prev;
  prev_log_term = prev_term prev l.log;
  entries = drop prev l.log;
  leader_commit = l.commit_index;
}

-- A live leader and a live follower whose term is not later, where the next entry to send has index `suc prev`.
pub record IsPaired (l f : Node) (prev : ℕ) : Type 0 where
  pub leads : l.role ≡ leader
  pub awake : l.alive ≡ true
  pub listens : f.alive ≡ true
  pub term : f.current_term ≤ l.current_term
  pub next : at l.next_index f.id ≡ suc prev
  pub fits : prev ≤ length l.log
  pub alike : Matches f.log l.log

module _ (l f : Node) (prev : ℕ) (p : IsPaired l f prev) where
  -- The follower after the term of the message.
  unfoldable pub stepped : Node
  stepped = maybe_step_down l.current_term f

  pub stepped-lem :
      (stepped.current_term ≡ l.current_term) × (stepped.log ≡ f.log) × (stepped.id ≡ f.id)
  unfolding stepped maybe_step_down
  stepped-lem = (ground (arith, p.term), ground arith, ground arith)

  sent-lem :
      send_append_entries l f.id
      ≡ some (record { from = l.id; to = f.id; rpc = append_entries (args_from l prev) })
  unfolding send_append_entries
  sent-lem = ground (arith, p.next)

  pub exchange-lem : exchange (l, f) ≡ (
    (deliver (handle_append_entries l.id (args_from l prev) f).1 l).0,
    (handle_append_entries l.id (args_from l prev) f).0,
  )
  unfolding exchange
  exchange-lem =
      ap (λ b. heard (deliver (if b then send_append_entries l f.id ∷ [] else []) f)) ticks
      ∙ ap (λ o. heard (deliver (o ∷ []) f)) sent-lem
      ∙ ap heard (deliver-alive _ f p.listens)
    where
      heard : Outcome → Node × Node
      heard o = ((deliver o.1 l).0, o.0)

      ticks : (is_leader l.role && l.alive) ≡ true
      ticks = ground (arith, p.leads, p.awake)

  refused-reply :
      is_consistent (args_from l prev) stepped ≡ false
      → handle_append_entries l.id (args_from l prev) f ≡ (
        follow stepped,
        reply_to l.id stepped
            (record { term = stepped.current_term; success = false; match_index = 0 }),
      )
  unfolding stepped handle_append_entries
  refused-reply c = ground (arith, c, stepped-lem)

  backed :
      (reply : AppendEntriesReply)
      → reply.success ≡ false
      → reply.term ≡ l.current_term
      → handle_append_entries_reply f.id reply l ≡ (back_off f.id l, [])
  unfolding handle_append_entries_reply maybe_step_down
  backed reply s t = ground (arith, s, t, p.leads)

  exchange-refused :
      is_consistent (args_from l prev) stepped ≡ false
      → exchange (l, f) ≡ (back_off f.id l, follow stepped)
  unfolding deliver
  exchange-refused c =
      let (term, log, id) = stepped-lem in
      let reply : AppendEntriesReply = record {
        term = stepped.current_term;
        success = false;
        match_index = 0;
      } in
      let heard : handle_append_entries_reply stepped.id reply l ≡ (back_off f.id l, []) =
        ap (λ i. handle_append_entries_reply i reply l) id ∙ backed reply refl term in
      exchange-lem
      ∙ ap (λ (o : Outcome). ((deliver o.1 l).0, o.0)) (refused-reply c)
      ∙ ap (λ (o : Outcome). (o.0, follow stepped)) (deliver-alive _ l p.awake)
      ∙ ap (λ (o : Outcome). (o.0, follow stepped)) heard

  exchange-accepted :
      is_consistent (args_from l prev) stepped ≡ true
      → (exchange (l, f)).1.log ≡ merge (prev + 1) f.log (drop prev l.log)
  unfolding stepped handle_append_entries accept advance_last_applied
  exchange-accepted c =
      ap (λ (q : Node × Node). q.1.log) exchange-lem ∙ ground (arith, c, stepped-lem)

  open-consistent : prev ≡ 0 → is_consistent (args_from l prev) stepped ≡ true
  open-consistent e = ground (arith, e)

  -- Where the check passes, both logs agree up to the entry before.
  common :
      is_consistent (args_from l prev) stepped ≡ true
      → (take prev f.log ≡ take prev l.log) × (prev ≤ length f.log)
  common c = by_prev prev refl
    where
      by_prev : (k : ℕ) → prev ≡ k → (take prev f.log ≡ take prev l.log) × (prev ≤ length f.log)
      by_prev zero e = (rw e refl, omega (arith, e))
      by_prev (suc k) e =
          let (term, log, id) = stepped-lem in
          let c' : is_consistent (args_from l (suc k)) stepped ≡ true = rw e at c in
          let i : suc k - 1 ≡ k = omega arith in
          let checked = rw (i, log) at c' in
          let fits : suc k ≤ length l.log = omega (arith, p.fits, e) in
          let long : suc k ≤ length f.log = ground (arith, checked) in
          let same : term_at f.log k ≡ term_at l.log k = ground (arith, checked, fits) in
          (rw e (p.alike k long fits same), omega (arith, long, e))

  -- Where the check passes, the follower's log is the leader's after the exchange.
  exchange-repaired :
      is_consistent (args_from l prev) stepped ≡ true
      → take (length l.log) (exchange (l, f)).1.log ≡ l.log
  exchange-repaired c =
      let (same, long) = common c in
      let a : List LogEntry = take prev l.log in
      let es : List LogEntry = drop prev l.log in
      let r : List LogEntry = drop prev f.log in
      let log : (exchange (l, f)).1.log ≡ a ++ merged r es =
        exchange-accepted c
        ∙ (rw one (merge-merged prev f.log es long))
        ∙ ap (λ b. b ++ merged r es) same in
      let alike : Matches (a ++ r) (a ++ es) =
        subst (λ b. Matches b (a ++ es)) (sym (take-drop prev f.log) ∙ ap (λ b. b ++ r) same)
          (subst (Matches f.log) (sym (take-drop prev l.log)) p.alike) in
      let size : length l.log ≡ length a + length es =
        ap length (sym (take-drop prev l.log)) ∙ length-append a es in
      ap (λ k. take k (exchange (l, f)).1.log) size
      ∙ ap (take (length a + length es)) log
      ∙ take-append-more a (merged r es) (length es)
      ∙ ap (a ++◌) (take-merged a r es alike)
      ∙ take-drop prev l.log
    where
      one : prev + 1 ≡ suc prev
      one = omega arith

  back-log : (back_off f.id l).log ≡ l.log
  back-log = ground arith

  stepped-alive : (follow stepped).alive ≡ true
  unfolding stepped maybe_step_down
  stepped-alive = ground (arith, p.listens)

  -- A refusal leaves a pair, one step back.
  exchange-pair : (k : ℕ) → prev ≡ suc k → IsPaired (back_off f.id l) (follow stepped) k
  exchange-pair k e =
      let (term, log, id) = stepped-lem in
      record {
        leads = ground (arith, p.leads);
        awake = ground (arith, p.awake);
        listens = stepped-alive;
        term = ground (arith, term);
        next =
            ap (at (back_off f.id l).next_index) id
            ∙ ground (arith, p.next, e, at-set l.next_index f.id f.id (at l.next_index f.id - 1));
        fits = rw back-log (omega (arith, p.fits, e));
        alike =
            subst (λ b. Matches b (back_off f.id l).log) (sym log)
              (subst (Matches f.log) (sym back-log) p.alike);
      }

exchanges-repaired :
    (prev : ℕ) (l f : Node)
    → IsPaired l f prev
    → (k : ℕ) × (k ≤ suc prev) × (take (length l.log) (exchanges k (l, f)).1.log ≡ l.log)
unfolding exchanges
exchanges-repaired zero l f p =
    (1, omega arith, exchange-repaired l f zero p (open-consistent l f zero p refl))
exchanges-repaired (suc k) l f p =
    elim (Bool-cases (is_consistent (args_from l (suc k)) (stepped l f (suc k) p))) [
      | inl passes ↦ (1, omega arith, exchange-repaired l f (suc k) p passes)
      | inr fails ↦
          let back = exchange-refused l f (suc k) p fails in
          let (j, le, done) =
            exchanges-repaired k (back_off f.id l) (follow (stepped l f (suc k) p))
              (exchange-pair l f (suc k) p k refl) in
          (
            suc j,
            omega (arith, le),
            ap (λ q. take (length l.log) (exchanges j q).1.log) back
                ∙ rw (back-log l f (suc k) p) at done,
          )
    ]

-- A live leader that exchanges messages with one live follower repairs its log: if the follower's
-- term is not later, the two logs have the log matching property, and the next index is in the range that the
-- leader starts with, then after at most that many exchanges the follower's log begins with the
-- leader's.
pub exchanges-repair :
    (l f : Node)
    → l.role ≡ leader
    → l.alive ≡ true
    → f.alive ≡ true
    → f.current_term ≤ l.current_term
    → 1 ≤ at l.next_index f.id
    → at l.next_index f.id ≤ length l.log + 1
    → Matches f.log l.log
    → (k : ℕ) × (k ≤ at l.next_index f.id)
      × (take (length l.log) (exchanges k (l, f)).1.log ≡ l.log)
exchanges-repair l f leads awake listens term low high alike =
    let e : at l.next_index f.id ≡ suc (at l.next_index f.id - 1) = omega (arith, low) in
    let (k, le, done) = exchanges-repaired (at l.next_index f.id - 1) l f (record {
      leads = leads;
      awake = awake;
      listens = listens;
      term = term;
      next = e;
      fits = omega (arith, high);
      alike = alike;
    }) in
    (k, omega (arith, le, low), done)
