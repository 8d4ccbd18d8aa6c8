-- ===== src/Raft/Exchange.antt =====
-- The exchange of AppendEntries messages between a leader and one follower, and what a merge leaves of
-- logs with the log matching property.
use raft_visualizer.Prelude.{
  ℕ, zero, suc, ◌+◌, ◌<◌, ◌≡◌, refl, sym, true, ◌&&◌, ap, ap₂, ◌∙◌, inl, inr, none, some, List, [],
  ◌∷◌, ◌++◌, arith, ◌==◌, nat_eq, if◌then◌else◌, length, append_assoc, append-nil, length-append,
  Bool-cases,
}
use raft_visualizer.Raft.{
  Node, Message, LogEntry, Outcome, Sent, is_leader, term_at, take, send_append_entries,
}
use raft_visualizer.Raft.Merge.{merged}
use raft_visualizer.Raft.Events.{receive, handle, dispatch}

-- The messages reach a node, one after another; a crashed node drops them.
unfoldable pub deliver : Sent → Node → Outcome
deliver [] n = (n, [])
deliver (none ∷ ms) n = deliver ms n
deliver (some m ∷ ms) n =
    let (n', now) = handle (receive m) n in
    let (last, later) = deliver ms n' in (last, now ++ later)

-- A tick of the leader's heartbeat loop, as far as it concerns the follower: the leader sends to it if
-- it leads and is alive, and hears its reply.
unfoldable pub exchange : Node × Node → Node × Node
exchange (l, f) =
    let (f', replies) =
      deliver (if is_leader l.role && l.alive then send_append_entries l f.id ∷ [] else []) f in
    ((deliver replies l).0, f')

unfoldable pub exchanges : ℕ → Node × Node → Node × Node
exchanges zero p = p
exchanges (suc k) p = exchanges k (exchange p)

pub deliver-alive :
    (m : Message) (n : Node) → n.alive ≡ true → deliver (some m ∷ []) n ≡ dispatch m.from m.rpc n
unfolding deliver handle
deliver-alive m n a =
    ap (λ b. let o = if b then dispatch m.from m.rpc n else (n, []) in (o.0, o.1 ++ [])) a
    ∙ ap (λ s. ((dispatch m.from m.rpc n).0, s)) (append-nil (dispatch m.from m.rpc n).1)

-- The log matching property of two logs: where their terms agree, they agree up to there.
abbrev pub Matches : List LogEntry → List LogEntry → Type 0
Matches f l =
    (k : ℕ)
    → k < length f
    → k < length l
    → term_at f k ≡ term_at l k
    → take (suc k) f ≡ take (suc k) l

pub take-append-more : (a r : List LogEntry) (k : ℕ) → take (length a + k) (a ++ r) ≡ a ++ take k r
take-append-more [] r k = let e : 0 + k ≡ k = omega arith in rw e refl
take-append-more (x ∷ a) r k =
    let e : suc (length a) + k ≡ suc (length a + k) = omega arith in
    rw e (ap (x ∷◌) (take-append-more a r k))

take-one : (x : LogEntry) (r : List LogEntry) → take 1 (x ∷ r) ≡ x ∷ []
take-one x r = refl

cancel : (a : List LogEntry) (x e : LogEntry) → a ++ x ∷ [] ≡ a ++ e ∷ [] → x ≡ e
cancel [] x e h = cc
cancel (y ∷ a) x e h = cancel a x e cc

term_at-middle : (a r : List LogEntry) (x : LogEntry) → term_at (a ++ x ∷ r) (length a) ≡ x.term
term_at-middle [] r x = refl
term_at-middle (y ∷ a) r x = term_at-middle a r x

-- Where the terms of the next entries agree, the entries are the same.
Matches-next :
    (a r es : List LogEntry) (x e : LogEntry)
    → Matches (a ++ x ∷ r) (a ++ e ∷ es)
    → x.term ≡ e.term
    → x ≡ e
Matches-next a r es x e h same = cancel a x e agree
  where
    k : suc (length a) ≡ length a + 1
    k = omega arith

    agree : a ++ x ∷ [] ≡ a ++ e ∷ []
    agree =
        sym (take-append-more a (x ∷ r) 1)
        ∙ (rw k at (
            h (length a) (omega (arith, length-append a (x ∷ r)))
              (omega (arith, length-append a (e ∷ es)))
              (term_at-middle a r x ∙ same ∙ sym (term_at-middle a es e))))
        ∙ take-append-more a (e ∷ es) 1

take-all : (es : List LogEntry) → take (length es) es ≡ es
take-all [] = refl
take-all (e ∷ es) = ap (e ∷◌) (take-all es)

-- Behind a common part, a merge leaves the entries.
pub take-merged :
    (a r es : List LogEntry) → Matches (a ++ r) (a ++ es) → take (length es) (merged r es) ≡ es
take-merged a r [] h = refl
take-merged a [] (e ∷ es) h = take-all (e ∷ es)
take-merged a (x ∷ r) (e ∷ es) h = elim (Bool-cases (x.term == e.term)) [
  | inr other ↦ rw (other, if◌then◌else◌) (take-all (e ∷ es))
  | inl same ↦
      let eq : x ≡ e = Matches-next a r es x e h (ground (arith, same)) in
      let next : Matches ((a ++ e ∷ []) ++ r) ((a ++ e ∷ []) ++ es) =
        rw (append_assoc a (e ∷ []) r, append_assoc a (e ∷ []) es) (rw eq at h) in
      rw (same, if◌then◌else◌) (ap₂ ◌∷◌ eq (take-merged (a ++ e ∷ []) r es next))
]
