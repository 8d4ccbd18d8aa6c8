-- ===== src/Raft/Commit.antt =====
-- How a leader commits (`maybeAdvanceCommitIndex` of backend/raft/replication.go).
use raft_visualizer.Prelude.{
  ℕ, zero, suc, ◌+◌, ◌-◌, ◌*◌, ◌<◌, ◌≡◌, refl, inl, inr, Bool, true, not, arith, ltb, nat_eq,
  if◌then◌else◌, length, Bool-cases,
}
use raft_visualizer.Raft.{Node, term_at}
use raft_visualizer.Raft.Replication.{commit_from, can_commit, replicas, advance_last_applied}

-- Only the two indexes and the signal change.
abbrev pub Committed : Node → ℕ → ℕ → Bool → Node
Committed n c a d = record n { commit_index = c; last_applied = a; dirty = d }

pub commit_from-Committed :
    (k : ℕ) (n : Node) → (c : ℕ) × (a : ℕ) × (d : Bool) × (commit_from k n ≡ Committed n c a d)
unfolding commit_from advance_last_applied
commit_from-Committed zero n = (n.commit_index, n.last_applied, n.dirty, refl)
commit_from-Committed (suc k) n =
    let (c, a, d, e) = commit_from-Committed k n in
    elim (Bool-cases (ltb n.commit_index (suc k))) [
      | inr low ↦ (n.commit_index, n.last_applied, n.dirty, ground (arith, low))
      | inl high ↦ elim (Bool-cases (can_commit n (suc k))) [
        | inl can ↦ (
          suc k,
          (if ltb n.last_applied (suc k) then suc k else n.last_applied),
          true,
          ground (arith, high, can),
        )
        | inr cannot ↦ (c, a, d, ground (arith, high, cannot, e))
      ]
    ]

-- The entry is of the current term, and the match indexes that the leader keeps make a majority with
-- the leader itself. What the followers hold is another matter.
abbrev pub IsReplicated : Node → ℕ → Type 0
IsReplicated n idx =
    (term_at n.log (idx - 1) ≡ n.current_term)
    × (length n.peers + 1 < 2 * (1 + replicas n.match_index idx n.peers))

-- The loop over any test, from a commit index.
abbrev highest : (ℕ → Bool) → ℕ → ℕ → ℕ
highest can commit zero = commit
highest can commit (suc k) =
    if not (ltb commit (suc k)) then commit else if can (suc k) then suc k else highest can commit k
