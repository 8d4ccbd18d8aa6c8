-- ===== src/Store/Diff.antt =====
-- `diffRPCLogs`: one line for each message in flight that was not there before
-- (frontend/src/store/clusterStore.js).
pub mod Buckets
pub mod Counts
pub mod Numbers
use raft_visualizer.Prelude.{
  ℕ, zero, suc, ◌+◌, ◌-◌, Bool, Option, none, some, List, [], ◌∷◌, String, leb, if◌then◌else◌,
}
use raft_visualizer.JsMap.{get, set, has}
use raft_visualizer.Cluster.{Message, Signature, rpc_sig, signature_eq, Level}
use raft_visualizer.Store.Logs.{Emitter, push_log}

-- `prevCounts.get(sig) ?? 0`
abbrev pub count_at : List (Signature × ℕ) → Signature → ℕ
count_at m sig = elim (get m sig) [ none ↦ 0 | some n ↦ n ]

-- The first loop.
pub count_messages : List (Signature × ℕ) → List Message → List (Signature × ℕ)
count_messages m [] = m
count_messages m (x ∷ xs) = count_messages (set m (rpc_sig x) (count_at m (rpc_sig x) + 1)) xs

pub record Bucket : Type 0 where
  pub msg : Message
  pub count : ℕ

-- `nextBuckets.get(sig).count += 1`
abbrev increment : List (Signature × Bucket) → Signature → List (Signature × Bucket)
increment m sig = elim (get m sig) [
  | none ↦ m
  | some b ↦ set m sig (record b { count = b.count + 1 })
]

-- One round of the second loop.
pub add_to_bucket : List (Signature × Bucket) → Message → List (Signature × Bucket)
add_to_bucket m x =
    increment (if has m (rpc_sig x) then m else set m (rpc_sig x) (record { msg = x; count = 0 }))
      (rpc_sig x)

pub fill_buckets : List (Signature × Bucket) → List Message → List (Signature × Bucket)
fill_buckets m [] = m
fill_buckets m (x ∷ xs) = fill_buckets (add_to_bucket m x) xs

-- `for (let i = 0; i < delta; i++) logs.push(...)`
pub push_times : String → Message → ℕ → Emitter → Emitter
push_times time msg zero em = em
push_times time msg (suc delta) em =
    push_times time msg delta (push_log msg.from msg.to msg.type msg.term Level.normal time em)

-- The third loop.
pub push_buckets : String → List (Signature × ℕ) → List (Signature × Bucket) → Emitter → Emitter
push_buckets time prev [] em = em
push_buckets time prev ((sig, bucket) ∷ bs) em = push_buckets time prev bs (
    if leb bucket.count (count_at prev sig)
    then em
    else push_times time bucket.msg (bucket.count - count_at prev sig) em)

pub diff_rpc_logs : String → List Message → List Message → ℕ → Emitter
unfolding count_messages fill_buckets push_buckets
diff_rpc_logs time prev_in_flight next_in_flight next_event_id =
    push_buckets time (count_messages [] prev_in_flight) (fill_buckets [] next_in_flight)
      (record { next_event_id = next_event_id; logs = [] })
