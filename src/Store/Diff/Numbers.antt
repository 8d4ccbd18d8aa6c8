-- ===== src/Store/Diff/Numbers.antt =====
-- The ids of the lines of `diffRPCLogs`.
use raft_visualizer.Prelude.{ℕ, zero, suc, ◌-◌, List, [], ◌∷◌, String, if◌then◌else◌, leb}
use raft_visualizer.Cluster.{Message, Signature, signature_eq, Level}
use raft_visualizer.Store.Logs.{Emitter, push_log}
use raft_visualizer.Store.Logs.Numbering.{
  IsNumbered, empty-IsNumbered, push_log-IsNumbered, if-IsNumbered,
}
use raft_visualizer.Store.Diff.{
  Bucket, count_at, count_messages, fill_buckets, push_times, push_buckets, diff_rpc_logs,
}

push_times-IsNumbered :
    (n : ℕ) (time : String) (msg : Message) (k : ℕ) (em : Emitter)
    → IsNumbered n em
    → IsNumbered n (push_times time msg k em)
unfolding push_times
push_times-IsNumbered n time msg zero em h = h
push_times-IsNumbered n time msg (suc k) em h =
    push_times-IsNumbered n time msg k
      (push_log msg.from msg.to msg.type msg.term Level.normal time em)
      (push_log-IsNumbered n _ _ _ _ _ _ h)

push_buckets-IsNumbered :
    (n : ℕ) (time : String) (prev : List (Signature × ℕ)) (bs : List (Signature × Bucket))
    (em : Emitter)
    → IsNumbered n em
    → IsNumbered n (push_buckets time prev bs em)
unfolding push_buckets
push_buckets-IsNumbered n time prev [] em h = h
push_buckets-IsNumbered n time prev ((sig, b) ∷ bs) em h =
    push_buckets-IsNumbered n time prev bs
      (if leb b.count (count_at prev sig)
        then em
        else push_times time b.msg (b.count - count_at prev sig) em)
      (if-IsNumbered n _ h (push_times-IsNumbered n time b.msg _ em h))

pub diff_rpc_logs-IsNumbered :
    (time : String) (prev next : List Message) (n : ℕ)
    → IsNumbered n (diff_rpc_logs time prev next n)
unfolding diff_rpc_logs
diff_rpc_logs-IsNumbered time prev next n =
    push_buckets-IsNumbered n time (count_messages [] prev) (fill_buckets [] next) _
      (empty-IsNumbered n)
