-- ===== src/Store/Diff/Counts.antt =====
-- What `diffRPCLogs` is for: the lines are the multiset difference of the two message lists.
use raft_visualizer.Prelude.{ℕ, ◌-◌, ◌≡◌, List, [], map, String, arith, count}
use raft_visualizer.Cluster.{Message, Signature, rpc_sig, signature_eq}
use raft_visualizer.Store.Diff.{diff_rpc_logs, count_messages, fill_buckets}
use raft_visualizer.Store.Diff.Buckets.{
  IsIndex, log_sig, count_at-count_messages, fill_buckets-IsIndex, bucket_at-fill_buckets,
  count-push_buckets,
}

-- For every signature the number of new lines is the number of messages now in flight less the
-- number that was in flight before, or zero if there are not more of them than before.
pub count-diff_rpc_logs :
    (time : String) (prev_in_flight next_in_flight : List Message) (next_event_id : ℕ)
    (s : Signature)
    → count s (map log_sig (diff_rpc_logs time prev_in_flight next_in_flight next_event_id).logs)
      ≡ count s (map rpc_sig next_in_flight) - count s (map rpc_sig prev_in_flight)
unfolding diff_rpc_logs
count-diff_rpc_logs time prev next id s = omega (
  arith,
  count-push_buckets time (count_messages [] prev) (fill_buckets [] next)
      (record { next_event_id = id; logs = [] }) s (fill_buckets-IsIndex [] next empty),
  count_at-count_messages [] prev s,
  bucket_at-fill_buckets [] next s empty,
)
  where
    empty : IsIndex []
    empty = record { distinct = tt; keyed = tt }
