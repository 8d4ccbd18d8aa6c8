-- ===== src/Store/Update/Quiet.antt =====
-- Where nothing changed, nothing is logged and no token is spent.
use raft_visualizer.Prelude.{
  ℕ, ◌≡◌, refl, ◌∙◌, false, Option, none, some, List, [], ◌∷◌, map, String, arith, ◌==◌, nat_eq,
  string_eq, if◌then◌else◌, includes, IsDistinct, All, beq_self, eq-nil_of_count,
}
use raft_visualizer.JsMap.{get, get-set_all, last_value}
use raft_visualizer.Cluster.{Node, Message, EventLog, signature_eq}
use raft_visualizer.Store.Derive.{by_id}
use raft_visualizer.Store.Diff.{diff_rpc_logs}
use raft_visualizer.Store.Diff.Buckets.{log_sig}
use raft_visualizer.Store.Diff.Counts.{count-diff_rpc_logs}
use raft_visualizer.Store.Diff.Numbers.{diff_rpc_logs-IsNumbered}

map-nil : (ls : List EventLog) → map log_sig ls ≡ [] → ls ≡ []
map-nil [] h = refl
map-nil (l ∷ ls) h = cc

-- Messages that were all in flight already give no line, and leave the counter.
pub diff_rpc_logs_self :
    (time : String) (xs : List Message) (n : ℕ)
    → diff_rpc_logs time xs xs n ≡ record { next_event_id = n; logs = [] }
diff_rpc_logs_self time xs n =
    ground (arith, none_new, (diff_rpc_logs-IsNumbered time xs xs n).next)
  where
    none_new : (diff_rpc_logs time xs xs n).logs ≡ []
    none_new =
        map-nil (diff_rpc_logs time xs xs n).logs
          (eq-nil_of_count _ (λ s. omega (arith, count-diff_rpc_logs time xs xs n s)))

abbrev ids : List Node → List ℕ
ids = map (λ n. n.id)

abbrev pairs : List Node → List (ℕ × Node)
pairs = map (λ n. (n.id, n))

last_value_absent :
    (o : Option Node) (ns : List Node) (k : ℕ)
    → includes (ids ns) k ≡ false
    → last_value o (pairs ns) k ≡ o
last_value_absent o [] k h = refl
last_value_absent o (n ∷ ns) k h = ground (arith, last_value_absent o ns k)

last_value_index :
    (o : ℕ → Option Node) (ns : List Node)
    → IsDistinct (ids ns)
    → All (λ n. last_value (o n.id) (pairs ns) n.id ≡ some n) ns
last_value_index o [] h = tt
last_value_index o (n ∷ ns) h = (
  rw (beq_self n.id, last_value) (last_value_absent (some n) ns n.id h.0),
  last_value_index (λ k. if n.id == k then some n else o k) ns h.1,
)

All-index :
    (m : List (ℕ × Node)) (ns xs : List Node)
    → m ≡ by_id ns
    → All (λ n. last_value none (pairs ns) n.id ≡ some n) xs
    → All (λ n. get m n.id ≡ some n) xs
All-index m ns [] e h = tt
All-index m ns (x ∷ xs) e h = (rw e (get-set_all [] (pairs ns) x.id ∙ h.0), All-index m ns xs e h.1)

-- With distinct ids the map by id finds each node.
pub get-by_id : (ns : List Node) → IsDistinct (ids ns) → All (λ n. get (by_id ns) n.id ≡ some n) ns
get-by_id ns h = All-index (by_id ns) ns ns refl (last_value_index (λ _. none) ns h)
