-- ===== src/Store/Diff/Buckets.antt =====
-- What the three loops of `diffRPCLogs` compute, one loop at a time.
use raft_visualizer.Prelude.{
  ℕ, zero, suc, ◌+◌, ◌-◌, ◌≡◌, refl, ◌∙◌, inl, inr, none, some, List, [], ◌∷◌, map, String, arith,
  ◌==◌, if◌then◌else◌, Option-cases, count, count-append, beq_self,
}
use mathlib.Core.List.{map-append}
use raft_visualizer.JsMap.{get, set, has, get-set, HasDistinctKeys, set-HasDistinctKeys}
use raft_visualizer.Cluster.{Message, EventLog, Signature, signature_eq, rpc_sig, Level}
use raft_visualizer.Store.Logs.{Emitter, push_log}
use raft_visualizer.Store.Diff.{
  count_at, count_messages, Bucket, increment, add_to_bucket, fill_buckets, push_times,
  push_buckets,
}

-- The signature of the message that a line reports.
abbrev pub log_sig : EventLog → Signature
log_sig l = record { from = l.from; to = l.to; type = l.event_type; term = l.term }

abbrev pub bucket_at : List (Signature × Bucket) → Signature → ℕ
bucket_at m sig = elim (get m sig) [ none ↦ 0 | some b ↦ b.count ]

pub count_at-count_messages :
    (m : List (Signature × ℕ)) (xs : List Message) (s : Signature)
    → count_at (count_messages m xs) s ≡ count_at m s + count s (map rpc_sig xs)
unfolding count_messages
count_at-count_messages m [] s = omega arith
count_at-count_messages m (x ∷ xs) s = ground (
  arith,
  signature_eq.same_iff (rpc_sig x) s,
  count_at-count_messages (set m (rpc_sig x) (count_at m (rpc_sig x) + 1)) xs s,
  get-set m (rpc_sig x) s (count_at m (rpc_sig x) + 1),
)

-- Every bucket holds a message of its key.
abbrev pub IsKeyed : List (Signature × Bucket) → Type 0
IsKeyed [] = Unit
IsKeyed ((sig, b) ∷ m) = (rpc_sig b.msg ≡ sig) × IsKeyed m

IsKeyed-get :
    (m : List (Signature × Bucket)) (s : Signature) (b : Bucket)
    → IsKeyed m
    → get m s ≡ some b
    → rpc_sig b.msg ≡ s
IsKeyed-get [] s b h e = cc
IsKeyed-get ((sig, c) ∷ m) s b h e =
    ground (arith, signature_eq.same_iff sig s, IsKeyed-get m s b h.1)

set-IsKeyed :
    (m : List (Signature × Bucket)) (s : Signature) (b : Bucket)
    → IsKeyed m
    → rpc_sig b.msg ≡ s
    → IsKeyed (set m s b)
set-IsKeyed [] s b h e = (e, tt)
set-IsKeyed ((sig, c) ∷ m) s b h e =
    ground (arith, signature_eq.same_iff sig s, set-IsKeyed m s b h.1 e)

-- The two properties that the loops over the buckets keep.
pub record IsIndex (m : List (Signature × Bucket)) : Type 0 where
  pub distinct : HasDistinctKeys m
  pub keyed : IsKeyed m

set-IsIndex :
    (m : List (Signature × Bucket)) (s : Signature) (b : Bucket)
    → IsIndex m
    → rpc_sig b.msg ≡ s
    → IsIndex (set m s b)
set-IsIndex m s b h e = record {
  distinct = set-HasDistinctKeys m s b h.distinct;
  keyed = set-IsKeyed m s b h.keyed e;
}

-- One message adds one to its own bucket, which it opens if there is none.
record Adds (m n : List (Signature × Bucket)) (x : Message) : Type 0 where
  index : IsIndex n
  counts :
      (s : Signature)
      → bucket_at n s ≡ (if rpc_sig x == s then suc (bucket_at m s) else bucket_at m s)

increment-Adds :
    (m : List (Signature × Bucket)) (x : Message) (b : Bucket)
    → IsIndex m
    → get m (rpc_sig x) ≡ some b
    → Adds m (increment m (rpc_sig x)) x
increment-Adds m x b h e =
    rw (e, increment)
      (record {
        index = set-IsIndex m (rpc_sig x) _ h (IsKeyed-get m (rpc_sig x) b h.keyed e);
        counts = λ s. ground (
          arith,
          signature_eq.same_iff (rpc_sig x) s,
          get-set m (rpc_sig x) s (record b { count = b.count + 1 }),
        );
      })

-- A message of a new signature opens an empty bucket first.
open_bucket-Adds :
    (m : List (Signature × Bucket)) (x : Message)
    → IsIndex m
    → get m (rpc_sig x) ≡ none
    → Adds m (increment (set m (rpc_sig x) (record { msg = x; count = 0 })) (rpc_sig x)) x
open_bucket-Adds m x h e = record {
  index = added.index;
  counts = λ s. ground (
    arith,
    e,
    added.counts s,
    signature_eq.same_iff (rpc_sig x) s,
    get-set m (rpc_sig x) s (record { msg = x; count = 0 }),
  );
}
  where
    opened : List (Signature × Bucket)
    opened = set m (rpc_sig x) (record { msg = x; count = 0 })

    found : get opened (rpc_sig x) ≡ some (record { msg = x; count = 0 })
    found = get-set m (rpc_sig x) (rpc_sig x) (record { msg = x; count = 0 }) ∙ (λ i.
        if beq_self (rpc_sig x) i then some (record { msg = x; count = 0 }) else get m (rpc_sig x))

    added : Adds opened (increment opened (rpc_sig x)) x
    added = increment-Adds opened x _ (set-IsIndex m (rpc_sig x) _ h refl) found

add_to_bucket-Adds :
    (m : List (Signature × Bucket)) (x : Message) → IsIndex m → Adds m (add_to_bucket m x) x
unfolding add_to_bucket
add_to_bucket-Adds m x h = elim (Option-cases (get m (rpc_sig x))) [
  | inr (b, e) ↦ rw (e, has) (increment-Adds m x b h e)
  | inl e ↦ rw (e, has) (open_bucket-Adds m x h e)
]

-- The buckets count the messages.
pub fill_buckets-IsIndex :
    (m : List (Signature × Bucket)) (xs : List Message) → IsIndex m → IsIndex (fill_buckets m xs)
unfolding fill_buckets
fill_buckets-IsIndex m [] h = h
fill_buckets-IsIndex m (x ∷ xs) h =
    fill_buckets-IsIndex (add_to_bucket m x) xs (add_to_bucket-Adds m x h).index

pub bucket_at-fill_buckets :
    (m : List (Signature × Bucket)) (xs : List Message) (s : Signature)
    → IsIndex m
    → bucket_at (fill_buckets m xs) s ≡ bucket_at m s + count s (map rpc_sig xs)
unfolding fill_buckets
bucket_at-fill_buckets m [] s h = omega arith
bucket_at-fill_buckets m (x ∷ xs) s h =
    let added = add_to_bucket-Adds m x h in
    ground (arith, added.counts s, bucket_at-fill_buckets (add_to_bucket m x) xs s added.index)

count-push_log :
    (time : String) (msg : Message) (em : Emitter) (s : Signature)
    → count s (map log_sig (push_log msg.from msg.to msg.type msg.term Level.normal time em).logs)
      ≡ count s (map log_sig em.logs) + (if rpc_sig msg == s then 1 else 0)
count-push_log time msg em s =
    rw (map-append log_sig em.logs _) (count-append s (map log_sig em.logs) (rpc_sig msg ∷ []))

-- What a run of equal pushes adds to the lines of a signature.
count-push_times :
    (time : String) (msg : Message) (n : ℕ) (em : Emitter) (s : Signature)
    → count s (map log_sig (push_times time msg n em).logs)
      ≡ count s (map log_sig em.logs) + (if rpc_sig msg == s then n else 0)
unfolding push_times
count-push_times time msg zero em s = ground arith
count-push_times time msg (suc n) em s = ground (
  arith,
  count-push_log time msg em s,
  count-push_times time msg n (push_log msg.from msg.to msg.type msg.term Level.normal time em) s,
)

pub count-push_buckets :
    (time : String) (prev : List (Signature × ℕ)) (bs : List (Signature × Bucket)) (em : Emitter)
    (s : Signature)
    → IsIndex bs
    → count s (map log_sig (push_buckets time prev bs em).logs)
      ≡ count s (map log_sig em.logs) + (bucket_at bs s - count_at prev s)
unfolding push_buckets
count-push_buckets time prev [] em s h = ground arith
count-push_buckets time prev ((sig, b) ∷ bs) em s h = ground (
  arith,
  signature_eq.same_iff sig s,
  count-push_times time b.msg (b.count - count_at prev sig) em s,
  count-push_buckets time prev bs em s (record { distinct = h.distinct.1; keyed = h.keyed.1 }),
  count-push_buckets time prev bs (push_times time b.msg (b.count - count_at prev sig) em) s
      (record { distinct = h.distinct.1; keyed = h.keyed.1 }),
)
