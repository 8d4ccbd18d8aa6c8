-- ===== src/Store/Invariant.antt =====
-- What holds of the store after every run of calls.
use raft_visualizer.Prelude.{
  ℕ, ◌≤◌, ◌≡◌, refl, ◌⊎◌, inl, inr, Bool, true, false, Option, none, some, List, [], ◌∷◌, ◌++◌,
  String, arith, nat_eq, string_eq, if◌then◌else◌, length, length-slice_last-le, includes,
  IsDistinct, Bool-cases, filter-IsDistinct, includes-append,
}
use raft_visualizer.Cluster.{Payload, EventLog, Message}
use raft_visualizer.Store.{
  Store, Lang, en, zh, ActionMode, partition_select, partition_confirm, init, initial_lang,
  lang_text, toggled, is_selecting, select_node, set_lang, toggle_lang, toggle_event_log,
  begin_action, cancel_action, toggle_partition_group_a_node, go_partition_confirm,
  set_active_partition_groups, clear_active_partition_groups, set_ws_status, set_send_fault,
  set_send_client_command,
}
use raft_visualizer.Store.Action.{Action, step, run}
use raft_visualizer.Store.Update.{raw_nodes, raw_in_flight, apply_state_update, fresh_logs}
use raft_visualizer.Store.Update.Numbers.{IsRecent, fresh_logs-IsNumbered, slice_last-IsRecent}
use raft_visualizer.Store.Update.Pulse.{AreFresh, next_nodes-AreFresh}

-- The modes of the two steps of a partition.
abbrev pub is_partitioning : Option ActionMode → Bool
is_partitioning (some partition_select) = true
is_partitioning (some partition_confirm) = true
is_partitioning _ = false

-- The feeds are bounded, and event ids are consecutive.
pub record IsFeed (logs : List EventLog) (in_flight : List Message) (next_event_id : ℕ)
    : Type 0 where
  pub few_logs : length logs ≤ 60
  pub few_messages : length in_flight ≤ 256
  pub recent : IsRecent logs next_event_id

-- Group A names a node once at most, and is empty outside the two steps of a partition.
pub record IsPicked (mode : Option ActionMode) (group : List ℕ) : Type 0 where
  pub distinct : IsDistinct group
  pub idle : (is_partitioning mode ≡ true) ⊎ (group ≡ [])

pub record IsValid (s : Store) : Type 0 where
  pub feed : IsFeed s.event_logs s.in_flight s.next_event_id
  pub tokens : AreFresh s.nodes s.next_pulse_seq
  -- A reload of the page finds the language that is shown.
  pub reload : initial_lang s.stored_lang ≡ s.lang
  pub picker : IsPicked s.action_mode s.partition_group_a

append-IsDistinct :
    (b : ℕ) (xs : List ℕ) → includes xs b ≡ false → IsDistinct xs → IsDistinct (xs ++ b ∷ [])
append-IsDistinct b [] h d = (refl, tt)
append-IsDistinct b (x ∷ xs) h d =
    ground (arith, append-IsDistinct b xs, includes-append xs b x, d.0)

-- A node is in Group A once at most.
pub toggled-IsDistinct :
    (group : List ℕ) (id : ℕ) → IsDistinct group → IsDistinct (toggled group id)
toggled-IsDistinct group id h = elim (Bool-cases (includes group id)) [
  | inl e ↦ rw (e, toggled) (filter-IsDistinct _ group h)
  | inr e ↦ rw (e, toggled) (append-IsDistinct id group e h)
]

initial_lang-lang_text : (l : Lang) → initial_lang (some (lang_text l)) ≡ l
unfolding initial_lang
initial_lang-lang_text en = refl
initial_lang-lang_text zh = refl

apply_state_update-IsValid :
    (t1 t2 : String) (payload : Option Payload) {s : Store}
    → IsValid s
    → IsValid (apply_state_update t1 t2 payload s)
unfolding apply_state_update
apply_state_update-IsValid t1 t2 payload {s} v = record {
  feed = record {
    few_logs = length-slice_last-le 60 (s.event_logs ++ (fresh_logs t1 t2 s _ _).logs);
    few_messages = length-slice_last-le 256 (raw_in_flight payload);
    recent =
        slice_last-IsRecent 60 s.event_logs s.next_event_id (fresh_logs t1 t2 s _ _) v.feed.recent
          (fresh_logs-IsNumbered t1 t2 s _ _);
  };
  tokens = next_nodes-AreFresh s.nodes (raw_nodes payload) s.next_pulse_seq v.tokens;
  reload = v.reload;
  picker = v.picker;
}

empty-IsPicked : (mode : Option ActionMode) → IsPicked mode []
empty-IsPicked mode = record { distinct = tt; idle = inr refl }

toggled-IsPicked :
    (mode : Option ActionMode) (group : List ℕ) (id : ℕ)
    → is_selecting mode ≡ true
    → IsPicked mode group
    → IsPicked mode (toggled group id)
toggled-IsPicked mode group id e p = record {
  distinct = toggled-IsDistinct group id p.distinct;
  idle = inl (ground (arith, e));
}

toggle-IsValid : (id : ℕ) (s : Store) → IsValid s → IsValid (toggle_partition_group_a_node id s)
unfolding toggle_partition_group_a_node
toggle-IsValid id s v = elim (Bool-cases (is_selecting s.action_mode)) [
  | inr e ↦ rw (e, if◌then◌else◌) v
  | inl e ↦
      rw (e, if◌then◌else◌)
        (record {
          feed = v.feed;
          tokens = v.tokens;
          reload = v.reload;
          picker = toggled-IsPicked s.action_mode s.partition_group_a id e v.picker;
        })
]

confirm-IsValid : {s : Store} → IsValid s → IsValid (go_partition_confirm s)
unfolding go_partition_confirm
confirm-IsValid {s} v = elim (Bool-cases (is_selecting s.action_mode)) [
  | inr e ↦ rw (e, if◌then◌else◌) v
  | inl e ↦
      rw (e, if◌then◌else◌)
        (record {
          feed = v.feed;
          tokens = v.tokens;
          reload = v.reload;
          picker = record { distinct = v.picker.distinct; idle = inl refl };
        })
]

-- Every call keeps the invariant.
pub step-IsValid : (a : Action) {s : Store} → IsValid s → IsValid (step a s)
unfolding step select_node set_lang toggle_lang toggle_event_log begin_action cancel_action
    set_active_partition_groups clear_active_partition_groups set_ws_status set_send_fault
    set_send_client_command
step-IsValid (Action.update t1 t2 payload) v = apply_state_update-IsValid t1 t2 payload v
step-IsValid (Action.choose_lang l) v = record {
  feed = v.feed;
  tokens = v.tokens;
  reload = initial_lang-lang_text _;
  picker = v.picker;
}
step-IsValid Action.switch_lang v = record {
  feed = v.feed;
  tokens = v.tokens;
  reload = initial_lang-lang_text _;
  picker = v.picker;
}
step-IsValid (Action.begin mode) v = record {
  feed = v.feed;
  tokens = v.tokens;
  reload = v.reload;
  picker = empty-IsPicked _;
}
step-IsValid Action.cancel v = record {
  feed = v.feed;
  tokens = v.tokens;
  reload = v.reload;
  picker = empty-IsPicked _;
}
step-IsValid (Action.toggle_node id) {s} v = toggle-IsValid id s v
step-IsValid Action.confirm v = confirm-IsValid v
step-IsValid (Action.groups none) v = record {
  feed = v.feed;
  tokens = v.tokens;
  reload = v.reload;
  picker = v.picker;
}
step-IsValid (Action.groups (some gs)) v = record {
  feed = v.feed;
  tokens = v.tokens;
  reload = v.reload;
  picker = v.picker;
}
step-IsValid _ v = record { feed = v.feed; tokens = v.tokens; reload = v.reload; picker = v.picker }

run-IsValid : (calls : List Action) {s : Store} → IsValid s → IsValid (run calls s)
unfolding run
run-IsValid [] v = v
run-IsValid (a ∷ calls) {s} v = run-IsValid calls {s = step a s} (step-IsValid a v)

pub init-IsValid : (stored : Option String) → IsValid (init stored)
unfolding init
init-IsValid stored = record {
  feed = record {
    few_logs = omega arith;
    few_messages = omega arith;
    recent = record { fits = omega arith; run = tt };
  };
  tokens = record { positive = omega arith; spent = tt };
  reload = refl;
  picker = empty-IsPicked _;
}

-- Whatever `localStorage` held when the page was opened and whatever calls were made since: the
-- event log has at most 60 lines and the feed at most 256 messages, the ids of the lines are
-- consecutive and end below the counter, every pulse token in use is below its counter, a reload
-- would show the same language, and Group A names no node twice and is empty outside the two steps
-- of a partition.
pub run-init-IsValid :
    (stored : Option String) (calls : List Action) → IsValid (run calls (init stored))
run-init-IsValid stored calls = run-IsValid calls (init-IsValid stored)
