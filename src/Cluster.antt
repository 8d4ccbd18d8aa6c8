-- ===== src/Cluster.antt =====
-- The data that the backend pushes and the store keeps: nodes with their logs
-- (backend/raft/types.go, `Snapshot` and `LogEntry`), messages in flight, and the lines of the
-- event log (frontend/src/store/clusterStore.js, `makeLog`). Numbers of the JSON are naturals.
use raft_visualizer.Prelude.{
  ℕ, ◌≡◌, ◌↔◌, Bool, true, ◌&&◌, Option, List, String, arith, Eq, ◌==◌, string_eq, nat_eq,
}

-- `votedFor` as it may arrive: absent or null, -1 for "no vote", or a node's id.
pub data Vote : Type 0 where
  absent no_vote : Vote
  cast : ℕ → Vote

pub record RawEntry : Type 0 where
  pub index : ℕ
  pub term : ℕ
  pub command : String

-- The fields of a node but its log.
pub record Status : Type 0 where
  pub id : ℕ
  pub role : String
  pub term : ℕ
  pub alive : Bool
  pub voted_for : Vote
  pub commit_index : ℕ
  pub last_applied : ℕ

-- A node of a payload. `none` is a log that is null or missing.
pub record RawNode : Type 0 where
  pub status : Status
  pub open status use *
  pub log : Option (List RawEntry)

-- An entry of the store's copy, with the flag that the store derives.
pub record Entry : Type 0 where
  pub raw : RawEntry
  pub committed : Bool

-- A node of the store.
pub record Node : Type 0 where
  pub status : Status
  pub open status use *
  pub pulse_seq : ℕ
  pub log : List Entry

-- A message in flight, as the backend reports it.
pub record Message : Type 0 where
  pub from : ℕ
  pub to : ℕ
  pub type : String
  pub term : ℕ

-- `none` is a field that is no array.
pub record Payload : Type 0 where
  pub nodes : Option (List RawNode)
  pub in_flight : Option (List Message)

pub data Level : Type 0 where
  normal active warn : Level

-- A line of the event log.
pub record EventLog : Type 0 where
  pub id : ℕ
  pub time : String
  pub from : ℕ
  pub to : ℕ
  pub event_type : String
  pub term : ℕ
  pub level : Level

-- The text `from|to|type|term` by its four parts: the numbers hold no bar, so two such texts are
-- equal exactly if the parts are.
pub record Signature : Type 0 where
  pub from : ℕ
  pub to : ℕ
  pub type : String
  pub term : ℕ

abbrev pub rpc_sig : Message → Signature
rpc_sig m = record { from = m.from; to = m.to; type = m.type; term = m.term }

abbrev pub signature_beq : Signature → Signature → Bool
signature_beq a b =
    (a.from == b.from) && ((a.to == b.to) && ((a.type == b.type) && (a.term == b.term)))

pub signature_beq_iff : (a b : Signature) → (signature_beq a b ≡ true) ↔ (a ≡ b)
signature_beq_iff a b = ground (arith, string_eq.same_iff a.type b.type)

instance abbrev pub signature_eq : Eq Signature
signature_eq = record { same = signature_beq; same_iff = signature_beq_iff }
