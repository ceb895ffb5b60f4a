-- ===== src/Store/Entry.antt =====
-- The virtual class LogStorage and the message PaxosLogEntry of state.proto.
use paxosme.Prelude.{ℕ, ◌<◌, ◌≡◌, Bool, [], Option, Bytes}
use paxosme.Message.{u64_mod, LogValue}

-- Put, Get and Delete over a storage state `S`; `none` is the result `false` of Get.
pub record LogStorage (S : Type 0) : Type 0 where
  pub put : Bytes → Bytes → S → S × Bool
  pub get : Bytes → S → Option Bytes
  pub delete : Bytes → S → S × Bool

pub record PaxosLogEntry : Type 0 where
  pub instance_id : ℕ
  pub promised_proposal_id : ℕ
  pub promised_node_id : ℕ
  pub accepted_proposal_id : ℕ
  pub accepted_node_id : ℕ
  pub accepted_value : LogValue
  pub proposer_id : ℕ
  pub leader_instance_id : ℕ

-- A message that has just been constructed: proto3's defaults.
abbrev pub default_entry : PaxosLogEntry
default_entry = record {
  instance_id = 0;
  promised_proposal_id = 0;
  promised_node_id = 0;
  accepted_proposal_id = 0;
  accepted_node_id = 0;
  accepted_value = [];
  proposer_id = 0;
  leader_instance_id = 0;
}

-- Every number fits its uint64 field.
pub record IsEntry (e : PaxosLogEntry) : Type 0 where
  pub instance_fits : e.instance_id < u64_mod
  pub promised_fits : e.promised_proposal_id < u64_mod
  pub promised_node_fits : e.promised_node_id < u64_mod
  pub accepted_fits : e.accepted_proposal_id < u64_mod
  pub accepted_node_fits : e.accepted_node_id < u64_mod
  pub proposer_fits : e.proposer_id < u64_mod
  pub leader_fits : e.leader_instance_id < u64_mod

-- SerializeAsString and ParseFromString of the class that protoc generates, with what protobuf
-- documents of them: a message that fits its fields comes back.
pub record EntryCodec : Type 0 where
  pub serialize : PaxosLogEntry → Bytes
  pub parse : Bytes → PaxosLogEntry
  pub parse-serialize : (e : PaxosLogEntry) → IsEntry e → parse (serialize e) ≡ e
