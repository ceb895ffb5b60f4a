-- ===== src/Message.antt =====
-- include/messages.hpp and the basic types of include/common.hpp: message types with their numbers,
-- and PaxMessage. Getters and setters are the record's fields and updates.
use paxosme.Prelude.{ℕ, ◌+◌, ◌*◌, ◌^◌, Bool, false, [], Bytes}

-- node_id_t, proposal_id_t, instance_id_t and index_t are uint64_t.
abbrev pub u64_mod : ℕ
u64_mod = 2 ^ 64

abbrev pub node_dummy : ℕ
node_dummy = 0

abbrev pub proposal_dummy : ℕ
proposal_dummy = 0

abbrev pub instance_dummy : ℕ
instance_dummy = 0

-- LogValue is std::string.
abbrev pub LogValue : Type 0
LogValue = Bytes

pub data MessageType : Type 0 where
  msg_none : MessageType
  msg_propose_broadcast msg_accept_broadcast : MessageType
  msg_propose_ack msg_accept_ack : MessageType
  msg_value_chosen msg_shall_i_learn msg_confirm_learn : MessageType
  msg_learner_value_send msg_learner_value_sync msg_sync_value_ack : MessageType
  msg_value_chosen_broadcast msg_tell_instance_id : MessageType
  placeholder_new_value_committed : MessageType

-- The enumerator's number: 0x1 << 3 and so on, each unnumbered one a step above the last.
unfoldable pub to_int : MessageType → ℕ
to_int msg_none = 0
to_int msg_propose_broadcast = 0x1 * 2 ^ 3
to_int msg_accept_broadcast = 0x1 * 2 ^ 3 + 1
to_int msg_propose_ack = 0x11 * 2 ^ 3
to_int msg_accept_ack = 0x11 * 2 ^ 3 + 1
to_int msg_value_chosen = 0x111 * 2 ^ 3
to_int msg_shall_i_learn = 0x111 * 2 ^ 3 + 1
to_int msg_confirm_learn = 0x111 * 2 ^ 3 + 2
to_int msg_learner_value_send = 0x111 * 2 ^ 3 + 3
to_int msg_learner_value_sync = 0x111 * 2 ^ 3 + 4
to_int msg_sync_value_ack = 0x111 * 2 ^ 3 + 5
to_int msg_value_chosen_broadcast = 0x111 * 2 ^ 3 + 6
to_int msg_tell_instance_id = 0x111 * 2 ^ 3 + 7
to_int placeholder_new_value_committed = 0x1111 * 2 ^ 3

pub record PaxMessage : Type 0 where
  pub proposed_log_value : LogValue
  pub accepted_value : LogValue
  pub learned_value : LogValue
  pub chosen_value : LogValue
  pub promised_proposal_id : ℕ
  pub promised_node_id : ℕ
  pub instance_id : ℕ
  pub proposal_id : ℕ
  pub proposing_node_id : ℕ
  pub following_node_id : ℕ
  pub message_type : MessageType
  pub accepted_proposal_id : ℕ
  pub leader_instance_id : ℕ
  pub sender_id : ℕ
  pub rejected : Bool

-- The constructor PaxMessage(sender_id, message_type): every other member is zero or empty.
abbrev pub new_message : ℕ → MessageType → PaxMessage
new_message sender_id message_type = record {
  proposed_log_value = [];
  accepted_value = [];
  learned_value = [];
  chosen_value = [];
  promised_proposal_id = 0;
  promised_node_id = 0;
  instance_id = 0;
  proposal_id = 0;
  proposing_node_id = 0;
  following_node_id = 0;
  message_type = message_type;
  accepted_proposal_id = 0;
  leader_instance_id = 0;
  sender_id = sender_id;
  rejected = false;
}
