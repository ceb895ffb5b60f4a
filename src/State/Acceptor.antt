-- ===== src/State/Acceptor.antt =====
-- core/include/acceptor_pax.hpp: AcceptorState and PaxAcceptorReplyMessage; AcceptorState::Init and
-- Reset of core/acceptor_pax.cpp. Setters and getters that are a field's are written as such.
use paxosme.Prelude.{ℕ, Bool, false, []}
use paxosme.Message.{node_dummy, proposal_dummy, LogValue}
use paxosme.Store.{PaxosLogEntry}

pub record AcceptorState : Type 0 where
  pub promised_proposal_id : ℕ
  pub promised_node_id : ℕ
  pub accepted_proposal_id : ℕ
  pub accepted_proposer : ℕ
  pub accepted_value : LogValue

unfoldable pub new_acceptor_state : AcceptorState
new_acceptor_state = record {
  promised_proposal_id = proposal_dummy;
  promised_node_id = node_dummy;
  accepted_proposal_id = proposal_dummy;
  accepted_proposer = node_dummy;
  accepted_value = [];
}

unfoldable pub set_promised_proposal : ℕ → ℕ → AcceptorState → AcceptorState
set_promised_proposal proposal_id proposer_id a = record a {
  promised_proposal_id = proposal_id;
  promised_node_id = proposer_id;
}

-- The source stores the proposer's id in both fields.
unfoldable pub set_accepted_proposal : ℕ → ℕ → AcceptorState → AcceptorState
set_accepted_proposal proposal_id proposer_id a = record a {
  accepted_proposal_id = proposer_id;
  accepted_proposer = proposer_id;
}

unfoldable pub set_accepted_value : LogValue → AcceptorState → AcceptorState
set_accepted_value value a = record a { accepted_value = value }

-- AcceptorState::Init, from the log entry that was read back
unfoldable pub init : PaxosLogEntry → AcceptorState → AcceptorState
unfolding set_promised_proposal set_accepted_proposal set_accepted_value
init e a = set_promised_proposal e.promised_proposal_id e.promised_node_id (
    set_accepted_proposal e.accepted_proposal_id e.accepted_node_id
      (set_accepted_value e.accepted_value a))

-- AcceptorState::Reset
unfoldable pub reset : AcceptorState → AcceptorState
reset a = record a {
  accepted_value = [];
  accepted_proposal_id = proposal_dummy;
  accepted_proposer = node_dummy;
  promised_proposal_id = proposal_dummy;
  promised_node_id = node_dummy;
}

-- PaxAcceptorReplyMessage, and `PaxAcceptorReplyMessage{}` with every member zero.
pub record PaxAcceptorReplyMessage : Type 0 where
  pub accepted_id : ℕ
  pub accepted_value : LogValue
  pub promised_id : ℕ
  pub promised_node_id : ℕ
  pub instance_id : ℕ
  pub is_rejected : Bool
  pub proposer_id : ℕ

abbrev pub new_reply : PaxAcceptorReplyMessage
new_reply = record {
  accepted_id = 0;
  accepted_value = [];
  promised_id = 0;
  promised_node_id = 0;
  instance_id = 0;
  is_rejected = false;
  proposer_id = 0;
}
