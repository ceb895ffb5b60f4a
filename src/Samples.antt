-- ===== src/Samples.antt =====
-- A node and messages at which the theorems about the players apply.
use paxosme.Prelude.{[], ◌∷◌, List, none, Bytes}
use paxosme.Message.{PaxMessage, new_message, msg_propose_broadcast, msg_accept_broadcast}
use paxosme.Options.{PaxosOptions}
use paxosme.Schedule.{new_scheduler}
use paxosme.State.Counter.{new_counter}
use paxosme.State.Proposer.{new_proposer_state}
use paxosme.State.Learner.{new_learner}
use paxosme.Node.{Node, status_none}

-- Node 2 of three, with a threshold of two thirds.
abbrev pub sample_options : PaxosOptions
sample_options = record {
  node_id = 2;
  threshold_num = 2;
  threshold_den = 3;
  member_count = 3;
  members = 1 ∷ 2 ∷ 3 ∷ [];
}

abbrev pub sample_node : Node (List (Bytes × Bytes))
sample_node = record {
  options = sample_options;
  now = 0;
  instance_id = 4;
  acceptor = record {
    promised_proposal_id = 0;
    promised_node_id = 0;
    accepted_proposal_id = 0;
    accepted_proposer = 0;
    accepted_value = [];
  };
  proposer = record {
    status = status_none;
    proposal_counter = new_counter;
    proposer_state = new_proposer_state;
    proposal_prov = none;
  };
  learner = new_learner;
  scheduler = new_scheduler;
  inbox = record { items = []; limit = 1000 };
  store = [];
  sent = [];
  executed = [];
}

-- A propose and an accept request of node 3, with the ballot that each field name says.
abbrev pub sample_propose : PaxMessage
sample_propose = record (new_message 3 msg_propose_broadcast) {
  instance_id = 4;
  proposal_id = 5;
  proposing_node_id = 3;
}

abbrev pub sample_accept : PaxMessage
sample_accept = record (new_message 3 msg_accept_broadcast) {
  instance_id = 4;
  proposal_id = 5;
  proposing_node_id = 3;
  proposed_log_value = 7 ∷ 8 ∷ [];
}
