-- ===== src/Node.antt =====
-- core/include/controller.hpp, core/include/player_pax.hpp and core/player_pax.cpp: the state that a
-- node's controller and its three players share, and what the base class PaxPlayer does with it.
use paxosme.Prelude.{ℕ, ◌+◌, ◌*◌, List, ◌∷◌, Option}
use paxosme.Message.{LogValue, PaxMessage}
use paxosme.Options.{PaxosOptions}
use paxosme.Queue.{SafeQueue}
use paxosme.Prov.{ProposalProv}
use paxosme.Schedule
use paxosme.Schedule.{Scheduler, EventType, EventHandler}
use paxosme.Store.{LogStorage, EntryCodec, PaxosLogEntry, write_log, read_log}
use paxosme.State.Acceptor.{AcceptorState}
use paxosme.State.Counter.{ProposalCounter}
use paxosme.State.Proposer.{ProposerState}
use paxosme.State.Learner.{LearnerData}

pub data ProposerStatus : Type 0 where
  status_none status_propose status_accept : ProposerStatus
  status_majority_accepted status_majority_rejected : ProposerStatus

-- The members of PaxProposer. `proposal_prov_{}` is a null pointer, `none`, until it is set.
pub record ProposerData : Type 0 where
  pub status : ProposerStatus
  pub proposal_counter : ProposalCounter
  pub proposer_state : ProposerState
  pub proposal_prov : Option ProposalProv

-- A call of the communicator.
pub data Sent : Type 0 where
  send : (node_id : ℕ) → PaxMessage → Sent
  broadcast : PaxMessage → Sent

-- `now` is the steady clock, `store` the log, `inbox` the controller's queue of messages; `sent` and
-- `executed` record the calls of the communicator and of the state machine, the newest first.
pub record Node (S : Type 0) : Type 0 where
  pub options : PaxosOptions
  pub now : ℕ
  pub instance_id : ℕ
  pub acceptor : AcceptorState
  pub proposer : ProposerData
  pub learner : LearnerData
  pub scheduler : Scheduler
  pub inbox : SafeQueue PaxMessage
  pub store : S
  pub sent : List Sent
  pub executed : List (ℕ × LogValue)

pub record ProposalTriplet : Type 0 where
  pub instance_id : ℕ
  pub proposal_id : ℕ
  pub node_id : ℕ

module _ {S : Type 0} where
  unfoldable pub send_message : PaxMessage → ℕ → Node S → Node S
  send_message m node_id n = record n { sent = send node_id m ∷ n.sent }

  unfoldable pub broadcast_message : PaxMessage → Node S → Node S
  broadcast_message m n = record n { sent = broadcast m ∷ n.sent }

  -- Publish. The delay is a std::chrono::duration<int>, whose unit is the second: `delayInMilli`
  -- becomes an int (the delays of the program are small) and counts seconds.
  unfoldable pub publish : EventType → EventHandler → ℕ → Node S → Node S
  publish event_type callback delay_in_milli n = record n {
    scheduler = Schedule.add_event n.scheduler callback (n.now + 1000 * delay_in_milli) event_type;
  }

  unfoldable pub withdraw : EventType → Node S → Node S
  withdraw event_type n = record n { scheduler = Schedule.remove n.scheduler event_type }

  -- PaxController::GetAcceptedProposal
  unfoldable pub get_accepted_proposal : Node S → ProposalTriplet
  get_accepted_proposal n = record {
    instance_id = n.instance_id;
    proposal_id = n.acceptor.accepted_proposal_id;
    node_id = n.acceptor.accepted_proposer;
  }

module _ {S : Type 0} ⦃db : LogStorage S⦄ ⦃codec : EntryCodec⦄ where
  -- WriteState; the result of WriteLog is dropped.
  unfoldable pub write_state : PaxosLogEntry → Node S → Node S
  write_state e n = record n { store = (write_log e n.store).0 }

  unfoldable pub read_state : ℕ → Node S → PaxosLogEntry
  read_state instance_id n = read_log instance_id n.store
