-- ===== src/State/Learner.antt =====
-- PaxLearnerState and the data members of PaxLearner, of core/include/learner_pax.hpp.
use paxosme.Prelude.{ℕ, Bool, true, false, []}
use paxosme.Message.{node_dummy, instance_dummy, LogValue}

pub record PaxLearnerState : Type 0 where
  pub log_value : LogValue
  pub learned : Bool

-- PaxLearnerState::LearnNew; the other arguments are not used.
unfoldable pub learn_new : LogValue → PaxLearnerState → PaxLearnerState
learn_new log_value s = record { log_value = log_value; learned = true }

unfoldable pub reset : PaxLearnerState → PaxLearnerState
reset s = record { log_value = []; learned = false }

pub data LearnerSendingJobStatus : Type 0 where
  stale prepared sending : LearnerSendingJobStatus

pub record LearnerData : Type 0 where
  pub learner_state : PaxLearnerState
  pub highest_known_instance_id : ℕ
  pub is_learning : Bool
  pub job_status : LearnerSendingJobStatus
  pub receiver : ℕ
  pub begin_instance_id : ℕ
  pub is_sending : Bool
  pub ack_send : ℕ

unfoldable pub new_learner : LearnerData
new_learner = record {
  learner_state = record { log_value = []; learned = false };
  highest_known_instance_id = instance_dummy;
  is_learning = false;
  job_status = stale;
  receiver = node_dummy;
  begin_instance_id = instance_dummy;
  is_sending = false;
  ack_send = instance_dummy;
}
