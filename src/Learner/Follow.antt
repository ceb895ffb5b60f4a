-- ===== src/Learner/Follow.antt =====
-- core/learner_follow.cpp: the learner that catches up with others.
use paxosme.Prelude.{
  ℕ, ◌+◌, ◌%◌, Bool, true, false, not, ltb, leb, ◌==◌, if◌then◌else◌, Run, ok, fault, deadlock,
}
use paxosme.Message.{
  u64_mod, LogValue, PaxMessage, new_message, msg_shall_i_learn, msg_sync_value_ack,
}
use paxosme.Schedule.{event_shall_i_learn}
use paxosme.Schedule
use paxosme.Store.{LogStorage, EntryCodec, default_entry}
use paxosme.State.Learner
use paxosme.State.Learner.{LearnerData, PaxLearnerState}
use paxosme.Node.{Node, publish, broadcast_message, send_message, write_state}

abbrev pub shall_learn_delay : ℕ
shall_learn_delay = 3000

module _ {S : Type 0} where
  -- ShallLearn
  unfoldable pub shall_learn : Node S → Node S
  unfolding publish broadcast_message
  shall_learn n =
      let n' = publish event_shall_i_learn Schedule.shall_learn shall_learn_delay n in
      broadcast_message
        (record (new_message n.options.node_id msg_shall_i_learn) { instance_id = n.instance_id })
        (record n' { learner = record (n'.learner) { is_learning = false } })

  unfoldable pub set_possible_higher_instance_id : ℕ → Node S → Node S
  set_possible_higher_instance_id instance_id n =
      if leb instance_id n.learner.highest_known_instance_id
      then n
      else record n { learner = record (n.learner) { highest_known_instance_id = instance_id } }

  -- ConfirmLearn, which locks `mutex_follow_`; `held` says that the calling thread holds it already.
  -- The message that it builds is not sent.
  unfoldable pub confirm_learn : (held : Bool) → Node S → Run (Node S)
  confirm_learn true n = fault deadlock
  confirm_learn false n = ok (record n { learner = record (n.learner) { is_learning = true } })

  -- Its lock is held while it calls ConfirmLearn.
  unfoldable pub handle_tell_new_instance_id : PaxMessage → Node S → Run (Node S)
  unfolding set_possible_higher_instance_id confirm_learn
  handle_tell_new_instance_id m n =
      let n' = set_possible_higher_instance_id m.leader_instance_id n in
      if not (m.instance_id == n'.instance_id)
      then ok n'
      else if ltb m.leader_instance_id n'.instance_id
      then ok n'
      else if n'.learner.is_learning
      then ok n'
      else confirm_learn true n'

  unfoldable pub anymore_to_learn : Node S → Bool
  anymore_to_learn n = ltb ((n.instance_id + 1) % u64_mod) n.learner.highest_known_instance_id

  unfoldable pub ack_learn_value : ℕ → Node S → Node S
  unfolding send_message
  ack_learn_value node_id n =
      send_message
        (record (new_message n.options.node_id msg_sync_value_ack) { instance_id = n.instance_id })
        node_id n

  -- PaxLearner::NewInstance
  unfoldable pub new_instance : Node S → Node S
  unfolding Learner.reset
  new_instance n = record n {
    learner = record (n.learner) { learner_state = Learner.reset n.learner.learner_state };
  }

module _ {S : Type 0} ⦃db : LogStorage S⦄ ⦃codec : EntryCodec⦄ where
  -- LearnNew of core/learner_lead.cpp
  unfoldable pub learn_new : LogValue → ℕ → ℕ → ℕ → Bool → Node S → Node S
  unfolding Learner.learn_new write_state
  learn_new value instance_id proposal_id proposer persist n =
      let n' = record n {
        learner = record (n.learner) {
          learner_state = Learner.learn_new value n.learner.learner_state;
        };
      } in
      if persist
      then write_state
          (record default_entry {
            proposer_id = proposer;
            instance_id = instance_id;
            accepted_proposal_id = proposal_id;
            accepted_node_id = proposer;
            accepted_value = value;
          })
          n'
      else n'

  unfoldable pub learn_from_others : PaxMessage → Node S → Node S
  unfolding publish learn_new
  learn_from_others m n =
      let n' = publish event_shall_i_learn Schedule.shall_learn shall_learn_delay n in
      if not (m.instance_id == n'.instance_id)
      then n'
      else learn_new m.chosen_value m.instance_id m.proposal_id m.proposing_node_id true n'

  unfoldable pub handle_sync_value : PaxMessage → Node S → Node S
  unfolding learn_from_others ack_learn_value
  handle_sync_value m n = ack_learn_value m.sender_id (learn_from_others m n)
