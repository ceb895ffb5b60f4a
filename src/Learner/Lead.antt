-- ===== src/Learner/Lead.antt =====
-- core/learner_lead.cpp: the learner that others learn from.
use paxosme.Prelude.{ℕ, ◌+◌, ◌%◌, Bool, true, false, not, ◌||◌, ltb, ◌==◌, if◌then◌else◌}
use paxosme.Message.{
  LogValue, PaxMessage, new_message, msg_tell_instance_id, msg_learner_value_sync,
  msg_learner_value_send, msg_value_chosen_broadcast, instance_dummy, node_dummy, proposal_dummy,
  u64_mod,
}
use paxosme.Store.{LogStorage, EntryCodec}
use paxosme.State.Learner.{LearnerSendingJobStatus, stale, prepared, sending}
use paxosme.Node.{Node, get_accepted_proposal, broadcast_message, send_message, read_state}
use paxosme.Learner.Follow.{set_possible_higher_instance_id, learn_new}

unfoldable pub is_stale : LearnerSendingJobStatus → Bool
is_stale stale = true
is_stale _ = false

unfoldable pub is_prepared : LearnerSendingJobStatus → Bool
is_prepared prepared = true
is_prepared _ = false

unfoldable pub is_job_sending : LearnerSendingJobStatus → Bool
is_job_sending sending = true
is_job_sending _ = false

module _ {S : Type 0} where
  unfoldable pub tell_instance_id : ℕ → ℕ → Node S → Node S
  unfolding send_message
  tell_instance_id instance_id node_id n =
      send_message
        (record (new_message n.options.node_id msg_tell_instance_id) {
          instance_id = instance_id;
          leader_instance_id = n.instance_id;
        })
        node_id n

  unfoldable pub tell_others : ℕ → ℕ → LogValue → Node S → Node S
  unfolding broadcast_message
  tell_others proposal_id proposer log_value n =
      broadcast_message
        (record (new_message n.options.node_id msg_value_chosen_broadcast) {
          instance_id = n.instance_id;
          proposal_id = proposal_id;
          proposing_node_id = proposer;
          chosen_value = log_value;
        })
        n

  -- MakeSenderReady; HandleConfirmLearn is its call.
  unfoldable pub make_sender_ready : ℕ → ℕ → Node S → Node S
  unfolding is_stale
  make_sender_ready receiver follower_instance_id n =
      if not (is_stale n.learner.job_status) then n else record n {
        learner = record (n.learner) {
          job_status = prepared;
          receiver = receiver;
          begin_instance_id = follower_instance_id;
        };
      }

  unfoldable pub handle_confirm_learn : PaxMessage → Node S → Node S
  unfolding make_sender_ready
  handle_confirm_learn m n = make_sender_ready m.sender_id m.instance_id n

  unfoldable pub handle_value_ack : PaxMessage → Node S → Node S
  unfolding is_job_sending
  handle_value_ack m n =
      if not (is_job_sending n.learner.job_status) || not (n.learner.receiver == m.sender_id)
      then n
      else if ltb n.learner.ack_send m.instance_id
      then record n { learner = record (n.learner) { ack_send = m.instance_id } }
      else n

  -- WaitForReady, at the moment when its wait is over; before that it changes nothing.
  unfoldable pub wait_for_ready : Node S → Node S
  unfolding is_prepared
  wait_for_ready n =
      if is_prepared n.learner.job_status
      then record n { learner = record (n.learner) { job_status = sending } }
      else n

  unfoldable pub clear_sending_state : Node S → Node S
  clear_sending_state n = record n {
    learner = record (n.learner) {
      job_status = stale;
      begin_instance_id = instance_dummy;
      receiver = node_dummy;
      ack_send = instance_dummy;
    };
  }

module _ {S : Type 0} ⦃db : LogStorage S⦄ ⦃codec : EntryCodec⦄ where
  -- The message's sender is the node that it goes to.
  unfoldable pub send_learned_value : ℕ → ℕ → Bool → Node S → Node S
  unfolding read_state send_message
  send_learned_value instance_id to_node_id sync n =
      let e = read_state instance_id n in
      send_message
        (record (new_message to_node_id
          (if sync then msg_learner_value_sync else msg_learner_value_send)) {
            instance_id = instance_id;
            chosen_value = e.accepted_value;
            proposal_id = e.accepted_proposal_id;
            proposing_node_id = e.proposer_id;
          })
        to_node_id n

  unfoldable pub handle_shall_i_learn : PaxMessage → Node S → Node S
  unfolding set_possible_higher_instance_id tell_instance_id send_learned_value
  handle_shall_i_learn m n =
      let n' = set_possible_higher_instance_id m.instance_id n in
      if not ((m.instance_id + 1) % u64_mod == n'.instance_id)
      then tell_instance_id m.instance_id m.sender_id n'
      else send_learned_value m.instance_id m.sender_id false n'

  unfoldable pub learn_from_self : PaxMessage → Node S → Node S
  unfolding get_accepted_proposal learn_new
  learn_from_self m n =
      let proposal = get_accepted_proposal n in
      if not (m.instance_id == n.instance_id)
      then n
      else if not (m.proposing_node_id == n.options.node_id)
      then n
      else if (proposal.proposal_id == proposal_dummy)
          || not (m.proposal_id == proposal.proposal_id)
      then n
      else if not (proposal.node_id == n.options.node_id)
      then n
      else learn_new n.acceptor.accepted_value m.instance_id proposal.proposal_id proposal.node_id
          false n
