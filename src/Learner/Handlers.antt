-- ===== src/Learner/Handlers.antt =====
-- core/learner_pax.cpp: what PaxLearner does with each message.
use paxosme.Prelude.{not, ◌||◌, ◌==◌, if◌then◌else◌, Run, ok}
use paxosme.Message.{
  PaxMessage, proposal_dummy, msg_value_chosen, msg_learner_value_send, msg_value_chosen_broadcast,
  msg_shall_i_learn, msg_confirm_learn, msg_learner_value_sync, msg_sync_value_ack,
  msg_tell_instance_id,
}
use paxosme.Schedule
use paxosme.Schedule.{event_shall_i_learn}
use paxosme.Store.{LogStorage, EntryCodec}
use paxosme.Node.{Node, get_accepted_proposal, publish}
use paxosme.Learner.Follow.{
  shall_learn_delay, learn_from_others, handle_sync_value, handle_tell_new_instance_id,
}
use paxosme.Learner.Lead.{
  learn_from_self, tell_others, handle_shall_i_learn, handle_confirm_learn, handle_value_ack,
}

module _ {S : Type 0} ⦃db : LogStorage S⦄ ⦃codec : EntryCodec⦄ where
  -- PaxLearner::Init, but for the controller's pointer and the sending loop's thread.
  unfoldable pub init : Node S → Node S
  unfolding publish
  init n = publish event_shall_i_learn Schedule.shall_learn shall_learn_delay n

  unfoldable pub handle_sender_publish : PaxMessage → Node S → Node S
  unfolding learn_from_self tell_others
  handle_sender_publish m n =
      tell_others m.proposal_id n.options.node_id m.learned_value (learn_from_self m n)

  unfoldable pub handle_others_publish : PaxMessage → Node S → Node S
  unfolding get_accepted_proposal learn_from_others
  handle_others_publish m n =
      let proposal = get_accepted_proposal n in
      if not (m.instance_id == n.instance_id)
      then n
      else if not (m.proposing_node_id == n.options.node_id)
      then n
      else if (proposal.proposal_id == proposal_dummy)
          || not (m.proposal_id == proposal.proposal_id)
      then n
      else learn_from_others m n

  -- The case of kMSG_VALUE_CHOSEN has no `break` and goes on into the next one.
  unfoldable pub handle_message : PaxMessage → Node S → Run (Node S)
  unfolding handle_sender_publish handle_others_publish handle_shall_i_learn handle_confirm_learn
      handle_sync_value handle_value_ack handle_tell_new_instance_id
  handle_message m n = elim m.message_type [
    | msg_value_chosen ↦ ok (handle_others_publish m (handle_sender_publish m n))
    | msg_learner_value_send ↦ ok (handle_others_publish m n)
    | msg_value_chosen_broadcast ↦ ok (handle_others_publish m n)
    | msg_shall_i_learn ↦ ok (handle_shall_i_learn m n)
    | msg_confirm_learn ↦ ok (handle_confirm_learn m n)
    | msg_learner_value_sync ↦ ok (handle_sync_value m n)
    | msg_sync_value_ack ↦ ok (handle_value_ack m n)
    | msg_tell_instance_id ↦ handle_tell_new_instance_id m n
    | _ ↦ ok n
  ]
