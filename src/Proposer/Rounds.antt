-- ===== src/Proposer/Rounds.antt =====
-- What a round of the proposer sends, and what becomes of the acceptors' replies.
use paxosme.Prelude.{ℕ, ◌≡◌, ◌≢◌, refl, ap, false, ◌∷◌, Run, ok, arith}
use paxosme.Message.{
  PaxMessage, MessageType, new_message, msg_propose_broadcast, msg_propose_ack, msg_accept_ack,
}
use paxosme.State.Acceptor.{PaxAcceptorReplyMessage}
use paxosme.Acceptor.Handlers.{ack_message}
use paxosme.Node.{Node, broadcast, broadcast_message, publish, status_propose}
use paxosme.Proposer.Handlers.{
  propose, is_for_me, handle_propose_ack, handle_accept_ack, handle_message,
}

module _ {S : Type 0} where
  -- Propose broadcasts one message, for the current instance and with the proposer's value, whose
  -- proposal id is 0 and whose node id is the proposal id of the round; the votes are cleared and the
  -- instance, the acceptor, the learner and the log stay as they are.
  pub propose_lem :
      (n : Node S)
      → let m = record (new_message n.options.node_id msg_propose_broadcast) {
        instance_id = n.instance_id;
        proposing_node_id = (propose n).proposer.proposer_state.my_proposal_id;
        proposed_log_value = n.proposer.proposer_state.log_value;
      } in
        ((propose n).sent ≡ broadcast m ∷ n.sent)
        × ((propose n).proposer.status ≡ status_propose)
        × ((propose n).proposer.proposal_counter.vote_count ≡ 0)
        × ((propose n).instance_id ≡ n.instance_id)
        × ((propose n).acceptor ≡ n.acceptor)
        × ((propose n).learner ≡ n.learner)
        × ((propose n).store ≡ n.store)
  unfolding propose publish broadcast_message
  propose_lem n = ground arith

  propose_ack_ignored :
      (m : PaxMessage) (n : Node S) → is_for_me m n ≡ false → handle_propose_ack m n ≡ n
  unfolding handle_propose_ack
  propose_ack_ignored m n h = ground arith

  accept_ack_ignored :
      (process : PaxMessage → Node S → Run (Node S)) (m : PaxMessage) (n : Node S)
      → is_for_me m n ≡ false
      → handle_accept_ack process m n ≡ ok n
  unfolding handle_accept_ack
  accept_ack_ignored process m n h = ground arith

  ack_not_for_me :
      (sender : ℕ) (reply : PaxAcceptorReplyMessage) (t : MessageType) (n : Node S)
      → n.options.node_id ≢ 0
      → is_for_me (ack_message sender reply t) n ≡ false
  unfolding is_for_me ack_message
  ack_not_for_me sender reply t n other = ground arith

  -- A proposer whose node id is not 0 drops every reply that an acceptor's ReplyProposer builds,
  -- because such a reply carries neither the proposer's node id nor its proposal id.
  pub acks_dropped :
      (process : PaxMessage → Node S → Run (Node S)) (n : Node S) (sender : ℕ)
      (reply : PaxAcceptorReplyMessage) (t : MessageType)
      → n.options.node_id ≢ 0
      → handle_message process (ack_message sender reply t) n ≡ ok n
  unfolding handle_message ack_message
  acks_dropped process n sender reply msg_propose_ack other = ap ok (
      propose_ack_ignored (ack_message sender reply msg_propose_ack) n
        (ack_not_for_me sender reply msg_propose_ack n other))
  acks_dropped process n sender reply msg_accept_ack other =
      accept_ack_ignored process (ack_message sender reply msg_accept_ack) n
        (ack_not_for_me sender reply msg_accept_ack n other)
  acks_dropped process n sender reply t other = refl
