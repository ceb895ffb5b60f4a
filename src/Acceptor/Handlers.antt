-- ===== src/Acceptor/Handlers.antt =====
-- The operations of PaxAcceptor, over the node that it belongs to.
use paxosme.Prelude.{ℕ, ◌-◌, Bool, true, false, not, ◌&&◌, ◌||◌, ltb, ◌==◌, if◌then◌else◌}
use paxosme.Message.{
  PaxMessage, MessageType, new_message, msg_propose_ack, msg_accept_ack, msg_propose_broadcast,
  msg_accept_broadcast, proposal_dummy, u64_mod,
}
use paxosme.Store.{LogStorage, EntryCodec, PaxosLogEntry, default_entry}
use paxosme.State.Acceptor
use paxosme.State.Acceptor.{AcceptorState, PaxAcceptorReplyMessage, new_reply}
use paxosme.Node.{Node, send_message, write_state, read_state}

-- The comparison of IsHigherThanPromised, which reads the acceptor's state alone.
unfoldable pub is_higher_than_promised : ℕ → ℕ → AcceptorState → Bool
is_higher_than_promised proposer proposal_id a =
    ltb a.promised_proposal_id proposal_id
    || ((proposal_id == a.promised_proposal_id) && ltb a.promised_node_id proposer)

unfoldable pub is_accepted : AcceptorState → Bool
is_accepted a = ltb 0 a.accepted_proposer

unfoldable pub is_proposal_accepted : ℕ → ℕ → AcceptorState → Bool
is_proposal_accepted proposal_id node_id a =
    (a.accepted_proposal_id == proposal_id) && (a.accepted_proposer == node_id)

-- The log entry that UpdatePromised writes, once the promise has been stored.
unfoldable pub promised_entry : ℕ → ℕ → ℕ → AcceptorState → PaxosLogEntry
promised_entry instance_id proposer proposal_id a =
    let e : PaxosLogEntry = record default_entry {
      instance_id = instance_id;
      promised_node_id = proposer;
      promised_proposal_id = proposal_id;
      proposer_id = proposer;
    } in
    if a.accepted_proposal_id == 0 then e else record e {
      accepted_node_id = proposer;
      accepted_proposal_id = a.accepted_proposal_id;
      accepted_value = a.accepted_value;
    }

-- The PaxMessage that ReplyProposer builds from a reply.
unfoldable pub ack_message : ℕ → PaxAcceptorReplyMessage → MessageType → PaxMessage
ack_message node_id reply request_type = record (new_message node_id request_type) {
  instance_id = reply.instance_id;
  promised_node_id = reply.promised_node_id;
  promised_proposal_id = reply.promised_id;
  accepted_proposal_id = reply.accepted_id;
  accepted_value = reply.accepted_value;
  rejected = reply.is_rejected;
}

-- The reply of HandlePropose to a request that is granted.
unfoldable pub propose_reply : ℕ → AcceptorState → PaxAcceptorReplyMessage
propose_reply proposer a =
    let r : PaxAcceptorReplyMessage = record new_reply {
      proposer_id = proposer;
      is_rejected = false;
    } in
    if a.accepted_proposal_id == proposal_dummy
    then r
    else record r { accepted_id = a.accepted_proposal_id; accepted_value = a.accepted_value }

-- The reply of HandlePropose to a request that is turned down.
unfoldable pub propose_rejection : ℕ → AcceptorState → PaxAcceptorReplyMessage
propose_rejection proposer a = record new_reply {
  proposer_id = proposer;
  is_rejected = true;
  promised_id = a.promised_proposal_id;
  promised_node_id = a.promised_node_id;
}

-- The state that HandleAccept stores, before UpdatePromised.
unfoldable pub accept_value : PaxMessage → AcceptorState → AcceptorState
unfolding Acceptor.set_promised_proposal Acceptor.set_accepted_proposal Acceptor.set_accepted_value
accept_value m a = Acceptor.set_accepted_value m.proposed_log_value (
    Acceptor.set_accepted_proposal m.proposal_id m.proposing_node_id
      (Acceptor.set_promised_proposal m.proposal_id m.proposing_node_id a))

module _ {S : Type 0} ⦃db : LogStorage S⦄ ⦃codec : EntryCodec⦄ where
  unfoldable pub update_promised : ℕ → ℕ → Node S → Node S
  unfolding promised_entry Acceptor.set_promised_proposal
  update_promised proposer proposal_id n =
      let a = Acceptor.set_promised_proposal proposal_id proposer n.acceptor in
      write_state (promised_entry n.instance_id proposer proposal_id a) (record n { acceptor = a })

  unfoldable pub reply_proposer : PaxAcceptorReplyMessage → MessageType → Node S → Node S
  unfolding ack_message send_message
  reply_proposer reply request_type n =
      send_message (ack_message n.options.node_id reply request_type) reply.proposer_id n

  unfoldable pub handle_propose : PaxMessage → Node S → Node S
  unfolding is_higher_than_promised propose_reply propose_rejection update_promised reply_proposer
  handle_propose m n =
      if is_higher_than_promised m.proposing_node_id m.proposal_id n.acceptor
      then reply_proposer (propose_reply m.proposing_node_id n.acceptor) msg_propose_ack
          (update_promised m.proposing_node_id m.proposal_id n)
      else reply_proposer (propose_rejection m.proposing_node_id n.acceptor) msg_propose_ack n

  unfoldable pub handle_accept : PaxMessage → Node S → Node S
  unfolding is_higher_than_promised accept_value update_promised reply_proposer
  handle_accept m n =
      let reply : PaxAcceptorReplyMessage = record new_reply {
        proposer_id = m.proposing_node_id;
      } in
      if is_higher_than_promised m.proposing_node_id m.proposal_id n.acceptor
      then reply_proposer (record reply { is_rejected = false }) msg_accept_ack
          (update_promised m.proposing_node_id m.proposal_id
            (record n { acceptor = accept_value m n.acceptor }))
      else reply_proposer
          (record reply { is_rejected = true; promised_id = n.acceptor.promised_proposal_id })
          msg_accept_ack n

  -- PaxAcceptor::HandleSenderPublish, which nothing calls
  unfoldable pub handle_sender_publish : PaxMessage → Node S → Bool
  unfolding is_proposal_accepted
  handle_sender_publish m n =
      if not (m.instance_id == n.instance_id)
      then false
      else if is_proposal_accepted m.proposal_id m.proposing_node_id n.acceptor
      then false
      else true

  -- PaxAcceptor::Init: reads the entry of instance_id_t(-1), and returns its instance.
  unfoldable pub init : Node S → Node S × ℕ
  unfolding Acceptor.init
  init n =
      let e = read_state (u64_mod - 1) n in
      (record n { acceptor = Acceptor.init e n.acceptor }, e.instance_id)

  unfoldable pub new_instance : Node S → Node S
  unfolding Acceptor.reset
  new_instance n = record n { acceptor = Acceptor.reset n.acceptor }

  unfoldable pub handle_message : PaxMessage → Node S → Node S
  unfolding handle_propose handle_accept
  handle_message m n = elim m.message_type [
    | msg_propose_broadcast ↦ handle_propose m n
    | msg_accept_broadcast ↦ handle_accept m n
    | _ ↦ n
  ]
