-- ===== src/Proposer/Handlers.antt =====
-- The operations of PaxProposer, over the node that it belongs to.
use paxosme.Prelude.{
  ℕ, Bool, not, ◌&&◌, ◌||◌, [], none, some, ◌==◌, if◌then◌else◌, Run, ok, fault, null_pointer,
  ◌>>=◌,
}
use paxosme.Message.{
  LogValue, PaxMessage, MessageType, new_message, msg_propose_broadcast, msg_accept_broadcast,
  msg_propose_ack, msg_accept_ack, msg_value_chosen,
}
use paxosme.Schedule.{
  propose_timeout_callback, new_value_timeout_callback, event_propose_timeout, event_accept_timeout,
  event_newvalue_timeout,
}
use paxosme.Prov.{NewValueResult, value_accepted, value_timeout, flush, write_result}
use paxosme.State.Counter
use paxosme.State.Counter.{ProposalCounter}
use paxosme.State.Proposer
use paxosme.State.Proposer.{ProposerState}
use paxosme.Proposer.Status.{
  propose_timeout, accept_timeout, is_propose, is_accept, begin_round, offer_value,
}
use paxosme.Node.{
  Node, ProposerData, status_none, status_accept, status_majority_accepted, broadcast_message,
  publish, withdraw,
}

module _ {S : Type 0} where
  -- The second SetProposingNodeId of the source puts the proposal id over the node id, and nothing
  -- sets the proposal id.
  unfoldable pub generate_message : MessageType → ℕ → Node S → PaxMessage
  generate_message message_type proposal_id n =
      record (new_message n.options.node_id message_type) {
        instance_id = n.instance_id;
        proposing_node_id = proposal_id;
        proposed_log_value = n.proposer.proposer_state.log_value;
      }

  unfoldable pub propose : Node S → Node S
  unfolding begin_round generate_message publish broadcast_message
  propose n =
      let n' = record n { proposer = begin_round n.proposer } in
      let m = generate_message msg_propose_broadcast n'.proposer.proposer_state.my_proposal_id n' in
      broadcast_message m
        (publish event_propose_timeout (propose_timeout_callback m.instance_id) propose_timeout n')

  unfoldable pub new_value : Node S → Run (Node S)
  unfolding flush offer_value propose publish
  new_value n = elim n.proposer.proposal_prov [
    | none ↦ fault null_pointer
    | some prov ↦
        let (prov', flushed) = flush prov n.instance_id in
        let kept = record n { proposer = record (n.proposer) { proposal_prov = some prov' } } in
        elim flushed [
          | none ↦ ok kept
          | some v ↦ ok (
              propose (
                publish event_newvalue_timeout new_value_timeout_callback prov'.timeout_ms
                  (record kept { proposer = offer_value v kept.proposer })))
        ]
  ]

  unfoldable pub on_propose_timeout : ℕ → Node S → Node S
  unfolding propose
  on_propose_timeout instance_id n =
      let again = propose n in if instance_id == n.instance_id then again else n

  -- The reply is for this proposer and for its current proposal.
  unfoldable pub is_for_me : PaxMessage → Node S → Bool
  is_for_me m n =
      (m.proposing_node_id == n.options.node_id)
      && (m.proposal_id == n.proposer.proposer_state.my_proposal_id)

  -- What a propose ack adds to the proposer: a vote, which counts for its own node id, and the
  -- proposal that the reply reports.
  unfoldable pub count_propose_ack : PaxMessage → Node S → ProposerData
  unfolding Proposer.try_update_log_value Proposer.try_update_highest_proposal_id
      Counter.add_promise Counter.add_rejection
  count_propose_ack m n =
      let p = n.proposer in
      if m.rejected
      then record p {
        proposer_state =
            (Proposer.try_update_highest_proposal_id m.promised_proposal_id m.promised_node_id
              p.proposer_state).0;
        proposal_counter = (Counter.add_rejection n.options.node_id p.proposal_counter).0;
      }
      else record p {
        proposer_state =
            (Proposer.try_update_log_value m.proposal_id m.proposing_node_id m.accepted_value
              p.proposer_state).0;
        proposal_counter = (Counter.add_promise n.options.node_id p.proposal_counter).0;
      }

  unfoldable pub gives_up : Node S → Bool
  unfolding Counter.is_majority_rejected Counter.is_still_pending
  gives_up n =
      Counter.is_majority_rejected n.options n.proposer.proposal_counter
      || not (Counter.is_still_pending n.options n.proposer.proposal_counter)

  unfoldable pub handle_propose_ack : PaxMessage → Node S → Node S
  unfolding is_propose is_for_me count_propose_ack gives_up propose publish
      Counter.is_majority_promised
  handle_propose_ack m n =
      if is_propose n.proposer.status && is_for_me m n
      then (let n' = record n { proposer = count_propose_ack m n } in
          if Counter.is_majority_promised n'.options n'.proposer.proposal_counter
          then propose n'
          else if gives_up n'
          then publish event_propose_timeout (propose_timeout_callback m.instance_id)
              propose_timeout n'
          else n')
      else n

  -- Accept, which nothing calls.
  unfoldable pub accept : Node S → Node S
  unfolding generate_message publish broadcast_message Counter.reset
  accept n =
      let p = record (n.proposer) { status = status_accept } in
      let n' = record n { proposer = p } in
      let m = generate_message msg_accept_broadcast p.proposer_state.my_proposal_id n' in
      publish event_accept_timeout (propose_timeout_callback m.instance_id) accept_timeout (
        broadcast_message m (record n' {
          proposer = record p { proposal_counter = Counter.reset p.proposal_counter };
        }))

  unfoldable pub count_accept_ack : PaxMessage → Node S → ProposerData
  unfolding Proposer.try_update_highest_proposal_id Counter.add_accept Counter.add_rejection
  count_accept_ack m n =
      let p = n.proposer in
      if m.rejected
      then record p {
        proposer_state =
            (Proposer.try_update_highest_proposal_id m.promised_proposal_id m.promised_node_id
              p.proposer_state).0;
        proposal_counter = (Counter.add_rejection n.options.node_id p.proposal_counter).0;
      }
      else record p {
        proposal_counter = (Counter.add_accept n.options.node_id p.proposal_counter).0;
      }

  -- The message for the learner; no value is put into it.
  unfoldable pub chosen_message : PaxMessage → Node S → PaxMessage
  chosen_message m n = record (new_message n.options.node_id msg_value_chosen) {
    instance_id = m.instance_id;
    proposal_id = m.proposal_id;
  }

  -- `process` is ProcessChosenValue, the controller's HandleMessage.
  unfoldable pub handle_accept_ack :
      (process : PaxMessage → Node S → Run (Node S)) → PaxMessage → Node S → Run (Node S)
  unfolding is_accept is_for_me count_accept_ack gives_up publish chosen_message
      Counter.is_majority_accepted
  handle_accept_ack process m n =
      if is_accept n.proposer.status && is_for_me m n
      then (let n' = record n { proposer = count_accept_ack m n } in
          if Counter.is_majority_accepted n'.options n'.proposer.proposal_counter
          then process (chosen_message m n')
              (record n' { proposer = record (n'.proposer) { status = status_majority_accepted } })
          else if gives_up n'
          then ok (
              publish event_accept_timeout (propose_timeout_callback m.instance_id) accept_timeout
                n')
          else ok n')
      else ok n

  unfoldable pub init : ℕ → Node S → Node S
  unfolding Proposer.init
  init proposal_id n = record n {
    proposer = record (n.proposer) {
      proposer_state = Proposer.init proposal_id n.proposer.proposer_state;
    };
  }

  unfoldable pub new_instance : Node S → Node S
  unfolding Counter.reset Proposer.reset
  new_instance n = record n {
    proposer = record (n.proposer) {
      proposal_counter = Counter.reset n.proposer.proposal_counter;
      proposer_state = Proposer.reset n.proposer.proposer_state;
      status = status_none;
    };
  }

  -- WriteResult through the pointer to the provider
  unfoldable pub write_to_prov : LogValue → ℕ → NewValueResult → Node S → Run (Node S)
  unfolding write_result
  write_to_prov value instance_id result n = elim n.proposer.proposal_prov [
    | none ↦ fault null_pointer
    | some prov ↦ ok (record n {
      proposer = record (n.proposer) {
        proposal_prov = some (write_result prov value instance_id result).0;
      };
    })
  ]

  unfoldable pub instance_done : ℕ → LogValue → Node S → Run (Node S)
  unfolding write_to_prov withdraw
  instance_done instance_id log_value n =
      write_to_prov log_value instance_id value_accepted n >>= λ n'.
      ok (withdraw event_accept_timeout (withdraw event_propose_timeout n'))

  unfoldable pub on_new_value_timeout : Node S → Run (Node S)
  unfolding write_to_prov withdraw is_propose is_accept
  on_new_value_timeout n =
      if not (is_propose n.proposer.status) && not (is_accept n.proposer.status)
      then ok n
      else (let n' = withdraw event_accept_timeout (withdraw event_propose_timeout n) in
          write_to_prov [] n.instance_id value_timeout
            (record n' { proposer = record (n'.proposer) { status = status_none } }))

  unfoldable pub handle_message :
      (process : PaxMessage → Node S → Run (Node S)) → PaxMessage → Node S → Run (Node S)
  unfolding handle_propose_ack handle_accept_ack
  handle_message process m n = elim m.message_type [
    | msg_propose_ack ↦ ok (handle_propose_ack m n)
    | msg_accept_ack ↦ handle_accept_ack process m n
    | _ ↦ ok n
  ]
