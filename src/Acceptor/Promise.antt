-- ===== src/Acceptor/Promise.antt =====
-- What the acceptor promises and accepts: ballots only grow, and the log keeps up with them.
use paxosme.Prelude.{◌<◌, ◌≡◌, refl, ◌⊎◌, inl, true, false, ◌==◌, ◌≢◌, List, [], ◌∷◌, arith}
use paxosme.Message.{PaxMessage, new_message, msg_propose_ack, msg_accept_ack}
use paxosme.Store.{LogStorage, EntryCodec, default_entry, write_log}
use paxosme.State.Acceptor.{AcceptorState, new_reply}
use paxosme.Node.{Node, send, write_state}
use paxosme.Acceptor.Handlers.{
  is_higher_than_promised, promised_entry, ack_message, propose_reply, propose_rejection,
  reply_proposer, handle_propose, handle_accept, handle_message,
}

-- The request's ballot lies above the promised one, by proposal id and then by node id.
abbrev pub IsAbove : PaxMessage → AcceptorState → Type 0
IsAbove m a =
    (a.promised_proposal_id < m.proposal_id)
    ⊎ ((a.promised_proposal_id ≡ m.proposal_id) × (a.promised_node_id < m.proposing_node_id))

-- The promise of `b` lies above that of `a`.
abbrev pub PromiseLt : AcceptorState → AcceptorState → Type 0
PromiseLt a b =
    (a.promised_proposal_id < b.promised_proposal_id)
    ⊎ ((a.promised_proposal_id ≡ b.promised_proposal_id)
        × (a.promised_node_id < b.promised_node_id))

IsAbove-higher :
    (m : PaxMessage) (a : AcceptorState)
    → IsAbove m a
    → is_higher_than_promised m.proposing_node_id m.proposal_id a ≡ true
unfolding is_higher_than_promised
IsAbove-higher m a h = ground arith

not_IsAbove-higher :
    (m : PaxMessage) (a : AcceptorState)
    → ¬ IsAbove m a
    → is_higher_than_promised m.proposing_node_id m.proposal_id a ≡ false
unfolding is_higher_than_promised
not_IsAbove-higher m a h = ground arith

higher-IsAbove :
    (m : PaxMessage) (a : AcceptorState)
    → is_higher_than_promised m.proposing_node_id m.proposal_id a ≡ true
    → IsAbove m a
unfolding is_higher_than_promised
higher-IsAbove m a h = ground arith

PromiseLt-trans :
    (a b c : AcceptorState)
    → (b ≡ a) ⊎ PromiseLt a b
    → (c ≡ b) ⊎ PromiseLt b c
    → (c ≡ a) ⊎ PromiseLt a c
PromiseLt-trans a b c p q = ground arith

module _ {S : Type 0} ⦃db : LogStorage S⦄ ⦃codec : EntryCodec⦄ where
  -- A propose request above the promise is promised: only the promise of the acceptor changes; the
  -- entry written to the log has the instance and the promise, and, where a value has been
  -- accepted, the value with the promising proposer as its node; the reply goes to the requester
  -- with the id and the value accepted so far. Any other request changes nothing but for the reply,
  -- which says rejected and carries the promise.
  pub handle_propose_cases :
      (m : PaxMessage) (n : Node S)
      → (IsAbove m n.acceptor
          → ((handle_propose m n).acceptor ≡ record n.acceptor {
            promised_proposal_id = m.proposal_id;
            promised_node_id = m.proposing_node_id;
          })
            × (n.acceptor.accepted_proposal_id ≡ 0
                → ((handle_propose m n).store
                    ≡ (write_log
                        (record default_entry {
                          instance_id = n.instance_id;
                          promised_proposal_id = m.proposal_id;
                          promised_node_id = m.proposing_node_id;
                          proposer_id = m.proposing_node_id;
                        })
                        n.store).0)
                  × ((handle_propose m n).sent
                      ≡ send m.proposing_node_id (new_message n.options.node_id msg_propose_ack)
                        ∷ n.sent))
            × (n.acceptor.accepted_proposal_id ≢ 0
                → ((handle_propose m n).store
                    ≡ (write_log
                        (record default_entry {
                          instance_id = n.instance_id;
                          promised_proposal_id = m.proposal_id;
                          promised_node_id = m.proposing_node_id;
                          proposer_id = m.proposing_node_id;
                          accepted_proposal_id = n.acceptor.accepted_proposal_id;
                          accepted_node_id = m.proposing_node_id;
                          accepted_value = n.acceptor.accepted_value;
                        })
                        n.store).0)
                  × ((handle_propose m n).sent
                      ≡ send m.proposing_node_id
                          (record (new_message n.options.node_id msg_propose_ack) {
                            accepted_proposal_id = n.acceptor.accepted_proposal_id;
                            accepted_value = n.acceptor.accepted_value;
                          })
                        ∷ n.sent)))
        × (¬ IsAbove m n.acceptor
            → handle_propose m n ≡ record n {
              sent =
                  send m.proposing_node_id (record (new_message n.options.node_id msg_propose_ack) {
                    promised_proposal_id = n.acceptor.promised_proposal_id;
                    promised_node_id = n.acceptor.promised_node_id;
                    rejected = true;
                  })
                  ∷ n.sent;
            })
  unfolding handle_propose write_state
  handle_propose_cases m n = (
    λ h. rw (IsAbove-higher m n.acceptor h) (
      refl,
      λ fresh.
          let empty : (n.acceptor.accepted_proposal_id == 0) ≡ true = ground arith in
          unfold promised_entry propose_reply ack_message in rw empty (refl, refl),
      λ used.
          let full : (n.acceptor.accepted_proposal_id == 0) ≡ false = ground arith in
          unfold promised_entry propose_reply ack_message in rw full (refl, refl),
    ),
    λ h. unfold propose_rejection ack_message in rw (not_IsAbove-higher m n.acceptor h) refl,
  )

  -- Whatever the message, the acceptor stays as it was or its promise grows strictly.
  handle_message_promise :
      (m : PaxMessage) (n : Node S)
      → ((handle_message m n).acceptor ≡ n.acceptor)
        ⊎ PromiseLt n.acceptor (handle_message m n).acceptor
  unfolding handle_message write_state
  handle_message_promise m n = ground arith

  -- The messages of a list, one after the other.
  unfoldable pub run : List PaxMessage → Node S → Node S
  run [] n = n
  run (m ∷ ms) n = run ms (handle_message m n)

  -- However many messages of whatever kind an acceptor handles in one instance, its state, accepted
  -- value included, is the same as before or its promise has grown strictly: a promise is never
  -- taken back, and no second value is accepted under one ballot.
  pub run_promise :
      (ms : List PaxMessage) (n : Node S)
      → ((run ms n).acceptor ≡ n.acceptor) ⊎ PromiseLt n.acceptor (run ms n).acceptor
  unfolding run
  run_promise [] n = inl refl
  run_promise (m ∷ ms) n =
      PromiseLt-trans n.acceptor (handle_message m n).acceptor
        (run ms (handle_message m n)).acceptor (handle_message_promise m n)
        (run_promise ms (handle_message m n))

  same_ballot_not-IsAbove :
      (p q : PaxMessage) (n : Node S)
      → q.proposal_id ≡ p.proposal_id
      → q.proposing_node_id ≡ p.proposing_node_id
      → ¬ IsAbove q (handle_propose p n).acceptor
  unfolding handle_propose write_state
  same_ballot_not-IsAbove p q n same_id same_node = ground arith

  -- After any propose request, an accept request with the same proposal id and node id is turned
  -- down: the acceptor, its log and its instance stay as they are and the reply says rejected.
  pub own_accept_refused :
      (p q : PaxMessage) (n : Node S)
      → q.proposal_id ≡ p.proposal_id
      → q.proposing_node_id ≡ p.proposing_node_id
      → handle_accept q (handle_propose p n)
        ≡ reply_proposer
            (record new_reply {
              proposer_id = q.proposing_node_id;
              is_rejected = true;
              promised_id = (handle_propose p n).acceptor.promised_proposal_id;
            })
            msg_accept_ack
            (handle_propose p n)
  unfolding handle_accept
  own_accept_refused p q n same_id same_node =
      rw
        (not_IsAbove-higher q (handle_propose p n).acceptor
          (same_ballot_not-IsAbove p q n same_id same_node))
        refl

  -- An accept request above the promise stores its value, with the proposer's node id as the id of
  -- the accepted proposal; any other leaves acceptor and log alone.
  pub handle_accept_cases :
      (m : PaxMessage) (n : Node S)
      → (IsAbove m n.acceptor
          → (handle_accept m n).acceptor ≡ record {
            promised_proposal_id = m.proposal_id;
            promised_node_id = m.proposing_node_id;
            accepted_proposal_id = m.proposing_node_id;
            accepted_proposer = m.proposing_node_id;
            accepted_value = m.proposed_log_value;
          })
        × (¬ IsAbove m n.acceptor
            → ((handle_accept m n).acceptor ≡ n.acceptor) × ((handle_accept m n).store ≡ n.store))
  unfolding handle_accept write_state
  handle_accept_cases m n = (
    λ h. rw (IsAbove-higher m n.acceptor h) refl,
    λ h. rw (not_IsAbove-higher m n.acceptor h) (refl, refl),
  )
