-- ===== src/Controller/Routing.antt =====
-- Whom HandleMessage reaches, and what the end of an instance does.
use paxosme.Prelude.{
  ℕ, suc, ◌+◌, ◌%◌, ◌≡◌, refl, sym, ap, ◌∙◌, Bool, true, false, List, [], ◌∷◌, some, if◌then◌else◌,
  Run, ok, ◌>>=◌, arith,
}
use paxosme.Message.{
  PaxMessage, MessageType, u64_mod, msg_propose_broadcast, msg_accept_broadcast, msg_none,
}
use paxosme.Prov.{ProposalProv, write_result, value_accepted}
use paxosme.Schedule.{event_propose_timeout, event_accept_timeout}
use paxosme.Store.{LogStorage, EntryCodec}
use paxosme.State.Acceptor.{new_acceptor_state}
use paxosme.Node.{Node, write_state, withdraw, status_none}
use paxosme.Acceptor.Handlers as Acceptor
use paxosme.Acceptor.Promise.{PromiseLt}
use paxosme.Acceptor.Promise as Promise
use paxosme.Controller.Handlers.{
  message_for_proposer, message_for_acceptor, message_for_learner, message_place_holder,
  finish_if_learned, handle_message, new_instance, execute,
}

unfoldable pub is_acceptor_type : MessageType → Bool
is_acceptor_type msg_propose_broadcast = true
is_acceptor_type msg_accept_broadcast = true
is_acceptor_type _ = false

-- The tests of the controller on the numbers of the message types: none of the types is a
-- placeholder's, a learner's or a proposer's, and the acceptor's are the two broadcasts to it.
pub routes :
    (t : MessageType)
    → (message_place_holder t ≡ false)
      × (message_for_learner t ≡ false)
      × (message_for_proposer t ≡ false)
      × (message_for_acceptor t ≡ is_acceptor_type t)
unfolding message_place_holder message_for_learner message_for_proposer message_for_acceptor
    is_acceptor_type
routes msg_none = (refl, refl, refl, refl)
routes _ = (refl, refl, refl, refl)

module _ {S : Type 0} ⦃db : LogStorage S⦄ ⦃codec : EntryCodec⦄ where
  other_types_ignored :
      (m : PaxMessage) (n : Node S)
      → is_acceptor_type m.message_type ≡ false
      → Acceptor.handle_message m n ≡ n
  unfolding Acceptor.handle_message is_acceptor_type
  other_types_ignored m n h = ground arith

  pub acceptor_keeps_learner :
      (m : PaxMessage) (n : Node S)
      → ((Acceptor.handle_message m n).learner ≡ n.learner)
        × ((Acceptor.handle_message m n).executed ≡ n.executed)
        × ((Acceptor.handle_message m n).instance_id ≡ n.instance_id)
        × ((Acceptor.handle_message m n).proposer ≡ n.proposer)
  unfolding Acceptor.handle_message write_state
  acceptor_keeps_learner m n = ground arith

  finish_idle : (n : Node S) → n.learner.learner_state.learned ≡ false → finish_if_learned n ≡ ok n
  unfolding finish_if_learned
  finish_idle n idle = rw idle

  finish_acceptor :
      (m : PaxMessage) (n : Node S)
      → n.learner.learner_state.learned ≡ false
      → finish_if_learned (Acceptor.handle_message m n) ≡ ok (Acceptor.handle_message m n)
  finish_acceptor m n idle =
      finish_idle (Acceptor.handle_message m n)
        (ap (λ l. l.learner_state.learned) (acceptor_keeps_learner m n).0 ∙ idle)

  -- The state of a node whose message has been routed to the acceptor, or to nobody.
  routed :
      (m : PaxMessage) (n : Node S) (b : Bool)
      → is_acceptor_type m.message_type ≡ b
      → n.learner.learner_state.learned ≡ false
      → ((if b then ok (Acceptor.handle_message m n) else ok n) >>= finish_if_learned)
        ≡ ok (Acceptor.handle_message m n)
  routed m n true e idle = finish_acceptor m n idle
  routed m n false e idle = finish_idle n idle ∙ ap ok (sym (other_types_ignored m n e))

  -- On a node whose learner has learned nothing, HandleMessage is the acceptor's handling and no
  -- more, for every message: it ends without calling itself, and messages for the proposer and for the
  -- learner change nothing.
  pub handle_message-acceptor :
      (fuel : ℕ) (m : PaxMessage) (n : Node S)
      → n.learner.learner_state.learned ≡ false
      → handle_message (suc fuel) m n ≡ ok (Acceptor.handle_message m n)
  unfolding handle_message
  handle_message-acceptor fuel m n idle =
      rw
        (
          (routes m.message_type).0,
          (routes m.message_type).1,
          (routes m.message_type).2,
          (routes m.message_type).3,
        )
        (routed m n (is_acceptor_type m.message_type) refl idle)

  -- The messages of a list, one after the other.
  unfoldable pub run : ℕ → List PaxMessage → Node S → Run (Node S)
  run fuel [] n = ok n
  run fuel (m ∷ ms) n = handle_message fuel m n >>= run fuel ms

  -- From a node whose learner has learned nothing, no messages of whatever kinds make the
  -- controller learn a value, execute one, start another instance or touch the proposer; every
  -- one of them is handled, and what they do is what they do to the acceptor.
  pub run-acceptor :
      (fuel : ℕ) (ms : List PaxMessage) (n : Node S)
      → n.learner.learner_state.learned ≡ false
      → (run (suc fuel) ms n ≡ ok (Promise.run ms n))
        × ((Promise.run ms n).learner ≡ n.learner)
        × ((Promise.run ms n).executed ≡ n.executed)
        × ((Promise.run ms n).instance_id ≡ n.instance_id)
        × ((Promise.run ms n).proposer ≡ n.proposer)
  unfolding run Promise.run
  run-acceptor fuel [] n idle = (refl, refl, refl, refl, refl)
  run-acceptor fuel (m ∷ ms) n idle =
      let n' = Acceptor.handle_message m n in
      let kept = acceptor_keeps_learner m n in
      let rest = run-acceptor fuel ms n' (ap (λ l. l.learner_state.learned) kept.0 ∙ idle) in
      (
        rw (handle_message-acceptor fuel m n idle) rest.0,
        rest.1 ∙ kept.0,
        rest.2 ∙ kept.1,
        rest.3 ∙ kept.2,
        rest.4 ∙ kept.3,
      )

  -- When the learner has learned a value and the provider is there, the end of HandleMessage executes
  -- the value once, under the current instance, and starts the next one with all three players reset.
  pub finish_if_learned_lem :
      (n : Node S) (p : ProposalProv)
      → n.learner.learner_state.learned ≡ true
      → n.proposer.proposal_prov ≡ some p
      → (n' : Node S) × (finish_if_learned n ≡ ok n')
        × (n'.executed ≡ (n.instance_id, n.learner.learner_state.log_value) ∷ n.executed)
        × (n'.instance_id ≡ (n.instance_id + 1) % u64_mod)
        × (n'.acceptor ≡ new_acceptor_state)
        × (n'.proposer.status ≡ status_none)
        × (n'.learner.learner_state.learned ≡ false)
  unfolding finish_if_learned new_acceptor_state
  finish_if_learned_lem n p learned set =
      let value = n.learner.learner_state.log_value in
      let n₁ = execute n.instance_id value n in
      let n₂ = record n₁ {
        proposer = record (n₁.proposer) {
          proposal_prov = some (write_result p value n.instance_id value_accepted).0;
        };
      } in
      (
        new_instance (withdraw event_accept_timeout (withdraw event_propose_timeout n₂)),
        ground arith,
        refl,
        refl,
        refl,
        refl,
        refl,
      )
