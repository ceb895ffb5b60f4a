-- ===== src/Acceptor/Restart.antt =====
-- What an acceptor that has promised finds in its log after a restart: Init reads the entry of
-- instance_id_t(-1), which no message writes.
use paxosme.Prelude.{
  ℕ, ◌+◌, ◌-◌, Bool-cases, ◌<◌, ◌≡◌, refl, ap, ◌∙◌, ◌⊎◌, inl, inr, List, [], ◌∷◌, arith,
}
use paxosme.Message.{PaxMessage, msg_propose_broadcast, msg_accept_broadcast, u64_mod}
use paxosme.Store.{
  LogStorage, EntryCodec, PaxosLogEntry, default_entry, KeepsOthers, write_log, read_log,
  read_log-write_other,
}
use paxosme.State.Acceptor.{AcceptorState, new_acceptor_state}
use paxosme.Node.{Node, write_state, read_state}
use paxosme.Acceptor.Handlers.{
  handle_message, handle_propose, handle_accept, promised_entry, update_promised, accept_value,
  init, is_higher_than_promised,
}
use paxosme.Acceptor.Promise.{run}

promised_entry_instance :
    (i node id : ℕ) (a : AcceptorState) → (promised_entry i node id a).instance_id ≡ i
unfolding promised_entry
promised_entry_instance i node id a = ground arith

module _ {S : Type 0} ⦃db : LogStorage S⦄ ⦃codec : EntryCodec⦄ where
  -- The log is as it was, or has an entry of the node's instance more.
  abbrev Writes : Node S → Node S → Type 0
  Writes n n' =
      (n'.instance_id ≡ n.instance_id)
      × ((n'.store ≡ n.store)
          ⊎ ((e : PaxosLogEntry) × (e.instance_id ≡ n.instance_id)
              × (n'.store ≡ (write_log e n.store).0)))

  update_promised-Writes :
      (proposer id : ℕ) (a : AcceptorState) (n : Node S)
      → Writes n (update_promised proposer id (record n { acceptor = a }))
  unfolding update_promised write_state
  update_promised-Writes proposer id a n =
      let promised = record a { promised_proposal_id = id; promised_node_id = proposer } in
      let e = promised_entry n.instance_id proposer id promised in
      (refl, inr (e, promised_entry_instance n.instance_id proposer id promised, refl))

  handle_propose-Writes : (m : PaxMessage) (n : Node S) → Writes n (handle_propose m n)
  unfolding handle_propose write_state
  handle_propose-Writes m n =
      elim (Bool-cases (is_higher_than_promised m.proposing_node_id m.proposal_id n.acceptor)) [
        | inl above ↦
            rw above (update_promised-Writes m.proposing_node_id m.proposal_id n.acceptor n)
        | inr below ↦ rw below (refl, inl refl)
      ]

  handle_accept-Writes : (m : PaxMessage) (n : Node S) → Writes n (handle_accept m n)
  unfolding handle_accept write_state
  handle_accept-Writes m n =
      elim (Bool-cases (is_higher_than_promised m.proposing_node_id m.proposal_id n.acceptor)) [
        | inl above ↦
            rw above (
              update_promised-Writes m.proposing_node_id m.proposal_id (accept_value m n.acceptor)
                n)
        | inr below ↦ rw below (refl, inl refl)
      ]

  handle_message-Writes : (m : PaxMessage) (n : Node S) → Writes n (handle_message m n)
  unfolding handle_message
  handle_message-Writes m n =
      elim m.message_type
        as (λ t. Writes n (elim t [
          | msg_propose_broadcast ↦ handle_propose m n
          | msg_accept_broadcast ↦ handle_accept m n
          | _ ↦ n
        ])) [
          | msg_propose_broadcast ↦ handle_propose-Writes m n
          | msg_accept_broadcast ↦ handle_accept-Writes m n
          | _ ↦ (refl, inl refl)
        ]

  run_keeps_last :
      (ms : List PaxMessage) (n : Node S)
      → KeepsOthers db
      → n.instance_id + 1 < u64_mod
      → read_state (u64_mod - 1) (run ms n) ≡ read_state (u64_mod - 1) n
  unfolding run read_state
  run_keeps_last [] n keeps small = refl
  run_keeps_last (m ∷ ms) n keeps small =
      let (same, writes) = handle_message-Writes m n in
      run_keeps_last ms (handle_message m n) keeps (omega (arith, same)) ∙ elim writes [
        | inl kept ↦ ap (read_log (u64_mod - 1)) kept
        | inr (e, id, wrote) ↦
            ap (read_log (u64_mod - 1)) wrote
            ∙ read_log-write_other e (u64_mod - 1) n.store keeps (omega (arith, id)) (omega arith)
                (λ last. omega (arith, id, last))
      ]

  -- Over a storage whose Put changes no other key and which holds no entry of the instance 2^64 - 1:
  -- whatever messages an acceptor in any other instance has handled, promised and accepted, Init on
  -- its log rebuilds a new acceptor, without any promise or value, and reports instance 0.
  pub restart_forgets :
      (ms : List PaxMessage) (n : Node S)
      → KeepsOthers db
      → n.instance_id + 1 < u64_mod
      → read_state (u64_mod - 1) n ≡ default_entry
      → init (record (run ms n) { acceptor = new_acceptor_state })
        ≡ (record (run ms n) { acceptor = new_acceptor_state }, 0)
  unfolding init read_state new_acceptor_state
  restart_forgets ms n keeps small none_there =
      rw (run_keeps_last ms n keeps small ∙ none_there) refl
