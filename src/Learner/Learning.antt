-- ===== src/Learner/Learning.antt =====
-- What a learner learns, from whom, and where its handlers do not come to an end.
use paxosme.Prelude.{
  ℕ, ◌≤◌, ◌<◌, ◌≡◌, ◌≢◌, refl, sym, ap, ◌⊎◌, inl, inr, true, false, [], ◌∷◌, leb, ◌==◌, eq→==,
  ne→==, Bool-cases, if◌then◌else◌, ok, fault, deadlock, arith,
}
use paxosme.Message.{
  PaxMessage, new_message, msg_learner_value_sync, msg_sync_value_ack, msg_value_chosen_broadcast,
}
use paxosme.Store.{LogStorage, EntryCodec, PaxosLogEntry}
use paxosme.State.Learner.{LearnerData, stale, prepared, sending}
use paxosme.Node.{Node, send, broadcast, read_state}
use paxosme.Proposer.Handlers.{chosen_message}
use paxosme.Learner.Follow.{handle_tell_new_instance_id, learn_from_others, handle_sync_value}
use paxosme.Learner.Lead.{
  send_learned_value, tell_others, learn_from_self, handle_value_ack, make_sender_ready,
}
use paxosme.Learner.Handlers.{handle_sender_publish}

-- The highest instance that a learner knows, after it has heard of one more.
abbrev pub hears : ℕ → LearnerData → LearnerData
hears i l =
    if leb i l.highest_known_instance_id then l else record l { highest_known_instance_id = i }

module _ {S : Type 0} where
  -- A message that tells a learner, which is not learning yet, that another is at its own instance
  -- or further on, and is meant for its instance, ends in a deadlock: the thread locks a mutex that it
  -- holds. Every other such message raises the highest known instance at most, and changes nothing else.
  pub tell_new_instance_deadlock :
      (m : PaxMessage) (n : Node S)
      → ((m.instance_id ≡ n.instance_id)
            × (n.instance_id ≤ m.leader_instance_id)
            × (n.learner.is_learning ≡ false)
          → handle_tell_new_instance_id m n ≡ fault deadlock)
        × ((m.instance_id ≢ n.instance_id)
              ⊎ ((m.leader_instance_id < n.instance_id) ⊎ (n.learner.is_learning ≡ true))
            → handle_tell_new_instance_id m n
              ≡ ok (record n { learner = hears m.leader_instance_id n.learner }))
  unfolding handle_tell_new_instance_id
  tell_new_instance_deadlock m n = (λ h. ground arith, λ h. ground arith)

  -- The job of the sending loop: a request starts it only where none is under way, and then for the
  -- requester; an ack counts only while it sends to the one who acks, and never lowers the count.
  pub sender_job :
      (receiver begin_instance_id : ℕ) (m : PaxMessage) (n : Node S)
      → (n.learner.job_status ≢ stale → make_sender_ready receiver begin_instance_id n ≡ n)
        × (n.learner.job_status ≡ stale
            → ((make_sender_ready receiver begin_instance_id n).learner.job_status ≡ prepared)
              × ((make_sender_ready receiver begin_instance_id n).learner.receiver ≡ receiver))
        × (n.learner.ack_send ≤ (handle_value_ack m n).learner.ack_send)
        × ((n.learner.job_status ≢ sending) ⊎ (n.learner.receiver ≢ m.sender_id)
            → handle_value_ack m n ≡ n)
  unfolding make_sender_ready handle_value_ack
  sender_job receiver begin_instance_id m n =
      (λ h. ground arith, λ h. ground arith, ground arith, λ h. ground arith)

-- The message by which SendLearnedValue synchronises a follower.
abbrev pub sync_message : PaxosLogEntry → ℕ → ℕ → PaxMessage
sync_message e i to_node = record (new_message to_node msg_learner_value_sync) {
  instance_id = i;
  chosen_value = e.accepted_value;
  proposal_id = e.accepted_proposal_id;
  proposing_node_id = e.proposer_id;
}

module _ {S : Type 0} ⦃db : LogStorage S⦄ ⦃codec : EntryCodec⦄ where
  learns_at_instance :
      (m : PaxMessage) (n : Node S)
      → m.instance_id ≡ n.instance_id
      → (learn_from_others m n).learner.learner_state
        ≡ record { log_value = m.chosen_value; learned = true }
  unfolding learn_from_others
  learns_at_instance m n same = rw (eq→== m.instance_id n.instance_id same, learn_from_others) refl

  ignores_elsewhere :
      (m : PaxMessage) (n : Node S)
      → m.instance_id ≢ n.instance_id
      → ((learn_from_others m n).learner ≡ n.learner) × ((learn_from_others m n).store ≡ n.store)
  unfolding learn_from_others
  ignores_elsewhere m n other =
      rw (ne→== m.instance_id n.instance_id other, learn_from_others) (refl, refl)

  learning_sends_nothing : (m : PaxMessage) (n : Node S) → (learn_from_others m n).sent ≡ n.sent
  unfolding learn_from_others
  learning_sends_nothing m n = ground arith

  sync_acks :
      (m : PaxMessage) (n : Node S)
      → (handle_sync_value m n).sent
        ≡ send m.sender_id (record (new_message n.options.node_id msg_sync_value_ack) {
          instance_id = n.instance_id;
        })
          ∷ n.sent
  unfolding handle_sync_value
  sync_acks m n = elim (Bool-cases (m.instance_id == n.instance_id)) [
    | inl same ↦ rw (same, learn_from_others) refl
    | inr other ↦ rw (other, learn_from_others) refl
  ]

  own_choice_ignored :
      (m : PaxMessage) (n : Node S)
      → m.proposing_node_id ≢ n.options.node_id
      → learn_from_self m n ≡ n
  unfolding learn_from_self
  own_choice_ignored m n other = ground arith

  -- The message that SendLearnedValue sends carries the value of the leader's log; a follower at
  -- that instance learns this value, a follower at any other instance learns and writes nothing,
  -- and either way one ack goes out to the message's sender, which SendLearnedValue has set to
  -- the receiver.
  pub sync_learns :
      (leader follower : Node S) (i to_node : ℕ)
      → let m = sync_message (read_state i leader) i to_node in
        ((send_learned_value i to_node true leader).sent ≡ send to_node m ∷ leader.sent)
        × (i ≡ follower.instance_id
            → (handle_sync_value m follower).learner.learner_state
              ≡ record { log_value = (read_state i leader).accepted_value; learned = true })
        × (i ≢ follower.instance_id
            → ((handle_sync_value m follower).learner ≡ follower.learner)
              × ((handle_sync_value m follower).store ≡ follower.store))
        × ((handle_sync_value m follower).sent
            ≡ send to_node (record (new_message follower.options.node_id msg_sync_value_ack) {
              instance_id = follower.instance_id;
            })
              ∷ follower.sent)
  unfolding send_learned_value handle_sync_value
  sync_learns leader follower i to_node =
      let m = sync_message (read_state i leader) i to_node in
      (
        refl,
        λ same. learns_at_instance m follower same,
        λ other. ignores_elsewhere m follower other,
        sync_acks m follower,
      )

  -- On a node whose id is not 0 the learner turns down the proposer's own message that its value is
  -- chosen: it learns nothing, and tells the others of the choice with the empty value.
  pub own_choice_not_learned :
      (ack : PaxMessage) (n : Node S)
      → n.options.node_id ≢ 0
      → handle_sender_publish (chosen_message ack n) n ≡ record n {
        sent =
            broadcast (record (new_message n.options.node_id msg_value_chosen_broadcast) {
              instance_id = n.instance_id;
              proposal_id = ack.proposal_id;
              proposing_node_id = n.options.node_id;
              chosen_value = [];
            })
            ∷ n.sent;
      }
  unfolding handle_sender_publish chosen_message
  own_choice_not_learned ack n other =
      ap (tell_others ack.proposal_id n.options.node_id [])
        (own_choice_ignored (chosen_message ack n) n (λ e. other (sym e)))
