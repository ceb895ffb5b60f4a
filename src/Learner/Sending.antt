-- ===== src/Learner/Sending.antt =====
-- core/learner_lead.cpp: the thread that sends a follower the values that it lacks. What the other
-- threads do meanwhile is the acks that they handle while it waits, and the instance and the log that
-- the thread finds whenever it comes to the test of its loop.
use paxosme.Prelude.{ℕ, ◌+◌, ◌-◌, ◌%◌, Bool, true, not, List, [], ◌∷◌, ltb, ◌==◌, if◌then◌else◌}
use paxosme.Message.{PaxMessage, u64_mod}
use paxosme.Store.{LogStorage, EntryCodec}
use paxosme.Node.{Node}
use paxosme.Learner.Lead.{handle_value_ack, send_learned_value, wait_for_ready, clear_sending_state}

-- One wait for an ack or 100 milliseconds: the clock before it, and the acks handled during it.
pub record Wake : Type 0 where
  pub now : ℕ
  pub acks : List PaxMessage

-- What the thread finds at a test of its loop: GetInstanceId, and the log.
pub record Seen (S : Type 0) : Type 0 where
  pub instance_id : ℕ
  pub store : S

abbrev pub lead_follow_dis : ℕ
lead_follow_dis = 10

abbrev pub sending_internal_ms : ℕ
sending_internal_ms = 5000

-- Time::StopWatchMS, on times in milliseconds
unfoldable pub stop_watch_ms : ℕ → ℕ → ℕ
stop_watch_ms begin end = (end + u64_mod - begin) % u64_mod

-- How the inner `while` ends: the acks have come near, the time is over, or it waits on.
pub data Waited (S : Type 0) : Type 0 where
  acked : List Wake → Node S → Waited S
  too_slow waits_on : Node S → Waited S

-- How SendLearnedValues ends, if it does: it waits for acks still, or has come to a test of its loop
-- that is not told of.
pub data Sending (S : Type 0) : Type 0 where
  finished gave_up blocked goes_on : Node S → Sending S

module _ {S : Type 0} where
  unfoldable pub handle_acks : List PaxMessage → Node S → Node S
  unfolding handle_value_ack
  handle_acks [] n = n
  handle_acks (m ∷ ms) n = handle_acks ms (handle_value_ack m n)

  -- last_send - ack_send_ > LEAD_FOLLOW_DIS, on 64-bit numbers
  unfoldable pub is_far_ahead : ℕ → Node S → Bool
  is_far_ahead last_send n =
      ltb lead_follow_dis ((last_send + u64_mod - n.learner.ack_send) % u64_mod)

  -- The inner `while`, with the waits that there are
  unfoldable pub await_acks : ℕ → ℕ → List Wake → Node S → Waited S
  unfolding is_far_ahead stop_watch_ms handle_acks
  await_acks time_begin last_send [] n = if is_far_ahead last_send n then waits_on n else acked [] n
  await_acks time_begin last_send (w ∷ ws) n =
      let rest = await_acks time_begin last_send ws (handle_acks w.acks n) in
      if is_far_ahead last_send n
      then (if ltb sending_internal_ms (stop_watch_ms time_begin w.now) then too_slow n else rest)
      else acked (w ∷ ws) n

  unfoldable pub after_wait : Waited S → (List Wake → Node S → Sending S) → Sending S
  after_wait (acked ws n) next = next ws n
  after_wait (too_slow n) next = gave_up n
  after_wait (waits_on n) next = blocked n

  -- ClearSendingState where SendLearnedValues returns
  unfoldable pub cleared : Sending S → Sending S
  unfolding clear_sending_state
  cleared (finished n) = finished (clear_sending_state n)
  cleared (gave_up n) = gave_up (clear_sending_state n)
  cleared (blocked n) = blocked n
  cleared (goes_on n) = goes_on n

module _ {S : Type 0} ⦃db : LogStorage S⦄ ⦃codec : EntryCodec⦄ where
  -- The `while` of SendLearnedValues, through the tests of its condition that are told of
  unfoldable pub send_loop : ℕ → List (Seen S) → ℕ → ℕ → List Wake → Node S → Sending S
  unfolding send_learned_value await_acks after_wait
  send_loop time_begin [] to_send receiver ws n = goes_on n
  send_loop time_begin (seen ∷ rest) to_send receiver ws n =
      let now = record n { instance_id = seen.instance_id; store = seen.store } in
      if ltb to_send now.instance_id
      then after_wait
          (await_acks time_begin to_send ws (send_learned_value to_send receiver true now))
          (λ ws' n'. send_loop time_begin rest (to_send + 1) receiver ws' n')
      else finished now

  -- SendLearnedValues
  unfoldable pub send_learned_values : ℕ → List (Seen S) → ℕ → ℕ → List Wake → Node S → Sending S
  unfolding send_loop
  send_learned_values time_begin seen begin_instance_id receiver ws n =
      if not (n.learner.receiver == receiver)
      then finished n
      else send_loop time_begin seen begin_instance_id receiver ws n

  -- One round of SendingLoop
  unfoldable pub sending_round : ℕ → List (Seen S) → List Wake → Node S → Sending S
  unfolding wait_for_ready send_learned_values cleared
  sending_round time_begin seen ws n =
      let ready = wait_for_ready n in
      cleared (
        send_learned_values time_begin seen ready.learner.begin_instance_id ready.learner.receiver
          ws ready)
