-- ===== src/Learner/Acks.antt =====
-- Acks that are ahead of what was sent: the wait for an ack cannot end.
use paxosme.Prelude.{
  ℕ, ◌+◌, ◌≤◌, ◌<◌, ◌≡◌, inl, inr, true, List, [], ◌∷◌, All, ltb, Bool-cases, arith,
}
use paxosme.Message.{PaxMessage, u64_mod}
use paxosme.Node.{Node}
use paxosme.Learner.Lead.{handle_value_ack}
use paxosme.Learner.Sending.{
  Wake, Waited, acked, too_slow, waits_on, handle_acks, is_far_ahead, await_acks, lead_follow_dis,
  sending_internal_ms, stop_watch_ms,
}

-- No message of the list is of an instance beyond the bound.
abbrev pub Below : ℕ → List PaxMessage → Type 0
Below bound ms = All (λ (m : PaxMessage). m.instance_id ≤ bound) ms

module _ {S : Type 0} where
  -- The unsigned difference between two instances wraps where the second is larger.
  far_ahead_of_ack :
      (last_send : ℕ) (n : Node S)
      → last_send < n.learner.ack_send
      → n.learner.ack_send + lead_follow_dis < u64_mod
      → is_far_ahead last_send n ≡ true
  unfolding is_far_ahead
  far_ahead_of_ack last_send n ahead room = ground arith

  handle_acks-Ahead :
      (bound last_send : ℕ) (ms : List PaxMessage) (n : Node S)
      → last_send < n.learner.ack_send
      → n.learner.ack_send ≤ bound
      → Below bound ms
      → (last_send < (handle_acks ms n).learner.ack_send)
        × ((handle_acks ms n).learner.ack_send ≤ bound)
  unfolding handle_acks handle_value_ack
  handle_acks-Ahead bound last_send [] n ahead room below = (ahead, room)
  handle_acks-Ahead bound last_send (m ∷ ms) n ahead room (b, below) =
      handle_acks-Ahead bound last_send ms (handle_value_ack m n) (ground arith) (ground arith)
        below

  abbrev pub IsAcked : Waited S → Type 0
  IsAcked (acked ws n) = Unit {0}
  IsAcked (too_slow n) = ⊥
  IsAcked (waits_on n) = ⊥

  -- When the ack that counts is of a later instance than the value sent last, as after a late
  -- ack of an earlier job, and no instance comes near 2^64: the wait for an ack never ends by
  -- one, whatever acks come; SendLearnedValues gives up when its time is over, or waits on.
  pub early_ack_stalls :
      (t last_send bound : ℕ) (ws : List Wake) (n : Node S)
      → last_send < n.learner.ack_send
      → n.learner.ack_send ≤ bound
      → bound + lead_follow_dis < u64_mod
      → All (λ (w : Wake). Below bound w.acks) ws
      → ¬ IsAcked (await_acks t last_send ws n)
  unfolding await_acks
  early_ack_stalls t last_send bound [] n ahead room bounded below =
      rw (far_ahead_of_ack last_send n ahead (omega arith)) (λ h. h)
  early_ack_stalls t last_send bound (w ∷ ws) n ahead room bounded (b, below) =
      let (ahead', room') = handle_acks-Ahead bound last_send w.acks n ahead room b in
      rw (far_ahead_of_ack last_send n ahead (omega arith))
        (elim (Bool-cases (ltb sending_internal_ms (stop_watch_ms t w.now))) [
          | inl late ↦ rw late (λ h. h)
          | inr in_time ↦ rw in_time (
              early_ack_stalls t last_send bound ws (handle_acks w.acks n) ahead' room' bounded
                below)
        ])
