-- ===== src/Learner/Waits.antt =====
-- What the waits of the sending thread leave alone.
use paxosme.Prelude.{ℕ, ◌≡◌, List, [], ◌∷◌, arith}
use paxosme.Message.{PaxMessage}
use paxosme.Node.{Node}
use paxosme.Learner.Lead.{handle_value_ack}
use paxosme.Learner.Sending.{Wake, Waited, acked, too_slow, waits_on, handle_acks, await_acks}

module _ {S : Type 0} where
  -- The parts of a node that the sending thread's waits leave alone.
  pub record Kept (n m : Node S) : Type 0 where
    pub sent : m.sent ≡ n.sent
    pub store : m.store ≡ n.store
    pub instance_id : m.instance_id ≡ n.instance_id

  handle_value_ack-Kept : (m : PaxMessage) (n k : Node S) → Kept n k → Kept n (handle_value_ack m k)
  unfolding handle_value_ack
  handle_value_ack-Kept m n k kept = ground arith

  handle_acks-Kept : (ms : List PaxMessage) (n k : Node S) → Kept n k → Kept n (handle_acks ms k)
  unfolding handle_acks
  handle_acks-Kept [] n k kept = kept
  handle_acks-Kept (m ∷ ms) n k kept =
      handle_acks-Kept ms n (handle_value_ack m k) (handle_value_ack-Kept m n k kept)

  abbrev pub waited_node : Waited S → Node S
  waited_node (acked ws n) = n
  waited_node (too_slow n) = n
  waited_node (waits_on n) = n

  pub await_acks-Kept :
      (t last_send : ℕ) (ws : List Wake) (n k : Node S)
      → Kept n k
      → Kept n (waited_node (await_acks t last_send ws k))
  unfolding await_acks
  await_acks-Kept t last_send [] n k kept = ground arith
  await_acks-Kept t last_send (w ∷ ws) n k kept = ground (
    arith,
    await_acks-Kept t last_send ws n (handle_acks w.acks k) (handle_acks-Kept w.acks n k kept),
  )
