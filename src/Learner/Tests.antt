-- ===== src/Learner/Tests.antt =====
-- Learners of `Samples`' node.
use paxosme.Prelude.{List, Bytes, ◌≡◌, refl, true, [], ◌∷◌, arith}
use paxosme.Message.{new_message, msg_sync_value_ack}
use paxosme.State.Learner.{prepared, sending, new_learner}
use paxosme.Store.Tests.{memory_storage, list_codec}
use paxosme.Node.{Node, read_state}
use paxosme.Samples.{sample_node}
use paxosme.Learner.Follow.{handle_sync_value}
use paxosme.Learner.Sending.{Wake, Seen, sending_round, await_acks}
use paxosme.Learner.Synced.{Sends, IsOver, sending_round-Sends}
use paxosme.Learner.Acks.{IsAcked, early_ack_stalls}
use paxosme.Learner.Learning.{sync_message, sync_learns}

sync_learns_example :
    (handle_sync_value
      (sync_message (read_state 4 sample_node) 4 2)
      sample_node).learner.learner_state
    ≡ record { log_value = (read_state 4 sample_node).accepted_value; learned = true }
sync_learns_example = (sync_learns sample_node sample_node 4 2).1 refl

-- A follower at instance 2 has asked the node, which is at 4, for what it lacks.
abbrev leading_node : Node (List (Bytes × Bytes))
leading_node = record sample_node {
  learner = record (new_learner) { job_status = prepared; receiver = 3; begin_instance_id = 2 };
}

abbrev one_wake : Wake
one_wake = record {
  now = 100;
  acks = record (new_message 3 msg_sync_value_ack) { instance_id = 4 } ∷ [];
}

-- The node goes on from instance 4 to 5 meanwhile.
abbrev seen_twice : List (Seen (List (Bytes × Bytes)))
seen_twice =
    record { instance_id = 4; store = [] }
    ∷ record { instance_id = 5; store = [] }
    ∷ record { instance_id = 5; store = [] }
    ∷ record { instance_id = 5; store = [] }
    ∷ []

sending_round-Sends_example :
    Sends seen_twice [] 3 2 (sending_round 0 seen_twice (one_wake ∷ []) leading_node)
    × IsOver (sending_round 0 seen_twice (one_wake ∷ []) leading_node)
sending_round-Sends_example = sending_round-Sends 0 seen_twice (one_wake ∷ []) leading_node refl

-- A late ack of instance 30 has come while the value of instance 2 was sent.
abbrev late_acked : Node (List (Bytes × Bytes))
late_acked = record sample_node {
  learner = record (new_learner) { job_status = sending; receiver = 3; ack_send = 30 };
}

early_ack_stalls_example : ¬ IsAcked (await_acks 0 2 (one_wake ∷ []) late_acked)
early_ack_stalls_example =
    early_ack_stalls 0 2 40 (one_wake ∷ []) late_acked (omega arith) (omega arith) (omega arith)
      ((omega arith, tt), tt)
