-- ===== src/Controller/Handlers.antt =====
-- The operations of PaxController. The state machine is virtual: its Execute is recorded in the
-- node, and the instance that it reports is an argument.
use paxosme.Prelude.{
  ℕ, zero, suc, ◌+◌, ◌-◌, ◌/◌, ◌%◌, ◌^◌, Bool, not, List, ◌∷◌, ltb, ◌==◌, if◌then◌else◌, Run, ok,
  fault, out_of_fuel, ◌>>=◌,
}
use paxosme.Message.{PaxMessage, MessageType, to_int, u64_mod}
use paxosme.Options.{proposing_authority}
use paxosme.Queue.{try_add}
use paxosme.Schedule.{
  EventHandler, propose_timeout_callback, new_value_timeout_callback, delete_segment,
}
use paxosme.Schedule
use paxosme.Store.{LogStorage, EntryCodec}
use paxosme.Node.{Node, read_state}
use paxosme.Acceptor.Handlers as Acceptor
use paxosme.Proposer.Handlers as Proposer
use paxosme.Learner.Handlers as Learner
use paxosme.Learner.Follow

unfoldable pub message_for_proposer : MessageType → Bool
unfolding to_int
message_for_proposer t = to_int t / 2 ^ 4 == 0x1

unfoldable pub message_for_acceptor : MessageType → Bool
unfolding to_int
message_for_acceptor t = to_int t / 2 ^ 3 == 0x1

unfoldable pub message_for_learner : MessageType → Bool
unfolding to_int
message_for_learner t = to_int t / 2 ^ 5 == 0x1

unfoldable pub message_place_holder : MessageType → Bool
unfolding to_int
message_place_holder t = to_int t / 2 ^ 6 == 0x1

module _ {S : Type 0} ⦃db : LogStorage S⦄ ⦃codec : EntryCodec⦄ where
  unfoldable pub instance_done : Node S → Run (Node S)
  unfolding Proposer.instance_done
  instance_done n = Proposer.instance_done n.instance_id n.learner.learner_state.log_value n

  unfoldable pub new_instance : Node S → Node S
  unfolding Acceptor.new_instance Proposer.new_instance Follow.new_instance
  new_instance n = Follow.new_instance (
      Proposer.new_instance
        (Acceptor.new_instance (record n { instance_id = (n.instance_id + 1) % u64_mod })))

  unfoldable pub execute : ℕ → List ℕ → Node S → Node S
  execute instance_id value n = record n { executed = (instance_id, value) ∷ n.executed }

  -- The end of HandleMessage: a learned value is executed, and the next instance begins.
  unfoldable pub finish_if_learned : Node S → Run (Node S)
  unfolding execute instance_done new_instance
  finish_if_learned n =
      if n.learner.learner_state.learned
      then (instance_done (execute n.instance_id n.learner.learner_state.log_value n)
          >>= (λ n'. ok (new_instance n')))
      else ok n

  -- HandleMessage. It can call itself through ProcessChosenValue of the proposer; `fuel` bounds that
  -- depth.
  unfoldable pub handle_message : (fuel : ℕ) → PaxMessage → Node S → Run (Node S)
  handle_message zero m n = fault out_of_fuel
  handle_message (suc fuel) m n =
      let nested = handle_message fuel in
      if message_place_holder m.message_type
      then ok n
      else ((if message_for_learner m.message_type
            then Learner.handle_message m n
            else if message_for_proposer m.message_type
            then Proposer.handle_message nested m n
            else if message_for_acceptor m.message_type
            then ok (Acceptor.handle_message m n)
            else ok n)
          >>= finish_if_learned)

  unfoldable pub try_new_value : Node S → Run (Node S)
  unfolding Follow.anymore_to_learn proposing_authority Proposer.new_value
  try_new_value n =
      if Follow.anymore_to_learn n
      then ok n
      else if not (proposing_authority n.options)
      then ok n
      else Proposer.new_value n

  -- AddMessage; the result of TryAdd is dropped.
  unfoldable pub add_message : PaxMessage → Node S → Node S
  unfolding try_add
  add_message m n = record n { inbox = (try_add n.inbox m).0 }

  -- The `for` of PushSMByState, for `rounds` instances from `i` on
  unfoldable pub push_sm_loop : ℕ → ℕ → Node S → Node S
  unfolding execute
  push_sm_loop zero i n = n
  push_sm_loop (suc rounds) i n =
      push_sm_loop rounds (i + 1) (execute i (read_state i n).accepted_value n)

  -- Init, with the instance that the state machine reports, but for the main loop's thread. Where
  -- neither test holds the source leaves `instance_id_` without a value; here it stays as it is.
  unfoldable pub init : ℕ → Node S → Node S
  unfolding Acceptor.init push_sm_loop Proposer.init Learner.init
  init instance_in_sm n =
      let (n₁, instance_in_state) = Acceptor.init n in
      let n₂ =
        if ltb ((instance_in_sm + 1) % u64_mod) instance_in_state
        then record (push_sm_loop (instance_in_state - instance_in_sm) instance_in_sm n₁) {
          instance_id = instance_in_state;
        }
        else n₁ in
      let n₃ =
        if ltb instance_in_state instance_in_sm
        then record n₂ { instance_id = (instance_in_sm + 1) % u64_mod }
        else n₂ in
      Learner.init (Proposer.init ((n₃.acceptor.accepted_proposal_id + 1) % u64_mod) n₃)

  -- The callback of an event.
  unfoldable pub run_event : EventHandler → Node S → Run (Node S)
  unfolding Proposer.on_propose_timeout Proposer.on_new_value_timeout Follow.shall_learn
  run_event (propose_timeout_callback i) n = ok (Proposer.on_propose_timeout i n)
  run_event new_value_timeout_callback n = Proposer.on_new_value_timeout n
  run_event Schedule.shall_learn n = ok (Follow.shall_learn n)
  run_event (delete_segment i) n = ok n
