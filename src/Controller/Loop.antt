-- ===== src/Controller/Loop.antt =====
-- The body of the controller's MainLoop. The clock stands still while events are dispatched; the time
-- that Take waits, and the messages that arrive meanwhile, are arguments.
use paxosme.Prelude.{
  ℕ, zero, suc, ◌+◌, length, List, [], ◌∷◌, Option, none, some, Run, ok, fault, out_of_fuel, ◌>>=◌,
}
use paxosme.Message.{PaxMessage}
use paxosme.Queue.{take_front}
use paxosme.Schedule.{dispatch, next_event_time}
use paxosme.Store.{LogStorage, EntryCodec}
use paxosme.Node.{Node}
use paxosme.Controller.Handlers.{handle_message, try_new_value, add_message, run_event}

module _ {S : Type 0} ⦃db : LogStorage S⦄ ⦃codec : EntryCodec⦄ where
  -- The first `while`: the events that Dispatch returns, one after the other.
  unfoldable pub dispatch_events : (fuel : ℕ) → Node S → Run (Node S)
  unfolding dispatch run_event
  dispatch_events zero n = fault out_of_fuel
  dispatch_events (suc fuel) n =
      let again = dispatch_events fuel in
      elim (dispatch n.now n.scheduler).1 [
        | none ↦ ok (record n { scheduler = (dispatch n.now n.scheduler).0 })
        | some e ↦
            run_event e.callback (record n { scheduler = (dispatch n.now n.scheduler).0 })
            >>= (λ n'. again n')
      ]

  unfoldable pub add_messages : List PaxMessage → Node S → Node S
  unfolding add_message
  add_messages [] n = n
  add_messages (m ∷ ms) n = add_messages ms (add_message m n)

  -- What follows a Take: the message is handled where there is one. `depth` is the fuel of
  -- HandleMessage.
  unfoldable pub handle_taken : (depth : ℕ) → Option PaxMessage → Node S → Run (Node S)
  unfolding handle_message
  handle_taken depth none n = ok n
  handle_taken depth (some m) n = handle_message depth m n

  -- Take after a wait of `elapsed` milliseconds
  unfoldable pub take_message : (depth elapsed : ℕ) → List PaxMessage → Node S → Run (Node S)
  unfolding next_event_time take_front add_messages handle_taken
  take_message depth elapsed arrivals n = next_event_time n.scheduler >>= (λ next.
      let waited = add_messages arrivals (record n { scheduler = next.0; now = n.now + elapsed }) in
      handle_taken depth (take_front waited.inbox).1
        (record waited { inbox = (take_front waited.inbox).0 }))

  -- One round of MainLoop; its first loop gets fuel for the queue as it stands.
  unfoldable pub main_loop_round : (depth elapsed : ℕ) → List PaxMessage → Node S → Run (Node S)
  unfolding dispatch_events take_message try_new_value
  main_loop_round depth elapsed arrivals n =
      dispatch_events (suc (length n.scheduler.events)) n
      >>= (λ n₁. take_message depth elapsed arrivals n₁ >>= try_new_value)

  -- Rounds of MainLoop, each with the time that it waits and the messages that arrive meanwhile
  unfoldable pub main_loop : (depth : ℕ) → List (ℕ × List PaxMessage) → Node S → Run (Node S)
  unfolding main_loop_round
  main_loop depth [] n = ok n
  main_loop depth ((elapsed, arrivals) ∷ rounds) n =
      main_loop_round depth elapsed arrivals n >>= main_loop depth rounds
