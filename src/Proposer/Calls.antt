-- ===== src/Proposer/Calls.antt =====
-- The calls on a proposer, one after the other, and what keeps it from its accept phase.
use paxosme.Prelude.{ℕ, ◌≡◌, ◌≢◌, ◌⊎◌, false, List, [], ◌∷◌, All, Run, ok, ◌>>=◌}
use paxosme.Message.{PaxMessage, LogValue, msg_accept_broadcast}
use paxosme.Node.{Node, Sent, broadcast, send}
use paxosme.Proposer.Handlers.{
  new_value, on_propose_timeout, new_instance, instance_done, on_new_value_timeout, handle_message,
}
use paxosme.Proposer.Status.{is_accept}

-- The calls that the controller and the scheduler make on a proposer.
pub data Call : Type 0 where
  new_values new_instances new_value_timeouts : Call
  propose_timeouts : (instance_id : ℕ) → Call
  messages : PaxMessage → Call
  dones : (instance_id : ℕ) → LogValue → Call

module _ {S : Type 0} (process : PaxMessage → Node S → Run (Node S)) where
  unfoldable pub call : Call → Node S → Run (Node S)
  unfolding new_value new_instance on_new_value_timeout on_propose_timeout handle_message
      instance_done
  call new_values n = new_value n
  call new_instances n = ok (new_instance n)
  call new_value_timeouts n = on_new_value_timeout n
  call (propose_timeouts i) n = ok (on_propose_timeout i n)
  call (messages m) n = handle_message process m n
  call (dones i v) n = instance_done i v n

  unfoldable pub run : List Call → Node S → Run (Node S)
  run [] n = ok n
  run (c ∷ cs) n = call c n >>= run cs

-- The set is empty or holds this node alone.
abbrev pub OnlySelf : ℕ → List ℕ → Type 0
OnlySelf k ns = (ns ≡ []) ⊎ (ns ≡ k ∷ [])

abbrev pub IsOther : Sent → Type 0
IsOther (send k m) = Unit {0}
IsOther (broadcast m) = m.message_type ≢ msg_accept_broadcast

-- The proposer is in no accept phase, has broadcast no accept request, and has counted the promises
-- and rejections of its own node alone.
pub record IsStuck {S : Type 0} (n : Node S) : Type 0 where
  pub not_accepting : is_accept n.proposer.status ≡ false
  pub own_promise : OnlySelf n.options.node_id n.proposer.proposal_counter.promises
  pub own_rejection : OnlySelf n.options.node_id n.proposer.proposal_counter.rejections
  pub no_request : All IsOther n.sent
