-- ===== src/Proposer/Tests.antt =====
-- The proposer of `Samples`.
use paxosme.Prelude.{◌≡◌, refl, inl, false, [], ◌∷◌, List, Bytes, Run, ok}
use paxosme.Message.{PaxMessage}
use paxosme.State.Counter.{new_counter}
use paxosme.Node.{Node}
use paxosme.Samples.{sample_node}
use paxosme.Proposer.Handlers.{propose, on_propose_timeout}
use paxosme.Proposer.Status.{is_accept}
use paxosme.Proposer.Calls.{IsStuck, call, run, propose_timeouts}
use paxosme.Proposer.Stall.{never_accepts}

abbrev unprocessed : PaxMessage → Node (List (Bytes × Bytes)) → Run (Node (List (Bytes × Bytes)))
unprocessed m n = ok n

sample-IsStuck : IsStuck sample_node
unfolding is_accept new_counter
sample-IsStuck = record {
  not_accepting = refl;
  own_promise = inl refl;
  own_rejection = inl refl;
  no_request = tt;
}

never_accepts_example : is_accept (propose sample_node).proposer.status ≡ false
unfolding run call on_propose_timeout
never_accepts_example =
    (never_accepts unprocessed (propose_timeouts 4 ∷ []) sample_node sample-IsStuck refl).0
