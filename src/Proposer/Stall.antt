-- ===== src/Proposer/Stall.antt =====
-- How far a proposer gets, whatever is called on it and in whatever order.
use mathlib.Core.Path.{subst}
use paxosme.Prov.{ProposalProv, flush}
use paxosme.Schedule.{EventType, EventHandler, event_newvalue_timeout, new_value_timeout_callback}
use paxosme.Prelude.{
  ℕ, ◌<◌, ◌≡◌, refl, inl, inr, false, List, [], ◌∷◌, All, some, Run, ok, fault, ◌>>=◌, Bool-cases,
  Option-cases, arith,
}
use paxosme.Message.{PaxMessage, LogValue}
use paxosme.Options.{PaxosOptions, contains, get_majority_count}
use paxosme.State.Counter
use paxosme.State.Counter.{ProposalCounter}
use paxosme.Node.{Node, publish, broadcast_message}
use paxosme.Proposer.Calls.{
  Call, new_values, new_instances, new_value_timeouts, propose_timeouts, messages, dones, call, run,
  OnlySelf, IsOther, IsStuck,
}
use paxosme.Proposer.Handlers.{
  propose, new_value, on_propose_timeout, count_propose_ack, handle_propose_ack, handle_accept_ack,
  instance_done, on_new_value_timeout, handle_message,
}
use paxosme.Proposer.Status.{is_accept, offer_value}

-- A proposer's counter after the vote of its own node.
abbrev OwnVotes : ℕ → ProposalCounter → Type 0
OwnVotes k c = OnlySelf k c.promises × OnlySelf k c.rejections

own_promise_counted :
    (k : ℕ) (c : ProposalCounter) → OwnVotes k c → OwnVotes k (Counter.add_promise k c).0
unfolding Counter.add_promise contains
own_promise_counted k c (inl e, r) = ground arith
own_promise_counted k c (inr e, r) = ground arith

own_rejection_counted :
    (k : ℕ) (c : ProposalCounter) → OwnVotes k c → OwnVotes k (Counter.add_rejection k c).0
unfolding Counter.add_rejection contains
own_rejection_counted k c (p, inl e) = ground arith
own_rejection_counted k c (p, inr e) = ground arith

abbrev Ends : {S : Type 0} → Run (Node S) → Type 0
Ends (ok n) = IsStuck n
Ends (fault f) = Unit {0}

module _ {S : Type 0} where
  count-IsStuck :
      (m : PaxMessage) (n : Node S)
      → IsStuck n
      → IsStuck (record n { proposer = count_propose_ack m n })
  unfolding count_propose_ack
  count-IsStuck m n s = elim (Bool-cases m.rejected) [
    | inl turned_down ↦ rw turned_down (record {
      not_accepting = s.not_accepting;
      own_promise = (own_rejection_counted _ _ (s.own_promise, s.own_rejection)).0;
      own_rejection = (own_rejection_counted _ _ (s.own_promise, s.own_rejection)).1;
      no_request = s.no_request;
    })
    | inr granted ↦ rw granted (record {
      not_accepting = s.not_accepting;
      own_promise = (own_promise_counted _ _ (s.own_promise, s.own_rejection)).0;
      own_rejection = (own_promise_counted _ _ (s.own_promise, s.own_rejection)).1;
      no_request = s.no_request;
    })
  ]

  propose-IsStuck : (n : Node S) → IsStuck n → IsStuck (propose n)
  unfolding propose publish broadcast_message is_accept Counter.reset
  propose-IsStuck n s = record {
    not_accepting = refl;
    own_promise = inl refl;
    own_rejection = inl refl;
    no_request = ((λ e. cc), s.no_request);
  }

  propose_ack-IsStuck : (m : PaxMessage) (n : Node S) → IsStuck n → IsStuck (handle_propose_ack m n)
  unfolding handle_propose_ack publish
  propose_ack-IsStuck m n s =
      let counted = count-IsStuck m n s in
      let again = propose-IsStuck (record n { proposer = count_propose_ack m n }) counted in
      ground (arith, counted, again)

  on_timeout-IsStuck : (i : ℕ) (n : Node S) → IsStuck n → IsStuck (on_propose_timeout i n)
  unfolding on_propose_timeout
  on_timeout-IsStuck i n s = ground (arith, propose-IsStuck n s)

  with_prov-IsStuck :
      (prov : ProposalProv) (n : Node S)
      → IsStuck n
      → IsStuck (record n { proposer = record (n.proposer) { proposal_prov = some prov } })
  with_prov-IsStuck prov n s = record {
    not_accepting = s.not_accepting;
    own_promise = s.own_promise;
    own_rejection = s.own_rejection;
    no_request = s.no_request;
  }

  offered-IsStuck :
      (v : LogValue) (t : EventType) (h : EventHandler) (ms : ℕ) (n : Node S)
      → IsStuck n
      → IsStuck (publish t h ms (record n { proposer = offer_value v n.proposer }))
  unfolding publish offer_value
  offered-IsStuck v t h ms n s = ground arith

  new_value-IsStuck : (n : Node S) → IsStuck n → Ends (new_value n)
  unfolding new_value
  new_value-IsStuck n s = elim (Option-cases n.proposer.proposal_prov) [
    | inl e ↦ rw (e, new_value) tt
    | inr (p, e) ↦
        let kept = with_prov-IsStuck (flush p n.instance_id).0 n s in
        elim (Option-cases (flush p n.instance_id).1) [
          | inl f ↦ rw (e, f, new_value) kept
          | inr (v, f) ↦
              rw (e, f, new_value)
                (propose-IsStuck
                  (publish event_newvalue_timeout new_value_timeout_callback
                    (flush p n.instance_id).0.timeout_ms
                    (record n {
                      proposer =
                          offer_value v (record (n.proposer) {
                            proposal_prov = some (flush p n.instance_id).0;
                          });
                    }))
                  (offered-IsStuck v event_newvalue_timeout new_value_timeout_callback
                    (flush p n.instance_id).0.timeout_ms
                    (record n {
                      proposer = record (n.proposer) {
                        proposal_prov = some (flush p n.instance_id).0;
                      };
                    })
                    kept))
        ]
  ]

  done-IsStuck : (i : ℕ) (v : LogValue) (n : Node S) → IsStuck n → Ends (instance_done i v n)
  unfolding instance_done
  done-IsStuck i v n s = ground arith

  value_timeout-IsStuck : (n : Node S) → IsStuck n → Ends (on_new_value_timeout n)
  unfolding on_new_value_timeout
  value_timeout-IsStuck n s = ground arith

module _ {S : Type 0} (process : PaxMessage → Node S → Run (Node S)) where
  accept_ack_stops :
      (m : PaxMessage) (n : Node S) → IsStuck n → handle_accept_ack process m n ≡ ok n
  unfolding handle_accept_ack
  accept_ack_stops m n s = ground arith

  message-IsStuck : (m : PaxMessage) (n : Node S) → IsStuck n → Ends (handle_message process m n)
  unfolding handle_message
  message-IsStuck m n s = ground (arith, accept_ack_stops m n s, propose_ack-IsStuck m n s)

  call-IsStuck : (c : Call) (n : Node S) → IsStuck n → Ends (call process c n)
  unfolding call Counter.reset is_accept
  call-IsStuck new_values n s = new_value-IsStuck n s
  call-IsStuck new_instances n s = record {
    not_accepting = refl;
    own_promise = inl refl;
    own_rejection = inl refl;
    no_request = s.no_request;
  }
  call-IsStuck new_value_timeouts n s = value_timeout-IsStuck n s
  call-IsStuck (propose_timeouts i) n s = on_timeout-IsStuck i n s
  call-IsStuck (messages m) n s = message-IsStuck m n s
  call-IsStuck (dones i v) n s = done-IsStuck i v n s

  Ends-bind :
      (r : Run (Node S)) (f : Node S → Run (Node S))
      → Ends r
      → ((n : Node S) → IsStuck n → Ends (f n))
      → Ends (r >>= f)
  Ends-bind (ok n) f e h = h n e
  Ends-bind (fault x) f e h = tt

  run-IsStuck : (cs : List Call) (n : Node S) → IsStuck n → Ends (run process cs n)
  unfolding run
  run-IsStuck [] n s = s
  run-IsStuck (c ∷ cs) n s =
      Ends-bind (call process c n) (run process cs) (call-IsStuck c n s) (λ m t. run-IsStuck cs m t)

short_majority :
    (o : PaxosOptions) (k : ℕ) (c : ProposalCounter)
    → OwnVotes k c
    → 1 < get_majority_count o
    → (Counter.is_majority_promised o c ≡ false) × (Counter.is_majority_rejected o c ≡ false)
unfolding Counter.is_majority_promised Counter.is_majority_rejected
short_majority o k c v more = ground arith

-- Whatever is called on a proposer, in whatever order: from a state in which it is not
-- accepting, has broadcast no accept request and has counted no node but its own, it never gets
-- to the accept phase and never broadcasts an accept request; and where a majority takes more
-- than one node, it never finds a majority of promises or of rejections.
pub never_accepts :
    {S : Type 0} (process : PaxMessage → Node S → Run (Node S)) (cs : List Call) (n : Node S)
    {n' : Node S}
    → IsStuck n
    → run process cs n ≡ ok n'
    → (is_accept n'.proposer.status ≡ false)
      × All IsOther n'.sent
      × (1 < get_majority_count n'.options
          → (Counter.is_majority_promised n'.options n'.proposer.proposal_counter ≡ false)
            × (Counter.is_majority_rejected n'.options n'.proposer.proposal_counter ≡ false))
never_accepts process cs n {n'} s e =
    let stuck = subst Ends e (run-IsStuck process cs n s) in
    (
      stuck.not_accepting,
      stuck.no_request,
      short_majority n'.options n'.options.node_id n'.proposer.proposal_counter
          (stuck.own_promise, stuck.own_rejection),
    )
