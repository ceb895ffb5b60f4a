-- ===== src/Controller/Quiet.antt =====
-- What a callback leaves alone.
use paxosme.Prelude.{
  ℕ, ◌<◌, ◌≡◌, refl, ◌∙◌, ◌⊎◌, inl, inr, false, not, ◌&&◌, some, Bool-cases, ok, arith, ◌==◌,
}
use paxosme.Prov.{ProposalProv}
use paxosme.Schedule.{
  Event, EventHandler, EventType, Scheduler, propose_timeout_callback, new_value_timeout_callback,
  delete_segment, push, has_timeout, is_current, add_event, dispatch_loop, dispatch,
  event_propose_timeout, event_shall_i_learn, remove,
}
use paxosme.Schedule
use paxosme.Store.{LogStorage, EntryCodec}
use paxosme.Node.{Node, publish, broadcast_message, withdraw}
use paxosme.Proposer.Status.{propose_timeout, is_propose, is_accept, begin_round}
use paxosme.Proposer.Handlers as Proposer
use paxosme.Learner.Follow
use paxosme.Controller.Handlers.{run_event}
use paxosme.Schedule.Taken.{push_later}
use paxosme.Schedule.Taken.{push_later}

abbrev pub HasProv : {S : Type 0} → Node S → Type 0
HasProv n = (p : ProposalProv) × (n.proposer.proposal_prov ≡ some p)

-- A node in a later state, with the same instance and nothing learned or executed since; it still has
-- a provider if it had one.
pub record Idle {S : Type 0} (n n' : Node S) : Type 0 where
  pub executed_is : n'.executed ≡ n.executed
  pub instance_is : n'.instance_id ≡ n.instance_id
  pub learned_is : n'.learner.learner_state ≡ n.learner.learner_state
  pub prov : HasProv n → HasProv n'

pub Idle-trans : {S : Type 0} {n n' n'' : Node S} → Idle n n' → Idle n' n'' → Idle n n''
Idle-trans a b = record {
  executed_is = b.executed_is ∙ a.executed_is;
  instance_is = b.instance_is ∙ a.instance_is;
  learned_is = b.learned_is ∙ a.learned_is;
  prov = λ p. b.prov (a.prov p);
}

-- A callback has left the queue as it was, or with an event in front that is not due.
pub record Quiet {S : Type 0} (n n' : Node S) : Type 0 where
  pub clock : n'.now ≡ n.now
  pub idle : Idle n n'
  pub queue :
      (n'.scheduler.events ≡ n.scheduler.events) ⊎ (has_timeout n.now n'.scheduler.events ≡ false)

publish-later :
    {S : Type 0} (t : EventType) (h : EventHandler) (delay : ℕ) (n : Node S)
    → 0 < delay
    → has_timeout n.now (publish t h delay n).scheduler.events ≡ false
unfolding publish add_event
publish-later t h delay n pos = push_later n.now _ n.scheduler.events (omega arith)

module _ {S : Type 0} where
  propose-Quiet : (n : Node S) → Quiet n (Proposer.propose n)
  unfolding Proposer.propose begin_round publish broadcast_message Proposer.generate_message
  propose-Quiet n = record {
    clock = refl;
    idle = record { executed_is = refl; instance_is = refl; learned_is = refl; prov = λ p. p };
    queue = inr (
        publish-later event_propose_timeout (propose_timeout_callback n.instance_id) propose_timeout
          n (omega arith));
  }

  on_propose_timeout-Quiet : (i : ℕ) (n : Node S) → Quiet n (Proposer.on_propose_timeout i n)
  unfolding Proposer.on_propose_timeout
  on_propose_timeout-Quiet i n = elim (Bool-cases (i == n.instance_id)) [
    | inl same ↦ rw same (propose-Quiet n)
    | inr other ↦ rw other (record {
      clock = refl;
      idle = record { executed_is = refl; instance_is = refl; learned_is = refl; prov = λ p. p };
      queue = inl refl;
    })
  ]

  shall_learn-Quiet : (n : Node S) → Quiet n (Follow.shall_learn n)
  unfolding Follow.shall_learn publish broadcast_message
  shall_learn-Quiet n = record {
    clock = refl;
    idle = record { executed_is = refl; instance_is = refl; learned_is = refl; prov = λ p. p };
    queue = inr (
        publish-later event_shall_i_learn Schedule.shall_learn Follow.shall_learn_delay n
          (omega arith));
  }

  on_new_value_timeout-Quiet :
      (n : Node S)
      → HasProv n
      → (n' : Node S) × (Proposer.on_new_value_timeout n ≡ ok n') × Quiet n n'
  unfolding Proposer.on_new_value_timeout Proposer.write_to_prov withdraw remove
  on_new_value_timeout-Quiet n (p, has) =
      elim (Bool-cases (not (is_propose n.proposer.status) && not (is_accept n.proposer.status))) [
        | inl idle ↦ (
          n,
          rw idle refl,
          record {
            clock = refl;
            idle = record {
              executed_is = refl;
              instance_is = refl;
              learned_is = refl;
              prov = λ q. q;
            };
            queue = inl refl;
          },
        )
        | inr busy ↦
            rw (busy, has)
              (
                _,
                refl,
                record {
                  clock = refl;
                  idle = record {
                    executed_is = refl;
                    instance_is = refl;
                    learned_is = refl;
                    prov = λ q. (_, refl);
                  };
                  queue = inl refl;
                },
              )
      ]

module _ {S : Type 0} ⦃db : LogStorage S⦄ ⦃codec : EntryCodec⦄ where
  -- A callback on a node with a provider ends without a fault.
  pub run_event-Quiet :
      (h : EventHandler) (n : Node S)
      → HasProv n
      → (n' : Node S) × (run_event h n ≡ ok n') × Quiet n n'
  unfolding run_event
  run_event-Quiet (propose_timeout_callback i) n prov =
      (Proposer.on_propose_timeout i n, refl, on_propose_timeout-Quiet i n)
  run_event-Quiet new_value_timeout_callback n prov = on_new_value_timeout-Quiet n prov
  run_event-Quiet Schedule.shall_learn n prov = (Follow.shall_learn n, refl, shall_learn-Quiet n)
  run_event-Quiet (delete_segment i) n prov = (
    n,
    refl,
    record {
      clock = refl;
      idle = record { executed_is = refl; instance_is = refl; learned_is = refl; prov = λ p. p };
      queue = inl refl;
    },
  )
