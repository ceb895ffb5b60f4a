-- ===== src/Controller/Rounds.antt =====
-- What the rounds of MainLoop come to.
use paxosme.Prelude.{
  ℕ, suc, ◌+◌, ◌≡◌, refl, ap, ◌∙◌, ◌⊎◌, inl, inr, false, not, List, [], ◌∷◌, Option, none, some,
  length, Bool-cases, Run, ok, fault, empty_front, ◌>>=◌, arith,
}
use paxosme.Message.{LogValue, PaxMessage}
use paxosme.Options.{proposing_authority}
use paxosme.Queue.{take_front}
use paxosme.Prov.{flush}
use paxosme.Schedule.{
  event_newvalue_timeout, new_value_timeout_callback, Event, Scheduler, next_event_loop,
  next_event_time, next_event_on, is_current,
}
use paxosme.Store.{LogStorage, EntryCodec}
use paxosme.Node.{ProposerData, Node, publish, broadcast_message}
use paxosme.Acceptor.Handlers as Acceptor
use paxosme.Proposer.Status.{begin_round, offer_value}
use paxosme.Proposer.Handlers as Proposer
use paxosme.Learner.Follow
use paxosme.Controller.Handlers.{try_new_value, add_message}
use paxosme.Controller.Routing.{handle_message-acceptor, acceptor_keeps_learner}
use paxosme.Controller.Loop.{add_messages, handle_taken, take_message, main_loop_round, main_loop}
use paxosme.Controller.Quiet.{HasProv, Idle, Idle-trans}
use paxosme.Controller.Due.{dispatch_events_ends}

-- How rounds end: in an idle node, or where NextEventTime reads the front of an empty vector.
pub data Ends {S : Type 0} (n : Node S) (r : Run (Node S)) : Type 0 where
  returns : (n' : Node S) → r ≡ ok n' → Idle n n' → Ends n r
  front_read : r ≡ fault empty_front → Ends n r

Ends-trans : {S : Type 0} {n n' : Node S} {r : Run (Node S)} → Idle n n' → Ends n' r → Ends n r
Ends-trans a (returns m e b) = returns m e (Idle-trans a b)
Ends-trans a (front_read e) = front_read e

-- One step after another.
Ends-bind :
    {S : Type 0} {n : Node S} {r : Run (Node S)} (f : Node S → Run (Node S))
    → Ends n r
    → ((n' : Node S) → Idle n n' → Ends n' (f n'))
    → Ends n (r >>= f)
Ends-bind {n} f (returns m e a) next = rw e (Ends-trans a (next m a))
Ends-bind f (front_read e) next = front_read (rw e refl)

next_event_loop-cases :
    (m : ℕ → ℕ) (es : List Event)
    → (next_event_loop m es ≡ fault empty_front)
      ⊎ ((r : List Event × ℕ) × (next_event_loop m es ≡ ok r))
unfolding next_event_loop
next_event_loop-cases m [] = inl refl
next_event_loop-cases m (e ∷ es) = elim (Bool-cases (is_current m e)) [
  | inl live ↦ inr ((e ∷ es, e.when), rw live refl)
  | inr stale ↦ rw stale (next_event_loop-cases m es)
]

next_event_on-cases :
    (s : Scheduler) (es : List Event)
    → (next_event_on s es ≡ fault empty_front)
      ⊎ ((r : Scheduler × Option ℕ) × (next_event_on s es ≡ ok r))
unfolding next_event_on
next_event_on-cases s [] = inr ((s, none), refl)
next_event_on-cases s (x ∷ es) = elim (next_event_loop-cases s.event_type_id_map (x ∷ es)) [
  | inl empty ↦ inl (rw (next_event_on, empty) refl)
  | inr ((rest, t), found) ↦
      inr ((record s { events = rest }, some t), rw (next_event_on, found) refl)
]

next_event_time_lem : (s : Scheduler) → next_event_time s ≡ next_event_on s s.events
unfolding next_event_time
next_event_time_lem s = refl

LogValue-cases : (o : Option LogValue) → (o ≡ none) ⊎ ((v : LogValue) × (o ≡ some v))
LogValue-cases none = inl refl
LogValue-cases (some v) = inr (v, refl)

offer_keeps : (v : LogValue) (p : ProposerData) → (offer_value v p).proposal_prov ≡ p.proposal_prov
unfolding offer_value
offer_keeps v p = ground arith

module _ {S : Type 0} ⦃db : LogStorage S⦄ ⦃codec : EntryCodec⦄ where
  add_messages-Idle : (ms : List PaxMessage) (n : Node S) → Idle n (add_messages ms n)
  unfolding add_messages add_message
  add_messages-Idle [] n = record {
    executed_is = refl;
    instance_is = refl;
    learned_is = refl;
    prov = λ p. p;
  }
  add_messages-Idle (m ∷ ms) n =
      let rest = add_messages-Idle ms (add_message m n) in
      record {
        executed_is = rest.executed_is;
        instance_is = rest.instance_is;
        learned_is = rest.learned_is;
        prov = rest.prov;
      }

  handle_taken-Ends :
      (depth : ℕ) (taken : Option PaxMessage) (n : Node S)
      → n.learner.learner_state.learned ≡ false
      → Ends n (handle_taken (suc depth) taken n)
  unfolding handle_taken
  handle_taken-Ends depth none n idle =
      returns n refl
        (record { executed_is = refl; instance_is = refl; learned_is = refl; prov = λ p. p })
  handle_taken-Ends depth (some m) n idle =
      let kept = acceptor_keeps_learner m n in
      returns (Acceptor.handle_message m n) (handle_message-acceptor depth m n idle) (record {
        executed_is = kept.1;
        instance_is = kept.2;
        learned_is = ap (λ l. l.learner_state) kept.0;
        prov = λ (p, e). (p, ap (λ q. q.proposal_prov) kept.3 ∙ e);
      })

  kept_core :
      (n n' : Node S)
      → n'.executed ≡ n.executed
      → n'.instance_id ≡ n.instance_id
      → n'.learner.learner_state ≡ n.learner.learner_state
      → HasProv n'
      → Idle n n'
  kept_core n n' a b c p = record {
    executed_is = a;
    instance_is = b;
    learned_is = c;
    prov = λ _. p;
  }

  new_value-Ends : (n : Node S) → HasProv n → Ends n (Proposer.new_value n)
  unfolding Proposer.new_value Proposer.propose publish broadcast_message offer_value begin_round
  new_value-Ends n (p, e) =
      let flushed = (flush p n.instance_id) in
      let kept = record n { proposer = record (n.proposer) { proposal_prov = some flushed.0 } } in
      elim (LogValue-cases (flush p n.instance_id).1) [
        | inl nothing ↦
            returns kept (rw (Proposer.new_value, e, nothing) refl)
              (kept_core n kept refl refl refl (flushed.0, refl))
        | inr (v, found) ↦
            let after = Proposer.propose (
              publish event_newvalue_timeout new_value_timeout_callback flushed.0.timeout_ms
                (record kept { proposer = offer_value v kept.proposer })) in
            returns after (rw (Proposer.new_value, e, found) refl)
              (kept_core n after refl refl refl (flushed.0, offer_keeps v kept.proposer))
      ]

  try_new_value-Ends : (n : Node S) → HasProv n → Ends n (try_new_value n)
  unfolding try_new_value
  try_new_value-Ends n prov = elim (Bool-cases (Follow.anymore_to_learn n)) [
    | inl behind ↦ rw behind (returns n refl (kept_core n n refl refl refl prov))
    | inr level ↦ rw level (elim (Bool-cases (not (proposing_authority n.options))) [
      | inl barred ↦ rw barred (returns n refl (kept_core n n refl refl refl prov))
      | inr allowed ↦ rw allowed (new_value-Ends n prov)
    ])
  ]

  round_from :
      (depth elapsed : ℕ) (arrivals : List PaxMessage) (n : Node S)
      → HasProv n
      → n.learner.learner_state.learned ≡ false
      → Ends n (take_message (suc depth) elapsed arrivals n)
  unfolding take_message
  round_from depth elapsed arrivals n prov idle =
      elim (next_event_on-cases n.scheduler n.scheduler.events) [
        | inl empty ↦ front_read (rw (take_message, next_event_time_lem n.scheduler, empty) refl)
        | inr (next, found) ↦
            let later = record n { scheduler = next.0; now = n.now + elapsed } in
            let waited = add_messages arrivals later in
            let rest = record waited { inbox = (take_front waited.inbox).0 } in
            let arrived = add_messages-Idle arrivals later in
            let same : Idle n rest = record {
              executed_is = arrived.executed_is;
              instance_is = arrived.instance_is;
              learned_is = arrived.learned_is;
              prov = arrived.prov;
            } in
            let taken =
              handle_taken-Ends depth (take_front waited.inbox).1 rest
                (ap (λ l. l.learned) arrived.learned_is ∙ idle) in
            let step : take_message (suc depth) elapsed arrivals n
                ≡ handle_taken (suc depth) (take_front waited.inbox).1 rest =
              rw (take_message, next_event_time_lem n.scheduler, found) refl in
            rw step (Ends-trans same taken)
      ]

  main_loop_round-Ends :
      (depth elapsed : ℕ) (arrivals : List PaxMessage) (n : Node S)
      → HasProv n
      → n.learner.learner_state.learned ≡ false
      → Ends n (main_loop_round (suc depth) elapsed arrivals n)
  unfolding main_loop_round
  main_loop_round-Ends depth elapsed arrivals n prov idle =
      let (n₁, ends, clock, dispatched, rest) =
        dispatch_events_ends (suc (length n.scheduler.events)) n prov (omega arith) in
      let taken =
        round_from depth elapsed arrivals n₁ (dispatched.prov prov)
          (ap (λ l. l.learned) dispatched.learned_is ∙ idle) in
      let step : main_loop_round (suc depth) elapsed arrivals n
          ≡ (take_message (suc depth) elapsed arrivals n₁ >>= try_new_value) =
        rw (main_loop_round, ends) refl in
      rw step (
        Ends-trans dispatched (
          Ends-bind try_new_value taken
            (λ n₂ after. try_new_value-Ends n₂ (after.prov (dispatched.prov prov)))))

  -- From a node with a provider whose learner has learned nothing, any number of rounds of MainLoop,
  -- whatever messages arrive and whenever, end in a node in the same instance, with nothing learned
  -- and nothing executed, or in NextEventTime reading the front of an empty vector; there is no other
  -- end.
  pub main_loop_idles :
      (depth : ℕ) (rounds : List (ℕ × List PaxMessage)) (n : Node S)
      → HasProv n
      → n.learner.learner_state.learned ≡ false
      → Ends n (main_loop (suc depth) rounds n)
  unfolding main_loop
  main_loop_idles depth [] n prov idle = returns n refl (kept_core n n refl refl refl prov)
  main_loop_idles depth ((elapsed, arrivals) ∷ rounds) n prov idle =
      Ends-bind (main_loop (suc depth) rounds)
        (main_loop_round-Ends depth elapsed arrivals n prov idle)
        (λ n' after.
          main_loop_idles depth rounds n' (after.prov prov)
            (ap (λ l. l.learned) after.learned_is ∙ idle))
