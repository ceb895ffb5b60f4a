-- ===== src/Schedule/Tests.antt =====
-- Inputs at which the scheduler's theorems apply.
use paxosme.Prelude.{
  ℕ, ◌≤◌, ◌≡◌, inl, true, false, some, All, Any, ok, fault, empty_front, arith, refl,
}
use paxosme.Schedule.Defs.{
  Event, Scheduler, event_propose_timeout, event_shall_i_learn, propose_timeout_callback,
  shall_learn, add_event, dispatch, next_event_time, remove, new_scheduler, is_current,
}
use paxosme.Schedule.Invariant.{IsValid, new_scheduler-IsValid, add_event-IsValid}
use paxosme.Schedule.Dispatch.{dispatch_due, dispatch_returns, next_event_time_fault}

abbrev one_event : Scheduler
one_event = add_event new_scheduler (propose_timeout_callback 1) 50 event_propose_timeout

one_event-IsValid : IsValid one_event
unfolding new_scheduler
one_event-IsValid =
    add_event-IsValid new_scheduler _ 50 event_propose_timeout new_scheduler-IsValid (omega arith)

-- A learner's timer at 3000 beside a proposer's at 50.
abbrev two_events : Scheduler
two_events = add_event one_event shall_learn 3000 event_shall_i_learn

two_events-IsValid : IsValid two_events
unfolding new_scheduler add_event
two_events-IsValid =
    add_event-IsValid one_event shall_learn 3000 event_shall_i_learn one_event-IsValid (omega arith)

dispatch_due_example :
    (50 ≤ 60)
    × (is_current one_event.event_type_id_map (record {
      callback = propose_timeout_callback 1;
      when = 50;
      event_type = event_propose_timeout;
      event_id = 1;
    })
        ≡ true)
unfolding new_scheduler add_event dispatch
dispatch_due_example =
    dispatch_due 60 one_event
      {e = record {
        callback = propose_timeout_callback 1;
        when = 50;
        event_type = event_propose_timeout;
        event_id = 1;
      }}
      one_event-IsValid refl

dispatch_returns_example : (e : Event) × ((dispatch 3000 two_events).1 ≡ some e)
unfolding new_scheduler add_event is_current
dispatch_returns_example = dispatch_returns 3000 two_events (omega arith) (inl refl)

abbrev cancelled : Scheduler
cancelled = remove one_event event_propose_timeout

next_event_time_fault_example :
    (All (λ e. is_current cancelled.event_type_id_map e ≡ false) cancelled.events
      → next_event_time cancelled ≡ fault empty_front)
    × (Any (λ e. is_current cancelled.event_type_id_map e ≡ true) cancelled.events
        → (s' : Scheduler) × (t : ℕ) × (next_event_time cancelled ≡ ok (s', some t)))
unfolding new_scheduler remove add_event
next_event_time_fault_example = next_event_time_fault cancelled (λ e. cc)

cancelled_faults : next_event_time cancelled ≡ fault empty_front
unfolding new_scheduler remove add_event is_current
cancelled_faults = (next_event_time_fault cancelled (λ e. cc)).0 (refl, tt)
