-- ===== src/Schedule/Heap.antt =====
-- EventQueue as the vector that it is, and the Scheduler's calls on it. std::push_heap and
-- std::pop_heap are arguments; `HeapLaws` is what the standard says of them under Event's
-- `operator<`.
use mathlib.Core.List.{Perm, Mem}
use paxosme.Prelude.{
  ℕ, zero, suc, ◌+◌, ◌%◌, ◌≤◌, ◌≡◌, true, false, List, [], ◌∷◌, ◌++◌, Option, none, some, length,
  if◌then◌else◌, Run, ok, fault, empty_front, out_of_fuel, ◌>>=◌,
}
use paxosme.Message.{u64_mod}
use paxosme.Schedule.Defs.{
  Event, EventType, EventHandler, Scheduler, to_int, update, is_current, has_timeout, add_event,
  dispatch, next_event_time, remove,
}

-- `pop_heap` moves the front, than which no element is later, to the back, and the rest is a heap
-- again. `push_heap` makes a heap of a heap with one element put at its back.
pub record HeapLaws (push_heap pop_heap : List Event → List Event) : Type 1 where
  pub IsHeap : List Event → Type 0
  pub empty_heap : IsHeap []
  pub front_latest :
      (x : Event) (xs : List Event)
      → IsHeap (x ∷ xs)
      → (y : Event) → Mem y (x ∷ xs)
      → y.when ≤ x.when
  pub pushed_perm :
      (v : List Event) (e : Event) → IsHeap v → Perm (push_heap (v ++ e ∷ [])) (v ++ e ∷ [])
  pub pushed_heap : (v : List Event) (e : Event) → IsHeap v → IsHeap (push_heap (v ++ e ∷ []))
  pub popped :
      (x : Event) (xs : List Event)
      → IsHeap (x ∷ xs)
      → (rest : List Event) × (pop_heap (x ∷ xs) ≡ rest ++ x ∷ []) × Perm rest xs × IsHeap rest

-- `back()` and the vector after `pop_back()`, which are undefined on an empty vector.
unfoldable pub pop_back : List Event → Run (Event × List Event)
pop_back [] = fault empty_front
pop_back (x ∷ []) = ok (x, [])
pop_back (x ∷ y ∷ ys) = pop_back (y ∷ ys) >>= λ r. ok (r.0, x ∷ r.1)

module _ (push_heap pop_heap : List Event → List Event) where
  -- EventQueue::Push
  unfoldable pub push_event : Event → List Event → List Event
  push_event e v = push_heap (v ++ e ∷ [])

  -- EventQueue::PopOne; `none` is the result `false`.
  unfoldable pub pop_one : List Event → Run (Option (Event × List Event))
  unfolding pop_back
  pop_one [] = ok none
  pop_one (x ∷ xs) = pop_back (pop_heap (x ∷ xs)) >>= λ r. ok (some r)

  -- Scheduler::AddEvent
  unfoldable pub queue_event : Scheduler → EventHandler → ℕ → EventType → Scheduler
  unfolding push_event update to_int
  queue_event s cb when event_type = record {
    event_type_id_map = update s.event_type_id_map (to_int event_type) ((s.event_id + 1) % u64_mod);
    events =
        push_event
          (record {
            callback = cb;
            when = when;
            event_type = event_type;
            event_id = (s.event_id + 1) % u64_mod;
          })
          s.events;
    event_id = (s.event_id + 1) % u64_mod;
  }

  -- The `while` of Scheduler::Dispatch. Each round takes one event, so `length v + 1` rounds are
  -- enough.
  unfoldable pub pop_current : ℕ → (ℕ → ℕ) → List Event → Run (List Event × Option Event)
  unfolding pop_one is_current
  pop_current zero m v = fault out_of_fuel
  pop_current (suc fuel) m v = pop_one v >>= λ r. elim r [
    | none ↦ ok (v, none)
    | some (e, rest) ↦ elim (is_current m e) [
      | true ↦ ok (rest, some e)
      | false ↦ pop_current fuel m rest
    ]
  ]

  -- Scheduler::Dispatch
  unfoldable pub dispatch_popped : ℕ → Scheduler → Run (Scheduler × Option Event)
  unfolding has_timeout pop_current
  dispatch_popped now s =
      if has_timeout now s.events
      then (pop_current (suc (length s.events)) s.event_type_id_map s.events >>= λ r.
          ok (record s { events = r.0 }, r.1))
      else ok (s, none)

  -- The `while` of Scheduler::NextEventTime: PopOne writes `e` and its result is not looked at.
  unfoldable pub pop_stale : ℕ → (ℕ → ℕ) → List Event → Run (List Event × ℕ)
  unfolding pop_one is_current
  pop_stale zero m v = fault out_of_fuel
  pop_stale (suc fuel) m [] = fault empty_front
  pop_stale (suc fuel) m (e ∷ es) = elim (is_current m e) [
    | true ↦ ok (e ∷ es, e.when)
    | false ↦ pop_one (e ∷ es) >>= λ r. elim r [
      | none ↦ pop_stale fuel m (e ∷ es)
      | some (x, rest) ↦ pop_stale fuel m rest
    ]
  ]

  -- Scheduler::NextEventTime on the events of the vector
  unfoldable pub next_popped_on : Scheduler → List Event → Run (Scheduler × Option ℕ)
  unfolding pop_stale
  next_popped_on s [] = ok (s, none)
  next_popped_on s (e ∷ es) =
      pop_stale (suc (length (e ∷ es))) s.event_type_id_map (e ∷ es) >>= λ r.
      ok (record s { events = r.0 }, some r.1)

  -- Scheduler::NextEventTime
  unfoldable pub next_popped : Scheduler → Run (Scheduler × Option ℕ)
  unfolding next_popped_on
  next_popped s = next_popped_on s s.events

-- A call of the Scheduler and what it hands back.
pub data Call : Type 0 where
  add : (callback : EventHandler) (when : ℕ) (event_type : EventType) → Call
  erase : EventType → Call
  take_due : (now : ℕ) → Call
  ask_next : Call

pub data Answer : Type 0 where
  done : Answer
  taken : Option Event → Answer
  next_at : Option ℕ → Answer

-- A call on the queue that is kept in order, and one on the vector.
unfoldable pub call_ordered : Call → Scheduler → Run (Answer × Scheduler)
unfolding add_event remove dispatch next_event_time
call_ordered (add cb when t) s = ok (done, add_event s cb when t)
call_ordered (erase t) s = ok (done, remove s t)
call_ordered (take_due now) s = ok (taken (dispatch now s).1, (dispatch now s).0)
call_ordered ask_next s = next_event_time s >>= λ r. ok (next_at r.1, r.0)

unfoldable pub call_vector :
    (push_heap pop_heap : List Event → List Event) → Call → Scheduler → Run (Answer × Scheduler)
unfolding queue_event remove dispatch_popped next_popped
call_vector push_heap pop_heap (add cb when t) s =
    ok (done, queue_event push_heap pop_heap s cb when t)
call_vector push_heap pop_heap (erase t) s = ok (done, remove s t)
call_vector push_heap pop_heap (take_due now) s =
    dispatch_popped push_heap pop_heap now s >>= λ r. ok (taken r.1, r.0)
call_vector push_heap pop_heap ask_next s =
    next_popped push_heap pop_heap s >>= λ r. ok (next_at r.1, r.0)

-- The answers to a sequence of calls.
unfoldable pub answers :
    (Call → Scheduler → Run (Answer × Scheduler)) → List Call → Scheduler → Run (List Answer)
answers call [] s = ok []
answers call (c ∷ cs) s = call c s >>= λ r. answers call cs r.1 >>= λ rest. ok (r.0 ∷ rest)
