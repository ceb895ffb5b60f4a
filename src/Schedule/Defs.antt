-- ===== src/Schedule/Defs.antt =====
-- Event, EventQueue and Scheduler. A point of the steady clock is a number of milliseconds.
--
-- `events_` is a vector kept by std::push_heap and std::pop_heap under `operator<`, which compares
-- `when`: its front is an element than which none is later. The model keeps the vector in the order
-- in which pop_heap would take its elements, the latest first; the order among equal times is the
-- one thing that the standard leaves open.
use paxosme.Prelude.{
  ℕ, ◌+◌, ◌%◌, ◌*◌, ◌^◌, Bool, false, not, List, [], ◌∷◌, Option, none, some, ltb, ◌==◌,
  if◌then◌else◌, Run, ok, fault, empty_front, ◌>>=◌,
}
use paxosme.Message.{u64_mod}

pub data EventType : Type 0 where
  event_null event_propose_timeout event_accept_timeout event_newvalue_timeout : EventType
  event_shall_i_learn event_clean_segment : EventType

-- The enumerator's number, by which EnumClassHash and the map's keys go.
unfoldable pub to_int : EventType → ℕ
to_int event_null = 0
to_int event_propose_timeout = 1
to_int event_accept_timeout = 2
to_int event_newvalue_timeout = 3
to_int event_shall_i_learn = 0x01 * 2 ^ 2
to_int event_clean_segment = 0x01 * 2 ^ 3

-- The closures that the program hands to AddEvent, with what they capture.
pub data EventHandler : Type 0 where
  propose_timeout_callback : (instance_id : ℕ) → EventHandler
  new_value_timeout_callback : EventHandler
  shall_learn : EventHandler
  delete_segment : (segment_id : ℕ) → EventHandler

pub record Event : Type 0 where
  pub callback : EventHandler
  pub when : ℕ
  pub event_type : EventType
  pub event_id : ℕ

-- EventQueue::Push
unfoldable pub push : Event → List Event → List Event
push e [] = e ∷ []
push e (x ∷ xs) = if ltb e.when x.when then x ∷ push e xs else e ∷ x ∷ xs

-- EventQueue::HasTimeout at the time `now`
unfoldable pub has_timeout : ℕ → List Event → Bool
has_timeout now [] = false
has_timeout now (e ∷ es) = not (ltb now e.when)

-- A type that is not in the map has the number 0, which is also what `operator[]` puts there.
pub record Scheduler : Type 0 where
  pub event_type_id_map : ℕ → ℕ
  pub events : List Event
  pub event_id : ℕ

-- A scheduler as `new Scheduler()` and the static instance start it.
unfoldable pub new_scheduler : Scheduler
new_scheduler = record { event_type_id_map = λ _. 0; events = []; event_id = 0 }

unfoldable pub update : (ℕ → ℕ) → ℕ → ℕ → ℕ → ℕ
update f k v j = if k == j then v else f j

-- The event is the one that its type is mapped to: it has not been replaced or removed.
unfoldable pub is_current : (ℕ → ℕ) → Event → Bool
unfolding to_int
is_current m e = m (to_int e.event_type) == e.event_id

-- Scheduler::AddEvent
unfoldable pub add_event : Scheduler → EventHandler → ℕ → EventType → Scheduler
unfolding push update to_int
add_event s cb when event_type = record {
  event_type_id_map = update s.event_type_id_map (to_int event_type) ((s.event_id + 1) % u64_mod);
  events =
      push
        (record {
          callback = cb;
          when = when;
          event_type = event_type;
          event_id = (s.event_id + 1) % u64_mod;
        })
        s.events;
  event_id = (s.event_id + 1) % u64_mod;
}

-- The `while` of Scheduler::Dispatch
unfoldable pub dispatch_loop : (ℕ → ℕ) → List Event → List Event × Option Event
unfolding is_current
dispatch_loop m [] = ([], none)
dispatch_loop m (e ∷ es) = if is_current m e then (es, some e) else dispatch_loop m es

-- Scheduler::Dispatch; `none` is the result `false`.
unfoldable pub dispatch : ℕ → Scheduler → Scheduler × Option Event
unfolding has_timeout dispatch_loop
dispatch now s =
    if has_timeout now s.events
    then (
      record s { events = (dispatch_loop s.event_type_id_map s.events).0 },
      (dispatch_loop s.event_type_id_map s.events).1,
    )
    else (s, none)

-- The `while` of Scheduler::NextEventTime: `Next` on a vector that has run empty is undefined.
unfoldable pub next_event_loop : (ℕ → ℕ) → List Event → Run (List Event × ℕ)
unfolding is_current
next_event_loop m [] = fault empty_front
next_event_loop m (e ∷ es) = if is_current m e then ok (e ∷ es, e.when) else next_event_loop m es

-- Scheduler::NextEventTime on the events of the queue; `none` is the result `false`.
unfoldable pub next_event_on : Scheduler → List Event → Run (Scheduler × Option ℕ)
unfolding next_event_loop
next_event_on s [] = ok (s, none)
next_event_on s (e ∷ es) =
    next_event_loop s.event_type_id_map (e ∷ es) >>= λ r. ok (record s { events = r.0 }, some r.1)

-- Scheduler::NextEventTime
unfoldable pub next_event_time : Scheduler → Run (Scheduler × Option ℕ)
unfolding next_event_on
next_event_time s = next_event_on s s.events

-- Scheduler::Remove
unfoldable pub remove : Scheduler → EventType → Scheduler
unfolding update to_int
remove s event_type = record s {
  event_type_id_map = update s.event_type_id_map (to_int event_type) 0;
}
