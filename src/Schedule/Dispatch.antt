-- ===== src/Schedule/Dispatch.antt =====
-- Which event Dispatch returns and when, what AddEvent and Remove make of the events that wait, and
-- where NextEventTime has no defined result.
use paxosme.Prelude.{
  ℕ, ◌+◌, ◌≤◌, ◌<◌, ◌≡◌, ◌≢◌, refl, ◌⊎◌, inl, inr, true, false, List, [], ◌∷◌, some, none, ◌==◌,
  if◌then◌else◌, All, Any, Bool-cases, ok, fault, empty_front, arith,
}
use paxosme.Message.{u64_mod}
use paxosme.Schedule.Defs.{
  Event, EventType, EventHandler, Scheduler, to_int, update, is_current, has_timeout, add_event,
  dispatch_loop, dispatch, next_event_loop, next_event_time, remove,
}
use paxosme.Schedule.Invariant.{IsSorted, Numbered, IsValid, All-weaken}

dispatch_loop-some :
    (m : ℕ → ℕ) (n : ℕ) (es : List Event) {e : Event}
    → All (λ x. x.when ≤ n) es
    → (dispatch_loop m es).1 ≡ some e
    → (e.when ≤ n) × (is_current m e ≡ true)
unfolding dispatch_loop
dispatch_loop-some m n [] h eq = absurd (cc)
dispatch_loop-some m n (x ∷ xs) {e} h eq = elim (Bool-cases (is_current m x)) [
  | inl live ↦ ground (arith, live, h.0)
  | inr stale ↦ dispatch_loop-some m n xs {e = e} h.1 (ground arith)
]

dispatch_loop-live :
    (m : ℕ → ℕ) (es : List Event)
    → Any (λ e. is_current m e ≡ true) es
    → (e : Event) × ((dispatch_loop m es).1 ≡ some e)
unfolding dispatch_loop
dispatch_loop-live m [] h = absurd h
dispatch_loop-live m (x ∷ xs) h = elim (Bool-cases (is_current m x)) [
  | inl live ↦ (x, rw live refl)
  | inr stale ↦ rw stale (dispatch_loop-live m xs (elim h [ inl e ↦ absurd (cc) | inr r ↦ r ]))
]

front_due :
    (now : ℕ) (es : List Event)
    → IsSorted es
    → has_timeout now es ≡ true
    → All (λ e. e.when ≤ now) es
unfolding has_timeout
front_due now [] h due = tt
front_due now (e ∷ es) h due = (
  ground arith,
  All-weaken (λ x. x.when ≤ e.when) (λ x. x.when ≤ now) (λ x le. ground arith) es h.0,
)

All-not-Any :
    (now : ℕ) (es : List Event) → All (λ e. e.when ≤ now) es → Any (λ e. now < e.when) es → ⊥
All-not-Any now [] a h = h
All-not-Any now (e ∷ es) a (inl late) = omega arith
All-not-Any now (e ∷ es) a (inr h) = All-not-Any now es a.1 h

-- An event that Dispatch returns is due, and is the current one of its type: it has been neither
-- replaced nor removed.
pub dispatch_due :
    (now : ℕ) (s : Scheduler) {e : Event}
    → IsValid s
    → (dispatch now s).1 ≡ some e
    → (e.when ≤ now) × (is_current s.event_type_id_map e ≡ true)
unfolding dispatch
dispatch_due now s {e} v returned = elim (Bool-cases (has_timeout now s.events)) [
  | inl due ↦
      dispatch_loop-some s.event_type_id_map now s.events {e = e}
        (front_due now s.events v.sorted due) (ground arith)
  | inr waits ↦ absurd (ground arith)
]

-- As long as any event in the queue, even a replaced one, is not due, Dispatch returns nothing and
-- leaves the scheduler alone, whatever else is due.
pub dispatch_waits_for_latest :
    (now : ℕ) (s : Scheduler)
    → IsValid s
    → Any (λ e. now < e.when) s.events
    → dispatch now s ≡ (s, none)
unfolding dispatch
dispatch_waits_for_latest now s v later = elim (Bool-cases (has_timeout now s.events)) [
  | inl due ↦ absurd (All-not-Any now s.events (front_due now s.events v.sorted due) later)
  | inr waits ↦ rw waits
]

has_timeout_of_due :
    (now : ℕ) (es : List Event) (P : Event → Type 0)
    → All (λ e. e.when ≤ now) es
    → Any P es
    → has_timeout now es ≡ true
unfolding has_timeout
has_timeout_of_due now [] P a h = absurd h
has_timeout_of_due now (e ∷ es) P a h = ground arith

-- Once every event of the queue is due, Dispatch returns one if a current one is among them.
pub dispatch_returns :
    (now : ℕ) (s : Scheduler)
    → All (λ e. e.when ≤ now) s.events
    → Any (λ e. is_current s.event_type_id_map e ≡ true) s.events
    → (e : Event) × ((dispatch now s).1 ≡ some e)
unfolding dispatch
dispatch_returns now s due live =
    rw (has_timeout_of_due now s.events (λ e. is_current s.event_type_id_map e ≡ true) due live)
      (dispatch_loop-live s.event_type_id_map s.events live)

replaced :
    (m : ℕ → ℕ) (k v n : ℕ) (es : List Event)
    → All (Numbered n) es
    → (v ≡ 0) ⊎ (n < v)
    → All
        (λ e.
          is_current (update m k v) e
          ≡ (if k == to_int e.event_type then false else is_current m e))
        es
unfolding is_current update
replaced m k v n [] h fresh = tt
replaced m k v n (e ∷ es) h fresh = (ground arith, replaced m k v n es h.1 fresh)

-- AddEvent makes every event of its type that waits in the queue stale, so that the new one stands
-- for it, and leaves the events of other types as they were.
pub add_event_replaces :
    (s : Scheduler) (cb : EventHandler) (when : ℕ) (t : EventType)
    → IsValid s
    → s.event_id + 1 < u64_mod
    → All
        (λ e.
          is_current (add_event s cb when t).event_type_id_map e
          ≡ (if to_int t == to_int e.event_type then false else is_current s.event_type_id_map e))
        s.events
unfolding add_event
add_event_replaces s cb when t v room =
    replaced s.event_type_id_map (to_int t) _ s.event_id s.events v.numbered (inr (omega arith))

-- Remove makes every event of the type stale, and leaves the others as they were.
pub remove_cancels :
    (s : Scheduler) (t : EventType)
    → IsValid s
    → All
        (λ e.
          is_current (remove s t).event_type_id_map e
          ≡ (if to_int t == to_int e.event_type then false else is_current s.event_type_id_map e))
        s.events
unfolding remove
remove_cancels s t v =
    replaced s.event_type_id_map (to_int t) 0 s.event_id s.events v.numbered (inl refl)

next_event_loop-fault :
    (m : ℕ → ℕ) (es : List Event)
    → All (λ e. is_current m e ≡ false) es
    → next_event_loop m es ≡ fault empty_front
unfolding next_event_loop
next_event_loop-fault m [] h = refl
next_event_loop-fault m (e ∷ es) h = rw h.0 (next_event_loop-fault m es h.1)

next_event_loop-live :
    (m : ℕ → ℕ) (es : List Event)
    → Any (λ e. is_current m e ≡ true) es
    → (r : List Event × ℕ) × (next_event_loop m es ≡ ok r)
unfolding next_event_loop
next_event_loop-live m [] h = absurd h
next_event_loop-live m (e ∷ es) h = elim (Bool-cases (is_current m e)) [
  | inl live ↦ ((e ∷ es, e.when), rw live)
  | inr stale ↦ rw stale (next_event_loop-live m es (elim h [ inl e ↦ absurd (cc) | inr r ↦ r ]))
]

-- NextEventTime on a queue that is not empty reads the front of an empty vector exactly when every
-- event in the queue has been replaced or removed: then it faults, and with a current event in the
-- queue it returns a time.
pub next_event_time_fault :
    (s : Scheduler)
    → s.events ≢ []
    → (All (λ e. is_current s.event_type_id_map e ≡ false) s.events
        → next_event_time s ≡ fault empty_front)
      × (Any (λ e. is_current s.event_type_id_map e ≡ true) s.events
          → (s' : Scheduler) × (t : ℕ) × (next_event_time s ≡ ok (s', some t)))
unfolding next_event_time
next_event_time_fault s some_event = (
  λ h. ground (arith, next_event_loop-fault s.event_type_id_map s.events h),
  λ h.
      let (r, found) = next_event_loop-live s.event_type_id_map s.events h in
      (record s { events = r.0 }, r.1, ground arith),
)
