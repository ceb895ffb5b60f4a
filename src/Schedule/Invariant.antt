-- ===== src/Schedule/Invariant.antt =====
-- What AddEvent, Dispatch, NextEventTime and Remove keep: the order of the queue, and event numbers
-- that do not pass the counter.
use paxosme.Prelude.{ℕ, ◌+◌, ◌≤◌, ◌<◌, inl, inr, List, [], ◌∷◌, ltb, All, Bool-cases, arith}
use paxosme.Message.{u64_mod}
use paxosme.Schedule.Defs.{
  Event, EventType, EventHandler, Scheduler, push, update, is_current, has_timeout, add_event,
  dispatch_loop, dispatch, remove, new_scheduler,
}

-- The latest event comes first.
abbrev pub IsSorted : List Event → Type 0
IsSorted [] = Unit {0}
IsSorted (e ∷ es) = All (λ x. x.when ≤ e.when) es × IsSorted es

-- Event numbers are positive and at most `n`.
abbrev pub Numbered : ℕ → Event → Type 0
Numbered n e = (0 < e.event_id) × (e.event_id ≤ n)

pub record IsValid (s : Scheduler) : Type 0 where
  pub sorted : IsSorted s.events
  pub numbered : All (Numbered s.event_id) s.events
  pub mapped : (k : ℕ) → s.event_type_id_map k ≤ s.event_id

pub All-push :
    (P : Event → Type 0) (e : Event) (es : List Event) → P e → All P es → All P (push e es)
unfolding push
All-push P e [] p ps = (p, tt)
All-push P e (x ∷ xs) p ps = elim (Bool-cases (ltb e.when x.when)) [
  | inl before ↦ rw before (ps.0, All-push P e xs p ps.1)
  | inr after ↦ rw after (p, ps)
]

pub All-weaken :
    (P Q : Event → Type 0) → ((e : Event) → P e → Q e) → (es : List Event) → All P es → All Q es
All-weaken P Q f [] ps = tt
All-weaken P Q f (e ∷ es) ps = (f e ps.0, All-weaken P Q f es ps.1)

pub push-IsSorted : (e : Event) (es : List Event) → IsSorted es → IsSorted (push e es)
unfolding push
push-IsSorted e [] h = (tt, tt)
push-IsSorted e (x ∷ xs) h = elim (Bool-cases (ltb e.when x.when)) [
  | inl before ↦
      rw before (All-push (λ y. y.when ≤ x.when) e xs (ground arith) h.0, push-IsSorted e xs h.1)
  | inr after ↦ rw after (
    (
      ground arith,
      All-weaken (λ y. y.when ≤ x.when) (λ y. y.when ≤ e.when) (λ y le. ground arith) xs h.0,
    ),
    h,
  )
]

dispatch_loop-IsSorted :
    (m : ℕ → ℕ) (es : List Event) → IsSorted es → IsSorted (dispatch_loop m es).0
unfolding dispatch_loop
dispatch_loop-IsSorted m [] h = tt
dispatch_loop-IsSorted m (e ∷ es) h = elim (Bool-cases (is_current m e)) [
  | inl live ↦ rw live (h.1)
  | inr stale ↦ rw stale (dispatch_loop-IsSorted m es h.1)
]

dispatch_loop-All :
    (P : Event → Type 0) (m : ℕ → ℕ) (es : List Event) → All P es → All P (dispatch_loop m es).0
unfolding dispatch_loop
dispatch_loop-All P m [] h = tt
dispatch_loop-All P m (e ∷ es) h = elim (Bool-cases (is_current m e)) [
  | inl live ↦ rw live (h.1)
  | inr stale ↦ rw stale (dispatch_loop-All P m es h.1)
]

pub new_scheduler-IsValid : IsValid new_scheduler
unfolding new_scheduler
new_scheduler-IsValid = record { sorted = tt; numbered = tt; mapped = λ k. omega arith }

-- AddEvent keeps the scheduler valid as long as its 64-bit counter has not run out.
pub add_event-IsValid :
    (s : Scheduler) (cb : EventHandler) (when : ℕ) (t : EventType)
    → IsValid s
    → s.event_id + 1 < u64_mod
    → IsValid (add_event s cb when t)
unfolding add_event update
add_event-IsValid s cb when t v room = record {
  sorted = push-IsSorted _ s.events v.sorted;
  numbered =
      All-push (Numbered _) _ s.events (omega arith)
        (All-weaken (Numbered s.event_id) _ (λ e h. omega arith) s.events v.numbered);
  mapped = λ k. ground (arith, v.mapped k);
}

-- Dispatch keeps it, whether or not it returns an event.
pub dispatch-IsValid : (now : ℕ) (s : Scheduler) → IsValid s → IsValid (dispatch now s).0
unfolding dispatch
dispatch-IsValid now s v = elim (Bool-cases (has_timeout now s.events)) [
  | inl due ↦ rw due (record {
    sorted = dispatch_loop-IsSorted s.event_type_id_map s.events v.sorted;
    numbered = dispatch_loop-All (Numbered s.event_id) s.event_type_id_map s.events v.numbered;
    mapped = v.mapped;
  })
  | inr waits ↦ rw waits v
]

-- Remove keeps it.
pub remove-IsValid : (s : Scheduler) (t : EventType) → IsValid s → IsValid (remove s t)
unfolding remove update
remove-IsValid s t v = record {
  sorted = v.sorted;
  numbered = v.numbered;
  mapped = λ k. ground (arith, v.mapped k);
}
