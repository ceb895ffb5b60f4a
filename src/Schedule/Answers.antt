-- ===== src/Schedule/Answers.antt =====
-- Sequences of calls of the Scheduler, on the vector and on the ordered queue.
use mathlib.Core.List.Perm
use mathlib.Core.List.{Perm, perm_append_singleton}
use paxosme.Prelude.{
  ℕ, suc, ◌+◌, ◌%◌, ◌≡◌, ◌≢◌, ap, refl, true, false, inl, inr, List, [], ◌∷◌, All, length, Option,
  none, some, Bool-cases, Run, ok, fault, ◌>>=◌, ◌∙◌, arith,
}
use paxosme.Message.{u64_mod}
use paxosme.Schedule.Defs.{
  Event, EventHandler, EventType, Scheduler, has_timeout, add_event, remove, dispatch,
  next_event_on, next_event_time, new_scheduler,
}
use paxosme.Schedule.Heap.{
  HeapLaws, Call, add, erase, take_due, ask_next, Answer, next_at, call_ordered, call_vector,
  answers, push_event, queue_event, dispatch_popped, next_popped_on, next_popped, pop_current,
}
use paxosme.Schedule.Untied.{
  push-perm, push-IsStrict, dispatch_loop-IsStrict, NoTie, Untied, then_of,
}
use paxosme.Schedule.Vector.{
  IsStrict, Perm-length, pop_current-dispatch_loop, pop_stale-next_event_loop, NextAgrees,
  has_timeout-perm,
}

module _ {push_heap pop_heap : List Event → List Event} (laws : HeapLaws push_heap pop_heap) where
  -- The vector holds the events of the ordered queue, and the rest of the scheduler is the same.
  record Same (v s : Scheduler) : Type 0 where
    heap : laws.IsHeap v.events
    perm : Perm v.events s.events
    strict : IsStrict s.events
    ids : v.event_type_id_map ≡ s.event_type_id_map
    counter : v.event_id ≡ s.event_id

  -- Two outcomes of a call.
  abbrev Agrees : Run (Answer × Scheduler) → Run (Answer × Scheduler) → Type 0
  Agrees (ok (a, v)) (ok (b, s)) = (a ≡ b) × Same v s
  Agrees (ok _) (fault _) = ⊥
  Agrees (fault _) (ok _) = ⊥
  Agrees (fault f) (fault g) = f ≡ g

  new_event : Scheduler → EventHandler → ℕ → EventType → Event
  new_event s cb when t = record {
    callback = cb;
    when = when;
    event_type = t;
    event_id = (s.event_id + 1) % u64_mod;
  }

  add-Same :
      (cb : EventHandler) (when : ℕ) (t : EventType) (v s : Scheduler)
      → All (λ x. x.when ≢ when) s.events
      → Same v s
      → Same (queue_event push_heap pop_heap v cb when t) (add_event s cb when t)
  unfolding queue_event add_event push_event new_event
  add-Same cb when t v s free same =
      let same_front : Perm (new_event v cb when t ∷ v.events) (new_event s cb when t ∷ s.events) =
        rw (same.counter) (Perm.cons (new_event s cb when t) same.perm) in
      record {
        heap = laws.pushed_heap v.events (new_event v cb when t) same.heap;
        perm = Perm.trans (laws.pushed_perm v.events (new_event v cb when t) same.heap) (
            Perm.trans (perm_append_singleton (new_event v cb when t) v.events)
              (Perm.trans same_front (Perm.symm (push-perm (new_event s cb when t) s.events))));
        strict = push-IsStrict (new_event s cb when t) s.events free same.strict;
        ids = rw (same.ids, same.counter) refl;
        counter = rw (same.counter) refl;
      }

  -- Dispatch on the vector, when an event is due.
  dispatch_popped_due :
      (now : ℕ) (v : Scheduler) (rest : List Event) (o : Option Event)
      → has_timeout now v.events ≡ true
      → pop_current push_heap pop_heap (suc (length v.events)) v.event_type_id_map v.events
        ≡ ok (rest, o)
      → dispatch_popped push_heap pop_heap now v ≡ ok (record v { events = rest }, o)
  unfolding dispatch_popped
  dispatch_popped_due now v rest o due popped = rw (due, popped) refl

  dispatch_popped_waits :
      (now : ℕ) (v : Scheduler)
      → has_timeout now v.events ≡ false
      → dispatch_popped push_heap pop_heap now v ≡ ok (v, none)
  unfolding dispatch_popped
  dispatch_popped_waits now v waits = rw (waits) refl

  dispatch-Same :
      (now : ℕ) (v s : Scheduler)
      → Same v s
      → Agrees (call_vector push_heap pop_heap (take_due now) v) (call_ordered (take_due now) s)
  unfolding call_vector call_ordered dispatch
  dispatch-Same now v s same =
      let front = has_timeout-perm laws now v.events s.events same.heap same.perm same.strict in
      elim (Bool-cases (has_timeout now s.events)) [
        | inl due ↦
            let (rest, popped, kept, perm) =
              pop_current-dispatch_loop laws (suc (length v.events)) s.event_type_id_map v.events
                s.events same.heap same.perm same.strict (omega (arith, Perm-length same.perm)) in
            let popped' =
              ap (λ m. pop_current push_heap pop_heap (suc (length v.events)) m v.events) same.ids
              ∙ popped in
            rw (due, dispatch_popped_due now v rest _ (front ∙ due) popped')
              (
                refl,
                record {
                  heap = kept;
                  perm = perm;
                  strict = dispatch_loop-IsStrict s.event_type_id_map s.events same.strict;
                  ids = same.ids;
                  counter = same.counter;
                },
              )
        | inr waits ↦ rw (waits, dispatch_popped_waits now v (front ∙ waits)) (refl, same)
      ]

  -- What NextEventTime makes of its loop's outcome.
  abbrev asked : Scheduler → Run (List Event × ℕ) → Run (Answer × Scheduler)
  asked s r =
      let answered : Run (Scheduler × Option ℕ) =
        r >>= λ p. ok (record s { events = p.0 }, some p.1) in
      answered >>= λ p. ok (next_at p.1, p.0)

  -- The two outcomes of NextEventTime's loop, put back into their schedulers.
  ask-NextAgrees :
      (v s : Scheduler) (r q : Run (List Event × ℕ))
      → v.event_type_id_map ≡ s.event_type_id_map
      → v.event_id ≡ s.event_id
      → NextAgrees laws r q
      → Agrees (asked v r) (asked s q)
  ask-NextAgrees v s (ok p) (ok p') ids counter (heap, perm, strict, time) = (
    ap (λ (t : ℕ). next_at (some t)) time,
    record { heap = heap; perm = perm; strict = strict; ids = ids; counter = counter },
  )
  ask-NextAgrees v s (ok _) (fault _) ids counter h = elim h [ ]
  ask-NextAgrees v s (fault _) (ok _) ids counter h = elim h [ ]
  ask-NextAgrees v s (fault f) (fault g) ids counter h = h

  ask-on :
      (v s : Scheduler) (lv ls : List Event)
      → Same v s
      → laws.IsHeap lv
      → Perm lv ls
      → IsStrict ls
      → Agrees
          (next_popped_on push_heap pop_heap v lv >>= λ r. ok (next_at r.1, r.0))
          (next_event_on s ls >>= λ r. ok (next_at r.1, r.0))
  unfolding next_popped_on next_event_on
  ask-on v s [] [] same heap perm strict = (refl, same)
  ask-on v s (x ∷ xs) [] same heap perm strict = absurd (omega (arith, Perm-length perm))
  ask-on v s [] (e ∷ es) same heap perm strict = absurd (omega (arith, Perm-length perm))
  ask-on v s (x ∷ xs) (e ∷ es) same heap perm strict =
      ask-NextAgrees v s _ _ same.ids same.counter (
        rw (same.ids) (
          pop_stale-next_event_loop laws (suc (length (x ∷ xs))) s.event_type_id_map (x ∷ xs)
            (e ∷ es) heap perm strict (omega (arith, Perm-length perm))))

  ask-Same :
      (v s : Scheduler)
      → Same v s
      → Agrees (call_vector push_heap pop_heap ask_next v) (call_ordered ask_next s)
  unfolding call_vector call_ordered next_event_time next_popped
  ask-Same v s same = ask-on v s v.events s.events same same.heap same.perm same.strict

  call-Same :
      (c : Call) (v s : Scheduler)
      → NoTie c s
      → Same v s
      → Agrees (call_vector push_heap pop_heap c v) (call_ordered c s)
  unfolding call_vector call_ordered remove
  call-Same (add cb when t) v s free same = (refl, add-Same cb when t v s free same)
  call-Same (erase t) v s free same = (
    refl,
    record {
      heap = same.heap;
      perm = same.perm;
      strict = same.strict;
      ids = rw (same.ids) refl;
      counter = same.counter;
    },
  )
  call-Same (take_due now) v s free same = dispatch-Same now v s same
  call-Same ask_next v s free same = ask-Same v s same

  -- A call and the calls after it.
  bind-Agrees :
      {B : Type 0} (r q : Run (Answer × Scheduler)) (f g : Answer → Scheduler → Run B)
      → Agrees r q
      → ((a : Answer) (v s : Scheduler) → Same v s → q ≡ ok (a, s) → f a v ≡ g a s)
      → (r >>= λ p. f p.0 p.1) ≡ (q >>= λ p. g p.0 p.1)
  bind-Agrees (ok (a, v)) (ok (b, s)) f g (e, same) next = ap (λ c. f c v) e ∙ next b v s same refl
  bind-Agrees (ok _) (fault _) f g h next = elim h [ ]
  bind-Agrees (fault _) (ok _) f g h next = elim h [ ]
  bind-Agrees (fault f') (fault g') f g h next = ap fault h

  -- The answers from two schedulers that hold the same.
  answers-Same :
      (cs : List Call) (v s : Scheduler)
      → Untied cs s
      → Same v s
      → answers (call_vector push_heap pop_heap) cs v ≡ answers call_ordered cs s
  unfolding answers
  answers-Same [] v s free same = refl
  answers-Same (c ∷ cs) v s free same =
      bind-Agrees (call_vector push_heap pop_heap c v) (call_ordered c s)
        (λ a w. answers (call_vector push_heap pop_heap) cs w >>= λ rest. ok (a ∷ rest))
        (λ a w. answers call_ordered cs w >>= λ rest. ok (a ∷ rest)) (call-Same c v s (free.0) same)
        (λ a w t same' called.
          ap (λ r. r >>= λ rest. ok (a ∷ rest))
            (answers-Same cs w t (then_of (Untied cs) called (free.1)) same'))

  new_scheduler-Same : Same new_scheduler new_scheduler
  unfolding new_scheduler
  new_scheduler-Same = record {
    heap = laws.empty_heap;
    perm = Perm.refl [];
    strict = tt;
    ids = refl;
    counter = refl;
  }

  -- With any push_heap and pop_heap that do what the standard says, a new scheduler over a
  -- vector kept as a heap gives any sequence of calls of AddEvent, Remove, Dispatch and
  -- NextEventTime the same answers as one over a queue in the order of time, as long as no event
  -- is added at the time of one that waits.
  pub heap_answers_same :
      (cs : List Call)
      → Untied cs new_scheduler
      → answers (call_vector push_heap pop_heap) cs new_scheduler
        ≡ answers call_ordered cs new_scheduler
  heap_answers_same cs free = answers-Same cs new_scheduler new_scheduler free new_scheduler-Same
