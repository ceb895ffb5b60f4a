-- ===== src/Schedule/HeapTests.antt =====
-- Heap algorithms that keep the vector sorted, and a sequence of calls on them.
use mathlib.Core.List.Perm
use mathlib.Core.List.{Perm}
use native.Mathlib.Bridge.{le_prop}
use native.Mathlib.Nat.{le_refl}
use paxosme.Prelude.{◌≡◌, ◌≤◌, refl, List, [], ◌∷◌, ◌++◌, arith}
use paxosme.Schedule.Defs.{
  Event, push, new_scheduler, add_event, propose_timeout_callback, shall_learn,
  event_propose_timeout, event_shall_i_learn,
}
use paxosme.Schedule.Invariant.{IsSorted, push-IsSorted}
use paxosme.Schedule.Heap.{
  HeapLaws, Call, add, erase, take_due, ask_next, answers, call_vector, call_ordered,
}
use paxosme.Schedule.Vector.{All-mem}
use paxosme.Schedule.Untied.{push-perm}
use paxosme.Schedule.Answers.{heap_answers_same}

sort : List Event → List Event
sort [] = []
sort (e ∷ es) = push e (sort es)

front_to_back : List Event → List Event
front_to_back [] = []
front_to_back (x ∷ xs) = xs ++ x ∷ []

sort-IsSorted : (es : List Event) → IsSorted (sort es)
unfolding sort
sort-IsSorted [] = tt
sort-IsSorted (e ∷ es) = push-IsSorted e (sort es) (sort-IsSorted es)

sort-perm : (es : List Event) → Perm (sort es) es
unfolding sort
sort-perm [] = Perm.refl []
sort-perm (e ∷ es) = Perm.trans (push-perm e (sort es)) (Perm.cons e (sort-perm es))

sorted_laws : HeapLaws sort front_to_back
unfolding front_to_back
sorted_laws = record {
  IsHeap = IsSorted;
  empty_heap = tt;
  front_latest =
      λ x xs h y m. All-mem (λ z. z.when ≤ x.when) (λ z. le_prop) y (x ∷ xs) (le_refl _, h.0) m;
  pushed_perm = λ v e h. sort-perm (v ++ e ∷ []);
  pushed_heap = λ v e h. sort-IsSorted (v ++ e ∷ []);
  popped = λ x xs h. (xs, refl, Perm.refl xs, h.1);
}

-- A proposer's timer is set twice, the learner's once; the first of the proposer's is stale.
abbrev calls : List Call
calls =
    add (propose_timeout_callback 1) 90 event_propose_timeout
    ∷ add (propose_timeout_callback 1) 50 event_propose_timeout
    ∷ add shall_learn 20 event_shall_i_learn
    ∷ ask_next
    ∷ take_due 60
    ∷ erase event_shall_i_learn
    ∷ take_due 60
    ∷ []

heap_answers_same_example :
    answers (call_vector sort front_to_back) calls new_scheduler
    ≡ answers call_ordered calls new_scheduler
unfolding new_scheduler add_event call_ordered
heap_answers_same_example = heap_answers_same sorted_laws calls (omega arith)
