-- ===== src/Schedule/Untied.antt =====
-- What the ordered queue keeps while no two of its events are at one time, and the calls that keep it so.
use mathlib.Core.Path.{subst}
use mathlib.Core.List.Perm
use mathlib.Core.List.{Perm}
use paxosme.Prelude.{
  ℕ, ◌<◌, ◌≡◌, ◌≢◌, inl, inr, List, [], ◌∷◌, All, ltb, Bool-cases, Run, ok, fault, arith,
}
use paxosme.Schedule.Defs.{Event, Scheduler, push, is_current, dispatch_loop}
use paxosme.Schedule.Invariant.{All-push, All-weaken}
use paxosme.Schedule.Heap.{Call, add, erase, take_due, ask_next, Answer, call_ordered}
use paxosme.Schedule.Vector.{IsStrict}

pub push-perm : (e : Event) (es : List Event) → Perm (push e es) (e ∷ es)
unfolding push
push-perm e [] = Perm.refl (e ∷ [])
push-perm e (x ∷ xs) = elim (Bool-cases (ltb e.when x.when)) [
  | inl before ↦ rw before (Perm.trans (Perm.cons x (push-perm e xs)) (Perm.swap e x xs))
  | inr after ↦ rw after (Perm.refl (e ∷ x ∷ xs))
]

pub push-IsStrict :
    (e : Event) (es : List Event)
    → All (λ x. x.when ≢ e.when) es
    → IsStrict es
    → IsStrict (push e es)
unfolding push
push-IsStrict e [] free h = (tt, tt)
push-IsStrict e (x ∷ xs) free h = elim (Bool-cases (ltb e.when x.when)) [
  | inl before ↦
      rw before
        (All-push (λ y. y.when < x.when) e xs (ground arith) h.0, push-IsStrict e xs (free.1) h.1)
  | inr after ↦
      let later : x.when < e.when = ground (arith, free.0) in
      rw after (
        (
          later,
          All-weaken (λ y. y.when < x.when) (λ y. y.when < e.when) (λ y lt. omega arith) xs h.0,
        ),
        h,
      )
]

pub dispatch_loop-IsStrict :
    (m : ℕ → ℕ) (es : List Event) → IsStrict es → IsStrict (dispatch_loop m es).0
unfolding dispatch_loop
dispatch_loop-IsStrict m [] h = tt
dispatch_loop-IsStrict m (e ∷ es) h = elim (Bool-cases (is_current m e)) [
  | inl live ↦ rw live (h.1)
  | inr stale ↦ rw stale (dispatch_loop-IsStrict m es h.1)
]

-- A call that would put an event at the time of one that waits.
abbrev pub NoTie : Call → Scheduler → Type 0
NoTie (add cb when t) s = All (λ x. x.when ≢ when) s.events
NoTie (erase t) s = Unit {0}
NoTie (take_due now) s = Unit {0}
NoTie ask_next s = Unit {0}

abbrev pub Then : Run (Answer × Scheduler) → (Scheduler → Type 0) → Type 0
Then (ok r) P = P r.1
Then (fault f) P = Unit

pub then_of :
    {r : Run (Answer × Scheduler)} {a : Answer} {s : Scheduler} (P : Scheduler → Type 0)
    → r ≡ ok (a, s)
    → Then r P
    → P s
then_of P e h = subst (λ r. Then r P) e h

-- No call of the sequence does.
abbrev pub Untied : List Call → Scheduler → Type 0
Untied [] s = Unit {0}
Untied (c ∷ cs) s = NoTie c s × Then (call_ordered c s) (Untied cs)
