-- ===== src/Schedule/Vector.antt =====
-- The queue as a vector under heap algorithms answers as the queue that is kept in order does.
use mathlib.Core.Logic.{∥∥₁_elim}
use mathlib.Core.List.Perm
use mathlib.Core.Path.{subst, sym}
use mathlib.Core.List.{Memᴰ, Perm, Permᴰ, Mem, mem-cons_self, mem-cons_of_mem}
use native.Mathlib.Nat.{ℕ_set}
use native.Mathlib.Bridge.{le_prop}
use native.Mathlib.Decide.{ℕ_discrete}
use paxosme.Prelude.{
  ℕ, zero, suc, ◌<◌, ◌≡◌, ap, refl, List, [], ◌∷◌, ◌++◌, All, length, arith, Run, ok, ◌>>=◌, ◌∙◌,
  fault, inl, inr, Bool-cases, not, true, false, some, ltb, zero,
}
use paxosme.Schedule.Defs.{
  Event, EventHandler, EventType, is_current, dispatch_loop, has_timeout, next_event_loop,
}
use paxosme.Schedule.Heap.{HeapLaws, pop_back, pop_one, pop_current, pop_stale}

EventHandler-discrete : Discrete EventHandler
EventHandler-discrete = hlevel (ℕ_discrete)

EventType-discrete : Discrete EventType
EventType-discrete = hlevel

Event-discrete : Discrete Event
Event-discrete = hlevel (ℕ_discrete, EventHandler-discrete, EventType-discrete)

Event-set : IsSet Event
Event-set = hlevel (Event-discrete)

-- The events lie strictly one after the other, the latest first.
abbrev pub IsStrict : List Event → Type 0
IsStrict [] = Unit {0}
IsStrict (e ∷ es) = All (λ x. x.when < e.when) es × IsStrict es

pop_back-append : (v : List Event) (e : Event) → pop_back (v ++ e ∷ []) ≡ ok (e, v)
unfolding pop_back
pop_back-append [] e = refl
pop_back-append (x ∷ []) e = refl
pop_back-append (x ∷ y ∷ ys) e = ap (λ r. r >>= λ p. ok (p.0, x ∷ p.1)) (pop_back-append (y ∷ ys) e)

pub Perm-length : {v l : List Event} → Perm v l → length v ≡ length l
Perm-length {v} {l} p = ∥∥₁_elim p (ℕ_set _ _) (λ d. count d)
  where
    count : {a b : List Event} → Permᴰ a b → length a ≡ length b
    count Permᴰ.nil = refl
    count (Permᴰ.cons e d) = ap suc (count d)
    count (Permᴰ.swap e₁ e₂) = refl
    count (Permᴰ.trans d₁ d₂) = count d₁ ∙ count d₂

-- What holds of all elements holds of a member.
pub All-mem :
    (P : Event → Type 0)
    → ((x : Event) → IsProp (P x))
    → (x : Event) (es : List Event) → All P es
    → Mem x es
    → P x
All-mem P prop x es h m = ∥∥₁_elim m (prop x) (λ d. find es h d)
  where
    find : (es : List Event) → All P es → Memᴰ x es → P x
    find [] h m = elim m [ ]
    find (y ∷ ys) h (Memᴰ.head e) = subst P (sym e) (h.0)
    find (y ∷ ys) h (Memᴰ.tail m) = find ys (h.1) m

module _ {push_heap pop_heap : List Event → List Event} (laws : HeapLaws push_heap pop_heap) where
  -- The front of the vector is the first event of the ordered queue.
  front_same :
      (x e : Event) (xs es : List Event)
      → laws.IsHeap (x ∷ xs)
      → Perm (x ∷ xs) (e ∷ es)
      → IsStrict (e ∷ es)
      → (x ≡ e) × Perm xs es
  front_same x e xs es heap perm strict =
      ∥∥₁_elim (Perm.cons-cons_cases perm) (hlevel (Event-set)) (λ c. elim c [
        | inl same ↦ same
        | inr (cs, left, right) ↦
            let before =
              All-mem (λ y. y.when < e.when) (λ y. le_prop) x es (strict.0)
                (Perm.subset (Perm.symm right) x mem-cons_self) in
            let after =
              laws.front_latest x xs heap e
                (mem-cons_of_mem x (Perm.subset (Perm.symm left) e mem-cons_self)) in
            absurd (omega arith)
      ])

  -- PopOne takes the first event of the ordered queue.
  pop_one-front :
      (x e : Event) (xs es : List Event)
      → laws.IsHeap (x ∷ xs)
      → Perm (x ∷ xs) (e ∷ es)
      → IsStrict (e ∷ es)
      → (rest : List Event) × (pop_one push_heap pop_heap (x ∷ xs) ≡ ok (some (e, rest)))
        × laws.IsHeap rest
        × Perm rest es
  unfolding pop_one
  pop_one-front x e xs es heap perm strict =
      let (rest, moved, same, kept) = laws.popped x xs heap in
      let (front, tail) = front_same x e xs es heap perm strict in
      (
        rest,
        ap (λ (w : List Event). pop_back w >>= λ r. ok (some r)) moved
            ∙ ap (λ r. r >>= λ p. ok (some p)) (pop_back-append rest x)
            ∙ ap (λ (y : Event). ok (some (y, rest))) front,
        kept,
        Perm.trans same tail,
      )

  -- One round of each loop, by the event that PopOne takes.
  pop_current_live :
      (fuel : ℕ) (m : ℕ → ℕ) (v rest : List Event) (e : Event)
      → pop_one push_heap pop_heap v ≡ ok (some (e, rest))
      → is_current m e ≡ true
      → pop_current push_heap pop_heap (suc fuel) m v ≡ ok (rest, some e)
  unfolding pop_current
  pop_current_live fuel m v rest e popped live = ground arith

  pop_current_stale :
      (fuel : ℕ) (m : ℕ → ℕ) (v rest : List Event) (e : Event)
      → pop_one push_heap pop_heap v ≡ ok (some (e, rest))
      → is_current m e ≡ false
      → pop_current push_heap pop_heap (suc fuel) m v ≡ pop_current push_heap pop_heap fuel m rest
  unfolding pop_current
  pop_current_stale fuel m v rest e popped stale = ground arith

  -- The loop of Dispatch on the vector, with as many rounds as it holds events and one more.
  pub pop_current-dispatch_loop :
      (fuel : ℕ) (m : ℕ → ℕ) (v l : List Event)
      → laws.IsHeap v
      → Perm v l
      → IsStrict l
      → length l < fuel
      → (rest : List Event) × (pop_current push_heap pop_heap fuel m v
          ≡ ok (rest, (dispatch_loop m l).1))
        × laws.IsHeap rest
        × Perm rest (dispatch_loop m l).0
  unfolding dispatch_loop
  pop_current-dispatch_loop zero m v l heap perm strict h = absurd (omega arith)
  pop_current-dispatch_loop (suc fuel) m [] [] heap perm strict h =
      ([], unfold pop_current pop_one in refl, heap, perm)
  pop_current-dispatch_loop (suc fuel) m (x ∷ xs) [] heap perm strict h =
      absurd (omega (arith, Perm-length perm))
  pop_current-dispatch_loop (suc fuel) m [] (e ∷ es) heap perm strict h =
      absurd (omega (arith, Perm-length perm))
  pop_current-dispatch_loop (suc fuel) m (x ∷ xs) (e ∷ es) heap perm strict h =
      let (rest, popped, kept, same) = pop_one-front x e xs es heap perm strict in
      elim (Bool-cases (is_current m e)) [
        | inl live ↦ rw live (rest, pop_current_live fuel m _ rest e popped live, kept, same)
        | inr stale ↦
            rw (stale, pop_current_stale fuel m _ rest e popped stale)
              (pop_current-dispatch_loop fuel m rest es kept same (strict.1) (omega arith))
      ]

  pop_stale_live :
      (fuel : ℕ) (m : ℕ → ℕ) (x : Event) (xs : List Event)
      → is_current m x ≡ true
      → pop_stale push_heap pop_heap (suc fuel) m (x ∷ xs) ≡ ok (x ∷ xs, x.when)
  unfolding pop_stale
  pop_stale_live fuel m x xs live = ground arith

  pop_stale_next :
      (fuel : ℕ) (m : ℕ → ℕ) (x e : Event) (xs rest : List Event)
      → is_current m x ≡ false
      → pop_one push_heap pop_heap (x ∷ xs) ≡ ok (some (e, rest))
      → pop_stale push_heap pop_heap (suc fuel) m (x ∷ xs)
        ≡ pop_stale push_heap pop_heap fuel m rest
  unfolding pop_stale
  pop_stale_next fuel m x e xs rest stale popped = ground arith

  -- What the loop of NextEventTime returns on the vector and on the ordered queue.
  abbrev pub NextAgrees : Run (List Event × ℕ) → Run (List Event × ℕ) → Type 0
  NextAgrees (ok (v, t)) (ok (l, u)) = laws.IsHeap v × Perm v l × IsStrict l × (t ≡ u)
  NextAgrees (ok _) (fault _) = ⊥
  NextAgrees (fault _) (ok _) = ⊥
  NextAgrees (fault f) (fault g) = f ≡ g

  pub pop_stale-next_event_loop :
      (fuel : ℕ) (m : ℕ → ℕ) (v l : List Event)
      → laws.IsHeap v
      → Perm v l
      → IsStrict l
      → length l < fuel
      → NextAgrees (pop_stale push_heap pop_heap fuel m v) (next_event_loop m l)
  unfolding next_event_loop
  pop_stale-next_event_loop zero m v l heap perm strict h = absurd (omega arith)
  pop_stale-next_event_loop (suc fuel) m [] [] heap perm strict h = unfold pop_stale in refl
  pop_stale-next_event_loop (suc fuel) m (x ∷ xs) [] heap perm strict h =
      absurd (omega (arith, Perm-length perm))
  pop_stale-next_event_loop (suc fuel) m [] (e ∷ es) heap perm strict h =
      absurd (omega (arith, Perm-length perm))
  pop_stale-next_event_loop (suc fuel) m (x ∷ xs) (e ∷ es) heap perm strict h =
      let (rest, popped, kept, same) = pop_one-front x e xs es heap perm strict in
      let (front, _) = front_same x e xs es heap perm strict in
      elim (Bool-cases (is_current m e)) [
        | inl live ↦
            rw (live, pop_stale_live fuel m x xs (ap (is_current m) front ∙ live))
              (heap, perm, strict, ap (λ (y : Event). y.when) front)
        | inr stale ↦
            rw (stale, pop_stale_next fuel m x e xs rest (ap (is_current m) front ∙ stale) popped)
              (pop_stale-next_event_loop fuel m rest es kept same (strict.1) (omega arith))
      ]

  -- Both see the same time at the front.
  pub has_timeout-perm :
      (now : ℕ) (v l : List Event)
      → laws.IsHeap v
      → Perm v l
      → IsStrict l
      → has_timeout now v ≡ has_timeout now l
  has_timeout-perm now [] [] heap perm strict = refl
  has_timeout-perm now (x ∷ xs) [] heap perm strict = absurd (omega (arith, Perm-length perm))
  has_timeout-perm now [] (e ∷ es) heap perm strict = absurd (omega (arith, Perm-length perm))
  has_timeout-perm now (x ∷ xs) (e ∷ es) heap perm strict =
      unfold has_timeout in
      ap (λ (y : Event). not (ltb now y.when)) (front_same x e xs es heap perm strict).0
