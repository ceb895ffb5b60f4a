-- ===== src/Queue.antt =====
-- util/queue.hpp: SafeQueue. Each method holds the queue's mutex throughout, so it is one step.
use paxosme.Prelude.{
  ℕ, zero, suc, ◌≤◌, ◌≡◌, Bool, true, false, List, [], ◌∷◌, ◌++◌, Option, none, some, ltb, length,
  length-append, if◌then◌else◌, Run, ok, fault, empty_front, arith,
}

-- The head of the list is the front of the queue.
pub record SafeQueue {ℓ} (A : Type ℓ) : Type ℓ where
  pub items : List A
  pub limit : ℕ

module _ {ℓ} {A : Type ℓ} where
  -- TryAdd
  unfoldable pub try_add : SafeQueue A → A → SafeQueue A × Bool
  try_add q a =
      if ltb (length q.items) q.limit
      then (record q { items = q.items ++ a ∷ [] }, true)
      else (q, false)

  -- Take, at the moment when its wait is over; `none` is the result `false`.
  unfoldable pub take_front : SafeQueue A → SafeQueue A × Option A
  take_front q = elim q.items [ [] ↦ (q, none) | a ∷ rest ↦ (record q { items = rest }, some a) ]

  -- PopN: `pop` of an empty queue is undefined.
  unfoldable pub pop_n : ℕ → List A → Run (List A)
  pop_n zero items = ok items
  pop_n (suc n) [] = fault empty_front
  pop_n (suc n) (a ∷ items) = pop_n n items

  -- Front
  unfoldable pub front : SafeQueue A → Run A
  front q = elim q.items [ [] ↦ fault empty_front | a ∷ rest ↦ ok a ]

  -- A queue within its limit stays so under TryAdd, which refuses exactly at the limit and then
  -- changes nothing; an element that it takes in comes out by Take after all that were there.
  pub try_add_bounded :
      (q : SafeQueue A) (a : A)
      → length q.items ≤ q.limit
      → (length (try_add q a).0.items ≤ q.limit)
        × ((try_add q a).1 ≡ false → (length q.items ≡ q.limit) × ((try_add q a).0 ≡ q))
        × ((try_add q a).1 ≡ true → (try_add q a).0.items ≡ q.items ++ a ∷ [])
  unfolding try_add
  try_add_bounded q a h = ground (arith, length-append q.items (a ∷ []))
