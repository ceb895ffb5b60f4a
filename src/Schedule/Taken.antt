-- ===== src/Schedule/Taken.antt =====
-- What Dispatch takes from the queue, and what it leaves.
use paxosme.Prelude.{
  ℕ, ◌<◌, ◌≡◌, refl, ◌⊎◌, inl, inr, false, List, [], ◌∷◌, Option, none, some, length, ltb,
  Bool-cases, arith,
}
use paxosme.Schedule.Defs.{Event, Scheduler, push, has_timeout, is_current, dispatch_loop, dispatch}

pub push_later :
    (now : ℕ) (e : Event) (es : List Event) → now < e.when → has_timeout now (push e es) ≡ false
unfolding has_timeout push
push_later now e [] h = ground arith
push_later now e (x ∷ es) h = elim (Bool-cases (ltb e.when x.when)) [
  | inl later ↦ rw later (ground arith)
  | inr front ↦ rw front (ground arith)
]

dispatch_loop-length :
    (m : ℕ → ℕ) (es : List Event) {e : Event}
    → (dispatch_loop m es).1 ≡ some e
    → length (dispatch_loop m es).0 < length es
unfolding dispatch_loop
dispatch_loop-length m [] h = absurd (cc)
dispatch_loop-length m (x ∷ es) {e} h = elim (Bool-cases (is_current m x)) [
  | inl live ↦ rw live (omega arith)
  | inr stale ↦
      let here : (dispatch_loop m es).1 ≡ some e = ground arith in
      let shorter = dispatch_loop-length m es here in rw stale (omega arith)
]

-- Dispatch that returns an event has taken it from the queue.
pub dispatch-length :
    (now : ℕ) (s : Scheduler) {e : Event}
    → (dispatch now s).1 ≡ some e
    → length (dispatch now s).0.events < length s.events
unfolding dispatch
dispatch-length now s {e} h = elim (Bool-cases (has_timeout now s.events)) [
  | inl due ↦
      let here : (dispatch_loop s.event_type_id_map s.events).1 ≡ some e = ground arith in
      let shorter = dispatch_loop-length s.event_type_id_map s.events here in rw due shorter
  | inr early ↦ absurd (ground arith)
]

pub dispatch_early :
    (now : ℕ) (s : Scheduler) → has_timeout now s.events ≡ false → dispatch now s ≡ (s, none)
unfolding dispatch
dispatch_early now s early = rw early refl

dispatch_loop-none :
    (m : ℕ → ℕ) (es : List Event) → (dispatch_loop m es).1 ≡ none → (dispatch_loop m es).0 ≡ []
unfolding dispatch_loop
dispatch_loop-none m [] h = refl
dispatch_loop-none m (x ∷ es) h = elim (Bool-cases (is_current m x)) [
  | inl live ↦ absurd (ground (arith, live))
  | inr stale ↦ rw stale (dispatch_loop-none m es (ground (arith, stale)))
]

-- Where Dispatch has returned nothing, it does so again.
pub dispatch_again :
    (now : ℕ) (s : Scheduler)
    → (dispatch now s).1 ≡ none
    → (dispatch now (dispatch now s).0).1 ≡ none
unfolding dispatch has_timeout
dispatch_again now s h = elim (Bool-cases (has_timeout now s.events)) [
  | inl due ↦
      let nothing : (dispatch_loop s.event_type_id_map s.events).1 ≡ none = ground (arith, due) in
      let empty = dispatch_loop-none s.event_type_id_map s.events nothing in rw (due, empty) refl
  | inr early ↦ rw (early, early) refl
]

pub Event-cases : (o : Option Event) → (o ≡ none) ⊎ ((e : Event) × (o ≡ some e))
Event-cases none = inl refl
Event-cases (some e) = inr (e, refl)
