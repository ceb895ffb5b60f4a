-- ===== src/Segment/Replaced.antt =====
-- One segment that waits for its deletion is forgotten when another one comes.
use paxosme.Prelude.{
  ℕ, ◌≡◌, ◌≢◌, ◌⊎◌, refl, sym, ap, ◌∙◌, inl, inr, true, Option, none, some, List, [], ◌∷◌, ltb,
  Bool-cases, Bytes, All,
}
use paxosme.Schedule.{
  Event, EventHandler, Scheduler, delete_segment, event_clean_segment, propose_timeout_callback,
  new_value_timeout_callback, push, has_timeout, update, to_int, is_current, add_event,
  dispatch_loop, dispatch, new_scheduler,
}
use paxosme.Schedule
use paxosme.Segment.Index.{parse_segment_index}
use paxosme.Segment.Store.{SegmentStore}
use paxosme.Segment.Replay.{remove_async}
use paxosme.Segment.Clean.{
  run_callback, auto_dispatch, auto_dispatches, round_none, round_some, IsLast, clean_time,
  remove_last, remove_other,
}

-- No event that is current deletes segment `id`.
abbrev Harmless : ℕ → (ℕ → ℕ) → List Event → Type 0
Harmless id m es = All (λ e. is_current m e ≡ true → e.callback ≢ delete_segment id) es

dispatch_loop-Harmless :
    (id : ℕ) (m : ℕ → ℕ) (es : List Event)
    → Harmless id m es
    → Harmless id m (dispatch_loop m es).0
      × ((e : Event) → (dispatch_loop m es).1 ≡ some e → e.callback ≢ delete_segment id)
unfolding dispatch_loop
dispatch_loop-Harmless id m [] h = (tt, (λ e found. absurd (cc)))
dispatch_loop-Harmless id m (x ∷ es) h = elim (Bool-cases (is_current m x)) [
  | inl live ↦ rw live (
    h.1,
    (λ e found. let same : x ≡ e = cc in λ c. h.0 live (ap (λ (y : Event). y.callback) same ∙ c)),
  )
  | inr stale ↦ rw stale (dispatch_loop-Harmless id m es h.1)
]

run_callback-other :
    (id : ℕ) (h : EventHandler) (s : SegmentStore)
    → h ≢ delete_segment id
    → (run_callback h s).files id ≡ s.files id
unfolding run_callback
run_callback-other id (delete_segment i) s ne = remove_other i id s (λ e. ne (ap delete_segment e))
run_callback-other id (propose_timeout_callback _) s ne = refl
run_callback-other id new_value_timeout_callback s ne = refl
run_callback-other id Schedule.shall_learn s ne = refl

Event-cases : (o : Option Event) → (o ≡ none) ⊎ ((e : Event) × (o ≡ some e))
Event-cases none = inl refl
Event-cases (some e) = inr (e, refl)

id_of : {i j : ℕ} → delete_segment i ≡ delete_segment j → i ≡ j
id_of e = cc

auto_dispatch-Harmless :
    (id t : ℕ) (s : SegmentStore) (scheduler : Scheduler)
    → Harmless id scheduler.event_type_id_map scheduler.events
    → ((auto_dispatch t s scheduler).0.files id ≡ s.files id)
      × Harmless id
          (auto_dispatch t s scheduler).1.event_type_id_map
          (auto_dispatch t s scheduler).1.events
unfolding auto_dispatch dispatch
auto_dispatch-Harmless id t s scheduler h = elim (Bool-cases (has_timeout t scheduler.events)) [
  | inr early ↦
      let round = round_none t s scheduler scheduler (rw (dispatch, early) refl) in
      rw round (refl, h)
  | inl due ↦
      let m = scheduler.event_type_id_map in
      let (rest, taken) = dispatch_loop-Harmless id m scheduler.events h in
      elim (Event-cases (dispatch_loop m scheduler.events).1) [
        | inl nothing ↦
            let d : dispatch t scheduler
                ≡ (record scheduler { events = (dispatch_loop m scheduler.events).0 }, none) =
              rw (dispatch, due, nothing) refl in
            let round = round_none t s scheduler _ d in rw round (refl, rest)
        | inr (e, found) ↦
            let d : dispatch t scheduler
                ≡ (record scheduler { events = (dispatch_loop m scheduler.events).0 }, some e) =
              rw (dispatch, due, found) refl in
            let round = round_some t s scheduler _ e d in
            rw round (run_callback-other id e.callback s (taken e found), rest)
      ]
]

auto_dispatches-Harmless :
    (id : ℕ) (ts : List ℕ) (s : SegmentStore) (scheduler : Scheduler)
    → Harmless id scheduler.event_type_id_map scheduler.events
    → (auto_dispatches ts s scheduler).0.files id ≡ s.files id
unfolding auto_dispatches
auto_dispatches-Harmless id [] s scheduler h = refl
auto_dispatches-Harmless id (t ∷ ts) s scheduler h =
    let (same, next) = auto_dispatch-Harmless id t s scheduler h in
    auto_dispatches-Harmless id ts (auto_dispatch t s scheduler).0 (auto_dispatch t s scheduler).1
      next
    ∙ same

two_removals :
    (id id' when when' : ℕ)
    → id ≢ id'
    → Harmless id
        (add_event
          (add_event new_scheduler (delete_segment id) when event_clean_segment)
          (delete_segment id')
          when'
          event_clean_segment).event_type_id_map
        (add_event
          (add_event new_scheduler (delete_segment id) when event_clean_segment)
          (delete_segment id')
          when'
          event_clean_segment).events
unfolding add_event new_scheduler push update to_int is_current
two_removals id id' when when' ne = elim (Bool-cases (ltb when' when)) [
  | inl sooner ↦ rw sooner ((λ live. cc), ((λ live c. ne (sym (id_of c))), tt))
  | inr later ↦ rw later ((λ live c. ne (sym (id_of c))), ((λ live. cc), tt))
]

-- When the last records of two full segments are removed one after the other, with no round of
-- AutoDispatch in between, on a scheduler that is new, the file of the first segment is never deleted,
-- however many rounds of AutoDispatch there are and whenever: the second event has replaced the first.
pub earlier_segment_stays :
    (index index' : Bytes) (now now' : ℕ) (ts : List ℕ) (s : SegmentStore)
    → IsLast index s
    → IsLast index' s
    → (parse_segment_index index).segment_id ≢ (parse_segment_index index').segment_id
    → (auto_dispatches ts s
          (remove_async index' now' s (remove_async index now s new_scheduler).1).1).0.files
        (parse_segment_index index).segment_id
      ≡ s.files (parse_segment_index index).segment_id
earlier_segment_stays index index' now now' ts s last last' ne =
    let id = (parse_segment_index index).segment_id in
    let id' = (parse_segment_index index').segment_id in
    let first = add_event new_scheduler (delete_segment id) (clean_time now) event_clean_segment in
    rw (remove_last index now s new_scheduler last, remove_last index' now' s first last')
      (auto_dispatches-Harmless id ts s
        (add_event first (delete_segment id') (clean_time now') event_clean_segment)
        (two_removals id id' (clean_time now) (clean_time now') ne))
