-- ===== src/Segment/Clean.antt =====
-- AutoDispatch on the segment store's own scheduler: when a segment is deleted.
use paxosme.Prelude.{
  ℕ, ◌+◌, ◌*◌, ◌^◌, ◌%◌, ◌≤◌, ◌<◌, ◌≡◌, ◌≢◌, refl, ap, inl, inr, true, false, Option, none, some,
  List, [], ◌∷◌, ◌++◌, ltb, ◌==◌, if◌then◌else◌, Bool-cases, Bytes, length, All, arith,
}
use paxosme.Message.{u64_mod}
use paxosme.Schedule.{
  Event, EventHandler, Scheduler, delete_segment, event_clean_segment, push, has_timeout, update,
  is_current, add_event, dispatch_loop, dispatch,
}
use paxosme.Segment.Index.{parse_segment_index}
use paxosme.Segment.Store.{SegmentStore, segment_exists}
use paxosme.Segment.Layout.{Entry, size, encode}
use paxosme.Segment.Replay.{segment_clean_delay_in_seconds, remove_async, remove_file}
use paxosme.Segment.Removal.{remove_async_last}

-- The callback that RemoveAsync hands to the scheduler; the other callbacks are the players'.
unfoldable pub run_callback : EventHandler → SegmentStore → SegmentStore
unfolding remove_file
run_callback (delete_segment i) s = (remove_file i s).0
run_callback _ s = s

-- One round of AutoDispatch at the time `now`
unfoldable pub auto_dispatch : ℕ → SegmentStore → Scheduler → SegmentStore × Scheduler
unfolding dispatch run_callback
auto_dispatch now s scheduler = elim (dispatch now scheduler).1 [
  | none ↦ (s, (dispatch now scheduler).0)
  | some e ↦ (run_callback e.callback s, (dispatch now scheduler).0)
]

-- Rounds at the times of a list
unfoldable pub auto_dispatches : List ℕ → SegmentStore → Scheduler → SegmentStore × Scheduler
unfolding auto_dispatch
auto_dispatches [] s scheduler = (s, scheduler)
auto_dispatches (t ∷ ts) s scheduler =
    let round = auto_dispatch t s scheduler in auto_dispatches ts round.0 round.1

pub round_none :
    (t : ℕ) (s : SegmentStore) (scheduler later : Scheduler)
    → dispatch t scheduler ≡ (later, none)
    → auto_dispatch t s scheduler ≡ (s, later)
unfolding auto_dispatch
round_none t s scheduler later d =
    rw (auto_dispatch, ap (λ (x : Scheduler × Option Event). x.1) d)
      (ap (λ (x : Scheduler × Option Event). (s, x.0)) d)

pub round_some :
    (t : ℕ) (s : SegmentStore) (scheduler later : Scheduler) (e : Event)
    → dispatch t scheduler ≡ (later, some e)
    → auto_dispatch t s scheduler ≡ (run_callback e.callback s, later)
unfolding auto_dispatch
round_some t s scheduler later e d =
    rw (auto_dispatch, ap (λ (x : Scheduler × Option Event). x.1) d)
      (ap (λ (x : Scheduler × Option Event). (run_callback e.callback s, x.0)) d)

-- The index names the last record of a segment file that is full.
pub record IsLast (index : Bytes) (s : SegmentStore) : Type 0 where
  pub before : List Entry
  pub entry : Entry
  pub file_is :
      s.files (parse_segment_index index).segment_id ≡ some (encode (before ++ entry ∷ []))
  pub offset_is : (parse_segment_index index).offset ≡ length (encode before)
  pub size_fits : size entry < 256 ^ 8
  pub file_fits : length (encode (before ++ entry ∷ [])) < u64_mod

abbrev pub clean_time : ℕ → ℕ
clean_time now = now + 1000 * segment_clean_delay_in_seconds

pub remove_last :
    (index : Bytes) (now : ℕ) (s : SegmentStore) (scheduler : Scheduler)
    → IsLast index s
    → remove_async index now s scheduler ≡ (
      s,
      add_event scheduler
          (delete_segment (parse_segment_index index).segment_id)
          (clean_time now)
          event_clean_segment,
      true,
    )
remove_last index now s scheduler last =
    remove_async_last index now s scheduler last.before [] last.entry last.file_is last.offset_is
      last.size_fits last.file_fits

push_latest : (e : Event) (es : List Event) → All (λ x. x.when ≤ e.when) es → push e es ≡ e ∷ es
unfolding push
push_latest e [] h = refl
push_latest e (x ∷ es) h =
    let front : ltb e.when x.when ≡ false = ground (arith, h.0) in rw front refl

-- The event that a removal adds.
abbrev clean_event : ℕ → ℕ → ℕ → Event
clean_event id when number = record {
  callback = delete_segment id;
  when = when;
  event_type = event_clean_segment;
  event_id = number;
}

dispatch_added :
    (id when now : ℕ) (s : Scheduler)
    → All (λ x. x.when ≤ when) s.events
    → (now < when
        → dispatch now (add_event s (delete_segment id) when event_clean_segment)
          ≡ (add_event s (delete_segment id) when event_clean_segment, none))
      × (when ≤ now
          → (dispatch now (add_event s (delete_segment id) when event_clean_segment)).1
            ≡ some (clean_event id when ((s.event_id + 1) % u64_mod)))
unfolding dispatch add_event has_timeout dispatch_loop is_current update
dispatch_added id when now s earlier =
    let number = (s.event_id + 1) % u64_mod in
    let queue = push_latest (clean_event id when number) s.events earlier in
    ((λ early. rw queue (ground arith)), (λ due. rw queue (ground arith)))

remove_there :
    (id : ℕ) (s : SegmentStore)
    → segment_exists id s ≡ true
    → remove_file id s ≡ (record s { files = λ i. if id == i then none else s.files i }, true)
unfolding remove_file
remove_there id s e = rw (remove_file, e) refl

removed_file :
    (id : ℕ) (file : Bytes) (s : SegmentStore)
    → s.files id ≡ some file
    → ((remove_file id s).0.files id ≡ none)
      × ((i : ℕ) → i ≢ id → (remove_file id s).0.files i ≡ s.files i)
unfolding segment_exists
removed_file id file s e =
    let same : (id == id) ≡ true = ground arith in
    rw (remove_there id s (rw (segment_exists, e) refl))
      (rw same refl, (λ i ne. let other : (id == i) ≡ false = ground arith in rw other refl))

pub remove_other :
    (i id : ℕ) (s : SegmentStore) → i ≢ id → (remove_file i s).0.files id ≡ s.files id
unfolding remove_file
remove_other i id s ne = elim (Bool-cases (segment_exists i s)) [
  | inl there ↦
      let other : (i == id) ≡ false = ground arith in rw (remove_there i s there) (rw other refl)
  | inr missing ↦ rw (remove_file, missing) refl
]

-- RemoveAsync of the last record of a full segment, with no event on the scheduler that is due later
-- than ten seconds from now: a round of AutoDispatch before these ten seconds are over does nothing;
-- the first one afterwards deletes the segment's file, and no other.
pub removed_is_deleted :
    (index : Bytes) (now t : ℕ) (s : SegmentStore) (scheduler : Scheduler)
    → IsLast index s
    → All (λ x. x.when ≤ clean_time now) scheduler.events
    → (t < clean_time now
        → auto_dispatch t s (remove_async index now s scheduler).1
          ≡ (s, (remove_async index now s scheduler).1))
      × (clean_time now ≤ t
          → ((auto_dispatch t s (remove_async index now s scheduler).1).0.files
                (parse_segment_index index).segment_id
              ≡ none)
            × ((i : ℕ)
                → i ≢ (parse_segment_index index).segment_id
                → (auto_dispatch t s (remove_async index now s scheduler).1).0.files i ≡ s.files i))
unfolding auto_dispatch run_callback
removed_is_deleted index now t s scheduler last earlier =
    let id = (parse_segment_index index).segment_id in
    let added = add_event scheduler (delete_segment id) (clean_time now) event_clean_segment in
    let (waits, fires) = dispatch_added id (clean_time now) t scheduler earlier in
    let gone = removed_file id (encode (last.before ++ last.entry ∷ [])) s last.file_is in
    rw (remove_last index now s scheduler last) (
      (λ early. round_none t s added added (waits early)),
      (λ due. rw (auto_dispatch, fires due) gone),
    )
