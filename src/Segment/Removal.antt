-- ===== src/Segment/Removal.antt =====
-- RemoveAsync on a closed segment, and the deletion of segments.
use mathlib.Core.List.{append_assoc}
use paxosme.Prelude.{
  ℕ, ◌+◌, ◌*◌, ◌%◌, ◌^◌, ◌<◌, ◌≡◌, refl, ap, ◌∙◌, true, false, some, List, [], ◌∷◌, ◌++◌, ◌==◌,
  if◌then◌else◌, Bytes, length, take, drop, length-append, take_front_part, drop_front_part, arith,
}
use paxosme.Message.{u64_mod}
use paxosme.Schedule.{Scheduler, add_event, delete_segment, event_clean_segment}
use paxosme.Segment.Index.{Place, le_bytes, length-le_bytes, le_value-le_bytes, parse_segment_index}
use paxosme.Segment.Files.{read_at}
use paxosme.Segment.Store.{SegmentStore}
use paxosme.Segment.Layout.{Entry, size, encode_entry, encode, length-encode_entry, encode-append}
use paxosme.Segment.Replay.{segment_clean_delay_in_seconds, remove_async}

-- The size field of a record, and where the record lies in the file.
pub entry_at :
    (before after : List Entry) (e : Entry)
    → size e < 256 ^ 8
    → (take 8 (drop (length (encode before)) (encode (before ++ e ∷ after))) ≡ le_bytes 8 (size e))
      × (length (encode (before ++ e ∷ after))
          ≡ length (encode before) + 8 + size e + length (encode after))
unfolding encode encode_entry
entry_at before after e small =
    let whole : encode (before ++ e ∷ after) ≡ encode before ++ (encode_entry e ++ encode after) =
      encode-append before (e ∷ after) in
    let here : drop (length (encode before)) (encode (before ++ e ∷ after))
        ≡ le_bytes 8 (size e) ++ ((e.0 ++ e.1) ++ encode after) =
      ap (drop (length (encode before))) whole
      ∙ drop_front_part (length (encode before)) (encode before) (encode_entry e ++ encode after)
          refl
      ∙ append_assoc (le_bytes 8 (size e)) (e.0 ++ e.1) (encode after) in
    (
      ap (take 8) here ∙ take_front_part 8 _ _ (length-le_bytes 8 (size e)),
      ap length whole
          ∙ omega (
            arith,
            length-append (encode before) (encode_entry e ++ encode after),
            length-append (encode_entry e) (encode after),
            length-encode_entry e,
          ),
    )

remove_found :
    (index file : Bytes) (p : Place) (now kv_size : ℕ) (s : SegmentStore) (scheduler : Scheduler)
    → parse_segment_index index ≡ p
    → s.files p.segment_id ≡ some file
    → take 8 (drop p.offset file) ≡ le_bytes 8 kv_size
    → kv_size < 256 ^ 8
    → remove_async index now s scheduler ≡ (
        if (p.offset + 8 + kv_size) % u64_mod == length file
        then (
          s,
          add_event scheduler
              (delete_segment p.segment_id)
              (now + 1000 * segment_clean_delay_in_seconds)
              event_clean_segment,
          true,
        )
        else (s, scheduler, true))
unfolding remove_async read_at
remove_found index file p now kv_size s scheduler parsed at field small = rw (← parsed) (
    rw
      (
        remove_async,
        ap s.files (ap (λ (q : Place). q.segment_id) parsed) ∙ at,
        ap (λ (q : Place). take 8 (drop q.offset file)) parsed ∙ field,
        length-le_bytes 8 kv_size,
        le_value-le_bytes 8 kv_size small,
      )
      refl)

-- In a segment file below 2^64 bytes that holds records and nothing behind them, RemoveAsync of the last record
-- schedules the deletion of the segment in ten seconds, and of any other record does nothing;
-- either way it returns true and leaves the store alone.
pub remove_async_last :
    (index : Bytes) (now : ℕ) (s : SegmentStore) (scheduler : Scheduler) (before after : List Entry)
    (e : Entry)
    → s.files (parse_segment_index index).segment_id ≡ some (encode (before ++ e ∷ after))
    → (parse_segment_index index).offset ≡ length (encode before)
    → size e < 256 ^ 8
    → length (encode (before ++ e ∷ after)) < u64_mod
    → remove_async index now s scheduler ≡ (
      s,
      (elim after [
        | [] ↦
            add_event scheduler
              (delete_segment (parse_segment_index index).segment_id)
              (now + 1000 * segment_clean_delay_in_seconds)
              event_clean_segment
        | _ ∷ _ ↦ scheduler
      ]),
      true,
    )
unfolding encode
remove_async_last index now s scheduler before [] e at place small short =
    let p = parse_segment_index index in
    let (field, whole) = entry_at before [] e small in
    let last : ((p.offset + 8 + size e) % u64_mod == length (encode (before ++ e ∷ []))) ≡ true =
      ground (arith, place, whole) in
    remove_found index (encode (before ++ e ∷ [])) p now (size e) s scheduler refl at
      (ap (λ (k : ℕ). take 8 (drop k (encode (before ++ e ∷ [])))) place ∙ field) small
    ∙ rw last refl
remove_async_last index now s scheduler before (f ∷ after) e at place small short =
    let p = parse_segment_index index in
    let (field, whole) = entry_at before (f ∷ after) e small in
    let more : length (encode (f ∷ after)) ≡ 8 + size f + length (encode after) =
      rw (encode, length-append (encode_entry f) (encode after))
        (omega (arith, length-encode_entry f)) in
    let inner : ((p.offset + 8 + size e) % u64_mod == length (encode (before ++ e ∷ f ∷ after)))
        ≡ false =
      ground (arith, place, whole, more) in
    remove_found index (encode (before ++ e ∷ f ∷ after)) p now (size e) s scheduler refl at
      (ap (λ (k : ℕ). take 8 (drop k (encode (before ++ e ∷ f ∷ after)))) place ∙ field) small
    ∙ rw inner refl
