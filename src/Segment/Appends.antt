-- ===== src/Segment/Appends.antt =====
-- Append as a step on the list of records, over the whole of its branches that write.
use mathlib.Core.List.{append-nil}
use paxosme.Prelude.{
  ℕ, ◌+◌, ◌-◌, ◌^◌, ◌≤◌, ◌<◌, ◌≡◌, refl, sym, ap, ◌∙◌, inl, inr, Bool, true, false, Option, none,
  some, List, [], ◌∷◌, ◌++◌, ltb, leb, Bool-cases, Bytes, length, take, replicate, length-append,
  length-take, take_front_part, ok, arith,
}
use paxosme.Segment.Index.{to_segment_index}
use paxosme.Segment.Files.{write_at, truncate}
use paxosme.Segment.Store.{
  SegmentStore, set_file, segment_exists, update_metadata, new_segment, make_room, write_record,
  append,
}
use paxosme.Segment.Ready.{set_file_same, copy_key_lem, can_pad_lem}
use paxosme.Segment.Agree.{set_file_other}
use paxosme.Segment.Layout.{Entry, encode}
use paxosme.Segment.Contents.{IsLog, SameOptions, free_none, padded_file, write_record-IsLog}

truncate_at_end :
    (records : Bytes) (zeros : ℕ)
    → truncate (length records) (records ++ replicate zeros 0) ≡ records
unfolding truncate
truncate_at_end records zeros =
    let no_gap : length records - length (records ++ replicate zeros 0) ≡ 0 =
      omega (arith, length-append records (replicate zeros 0)) in
    rw (take_front_part (length records) records (replicate zeros 0) refl, no_gap)
      (append-nil records)

-- What NewSegment leaves where the next segment is free.
new_segment-IsLog :
    (crc32 : Bytes → ℕ) (s : SegmentStore)
    → ((i : ℕ) → s.cur_segment_id < i → s.files i ≡ none)
    → s.cur_segment_id + 2 < 2 ^ 31
    → 0 < s.segment_max_size
    → s.segment_max_size < 2 ^ 31
    → ((new_segment crc32 s).1 ≡ true)
      × ((new_segment crc32 s).0.cur_segment_id ≡ s.cur_segment_id + 1)
      × ((new_segment crc32 s).0.cur_segment_offset ≡ 0)
      × ((new_segment crc32 s).0.cur_segment_file_size ≡ s.segment_max_size)
      × SameOptions s (new_segment crc32 s).0
      × ((new_segment crc32 s).0.files s.cur_segment_id ≡ s.files s.cur_segment_id)
      × IsLog (new_segment crc32 s).0 []
unfolding new_segment update_metadata encode
new_segment-IsLog crc32 s later id_fits pos small =
    let next = s.cur_segment_id + 1 in
    let max = s.segment_max_size in
    let free : segment_exists next s ≡ false = free_none next s (later next (omega arith)) in
    let blank : Bytes = write_at (max - 1) (0 ∷ []) [] in
    let s' : SegmentStore = record (update_metadata crc32 s) {
      cur_segment_id = next;
      files = set_file next blank s.files;
      cur_segment_file_size = max;
      cur_segment_offset = 0;
    } in
    let s'-IsLog : IsLog s' [] = record {
      zeros = max;
      file_is = set_file_same next blank s.files ∙ ap some (padded_file max pos);
      offset_is = refl;
      size_is = omega arith;
      entries = tt;
      nonempty = pos;
      below_int = small;
      later_free = λ i h.
          set_file_other next i blank s.files (λ same. absurd (omega (arith, h, same)))
          ∙ later i (omega (arith, h));
      id_fits = omega (arith, id_fits);
    } in
    let made : new_segment crc32 s ≡ (s', true) =
      rw (new_segment, free, can_pad_lem max pos (omega (arith, small))) refl in
    rw made (
      refl,
      refl,
      refl,
      refl,
      (refl, refl),
      set_file_other next s.cur_segment_id blank s.files (λ same. absurd (omega (arith, same))),
      s'-IsLog,
    )

-- A segment without room is cut at the end of its records and closed.
make_room_full :
    (crc32 : Bytes → ℕ) (buffer_length : ℕ) (s : SegmentStore) (es : List Entry)
    → IsLog s es
    → ltb s.cur_segment_file_size (s.cur_segment_offset + buffer_length) ≡ true
    → s.cur_segment_id + 2 < 2 ^ 31
    → 0 < s.segment_max_size
    → s.segment_max_size < 2 ^ 31
    → (s' : SegmentStore) × (make_room crc32 buffer_length s ≡ (s', true))
      × (s'.cur_segment_id ≡ s.cur_segment_id + 1)
      × (s'.cur_segment_offset ≡ 0)
      × (s'.cur_segment_file_size ≡ s.segment_max_size)
      × SameOptions s s'
      × (s'.files s.cur_segment_id ≡ some (encode es))
      × IsLog s' []
unfolding make_room
make_room_full crc32 buffer_length s es log full id_fits pos small =
    let old : Bytes = encode es ++ replicate log.zeros 0 in
    let cut : truncate s.cur_segment_offset old ≡ encode es =
      ap (λ (k : ℕ). truncate k old) log.offset_is ∙ truncate_at_end (encode es) log.zeros in
    let closed : SegmentStore = record s {
      files = set_file s.cur_segment_id (truncate s.cur_segment_offset old) s.files;
    } in
    let later : (i : ℕ) → s.cur_segment_id < i → closed.files i ≡ none = λ i h.
      set_file_other s.cur_segment_id i (truncate s.cur_segment_offset old) s.files
        (λ same. absurd (omega (arith, h, same)))
      ∙ log.later_free i h in
    let (made, id_is, offset_is, size_is, options, kept, empty) =
      new_segment-IsLog crc32 closed later id_fits pos small in
    let room : make_room crc32 buffer_length s ≡ new_segment crc32 closed =
      rw (make_room, full, log.file_is) refl in
    (
      (new_segment crc32 closed).0,
      room ∙ ap (λ (b : Bool). ((new_segment crc32 closed).0, b)) made,
      id_is,
      offset_is,
      size_is,
      options,
      kept
          ∙ set_file_same s.cur_segment_id (truncate s.cur_segment_offset old) s.files
          ∙ ap some cut,
      empty,
    )

-- How Append changes a store that holds the records `es` in its current segment: it adds the record,
-- or closes the segment with just `es` in it and begins the next with the record.
pub data Added (s : SegmentStore) (es : List Entry) (e : Entry) (stored : SegmentStore)
    : Type 0 where
  same_segment :
      stored.cur_segment_id ≡ s.cur_segment_id
      → SameOptions s stored
      → IsLog stored (es ++ e ∷ [])
      → Added s es e stored
  next_segment :
      stored.cur_segment_id ≡ s.cur_segment_id + 1
      → SameOptions s stored
      → stored.files s.cur_segment_id ≡ some (encode es)
      → IsLog stored (e ∷ [])
      → Added s es e stored

pair_of :
    {w : SegmentStore × Option Bytes} {index : Bytes}
    → w.1 ≡ some index
    → ok w ≡ ok (w.0, some index)
pair_of e = cc

-- On a store whose current segment holds the records `es`, whose maximal segment size is below
-- 2^31 and whose segment ids are not used up, a key of at least index_key_length bytes, which is
-- not zero, and a value that fits a segment are appended as one record: behind `es` where there
-- is room, else in the next segment, and then the closed one holds just `es`.
pub append_adds :
    (crc32 : Bytes → ℕ) (key value : Bytes) (s : SegmentStore) (es : List Entry)
    → IsLog s es
    → 0 < s.index_key_length
    → s.index_key_length ≤ length key
    → 8 + (s.index_key_length + length value) ≤ s.segment_max_size
    → s.segment_max_size < 2 ^ 31
    → s.cur_segment_id + 2 < 2 ^ 31
    → (stored : SegmentStore) × (index : Bytes) × (append crc32 key value s
        ≡ ok (stored, some index))
      × Added s es (take s.index_key_length key, value) stored
unfolding append make_room
append_adds crc32 key value s es log pos long fits small id_fits =
    let b = 8 + (s.index_key_length + length value) in
    let k : Bytes = take s.index_key_length key in
    let cut : length k ≡ s.index_key_length = length-take s.index_key_length key long in
    let fits_max : ltb s.segment_max_size b ≡ false = ground arith in
    let index_in : SegmentStore → Bytes = λ t. to_segment_index (record {
      segment_id = t.cur_segment_id;
      offset = t.cur_segment_offset;
      checksum = crc32 (k ++ value);
    }) in
    let copied = copy_key_lem s.index_key_length key long in
    elim (Bool-cases (ltb s.cur_segment_file_size (s.cur_segment_offset + b))) [
      | inl full ↦
          let (s', room, id_is, offset_is, size_is, options, kept, empty) =
            make_room_full crc32 b s es log full id_fits (omega arith) small in
          let (index_is, same_id, same, others, written) =
            write_record-IsLog crc32 k value s' [] empty (cut ∙ sym options.0) (rw options.0 pos)
              (omega (arith, offset_is, size_is, options.0)) in
          let id_small : leb (2 ^ 31) s'.cur_segment_id ≡ false = ground (arith, id_is) in
          (
            (write_record crc32 k value s').0,
            index_in s',
            rw (append, fits_max, room, id_small, copied) (pair_of index_is),
            next_segment (same_id ∙ id_is) (same.0 ∙ options.0, same.1 ∙ options.1)
                (others s.cur_segment_id (λ e. absurd (omega (arith, e, id_is))) ∙ kept) written,
          )
      | inr enough ↦
          let room : make_room crc32 b s ≡ (s, true) = rw (make_room, enough) refl in
          let (index_is, same_id, same, others, written) =
            write_record-IsLog crc32 k value s es log cut pos (ground arith) in
          let id_small : leb (2 ^ 31) s.cur_segment_id ≡ false = ground arith in
          (
            (write_record crc32 k value s).0,
            index_in s,
            rw (append, fits_max, room, id_small, copied) (pair_of index_is),
            same_segment same_id same written,
          )
    ]

-- What a reader of `Added` needs of the new store.
pub Added-options :
    {s stored : SegmentStore} {es : List Entry} {e : Entry}
    → Added s es e stored
    → SameOptions s stored
Added-options (same_segment _ same _) = same
Added-options (next_segment _ same _ _) = same
