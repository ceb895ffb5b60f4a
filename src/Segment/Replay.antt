-- ===== src/Segment/Replay.antt =====
-- LogSegmentStore's Init, ReplayLog and ReplaySegment, RemoveAsync and the deletion of segments. An
-- `int` result is its 32-bit pattern, and a segment's id is below 2^31. Paths are left out: a
-- segment's file is found by its id. ReplayLog's buffer, which is on the stack and as large
-- as the file says, is taken to fit there.
use paxosme.Prelude.{
  ℕ, zero, suc, ◌+◌, ◌-◌, ◌*◌, ◌%◌, ◌^◌, Bool, true, false, not, Option, none, some, [], ◌∷◌, ltb,
  leb, ◌==◌, if◌then◌else◌, Bytes, length, take, ◌||◌, Run, ok, fault, out_of_bounds, out_of_fuel,
  assertion_failed, ◌>>=◌,
}
use paxosme.Message.{u64_mod}
use paxosme.Schedule.{Scheduler, add_event, delete_segment, event_clean_segment}
use paxosme.Segment.Index.{le_value, to_segment_index, parse_segment_index}
use paxosme.Segment.Files.{read_at, write_at}
use paxosme.Segment.Store.{SegmentStore, can_pad, set_file, segment_exists}

abbrev pub int_mod : ℕ
int_mod = 2 ^ 32

-- The pattern of -1.
abbrev pub minus_one : ℕ
minus_one = int_mod - 1

unfoldable pub is_negative : ℕ → Bool
is_negative x = leb (2 ^ 31) x

-- LogStorageOptions, but for the path.
pub record LogStorageOptions : Type 0 where
  pub segment_max_size : ℕ
  pub index_key_length : ℕ

-- What is on the disk.
pub record Disk : Type 0 where
  pub files : ℕ → Option Bytes
  pub meta : Bytes

-- PaddingIfNewSegment on the file of the current segment: the file, its size and the result, `none`
-- for -1; lseek refuses to go before the first byte, or past the greatest off_t.
unfoldable pub padding : ℕ → Bytes → Option (Bytes × ℕ × ℕ)
unfolding can_pad write_at
padding max file =
    if ltb 0 (length file)
    then some (file, length file, 0)
    else if not (can_pad max)
    then none
    else some (write_at (max - 1) (0 ∷ []) file, max, 1)

abbrev pub segment_clean_delay_in_seconds : ℕ
segment_clean_delay_in_seconds = 10

-- RemoveAsync at the time `now`. OpenSegment creates a file that is not there.
unfoldable pub remove_async : Bytes → ℕ → SegmentStore → Scheduler → SegmentStore × Scheduler × Bool
unfolding parse_segment_index read_at le_value set_file add_event
remove_async segment_index now s scheduler =
    let p = parse_segment_index segment_index in
    elim (s.files p.segment_id) [
      | none ↦ (record s { files = set_file p.segment_id [] s.files }, scheduler, false)
      | some file ↦
          let size = read_at p.offset 8 file in
          if not (length size == 8)
          then (s, scheduler, false)
          else if (p.offset + 8 + le_value size) % u64_mod == length file
          then (
            s,
            add_event scheduler (delete_segment p.segment_id)
                (now + 1000 * segment_clean_delay_in_seconds) event_clean_segment,
            true,
          )
          else (s, scheduler, true)
    ]

-- DeleteSegment: `remove` of the file.
unfoldable pub remove_file : ℕ → SegmentStore → SegmentStore × Bool
unfolding segment_exists
remove_file id s =
    if segment_exists id s
    then (record s { files = λ i. if id == i then none else s.files i }, true)
    else (s, false)

-- The `while` of DeleteSegmentBefore, from `id` down to the first that is not there; no segment has
-- a negative id.
unfoldable pub delete_loop : ℕ → SegmentStore → SegmentStore × Bool
unfolding segment_exists remove_file
delete_loop zero s = if segment_exists zero s then remove_file zero s else (s, true)
delete_loop (suc id) s =
    let rest = delete_loop id in
    if segment_exists (suc id) s
    then (if (remove_file (suc id) s).1
        then rest (remove_file (suc id) s).0
        else remove_file (suc id) s)
    else (s, true)

-- DeleteSegmentBefore
unfoldable pub delete_segment_before : ℕ → SegmentStore → SegmentStore × Bool
unfolding delete_loop
delete_segment_before id s = if leb s.cur_segment_id id then (s, false) else delete_loop id s

module _ (crc32 : Bytes → ℕ) where
  -- ReplayLog in a file: its result, and the key and the index of the record that it has read.
  unfoldable pub replay_record : ℕ → ℕ → ℕ → Bytes → Run (ℕ × Option (Bytes × Bytes))
  unfolding read_at le_value to_segment_index
  replay_record key_length segment_id offset file =
      let size = read_at offset 8 file in
      let kv_size = le_value size in
      let buffer = read_at (offset + 8) kv_size file in
      if ltb (length size) 8
      then ok (0, none)
      else if kv_size == 0
      then ok (0, none)
      else if not (length buffer == kv_size)
      then ok (0, none)
      else if ltb kv_size key_length
      then fault out_of_bounds
      else ok (
        (offset + 8 + kv_size) % int_mod,
        some (
          take key_length buffer,
          to_segment_index
              (record { segment_id = segment_id; offset = offset; checksum = crc32 buffer }),
        ),
      )

  unfoldable pub replay_log : ℕ → ℕ → SegmentStore → Run (ℕ × Option (Bytes × Bytes))
  unfolding replay_record
  replay_log segment_id offset s = elim (s.files segment_id) [
    | none ↦ ok (minus_one, none)
    | some file ↦ replay_record s.index_key_length segment_id offset file
  ]

  -- ReplaySegment from an offset; `none` is the result `false`. The fuel bounds the records.
  unfoldable pub replay_segment : (fuel : ℕ) → ℕ → ℕ → SegmentStore → Run (Option ℕ)
  unfolding replay_log is_negative
  replay_segment zero segment_id offset s = fault out_of_fuel
  replay_segment (suc fuel) segment_id offset s =
      let again = replay_segment fuel segment_id in
      replay_log segment_id offset s >>= (λ read.
        if is_negative read.0
        then ok none
        else if read.0 == 0
        then ok (some offset)
        else again read.0 s)

  -- The part of Init that opens the current segment and finds its end.
  unfoldable pub open_current : (fuel : ℕ) → SegmentStore → Run (Option SegmentStore)
  unfolding padding set_file replay_segment
  open_current fuel s =
      let file : Bytes = elim (s.files s.cur_segment_id) [ none ↦ [] | some f ↦ f ] in
      elim (padding s.segment_max_size file) [
        | none ↦ ok none
        | some (padded, size, result) ↦
            let s' = record s {
              files = set_file s.cur_segment_id padded s.files;
              cur_segment_file_size = size;
            } in
            if result == 1
            then ok (some (record s' { cur_segment_offset = 0 }))
            else (replay_segment fuel s.cur_segment_id 0 s' >>= (λ end. elim end [
              | none ↦ fault assertion_failed
              | some offset ↦ ok (some (record s' { cur_segment_offset = offset }))
            ]))
      ]

  -- Init on a new object; `none` is the result `false`. The checksum, eight bytes, is read into a
  -- variable of four.
  unfoldable pub init : (fuel : ℕ) → LogStorageOptions → Disk → Run (Option SegmentStore)
  unfolding le_value read_at open_current
  init fuel options disk =
      let id = read_at 0 4 disk.meta in
      let checksum = read_at 4 8 disk.meta in
      let opened = open_current fuel (record {
        index_key_length = options.index_key_length;
        segment_max_size = options.segment_max_size;
        cur_segment_id = le_value id;
        cur_segment_offset = 0;
        cur_segment_file_size = 0;
        files = disk.files;
        meta = disk.meta;
      }) in
      if options.index_key_length == 0
      then ok none
      else if not (length id == 0 || length id == 4)
      then ok none
      else if ltb 4 (length checksum)
      then fault out_of_bounds
      else opened
