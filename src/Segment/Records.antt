-- ===== src/Segment/Records.antt =====
-- What Append writes is what Read returns.
use mathlib.Core.List.{append_assoc}
use paxosme.Prelude.{
  leb, false, Run, length-append, length-take, ℕ, ◌+◌, ◌-◌, ◌^◌, ◌≤◌, ◌<◌, ◌≡◌, refl, sym, ap, ◌∙◌,
  false, Option, some, ◌++◌, ltb, Bytes, length, take, drop, take_front_part, drop_front_part, ok,
  arith,
}
use paxosme.Segment.Index.{
  le_value, Place, Fits, le_bytes, length-le_bytes, le_value-le_bytes, to_segment_index,
  parse_segment_index, parse-to_segment_index,
}
use paxosme.Segment.Files.{read_at, write_at, drop-write_at, drop-drop}
use paxosme.Segment.Store.{
  SegmentStore, set_file, make_room, write_record, append, read_record, read,
}
use paxosme.Segment.Ready.{IsReady, set_file_same, Open, copy_key_lem, make_room_lem}

-- The bytes at an offset, in parts.
pub read_record_lem :
    (crc32 : Bytes → ℕ) (key_length : ℕ) (p : Place) (file key value rest : Bytes)
    → drop p.offset file ≡ le_bytes 8 (key_length + length value) ++ (key ++ (value ++ rest))
    → length key ≡ key_length
    → key_length + length value < 256 ^ 8
    → p.checksum ≡ crc32 (key ++ value)
    → read_record crc32 key_length p file ≡ ok (some (key, value))
unfolding read_record read_at
read_record_lem crc32 key_length p file key value rest e hk hs hc =
    let size_read : take 8 (drop p.offset file) ≡ le_bytes 8 (key_length + length value) =
      rw e (take_front_part 8 _ _ (length-le_bytes 8 _)) in
    let after_size : drop (p.offset + 8) file ≡ key ++ (value ++ rest) =
      rw (drop-drop p.offset 8 file, e) (drop_front_part 8 _ _ (length-le_bytes 8 _)) in
    let after_key : drop (p.offset + 8 + key_length) file ≡ value ++ rest =
      rw (drop-drop (p.offset + 8) key_length file, after_size)
        (drop_front_part key_length _ _ hk) in
    let left : key_length + length value - key_length ≡ length value = omega arith in
    rw
      (
        size_read,
        le_value-le_bytes 8 _ hs,
        after_size,
        take_front_part key_length key (value ++ rest) hk,
        left,
        after_key,
        take_front_part (length value) value rest refl,
        length-le_bytes 8 (key_length + length value),
      )
      (ground arith)

pub read_place :
    (crc32 : Bytes → ℕ) (index : Bytes) (p : Place) (s : SegmentStore) (file : Bytes)
    → parse_segment_index index ≡ p
    → s.files p.segment_id ≡ some file
    → read crc32 index s ≡ read_record crc32 s.index_key_length p file
unfolding read
read_place crc32 index p s file e f =
    rw (← e) (rw (read, ap s.files (ap (λ (q : Place). q.segment_id) e) ∙ f) refl)

-- The place of a record in a store, below the current offset if it is in the current segment, and
-- what reading it gives.
unfoldable pub Stored : (Bytes → ℕ) → Place → Run (Option (Bytes × Bytes)) → SegmentStore → Type 0
Stored crc32 p result s =
    (file : Bytes) × (s.files p.segment_id ≡ some file)
    × (s.index_key_length ≤ le_value (read_at p.offset 8 file))
    × (p.segment_id ≡ s.cur_segment_id
        → p.offset + 8 + le_value (read_at p.offset 8 file) ≤ s.cur_segment_offset)
    × (read_record crc32 s.index_key_length p file ≡ result)

pub Stored-read :
    (crc32 : Bytes → ℕ) (index : Bytes) (result : Run (Option (Bytes × Bytes))) (s : SegmentStore)
    → Stored crc32 (parse_segment_index index) result s
    → read crc32 index s ≡ result
unfolding Stored
Stored-read crc32 index result s (file, at, long, below, reads) =
    read_place crc32 index (parse_segment_index index) s file refl at ∙ reads

pub size_at :
    (offset n : ℕ) (file rest : Bytes)
    → drop offset file ≡ le_bytes 8 n ++ rest
    → n < 256 ^ 8
    → le_value (read_at offset 8 file) ≡ n
unfolding read_at
size_at offset n file rest layout small =
    rw (layout, take_front_part 8 (le_bytes 8 n) rest (length-le_bytes 8 n))
      (le_value-le_bytes 8 n small)

write_stores :
    (crc32 : Bytes → ℕ) (key value : Bytes) (s : SegmentStore)
    → ((b : Bytes) → crc32 b < 2 ^ 32)
    → Open (length key) s
    → length key + length value < 256 ^ 8
    → (stored : SegmentStore) × (index : Bytes) × (write_record crc32 key value s
        ≡ (stored, some index))
      × Stored crc32 (parse_segment_index index) (ok (some (key, value))) stored
unfolding write_record Stored
write_stores crc32 key value s bounded (file, is_open, within, id_fits, offset_fits, same_length)
      fits =
    let buffer : Bytes = le_bytes 8 (s.index_key_length + length value) ++ (key ++ value) in
    let written : Bytes = write_at s.cur_segment_offset buffer file in
    let p : Place = record {
      segment_id = s.cur_segment_id;
      offset = s.cur_segment_offset;
      checksum = crc32 (key ++ value);
    } in
    let p-Fits : Fits p = record {
      id_fits = id_fits;
      offset_fits = offset_fits;
      checksum_fits = omega (arith, bounded (key ++ value));
    } in
    let rest : Bytes = drop (s.cur_segment_offset + length buffer) file in
    let layout : drop s.cur_segment_offset written
        ≡ le_bytes 8 (s.index_key_length + length value) ++ (key ++ (value ++ rest)) =
      drop-write_at s.cur_segment_offset buffer file within
      ∙ append_assoc (le_bytes 8 (s.index_key_length + length value)) (key ++ value) rest
      ∙ ap (◌++◌ (le_bytes 8 (s.index_key_length + length value))) (append_assoc key value rest) in
    let reads : read_record crc32 s.index_key_length p written ≡ ok (some (key, value)) =
      read_record_lem crc32 s.index_key_length p written key value rest layout (sym same_length)
        (rw same_length fits) refl in
    let stored : SegmentStore = record s {
      files = set_file s.cur_segment_id written s.files;
      cur_segment_offset = s.cur_segment_offset + length buffer;
    } in
    let size_is : le_value (read_at s.cur_segment_offset 8 written)
        ≡ s.index_key_length + length value =
      size_at s.cur_segment_offset (s.index_key_length + length value) written
        (key ++ (value ++ rest)) layout (rw same_length fits) in
    let buffer_length : length buffer ≡ 8 + (s.index_key_length + length value) = omega (
      arith,
      length-append (le_bytes 8 (s.index_key_length + length value)) (key ++ value),
      length-le_bytes 8 (s.index_key_length + length value),
      length-append key value,
      same_length,
    ) in
    (
      stored,
      to_segment_index p,
      rw (write_record, is_open) refl,
      rw (parse-to_segment_index p p-Fits) (
        written,
        set_file_same s.cur_segment_id written s.files,
        omega (arith, size_is),
        (λ e. omega (arith, size_is, buffer_length)),
        reads,
      ),
    )

-- The index that Append returns is the place of the record.
pub append_stores :
    (crc32 : Bytes → ℕ) (key value : Bytes) (s : SegmentStore)
    → ((b : Bytes) → crc32 b < 2 ^ 32)
    → IsReady s
    → s.index_key_length ≤ length key
    → 8 + (s.index_key_length + length value) ≤ s.segment_max_size
    → s.segment_max_size < 2 ^ 63
    → (stored : SegmentStore) × (index : Bytes) × (append crc32 key value s
        ≡ ok (stored, some index))
      × Stored crc32
          (parse_segment_index index)
          (ok (some (take s.index_key_length key, value)))
          stored
unfolding append
append_stores crc32 key value s bounded r long fits small =
    let buffer_length = 8 + (s.index_key_length + length value) in
    let cut : length (take s.index_key_length key) ≡ s.index_key_length =
      length-take s.index_key_length key long in
    let room = make_room_lem crc32 buffer_length s r in
    let (stored, index, written, reads) =
      write_stores crc32 (take s.index_key_length key) value (make_room crc32 buffer_length s).0
        bounded (rw cut room.1) (omega (arith, cut)) in
    let fits_max : ltb s.segment_max_size buffer_length ≡ false = ground arith in
    let (_, _, _, id_fits, _, _) = room.1 in
    let id_small : leb (2 ^ 31) (make_room crc32 buffer_length s).0.cur_segment_id ≡ false =
      ground (arith, id_fits) in
    (
      stored,
      index,
      rw (fits_max, id_small, room.0, copy_key_lem s.index_key_length key long, written) refl,
      reads,
    )

-- On a store that is ready and whose maximal segment size is below 2^63, with a checksum of 32 bits,
-- a key of at least index_key_length bytes and a value that fits a segment are appended, in a new
-- segment where the current one is full; Read with the returned index then gives the value and the
-- key cut to index_key_length bytes.
pub append_reads_back :
    (crc32 : Bytes → ℕ) (key value : Bytes) (s : SegmentStore)
    → ((b : Bytes) → crc32 b < 2 ^ 32)
    → IsReady s
    → s.index_key_length ≤ length key
    → 8 + (s.index_key_length + length value) ≤ s.segment_max_size
    → s.segment_max_size < 2 ^ 63
    → (stored : SegmentStore) × (index : Bytes) × (append crc32 key value s
        ≡ ok (stored, some index))
      × (read crc32 index stored ≡ ok (some (take s.index_key_length key, value)))
append_reads_back crc32 key value s bounded r long fits small =
    let (stored, index, appended, found) =
      append_stores crc32 key value s bounded r long fits small in
    (
      stored,
      index,
      appended,
      Stored-read crc32 index (ok (some (take s.index_key_length key, value))) stored found,
    )
