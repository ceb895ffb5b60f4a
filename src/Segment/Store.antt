-- ===== src/Segment/Store.antt =====
-- LogSegmentStore's state, Append and Read. The file descriptor of the current segment is its id;
-- zlib's crc32 is a parameter.
use paxosme.Prelude.{
  ℕ, ◌+◌, ◌-◌, Bool, true, false, not, Option, none, some, [], ◌∷◌, ◌++◌, ltb, leb, ◌==◌,
  if◌then◌else◌, Bytes, length, take, Run, ok, fault, out_of_bounds, overflow, ◌>>=◌, ◌^◌, ◌&&◌,
}
use paxosme.Segment.Index.{Place, le_bytes, le_value, to_segment_index, parse_segment_index}
use paxosme.Segment.Files.{read_at, write_at, truncate}

pub record SegmentStore : Type 0 where
  pub index_key_length : ℕ
  pub segment_max_size : ℕ
  pub cur_segment_id : ℕ
  pub cur_segment_offset : ℕ
  pub cur_segment_file_size : ℕ
  pub files : ℕ → Option Bytes
  pub meta : Bytes

unfoldable pub set_file : ℕ → Bytes → (ℕ → Option Bytes) → ℕ → Option Bytes
set_file id file files i = if id == i then some file else files i

-- Whether PaddingIfNewSegment's lseek and write at the last byte of a segment succeed: off_t is signed.
unfoldable pub can_pad : ℕ → Bool
can_pad max = ltb 0 max && ltb max (2 ^ 63)

-- SegmentExists
unfoldable pub segment_exists : ℕ → SegmentStore → Bool
segment_exists id s = elim (s.files id) [ none ↦ false | some _ ↦ true ]

-- memcpy of the key's first bytes from c_str(), which has one byte after the key.
unfoldable pub copy_key : ℕ → Bytes → Run Bytes
copy_key n key = if leb n (length key + 1) then ok (take n (key ++ 0 ∷ [])) else fault out_of_bounds

module _ (crc32 : Bytes → ℕ) where
  unfoldable pub update_metadata : SegmentStore → SegmentStore
  unfolding le_bytes write_at
  update_metadata s =
      let id = le_bytes 4 (s.cur_segment_id + 1) in
      record s { meta = write_at 0 (id ++ le_bytes 8 (crc32 id)) s.meta }

  -- NewSegment: the file is created, and padded to its full size. The id is counted on here past the
  -- greatest SEGMENT_ID; `append` faults there.
  unfoldable pub new_segment : SegmentStore → SegmentStore × Bool
  unfolding update_metadata segment_exists can_pad set_file write_at
  new_segment s =
      let s' = record (update_metadata s) { cur_segment_id = s.cur_segment_id + 1 } in
      if segment_exists s'.cur_segment_id s'
      then (s', false)
      else if not (can_pad s'.segment_max_size)
      then (record s' { files = set_file s'.cur_segment_id [] s'.files }, false)
      else (
        record s' {
          files =
              set_file s'.cur_segment_id (write_at (s'.segment_max_size - 1) (0 ∷ []) []) s'.files;
          cur_segment_file_size = s'.segment_max_size;
          cur_segment_offset = 0;
        },
        true,
      )

  -- The part of Append that closes a segment without enough space; a descriptor whose file is gone
  -- has nothing to truncate here.
  unfoldable pub make_room : ℕ → SegmentStore → SegmentStore × Bool
  unfolding new_segment set_file truncate
  make_room buffer_length s =
      if ltb s.cur_segment_file_size (s.cur_segment_offset + buffer_length)
      then elim (s.files s.cur_segment_id) [
        | none ↦ new_segment s
        | some file ↦ new_segment (record s {
          files = set_file s.cur_segment_id (truncate s.cur_segment_offset file) s.files;
        })
      ]
      else (s, true)

  -- The part of Append that writes, at a segment whose file is still there.
  unfoldable pub write_record : Bytes → Bytes → SegmentStore → SegmentStore × Option Bytes
  unfolding set_file write_at le_bytes to_segment_index
  write_record key value s =
      let buffer = le_bytes 8 (s.index_key_length + length value) ++ (key ++ value) in
      elim (s.files s.cur_segment_id) [
        | none ↦ (s, none)
        | some file ↦ (
          record s {
            files = set_file s.cur_segment_id (write_at s.cur_segment_offset buffer file) s.files;
            cur_segment_offset = s.cur_segment_offset + length buffer;
          },
          some (
              to_segment_index (record {
                segment_id = s.cur_segment_id;
                offset = s.cur_segment_offset;
                checksum = crc32 (key ++ value);
              })),
        )
      ]

  -- Append; `none` is the result `false`. The next id after the greatest SEGMENT_ID, an int32_t, is an
  -- overflow.
  unfoldable pub append : Bytes → Bytes → SegmentStore → Run (SegmentStore × Option Bytes)
  unfolding make_room copy_key write_record
  append key value s =
      let buffer_length = 8 + (s.index_key_length + length value) in
      if ltb s.segment_max_size buffer_length
      then ok (s, none)
      else if leb (2 ^ 31) (make_room buffer_length s).0.cur_segment_id
      then fault overflow
      else if (make_room buffer_length s).1
      then (copy_key s.index_key_length key
          >>= (λ k. ok (write_record k value (make_room buffer_length s).0)))
      else ok ((make_room buffer_length s).0, none)

  -- What Read takes out of a file: the size, the key and the value, each with the test of the bytes
  -- read. A key that is longer than the record is read past the end of the string.
  unfoldable pub read_record : ℕ → Place → Bytes → Run (Option (Bytes × Bytes))
  unfolding read_at le_value
  read_record key_length p file =
      let size = read_at p.offset 8 file in
      let kv_size = le_value size in
      let key = read_at (p.offset + 8) key_length file in
      let value = read_at (p.offset + 8 + key_length) (kv_size - key_length) file in
      if not (length size == 8)
      then ok none
      else if ltb kv_size (length key)
      then fault out_of_bounds
      else if not (length key == key_length)
      then ok none
      else if not (length value == kv_size - key_length)
      then ok none
      else if not (crc32 (key ++ value) == p.checksum)
      then ok none
      else ok (some (key, value))

  -- Read; `none` is the result `false`.
  unfoldable pub read : Bytes → SegmentStore → Run (Option (Bytes × Bytes))
  unfolding parse_segment_index read_record
  read segment_index s = elim (s.files (parse_segment_index segment_index).segment_id) [
    | none ↦ ok none
    | some file ↦ read_record s.index_key_length (parse_segment_index segment_index) file
  ]
