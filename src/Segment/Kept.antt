-- ===== src/Segment/Kept.antt =====
-- What Append leaves of the records that are in the files already.
use mathlib.Core.Path.{subst}
use paxosme.Prelude.{
  ◌<◌, ◌^◌, ℕ, ◌+◌, ◌-◌, ◌≤◌, ◌≡◌, ◌≢◌, refl, sym, ap, ◌∙◌, inl, inr, Bool, true, false, Bool-cases,
  Option, none, some, [], ◌∷◌, ◌++◌, ltb, Bytes, length, take, Run, Fault, ok, fault, out_of_bounds,
  leb, arith,
}
use paxosme.Segment.Index.{Place, le_bytes, le_value, parse_segment_index}
use paxosme.Segment.Files.{read_at, write_at, truncate}
use paxosme.Segment.Store.{
  SegmentStore, set_file, segment_exists, new_segment, make_room, write_record, append, read,
  update_metadata, copy_key,
}
use paxosme.Segment.Records.{Stored, Stored-read, read_place}
use paxosme.Segment.Ready.{IsReady, Open, make_room_lem, can_pad_lem, set_file_next}
use paxosme.Segment.Agree.{
  write_at-Agree, truncate-Agree, set_file_other, exists_some, replace_file,
}

not_free : {b : Bool} → b ≡ true → ¬ (b ≡ false)
not_free t f = ground arith

new_segment-Stored :
    (crc32 : Bytes → ℕ) (p : Place) (result : Run (Option (Bytes × Bytes))) (s : SegmentStore)
    → segment_exists (s.cur_segment_id + 1) s ≡ false
    → 0 < s.segment_max_size
    → s.segment_max_size < 2 ^ 63
    → Stored crc32 p result s
    → Stored crc32 p result (new_segment crc32 s).0
unfolding Stored new_segment update_metadata
new_segment-Stored crc32 p result s free pos small (file, at, long, below, reads) =
    let away : s.cur_segment_id + 1 ≢ p.segment_id =
      λ e. not_free (exists_some (s.cur_segment_id + 1) s file (ap s.files e ∙ at)) free in
    rw (free, can_pad_lem s.segment_max_size pos small)
      (
        file,
        set_file_other (s.cur_segment_id + 1) p.segment_id
              (write_at (s.segment_max_size - 1) (0 ∷ []) []) s.files away
            ∙ at,
        long,
        (λ e. absurd (away (sym e))),
        reads,
      )

make_room-Stored :
    (crc32 : Bytes → ℕ) (buffer_length : ℕ) (p : Place) (result : Run (Option (Bytes × Bytes)))
    (s : SegmentStore)
    → IsReady s
    → Stored crc32 p result s
    → Stored crc32 p result (make_room crc32 buffer_length s).0
unfolding make_room
make_room-Stored crc32 buffer_length p result s r stored =
    elim (Bool-cases (ltb s.cur_segment_file_size (s.cur_segment_offset + buffer_length))) [
      | inl full ↦
          rw (full, r.is_open)
            (new_segment-Stored crc32 p result
              (record s {
                files = set_file s.cur_segment_id (truncate s.cur_segment_offset r.file) s.files;
              })
              (rw
                (
                  segment_exists,
                  set_file_next s.cur_segment_id (truncate s.cur_segment_offset r.file) s.files,
                )
                r.next_free)
              r.max_pos r.max_fits
              (replace_file crc32 p result s r.file (truncate s.cur_segment_offset r.file) r.is_open
                (truncate-Agree s.cur_segment_offset r.file r.within) stored))
      | inr enough ↦ rw enough stored
    ]

write_record-Stored :
    (crc32 : Bytes → ℕ) (key value : Bytes) (key_length : ℕ) (p : Place)
    (result : Run (Option (Bytes × Bytes))) (s : SegmentStore)
    → Open key_length s
    → Stored crc32 p result s
    → Stored crc32 p result (write_record crc32 key value s).0
unfolding Stored write_record
write_record-Stored crc32 key value key_length p result s (file, is_open, within, _, _, _) stored =
    let buffer : Bytes = le_bytes 8 (s.index_key_length + length value) ++ (key ++ value) in
    let (old, at, long, below, reads) =
      replace_file crc32 p result s file (write_at s.cur_segment_offset buffer file) is_open
        (write_at-Agree s.cur_segment_offset buffer file within) stored in
    let wrote : (write_record crc32 key value s).0 ≡ record s {
      files = set_file s.cur_segment_id (write_at s.cur_segment_offset buffer file) s.files;
      cur_segment_offset = s.cur_segment_offset + length buffer;
    } =
      rw (write_record, is_open) refl in
    rw wrote (old, at, long, (λ e. omega (arith, below e)), reads)

stored_same : {x y : SegmentStore × Option Bytes} → ok x ≡ ok y → x.0 ≡ y.0
stored_same e = cc

ok_not_fault : {x : SegmentStore × Option Bytes} {f : Fault} → ¬ (ok x ≡ fault f)
ok_not_fault e = cc

-- A record stays where it is through every Append that ends without a fault.
pub append-Stored :
    (crc32 : Bytes → ℕ) (key value : Bytes) (s stored : SegmentStore) (result : Option Bytes)
    (p : Place) (found : Run (Option (Bytes × Bytes)))
    → IsReady s
    → append crc32 key value s ≡ ok (stored, result)
    → Stored crc32 p found s
    → Stored crc32 p found stored
unfolding append copy_key
append-Stored crc32 key value s stored result p found r returned before =
    let b = 8 + (s.index_key_length + length value) in
    let room = make_room_lem crc32 b s r in
    let (_, _, _, id_fits, _, _) = room.1 in
    let id_small : leb (2 ^ 31) (make_room crc32 b s).0.cur_segment_id ≡ false =
      ground (arith, id_fits) in
    let k = take s.index_key_length (key ++ 0 ∷ []) in
    let after : Stored crc32 p found (write_record crc32 k value (make_room crc32 b s).0).0 =
      write_record-Stored crc32 k value s.index_key_length p found (make_room crc32 b s).0 room.1
        (make_room-Stored crc32 b p found s r before) in
    elim (Bool-cases (ltb s.segment_max_size b)) [
      | inl large ↦
          let same : append crc32 key value s ≡ ok (s, none) = rw (append, large) refl in
          subst (Stored crc32 p found) (sym (stored_same (sym returned ∙ same))) before
      | inr fits ↦ elim (Bool-cases (leb s.index_key_length (length key + 1))) [
        | inl inside ↦
            let wrote : append crc32 key value s
                ≡ ok (write_record crc32 k value (make_room crc32 b s).0) =
              rw (append, fits, id_small, room.0, copy_key, inside) refl in
            subst (Stored crc32 p found) (sym (stored_same (sym returned ∙ wrote))) after
        | inr outside ↦
            let faults : append crc32 key value s ≡ fault out_of_bounds =
              rw (append, fits, id_small, room.0, copy_key, outside) refl in
            absurd (ok_not_fault (sym returned ∙ faults))
      ]
    ]

-- On a store that is ready, a record of at least index_key_length bytes in a segment file, below the
-- current offset if it is in the current segment, is read after any Append that ends without a fault
-- as before, whatever Append returns.
pub append_keeps_records :
    (crc32 : Bytes → ℕ) (key value : Bytes) (s stored : SegmentStore) (result : Option Bytes)
    (index file : Bytes)
    → IsReady s
    → s.files (parse_segment_index index).segment_id ≡ some file
    → s.index_key_length ≤ le_value (read_at (parse_segment_index index).offset 8 file)
    → ((parse_segment_index index).segment_id ≡ s.cur_segment_id
        → (parse_segment_index index).offset
            + 8
            + le_value (read_at (parse_segment_index index).offset 8 file)
          ≤ s.cur_segment_offset)
    → append crc32 key value s ≡ ok (stored, result)
    → read crc32 index stored ≡ read crc32 index s
unfolding Stored
append_keeps_records crc32 key value s stored result index file r at long below returned =
    let p = parse_segment_index index in
    Stored-read crc32 index (read crc32 index s) stored (
      append-Stored crc32 key value s stored result p (read crc32 index s) r returned
        (file, at, long, below, sym (read_place crc32 index p s file refl at)))
