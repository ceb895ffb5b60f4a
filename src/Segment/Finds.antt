-- ===== src/Segment/Finds.antt =====
-- Every record of the current segment can be read.
use mathlib.Core.List.{append_assoc}
use paxosme.Prelude.{
  ℕ, ◌+◌, ◌^◌, ◌<◌, ◌≡◌, refl, sym, ap, ◌∙◌, some, List, ◌∷◌, ◌++◌, Bytes, length, drop, replicate,
  drop_front_part, All-back, ok, arith,
}
use paxosme.Segment.Index.{
  le_value, Place, Fits, le_bytes, to_segment_index, parse_segment_index, parse-to_segment_index,
}
use paxosme.Segment.Store.{SegmentStore, read_record}
use paxosme.Segment.Records.{Stored, read_record_lem, size_at}
use paxosme.Segment.Layout.{Entry, size, encode_entry, encode, IsEntry, encode-append}
use paxosme.Segment.Files.{read_at}
use paxosme.Segment.Removal.{entry_at}
use paxosme.Segment.Contents.{IsLog}

pub record_layout :
    (before after : List Entry) (e : Entry) (n : ℕ)
    → drop (length (encode before)) (encode (before ++ e ∷ after) ++ replicate n 0)
      ≡ le_bytes 8 (size e) ++ (e.0 ++ (e.1 ++ (encode after ++ replicate n 0)))
unfolding encode encode_entry
record_layout before after e n =
    let rest : Bytes = encode after ++ replicate n 0 in
    let front = encode before in
    ap (λ (b : Bytes). drop (length front) (b ++ replicate n 0)) (encode-append before (e ∷ after))
    ∙ ap (drop (length front)) (append_assoc front (encode_entry e ++ encode after) (replicate n 0))
    ∙ drop_front_part (length front) front ((encode_entry e ++ encode after) ++ replicate n 0) refl
    ∙ append_assoc (encode_entry e) (encode after) (replicate n 0)
    ∙ append_assoc (le_bytes 8 (size e)) (e.0 ++ e.1) rest
    ∙ ap (◌++◌ (le_bytes 8 (size e))) (append_assoc e.0 e.1 rest)

pub IsLog-Stored :
    (crc32 : Bytes → ℕ) (s : SegmentStore) (before after : List Entry) (e : Entry)
    → ((b : Bytes) → crc32 b < 2 ^ 32)
    → IsLog s (before ++ e ∷ after)
    → Stored crc32
        (parse_segment_index (
          to_segment_index (record {
            segment_id = s.cur_segment_id;
            offset = length (encode before);
            checksum = crc32 (e.0 ++ e.1);
          })))
        (ok (some e))
        s
unfolding Stored
IsLog-Stored crc32 s before after e bounded log =
    let p : Place = record {
      segment_id = s.cur_segment_id;
      offset = length (encode before);
      checksum = crc32 (e.0 ++ e.1);
    } in
    let file : Bytes = encode (before ++ e ∷ after) ++ replicate log.zeros 0 in
    let rest : Bytes = encode after ++ replicate log.zeros 0 in
    let ((key_length, pos, small), _) =
      All-back (IsEntry s.index_key_length) before (e ∷ after) log.entries in
    let size_is : s.index_key_length + length e.1 ≡ size e =
      ap (λ (k : ℕ). k + length e.1) (sym key_length) in
    let layout = record_layout before after e log.zeros in
    let sizes : length (encode (before ++ e ∷ after))
        ≡ length (encode before) + 8 + size e + length (encode after) =
      (entry_at before after e small).1 in
    let p-Fits : Fits p = record {
      id_fits = omega (arith, log.id_fits);
      offset_fits = omega (arith, sizes, log.size_is, log.below_int);
      checksum_fits = omega (arith, bounded (e.0 ++ e.1));
    } in
    let field : le_value (read_at (length (encode before)) 8 file) ≡ size e =
      size_at (length (encode before)) (size e) file (e.0 ++ (e.1 ++ rest)) layout small in
    let parts : drop (length (encode before)) file
        ≡ le_bytes 8 (s.index_key_length + length e.1) ++ (e.0 ++ (e.1 ++ rest)) =
      layout ∙ ap (λ (k : ℕ). le_bytes 8 k ++ (e.0 ++ (e.1 ++ rest))) (sym size_is) in
    let reads : read_record crc32 s.index_key_length p file ≡ ok (some e) =
      read_record_lem crc32 s.index_key_length p file e.0 e.1 rest parts key_length
        (omega (arith, size_is, small)) refl in
    rw (parse-to_segment_index p p-Fits) (
      file,
      log.file_is,
      omega (arith, field, size_is),
      (λ _. omega (arith, field, sizes, log.offset_is)),
      reads,
    )
