-- ===== src/Segment/Tests.antt =====
-- An index of segment 3, and a store that has this segment open.
use paxosme.Prelude.{
  ℕ, ◌<◌, ◌^◌, ◌%◌, ◌==◌, ◌≡◌, refl, [], ◌∷◌, none, some, if◌then◌else◌, Bytes, length, replicate,
  ok, arith,
}
use paxosme.Segment.Index.{le_value, Place, Fits, parse_segment_index}
use paxosme.Segment.Store.{SegmentStore, append, read, segment_exists}
use paxosme.Segment.Kept.{append_keeps_records}
use paxosme.Segment.Files.{read_at}
use paxosme.Segment.Ready.{IsReady}
use paxosme.Segment.Records.{append_reads_back}

abbrev third_place : Place
third_place = record { segment_id = 3; offset = 40; checksum = 99 }

third_place-Fits : Fits third_place
third_place-Fits = record {
  id_fits = omega arith;
  offset_fits = omega arith;
  checksum_fits = omega arith;
}

abbrev pub sample_crc32 : Bytes → ℕ
sample_crc32 b = length b % 2 ^ 32

pub sample_crc32_bounded : (b : Bytes) → sample_crc32 b < 2 ^ 32
sample_crc32_bounded b = omega arith

abbrev pub sample_store : SegmentStore
sample_store = record {
  index_key_length = 2;
  segment_max_size = 16;
  cur_segment_id = 3;
  cur_segment_offset = 4;
  cur_segment_file_size = 16;
  files = λ i. if i == 3 then some (replicate 16 0) else none;
  meta = [];
}

sample_store-IsReady : IsReady sample_store
unfolding segment_exists
sample_store-IsReady = record {
  file = replicate 16 0;
  is_open = refl;
  within = omega arith;
  next_free = refl;
  id_fits = omega arith;
  max_pos = omega arith;
  max_fits = omega arith;
  offset_fits = omega arith;
}

append_reads_back_example :
    (stored : SegmentStore) × (index : Bytes) × (append sample_crc32
        (49 ∷ 50 ∷ [])
        (7 ∷ 8 ∷ [])
        sample_store
      ≡ ok (stored, some index))
    × (read sample_crc32 index stored ≡ ok (some (49 ∷ 50 ∷ [], 7 ∷ 8 ∷ [])))
append_reads_back_example =
    append_reads_back sample_crc32 (49 ∷ 50 ∷ []) (7 ∷ 8 ∷ []) sample_store sample_crc32_bounded
      sample_store-IsReady (omega arith) (omega arith) (omega arith)

-- A store with one record, key 49 50 and value 7, in the segment that is open.
abbrev pub grown_file : Bytes
grown_file = 3 ∷ 0 ∷ 0 ∷ 0 ∷ 0 ∷ 0 ∷ 0 ∷ 0 ∷ 49 ∷ 50 ∷ 7 ∷ replicate 21 0

abbrev pub grown_store : SegmentStore
grown_store = record sample_store {
  segment_max_size = 32;
  cur_segment_offset = 11;
  cur_segment_file_size = 32;
  files = λ i. if i == 3 then some grown_file else none;
}

grown_store-IsReady : IsReady grown_store
unfolding segment_exists
grown_store-IsReady = record {
  file = grown_file;
  is_open = refl;
  within = omega arith;
  next_free = refl;
  id_fits = omega arith;
  max_pos = omega arith;
  max_fits = omega arith;
  offset_fits = omega arith;
}

abbrev pub old_index : Bytes
old_index = 3 ∷ 0 ∷ 0 ∷ 0 ∷ 0 ∷ 0 ∷ 0 ∷ 0 ∷ 0 ∷ 0 ∷ 0 ∷ 0 ∷ 3 ∷ 0 ∷ 0 ∷ 0 ∷ 0 ∷ 0 ∷ 0 ∷ 0 ∷ []

abbrev added :
    (stored : SegmentStore) × (index : Bytes) × (append sample_crc32
        (51 ∷ 52 ∷ [])
        (8 ∷ [])
        grown_store
      ≡ ok (stored, some index))
    × (read sample_crc32 index stored ≡ ok (some (51 ∷ 52 ∷ [], 8 ∷ [])))
added =
    append_reads_back sample_crc32 (51 ∷ 52 ∷ []) (8 ∷ []) grown_store sample_crc32_bounded
      grown_store-IsReady (omega arith) (omega arith) (omega arith)

append_keeps_records_example :
    read sample_crc32 old_index added.0 ≡ read sample_crc32 old_index grown_store
unfolding parse_segment_index read_at le_value
append_keeps_records_example =
    append_keeps_records sample_crc32 (51 ∷ 52 ∷ []) (8 ∷ []) grown_store added.0 (some added.1)
      old_index grown_file grown_store-IsReady refl (omega arith) (λ _. omega arith) added.2
