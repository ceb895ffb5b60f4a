-- ===== src/Segment/LogTests.antt =====
-- Stores with one record or two: in segment 3, in the first segment, and in closed segments.
use paxosme.Prelude.{
  ℕ, ◌≡◌, ◌≢◌, ◌<◌, ◌≤◌, ◌++◌, replicate, ◌==◌, refl, [], ◌∷◌, none, some, if◌then◌else◌, Bytes,
  take, ok, fault, out_of_bounds, arith,
}
use paxosme.Schedule.{new_scheduler}
use paxosme.Segment.Index.{le_bytes, le_value, parse_segment_index}
use paxosme.Segment.Store.{SegmentStore, append, new_segment}
use paxosme.Segment.Replay.{init, remove_async}
use paxosme.Segment.Layout.{Entry, encode, encode_entry, IsEntry}
use paxosme.Segment.Contents.{IsLog}
use paxosme.Segment.Appends.{Added, append_adds}
use paxosme.Segment.Restart.{options_of, disk_of, init_after_new_segment}
use paxosme.Segment.Clean.{auto_dispatch, auto_dispatches, IsLast, removed_is_deleted}
use paxosme.Segment.Replaced.{earlier_segment_stays}
use paxosme.Segment.Tests.{sample_crc32, sample_store, grown_file, grown_store, old_index}

abbrev pub one_entry : Entry
one_entry = (49 ∷ 50 ∷ [], 7 ∷ [])

pub one_entry-IsEntry : IsEntry 2 one_entry
one_entry-IsEntry = (refl, omega arith, omega arith)

pub grown_store-IsLog : IsLog grown_store (one_entry ∷ [])
unfolding encode encode_entry le_bytes
grown_store-IsLog = record {
  zeros = 21;
  file_is = refl;
  offset_is = refl;
  size_is = refl;
  entries = (one_entry-IsEntry, tt);
  nonempty = omega arith;
  below_int = omega arith;
  later_free = λ i h. ground arith;
  id_fits = omega arith;
}

append_adds_example :
    (stored : SegmentStore) × (index : Bytes) × (append sample_crc32
        (51 ∷ 52 ∷ [])
        (8 ∷ [])
        grown_store
      ≡ ok (stored, some index))
    × Added grown_store (one_entry ∷ []) (51 ∷ 52 ∷ [], 8 ∷ []) stored
append_adds_example =
    append_adds sample_crc32 (51 ∷ 52 ∷ []) (8 ∷ []) grown_store (one_entry ∷ []) grown_store-IsLog
      (omega arith) (omega arith) (omega arith) (omega arith) (omega arith)

-- The same record in the first segment, before there is any metadata.
abbrev first_store : SegmentStore
first_store = record grown_store {
  cur_segment_id = 0;
  files = λ i. if i == 0 then some grown_file else none;
}

init_after_new_segment_example :
    init sample_crc32 2
      (options_of sample_store)
      (disk_of (new_segment sample_crc32 sample_store).0)
    ≡ fault out_of_bounds
init_after_new_segment_example =
    init_after_new_segment sample_crc32 2 (options_of sample_store) sample_store (omega arith)

-- A second record behind it.
abbrev pub next_entry : Entry
next_entry = (51 ∷ 52 ∷ [], 8 ∷ [])

abbrev pub two_store : SegmentStore
two_store = record first_store {
  cur_segment_offset = 22;
  files = λ i.
      if i == 0
      then some
          (take 11 grown_file ++ (3 ∷ 0 ∷ 0 ∷ 0 ∷ 0 ∷ 0 ∷ 0 ∷ 0 ∷ 51 ∷ 52 ∷ 8 ∷ replicate 10 0))
      else none;
}

pub two_store-IsLog : IsLog two_store (one_entry ∷ next_entry ∷ [])
unfolding encode encode_entry le_bytes
two_store-IsLog = record {
  zeros = 10;
  file_is = refl;
  offset_is = refl;
  size_is = refl;
  entries = (one_entry-IsEntry, ((refl, omega arith, omega arith), tt));
  nonempty = omega arith;
  below_int = omega arith;
  later_free = λ i h. ground arith;
  id_fits = omega arith;
}

-- Segments 2 and 3, cut behind their record.
abbrev closed_store : SegmentStore
closed_store = record grown_store {
  cur_segment_id = 4;
  files = λ i.
      if i == 3
      then some (take 11 grown_file)
      else if i == 2
      then some (take 11 grown_file)
      else none;
}

abbrev older_index : Bytes
older_index = 2 ∷ 0 ∷ 0 ∷ 0 ∷ 0 ∷ 0 ∷ 0 ∷ 0 ∷ 0 ∷ 0 ∷ 0 ∷ 0 ∷ 3 ∷ 0 ∷ 0 ∷ 0 ∷ 0 ∷ 0 ∷ 0 ∷ 0 ∷ []

old_index-IsLast : IsLast old_index closed_store
unfolding parse_segment_index le_value encode encode_entry le_bytes
old_index-IsLast = record {
  before = [];
  entry = one_entry;
  file_is = refl;
  offset_is = refl;
  size_fits = omega arith;
  file_fits = omega arith;
}

older_index-IsLast : IsLast older_index closed_store
unfolding parse_segment_index le_value encode encode_entry le_bytes
older_index-IsLast = record {
  before = [];
  entry = one_entry;
  file_is = refl;
  offset_is = refl;
  size_fits = omega arith;
  file_fits = omega arith;
}

removed_is_deleted_example :
    (9000 < 10005
      → auto_dispatch 9000 closed_store (remove_async old_index 5 closed_store new_scheduler).1
        ≡ (closed_store, (remove_async old_index 5 closed_store new_scheduler).1))
    × (10005 ≤ 9000
        → ((auto_dispatch 9000 closed_store
                (remove_async old_index 5 closed_store new_scheduler).1).0.files
              3
            ≡ none)
          × ((i : ℕ)
              → i ≢ 3
              → (auto_dispatch 9000 closed_store
                    (remove_async old_index 5 closed_store new_scheduler).1).0.files
                  i
                ≡ closed_store.files i))
unfolding parse_segment_index le_value new_scheduler
removed_is_deleted_example =
    removed_is_deleted old_index 5 9000 closed_store new_scheduler old_index-IsLast tt

earlier_segment_stays_example :
    (auto_dispatches
        (20000 ∷ 30000 ∷ [])
        closed_store
        (remove_async old_index 60 closed_store
          (remove_async older_index 5 closed_store new_scheduler).1).1).0.files
      2
    ≡ some (take 11 grown_file)
unfolding parse_segment_index le_value
earlier_segment_stays_example =
    earlier_segment_stays older_index old_index 5 60 (20000 ∷ 30000 ∷ []) closed_store
      older_index-IsLast old_index-IsLast (omega arith)
