-- ===== src/Segment/Restart.antt =====
-- Init on the disk that a store leaves.
use mathlib.Core.Path.{fun_ext}
use paxosme.Prelude.{
  take_short, ℕ, leb, ◌+◌, ◌-◌, ◌≤◌, ◌<◌, ◌≡◌, refl, sym, ap, ◌∙◌, inl, inr, true, false, Option,
  some, List, ◌++◌, ltb, ◌==◌, Bool-cases, Bytes, length, take, drop, replicate, length-replicate,
  length-append, length-take, length-drop, ok, fault, out_of_bounds, arith,
}
use paxosme.Segment.Index.{le_bytes, length-le_bytes}
use paxosme.Segment.Files.{read_at, write_at}
use paxosme.Segment.Store.{SegmentStore, set_file, update_metadata, new_segment}
use paxosme.Segment.Layout.{Entry, encode, replay_segment_end}
use paxosme.Segment.Contents.{IsLog}
use paxosme.Segment.Replay.{LogStorageOptions, Disk, padding, replay_segment, open_current, init}

set_file_again :
    (id : ℕ) (file : Bytes) (files : ℕ → Option Bytes)
    → files id ≡ some file
    → set_file id file files ≡ files
unfolding set_file
set_file_again id file files e = fun_ext (λ i. elim (Bool-cases (id == i)) [
  | inl same ↦ let here : id ≡ i = ground arith in rw same (sym e ∙ ap files here)
  | inr other ↦ rw other refl
])

padding_old :
    (max : ℕ) (file : Bytes) → 0 < length file → padding max file ≡ some (file, length file, 0)
unfolding padding
padding_old max file pos = let more : ltb 0 (length file) ≡ true = ground arith in rw more refl

-- The part of Init after the metadata, on a segment that is there.
open_old :
    (crc32 : Bytes → ℕ) (fuel offset : ℕ) (file : Bytes) (s : SegmentStore)
    → s.files s.cur_segment_id ≡ some file
    → 0 < length file
    → replay_segment crc32 fuel s.cur_segment_id 0
        (record s { cur_segment_file_size = length file })
      ≡ ok (some offset)
    → open_current crc32 fuel s
      ≡ ok (some (record s { cur_segment_file_size = length file; cur_segment_offset = offset }))
unfolding open_current
open_old crc32 fuel offset file s at pos replayed =
    rw
      (
        open_current,
        at,
        padding_old s.segment_max_size file pos,
        set_file_again s.cur_segment_id file s.files at,
        replayed,
      )
      (ap
        (λ (fs : ℕ → Option Bytes). ok (
          some (record s {
            cur_segment_file_size = length file;
            cur_segment_offset = offset;
            files = fs;
          })))
        (set_file_again s.cur_segment_id file s.files at))

-- However a store got to hold the records `es` in its current segment, opening that segment again
-- gives the very same store.
pub open_current_restores :
    (crc32 : Bytes → ℕ) (fuel : ℕ) (s : SegmentStore) (es : List Entry)
    → IsLog s es
    → length es < fuel
    → open_current crc32 fuel (record s { cur_segment_offset = 0; cur_segment_file_size = 0 })
      ≡ ok (some s)
open_current_restores crc32 fuel s es log enough =
    let file : Bytes = encode es ++ replicate log.zeros 0 in
    let file_size : length file ≡ s.cur_segment_file_size = omega (
      arith,
      length-append (encode es) (replicate log.zeros 0),
      length-replicate {A = ℕ} log.zeros 0,
      log.size_is,
    ) in
    let cold : SegmentStore = record s { cur_segment_offset = 0; cur_segment_file_size = 0 } in
    let replayed : replay_segment crc32 fuel s.cur_segment_id 0
          (record cold { cur_segment_file_size = length file })
        ≡ ok (some (0 + length (encode es))) =
      replay_segment_end crc32 es fuel s.cur_segment_id 0 log.zeros file
        (record cold { cur_segment_file_size = length file }) log.file_is log.entries refl
        (omega (arith, log.size_is, log.below_int)) enough in
    open_old crc32 fuel (0 + length (encode es)) file cold log.file_is
      (omega (arith, file_size, log.nonempty)) replayed
    ∙ ap
        (λ (k : ℕ).
          ok (some (record s { cur_segment_file_size = length file; cur_segment_offset = k })))
        {y = s.cur_segment_offset} (omega (arith, log.offset_is))
    ∙ ap (λ (k : ℕ). ok (some (record s { cur_segment_file_size = k }))) file_size

-- The options and the disk of a store.
abbrev pub options_of : SegmentStore → LogStorageOptions
options_of s = record {
  segment_max_size = s.segment_max_size;
  index_key_length = s.index_key_length;
}

abbrev pub disk_of : SegmentStore → Disk
disk_of s = record { files = s.files; meta = s.meta }

length-meta : (crc32 : Bytes → ℕ) (s : SegmentStore) → 12 ≤ length (update_metadata crc32 s).meta
unfolding update_metadata write_at
length-meta crc32 s =
    let id = le_bytes 4 (s.cur_segment_id + 1) in
    let sum = le_bytes 8 (crc32 id) in
    let gap = replicate {A = ℕ} (0 - length s.meta) 0 in
    let rest = drop (0 + length (id ++ sum)) s.meta in
    let whole : length (update_metadata crc32 s).meta ≡ length (gap ++ ((id ++ sum) ++ rest)) =
      refl in
    omega (
      arith,
      whole,
      length-append gap ((id ++ sum) ++ rest),
      length-append (id ++ sum) (drop (0 + length (id ++ sum)) s.meta),
      length-append id sum,
      length-le_bytes 4 (s.cur_segment_id + 1),
      length-le_bytes 8 (crc32 id),
    )

more_than : (m n : ℕ) (bs : Bytes) → m < n → m < length bs → ltb m (length (take n bs)) ≡ true
more_than m n bs h k = elim (Bool-cases (leb n (length bs))) [
  | inl long ↦ let whole = length-take n bs (ground arith) in ground arith
  | inr short ↦ let all = take_short n bs (ground arith) in rw all (ground arith)
]

init_overrun :
    (crc32 : Bytes → ℕ) (fuel : ℕ) (options : LogStorageOptions) (disk : Disk)
    → 0 < options.index_key_length
    → 8 < length disk.meta
    → init crc32 fuel options disk ≡ fault out_of_bounds
unfolding init read_at
init_overrun crc32 fuel options disk pos long =
    let keyed : (options.index_key_length == 0) ≡ false = ground arith in
    let id : length (take 4 disk.meta) ≡ 4 = length-take 4 disk.meta (omega (arith, long)) in
    let sum : ltb 4 (length (take 8 (drop 4 disk.meta))) ≡ true =
      more_than 4 8 (drop 4 disk.meta) (omega arith) (omega (arith, length-drop 4 disk.meta)) in
    rw (keyed, id, sum) refl

new_segment_meta :
    (crc32 : Bytes → ℕ) (s : SegmentStore)
    → (new_segment crc32 s).0.meta ≡ (update_metadata crc32 s).meta
unfolding new_segment
new_segment_meta crc32 s = ground arith

-- Once a store has begun a second segment, Init on its disk writes past the variable that it reads
-- the metadata's checksum into, whatever the options, as long as they give a key length.
pub init_after_new_segment :
    (crc32 : Bytes → ℕ) (fuel : ℕ) (options : LogStorageOptions) (s : SegmentStore)
    → 0 < options.index_key_length
    → init crc32 fuel options (disk_of (new_segment crc32 s).0) ≡ fault out_of_bounds
init_after_new_segment crc32 fuel options s pos =
    init_overrun crc32 fuel options (disk_of (new_segment crc32 s).0) pos
      (omega (arith, ap length (new_segment_meta crc32 s), length-meta crc32 s))
