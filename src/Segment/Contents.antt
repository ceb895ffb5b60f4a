-- ===== src/Segment/Contents.antt =====
-- The current segment as a list of records: Append adds one, and in a full segment begins a new list
-- in the next.
use mathlib.Core.List.{append_assoc, append-nil}
use paxosme.Prelude.{
  ℕ, zero, suc, ◌+◌, ◌-◌, ◌^◌, ◌≤◌, ◌<◌, ◌≡◌, ◌≢◌, refl, sym, ap, ◌∙◌, false, none, some, List, [],
  ◌∷◌, ◌++◌, Bytes, length, take, drop, replicate, length-append, take_front_part, drop_front_part,
  All, All-append, arith,
}
use paxosme.Segment.Index.{le_bytes, to_segment_index}
use paxosme.Segment.Files.{write_at, drop-drop, take_nil, drop_nil}
use paxosme.Segment.Store.{SegmentStore, set_file, segment_exists, write_record}
use paxosme.Segment.Ready.{IsReady, set_file_same}
use paxosme.Segment.Agree.{set_file_other}
use paxosme.Segment.Layout.{
  Entry, size, encode_entry, encode, IsEntry, length-encode_entry, encode-append,
}

-- The current segment's file holds the records `es` up to the current offset, and `zeros` zero bytes
-- behind them; no segment of a higher id is there.
pub record IsLog (s : SegmentStore) (es : List Entry) : Type 0 where
  pub zeros : ℕ
  pub file_is : s.files s.cur_segment_id ≡ some (encode es ++ replicate zeros 0)
  pub offset_is : s.cur_segment_offset ≡ length (encode es)
  pub size_is : s.cur_segment_file_size ≡ length (encode es) + zeros
  pub entries : All (IsEntry s.index_key_length) es
  pub nonempty : 0 < s.cur_segment_file_size
  pub below_int : s.cur_segment_file_size < 2 ^ 31
  pub later_free : (i : ℕ) → s.cur_segment_id < i → s.files i ≡ none
  pub id_fits : s.cur_segment_id + 1 < 2 ^ 31

-- The options of the store are the same.
abbrev pub SameOptions : SegmentStore → SegmentStore → Type 0
SameOptions s s' =
    (s'.index_key_length ≡ s.index_key_length) × (s'.segment_max_size ≡ s.segment_max_size)

drop_zeros : (m n : ℕ) → drop m (replicate {A = ℕ} n 0) ≡ replicate (n - m) 0
drop_zeros zero n = ap (λ (k : ℕ). replicate k 0) {x = n} {y = n - zero} (omega arith)
drop_zeros (suc m) zero = ap (λ (k : ℕ). replicate k 0) {x = 0} {y = zero - suc m} (omega arith)
drop_zeros (suc m) (suc n) =
    drop_zeros m n ∙ ap (λ (k : ℕ). replicate k 0) {y = suc n - suc m} (omega arith)

-- Writing at the end of the records, into the zeros.
write_at_end :
    (records bytes : Bytes) (zeros : ℕ)
    → write_at (length records) bytes (records ++ replicate zeros 0)
      ≡ (records ++ bytes) ++ replicate (zeros - length bytes) 0
unfolding write_at
write_at_end records bytes zeros =
    let no_gap : length records - length (records ++ replicate zeros 0) ≡ 0 =
      omega (arith, length-append records (replicate zeros 0)) in
    let front : take (length records) (records ++ replicate zeros 0) ≡ records =
      take_front_part (length records) records (replicate zeros 0) refl in
    let behind : drop (length records + length bytes) (records ++ replicate zeros 0)
        ≡ replicate (zeros - length bytes) 0 =
      drop-drop (length records) (length bytes) (records ++ replicate zeros 0)
      ∙ ap (drop (length bytes)) (drop_front_part (length records) records (replicate zeros 0) refl)
      ∙ drop_zeros (length bytes) zeros in
    rw (front, no_gap, behind)
      (sym (append_assoc records bytes (replicate (zeros - length bytes) 0)))

replicate-snoc : (n : ℕ) → replicate {A = ℕ} n 0 ++ 0 ∷ [] ≡ replicate (suc n) 0
replicate-snoc zero = refl
replicate-snoc (suc n) = ap (◌∷◌ 0) (replicate-snoc n)

-- A new file padded to its size is all zeros.
pub padded_file : (max : ℕ) → 0 < max → write_at (max - 1) (0 ∷ []) [] ≡ replicate max 0
unfolding write_at
padded_file zero pos = absurd (omega arith)
padded_file (suc max) pos =
    let same : suc max - 1 ≡ max = omega arith in
    let gap : max - 0 ≡ max = omega arith in
    rw (same, gap)
      (ap (λ (b : Bytes). b ++ (replicate max 0 ++ (0 ∷ drop (max + 1) []))) (take_nil max)
        ∙ ap (λ (b : Bytes). replicate max 0 ++ (0 ∷ b)) (drop_nil (max + 1))
        ∙ replicate-snoc max)

encode-snoc : (es : List Entry) (e : Entry) → encode (es ++ e ∷ []) ≡ encode es ++ encode_entry e
unfolding encode
encode-snoc es e = encode-append es (e ∷ []) ∙ ap (◌++◌ (encode es)) (append-nil (encode_entry e))

length-snoc :
    (es : List Entry) (e : Entry) → length (encode (es ++ e ∷ [])) ≡ length (encode es) + 8 + size e
length-snoc es e =
    ap length (encode-snoc es e)
    ∙ omega (arith, length-append (encode es) (encode_entry e), length-encode_entry e)

-- Where the record fits, it is written behind the others.
pub write_record-IsLog :
    (crc32 : Bytes → ℕ) (key value : Bytes) (s : SegmentStore) (es : List Entry)
    → IsLog s es
    → length key ≡ s.index_key_length
    → 0 < s.index_key_length
    → s.cur_segment_offset + 8 + (s.index_key_length + length value) ≤ s.cur_segment_file_size
    → ((write_record crc32 key value s).1
        ≡ some (
            to_segment_index (record {
              segment_id = s.cur_segment_id;
              offset = s.cur_segment_offset;
              checksum = crc32 (key ++ value);
            })))
      × ((write_record crc32 key value s).0.cur_segment_id ≡ s.cur_segment_id)
      × SameOptions s (write_record crc32 key value s).0
      × ((i : ℕ) → s.cur_segment_id ≢ i → (write_record crc32 key value s).0.files i ≡ s.files i)
      × IsLog (write_record crc32 key value s).0 (es ++ (key, value) ∷ [])
unfolding write_record encode_entry
write_record-IsLog crc32 key value s es log hk pos fits =
    let e : Entry = (key, value) in
    let buffer : Bytes = le_bytes 8 (s.index_key_length + length value) ++ (key ++ value) in
    let old : Bytes = encode es ++ replicate log.zeros 0 in
    let new : Bytes = write_at s.cur_segment_offset buffer old in
    let buffer_is : buffer ≡ encode_entry e =
      ap (λ (k : ℕ). le_bytes 8 (k + length value) ++ (key ++ value)) (sym hk) in
    let buffer_length : length buffer ≡ 8 + size e = ap length buffer_is ∙ length-encode_entry e in
    let new_is : new ≡ encode (es ++ e ∷ []) ++ replicate (log.zeros - length buffer) 0 =
      ap (λ (k : ℕ). write_at k buffer old) log.offset_is
      ∙ write_at_end (encode es) buffer log.zeros
      ∙ ap (λ (b : Bytes). b ++ replicate (log.zeros - length buffer) 0)
          (ap (◌++◌ (encode es)) buffer_is ∙ sym (encode-snoc es e)) in
    let stored : SegmentStore = record s {
      files = set_file s.cur_segment_id new s.files;
      cur_segment_offset = s.cur_segment_offset + length buffer;
    } in
    let stored-IsLog : IsLog stored (es ++ e ∷ []) = record {
      zeros = log.zeros - length buffer;
      file_is = set_file_same s.cur_segment_id new s.files ∙ ap some new_is;
      offset_is = omega (arith, buffer_length, length-snoc es e, log.offset_is);
      size_is = omega (arith, buffer_length, length-snoc es e, log.offset_is, log.size_is, hk);
      entries =
          All-append (IsEntry s.index_key_length) es (e ∷ []) log.entries
            ((hk, pos, omega (arith, hk, log.below_int)), tt);
      nonempty = log.nonempty;
      below_int = log.below_int;
      later_free = λ i later.
          set_file_other s.cur_segment_id i new s.files
            (λ same. absurd (omega (arith, later, same)))
          ∙ log.later_free i later;
      id_fits = log.id_fits;
    } in
    let index : Bytes = to_segment_index (record {
      segment_id = s.cur_segment_id;
      offset = s.cur_segment_offset;
      checksum = crc32 (key ++ value);
    }) in
    let wrote : write_record crc32 key value s ≡ (stored, some index) =
      rw (write_record, log.file_is) refl in
    rw wrote (
      refl,
      refl,
      (refl, refl),
      (λ i ne. set_file_other s.cur_segment_id i new s.files ne),
      stored-IsLog,
    )

pub free_none : (id : ℕ) (s : SegmentStore) → s.files id ≡ none → segment_exists id s ≡ false
unfolding segment_exists
free_none id s e = rw (segment_exists, e) refl

-- A store that holds records, and can seek to the end of a segment, is ready for Append.
pub IsLog-IsReady :
    (s : SegmentStore) (es : List Entry)
    → IsLog s es
    → 0 < s.segment_max_size
    → s.segment_max_size < 2 ^ 63
    → IsReady s
IsLog-IsReady s es log pos small = record {
  file = encode es ++ replicate log.zeros 0;
  is_open = log.file_is;
  within = omega (arith, log.offset_is, length-append (encode es) (replicate log.zeros 0));
  next_free =
      free_none (s.cur_segment_id + 1) s (log.later_free (s.cur_segment_id + 1) (omega arith));
  id_fits = log.id_fits;
  max_pos = pos;
  max_fits = small;
  offset_fits = omega (arith, log.offset_is, log.size_is, log.below_int);
}
