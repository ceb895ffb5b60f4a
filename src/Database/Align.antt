-- ===== src/Database/Align.antt =====
-- AlignIndexWithSegmentStore writes the index of every record from the last indexed one on.
use mathlib.Core.List.{append_assoc}
use paxosme.Prelude.{
  ℕ, zero, suc, ◌+◌, ◌%◌, ◌^◌, ◌<◌, ◌≡◌, refl, ap, ◌∙◌, true, false, none, some, List, [], ◌∷◌,
  ◌++◌, leb, ltb, ◌==◌, Bytes, length, drop, replicate, length-append, drop_front_part, All,
  All-back, ok, arith,
}
use paxosme.Segment.Index.{to_segment_index, parse_segment_index}
use paxosme.Segment.Files.{drop-drop}
use paxosme.Segment.Store.{SegmentStore}
use paxosme.Segment.Replay.{int_mod, minus_one, is_negative, replay_log}
use paxosme.Segment.Layout.{
  Entry, size, encode_entry, encode, IsEntry, length-encode_entry, encode-append, replay_log_at,
  replay_record_entry, replay_record_end,
}
use paxosme.Segment.Contents.{IsLog}
use paxosme.LevelDb.{LevelDb}
use paxosme.Database.Index.{put_index, get_last_index}
use paxosme.Database.Defs.{LogDb, align_loop, align}

-- The index of a record at a place.
abbrev pub index_at : (Bytes → ℕ) → ℕ → ℕ → Entry → Bytes
index_at crc32 id offset e =
    to_segment_index (record { segment_id = id; offset = offset; checksum = crc32 (e.0 ++ e.1) })

replay_log-none :
    (crc32 : Bytes → ℕ) (id offset : ℕ) (s : SegmentStore)
    → s.files id ≡ none
    → replay_log crc32 id offset s ≡ ok (minus_one, none)
unfolding replay_log
replay_log-none crc32 id offset s e = rw (replay_log, e) refl

module _ {D : Type 0} ⦃db : LevelDb D⦄ (crc32 : Bytes → ℕ) where
  -- The index database after the records that stand from an offset on have been put.
  unfoldable pub index_all : ℕ → ℕ → List Entry → D → D
  unfolding put_index encode_entry
  index_all id offset [] d = d
  index_all id offset (e ∷ es) d =
      index_all id (offset + (8 + size e)) es (put_index e.0 (index_at crc32 id offset e) d).0

  align_next :
      (fuel id offset : ℕ) (s : LogDb D)
      → replay_log crc32 id offset s.segment_store ≡ ok (0, none)
      → align_loop crc32 (suc fuel) id offset s ≡ align_loop crc32 fuel (id + 1) 0 s
  unfolding align_loop is_negative
  align_next fuel id offset s e = rw (align_loop, e) refl

  align_ends :
      (fuel id offset : ℕ) (s : LogDb D)
      → replay_log crc32 id offset s.segment_store ≡ ok (minus_one, none)
      → align_loop crc32 (suc fuel) id offset s ≡ ok s
  unfolding align_loop is_negative
  align_ends fuel id offset s e = rw (align_loop, e) refl

  align_puts :
      (fuel id offset next : ℕ) (key index : Bytes) (s : LogDb D)
      → replay_log crc32 id offset s.segment_store ≡ ok (next, some (key, index))
      → next < 2 ^ 31
      → 0 < next
      → align_loop crc32 (suc fuel) id offset s
        ≡ align_loop crc32 fuel id next (record s { index_db = (put_index key index s.index_db).0 })
  unfolding align_loop is_negative
  align_puts fuel id offset next key index s e small pos =
      let positive : leb (2 ^ 31) next ≡ false = ground arith in
      let nonzero : (next == 0) ≡ false = ground arith in rw (align_loop, e, nonzero, positive) refl

  align_loop_records :
      (after : List Entry) (fuel offset n : ℕ) (file : Bytes) (s : LogDb D)
      → s.segment_store.files s.segment_store.cur_segment_id ≡ some file
      → s.segment_store.files (s.segment_store.cur_segment_id + 1) ≡ none
      → All (IsEntry s.segment_store.index_key_length) after
      → drop offset file ≡ encode after ++ replicate n 0
      → offset + length (encode after) < 2 ^ 31
      → length after + 1 < fuel
      → align_loop crc32 fuel s.segment_store.cur_segment_id offset s
        ≡ ok (record s {
          index_db = index_all s.segment_store.cur_segment_id offset after s.index_db;
        })
  unfolding index_all encode
  align_loop_records after zero offset n file s at free all layout small enough =
      absurd (omega arith)
  align_loop_records after (suc zero) offset n file s at free all layout small enough =
      absurd (omega arith)
  align_loop_records [] (suc (suc fuel)) offset n file s at free all layout small enough =
      let store = s.segment_store in
      align_next (suc fuel) store.cur_segment_id offset s (
        replay_log_at crc32 store.cur_segment_id offset file store at
        ∙ replay_record_end crc32 store.index_key_length store.cur_segment_id offset n file layout)
      ∙ align_ends fuel (store.cur_segment_id + 1) 0 s
          (replay_log-none crc32 (store.cur_segment_id + 1) 0 store free)
  align_loop_records (e ∷ after) (suc (suc fuel)) offset n file s at free (ok_e, all) layout small
        enough =
      let store = s.segment_store in
      let id = store.cur_segment_id in
      let lengths : length (encode (e ∷ after)) ≡ 8 + size e + length (encode after) =
        rw (encode, length-append (encode_entry e) (encode after))
          (omega (arith, length-encode_entry e)) in
      let next_is : (offset + 8 + size e) % int_mod ≡ offset + (8 + size e) =
        omega (arith, lengths) in
      let split : drop offset file ≡ encode_entry e ++ (encode after ++ replicate n 0) =
        layout ∙ append_assoc (encode_entry e) (encode after) (replicate n 0) in
      let rest : drop (offset + (8 + size e)) file ≡ encode after ++ replicate n 0 =
        drop-drop offset (8 + size e) file
        ∙ ap (drop (8 + size e)) split
        ∙ drop_front_part (8 + size e) (encode_entry e) (encode after ++ replicate n 0)
            (length-encode_entry e) in
      let replayed : replay_log crc32 id offset store
          ≡ ok (offset + (8 + size e), some (e.0, index_at crc32 id offset e)) =
        replay_log_at crc32 id offset file store at
        ∙ replay_record_entry crc32 store.index_key_length id offset e file
            (encode after ++ replicate n 0) ok_e split
        ∙ ap (λ (k : ℕ). ok (k, some (e.0, index_at crc32 id offset e))) next_is in
      align_puts (suc fuel) id offset (offset + (8 + size e)) e.0 (index_at crc32 id offset e) s
        replayed (omega (arith, lengths)) (omega arith)
      ∙ align_loop_records after (suc fuel) (offset + (8 + size e)) n file
          (record s { index_db = (put_index e.0 (index_at crc32 id offset e) s.index_db).0 }) at
          free all rest (omega (arith, lengths)) (omega arith)

  -- When the last indexed record is in the current segment, behind the records `before`, aligning the
  -- index ends with true after a round for each record from there on and two more; it puts the index
  -- of each of these records, and changes nothing else.
  pub align_recovers :
      (fuel : ℕ) (s : LogDb D) (before after : List Entry) (index : Bytes)
      → IsLog s.segment_store (before ++ after)
      → get_last_index s.index_db ≡ some index
      → (parse_segment_index index).segment_id ≡ s.segment_store.cur_segment_id
      → (parse_segment_index index).offset ≡ length (encode before)
      → length after + 1 < fuel
      → align crc32 fuel s
        ≡ ok (
          record s {
            index_db =
                index_all s.segment_store.cur_segment_id (length (encode before)) after s.index_db;
          },
          true,
        )
  unfolding align
  align_recovers fuel s before after index log last id_is offset_is enough =
      let store = s.segment_store in
      let p = parse_segment_index index in
      let file : Bytes = encode (before ++ after) ++ replicate log.zeros 0 in
      let layout : drop (length (encode before)) file ≡ encode after ++ replicate log.zeros 0 =
        ap (λ (b : Bytes). drop (length (encode before)) (b ++ replicate log.zeros 0))
          (encode-append before after)
        ∙ ap (drop (length (encode before)))
            (append_assoc (encode before) (encode after) (replicate log.zeros 0))
        ∙ drop_front_part (length (encode before)) (encode before)
            (encode after ++ replicate log.zeros 0) refl in
      let sizes : length (encode (before ++ after))
          ≡ length (encode before) + length (encode after) =
        ap length (encode-append before after) ∙ length-append (encode before) (encode after) in
      let looped =
        align_loop_records after fuel (length (encode before)) log.zeros file s log.file_is
          (log.later_free (store.cur_segment_id + 1) (omega arith))
          (All-back (IsEntry store.index_key_length) before after log.entries) layout
          (omega (arith, sizes, log.size_is, log.below_int)) enough in
      let inside : ltb store.cur_segment_id p.segment_id ≡ false = ground (arith, id_is) in
      rw (align, last, inside, id_is, offset_is, looped) refl
