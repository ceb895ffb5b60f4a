-- ===== src/Segment/Layout.antt =====
-- What a segment file holds: records one after another, and zeros behind them. Replaying it finds
-- each record and then the end.
use mathlib.Core.List.{append_assoc}
use paxosme.Prelude.{
  ℕ, zero, suc, ◌+◌, ◌%◌, ◌^◌, ◌<◌, ◌≡◌, refl, sym, ap, ◌∙◌, false, Option, none, some, List, [],
  ◌∷◌, ◌++◌, ltb, leb, ◌==◌, Bool-cases, inl, inr, Bytes, length, take, drop, replicate,
  length-append, take_front_part, drop_front_part, All, ok, arith,
}
use paxosme.Segment.Index.{le_bytes, le_value, length-le_bytes, le_value-le_bytes, to_segment_index}
use paxosme.Segment.Files.{read_at, drop-drop}
use paxosme.Segment.Store.{SegmentStore}
use paxosme.Segment.Replay.{int_mod, is_negative, replay_record, replay_log, replay_segment}

-- A record: its key and its value.
abbrev pub Entry : Type 0
Entry = Bytes × Bytes

abbrev pub size : Entry → ℕ
size e = length e.0 + length e.1

unfoldable pub encode_entry : Entry → Bytes
encode_entry e = le_bytes 8 (size e) ++ (e.0 ++ e.1)

unfoldable pub encode : List Entry → Bytes
unfolding encode_entry
encode [] = []
encode (e ∷ es) = encode_entry e ++ encode es

-- The key has the length of the store's keys, which is not 0, and the size fits eight bytes.
abbrev pub IsEntry : ℕ → Entry → Type 0
IsEntry key_length e = (length e.0 ≡ key_length) × (0 < key_length) × (size e < 256 ^ 8)

pub length-encode_entry : (e : Entry) → length (encode_entry e) ≡ 8 + size e
unfolding encode_entry
length-encode_entry e =
    length-append (le_bytes 8 (size e)) (e.0 ++ e.1)
    ∙ omega (arith, length-le_bytes 8 (size e), length-append e.0 e.1)

pub encode-append : (es fs : List Entry) → encode (es ++ fs) ≡ encode es ++ encode fs
unfolding encode
encode-append [] fs = refl
encode-append (e ∷ es) fs =
    ap (◌++◌ (encode_entry e)) (encode-append es fs)
    ∙ sym (append_assoc (encode_entry e) (encode es) (encode fs))

pub replay_record_entry :
    (crc32 : Bytes → ℕ) (key_length id offset : ℕ) (e : Entry) (file rest : Bytes)
    → IsEntry key_length e
    → drop offset file ≡ encode_entry e ++ rest
    → replay_record crc32 key_length id offset file
      ≡ ok (
        (offset + 8 + size e) % int_mod,
        some (
          e.0,
          to_segment_index
              (record { segment_id = id; offset = offset; checksum = crc32 (e.0 ++ e.1) }),
        ),
      )
unfolding replay_record read_at encode_entry
replay_record_entry crc32 key_length id offset e file rest (hk, pos, small) at =
    let parts : drop offset file ≡ le_bytes 8 (size e) ++ ((e.0 ++ e.1) ++ rest) =
      at ∙ append_assoc (le_bytes 8 (size e)) (e.0 ++ e.1) rest in
    let size_read : take 8 (drop offset file) ≡ le_bytes 8 (size e) =
      rw parts (take_front_part 8 _ _ (length-le_bytes 8 _)) in
    let after_size : drop (offset + 8) file ≡ (e.0 ++ e.1) ++ rest =
      rw (drop-drop offset 8 file, parts) (drop_front_part 8 _ _ (length-le_bytes 8 _)) in
    let body : take (size e) ((e.0 ++ e.1) ++ rest) ≡ e.0 ++ e.1 =
      take_front_part (size e) (e.0 ++ e.1) rest (length-append e.0 e.1) in
    let key : take key_length (e.0 ++ e.1) ≡ e.0 = take_front_part key_length e.0 e.1 hk in
    rw
      (
        size_read,
        le_value-le_bytes 8 _ small,
        after_size,
        body,
        key,
        length-le_bytes 8 (size e),
        length-append e.0 e.1,
      )
      (ground arith)

le_value_zeros : (m n : ℕ) → le_value (take m (replicate n 0)) ≡ 0
unfolding le_value
le_value_zeros zero n = refl
le_value_zeros (suc m) zero = refl
le_value_zeros (suc m) (suc n) = omega (arith, le_value_zeros m n)

pub replay_record_end :
    (crc32 : Bytes → ℕ) (key_length id offset n : ℕ) (file : Bytes)
    → drop offset file ≡ replicate n 0
    → replay_record crc32 key_length id offset file ≡ ok (0, none)
unfolding replay_record read_at
replay_record_end crc32 key_length id offset n file at =
    elim (Bool-cases (ltb (length (take 8 (drop offset file))) 8)) [
      | inl short ↦ rw short refl
      | inr long ↦ rw (long, at, le_value_zeros 8 n) refl
    ]

pub replay_log_at :
    (crc32 : Bytes → ℕ) (id offset : ℕ) (file : Bytes) (s : SegmentStore)
    → s.files id ≡ some file
    → replay_log crc32 id offset s ≡ replay_record crc32 s.index_key_length id offset file
unfolding replay_log
replay_log_at crc32 id offset file s e = rw (replay_log, e) refl

pub replay_stops :
    (crc32 : Bytes → ℕ) (fuel id offset : ℕ) (s : SegmentStore) (r : Option (Bytes × Bytes))
    → replay_log crc32 id offset s ≡ ok (0, r)
    → replay_segment crc32 (suc fuel) id offset s ≡ ok (some offset)
unfolding replay_segment is_negative
replay_stops crc32 fuel id offset s r e = rw (replay_segment, e) refl

pub replay_goes_on :
    (crc32 : Bytes → ℕ) (fuel id offset next : ℕ) (s : SegmentStore) (r : Option (Bytes × Bytes))
    → replay_log crc32 id offset s ≡ ok (next, r)
    → next < 2 ^ 31
    → 0 < next
    → replay_segment crc32 (suc fuel) id offset s ≡ replay_segment crc32 fuel id next s
unfolding replay_segment is_negative
replay_goes_on crc32 fuel id offset next s r e small pos =
    let positive : leb (2 ^ 31) next ≡ false = ground arith in
    let nonzero : (next == 0) ≡ false = ground arith in
    rw (replay_segment, e, positive, nonzero) refl

-- From the start of the records on, with fuel for each of them and for the end, ReplaySegment finds
-- where the records end.
pub replay_segment_end :
    (crc32 : Bytes → ℕ) (es : List Entry) (fuel id offset n : ℕ) (file : Bytes) (s : SegmentStore)
    → s.files id ≡ some file
    → All (IsEntry s.index_key_length) es
    → drop offset file ≡ encode es ++ replicate n 0
    → offset + length (encode es) < 2 ^ 31
    → length es < fuel
    → replay_segment crc32 fuel id offset s ≡ ok (some (offset + length (encode es)))
unfolding encode
replay_segment_end crc32 es zero id offset n file s at all layout small enough =
    absurd (omega arith)
replay_segment_end crc32 [] (suc fuel) id offset n file s at all layout small enough =
    replay_stops crc32 fuel id offset s none (
      replay_log_at crc32 id offset file s at
      ∙ replay_record_end crc32 s.index_key_length id offset n file layout)
    ∙ ap (λ (k : ℕ). ok (some k)) {y = offset + 0} (omega arith)
replay_segment_end crc32 (e ∷ es) (suc fuel) id offset n file s at (ok_e, all) layout small enough =
    let lengths : length (encode (e ∷ es)) ≡ 8 + size e + length (encode es) =
      rw (encode, length-append (encode_entry e) (encode es))
        (omega (arith, length-encode_entry e)) in
    let next : (offset + 8 + size e) % int_mod ≡ offset + 8 + size e = omega (arith, lengths) in
    let split : drop offset file ≡ encode_entry e ++ (encode es ++ replicate n 0) =
      layout ∙ append_assoc (encode_entry e) (encode es) (replicate n 0) in
    let rest : drop (offset + 8 + size e) file ≡ encode es ++ replicate n 0 =
      ap (λ (k : ℕ). drop k file) {y = offset + (8 + size e)} (omega arith)
      ∙ drop-drop offset (8 + size e) file
      ∙ ap (drop (8 + size e)) split
      ∙ drop_front_part (8 + size e) (encode_entry e) (encode es ++ replicate n 0)
          (length-encode_entry e) in
    replay_goes_on crc32 fuel id offset (offset + 8 + size e) s _
      (replay_log_at crc32 id offset file s at
        ∙ replay_record_entry crc32 s.index_key_length id offset e file (encode es ++ replicate n 0)
            ok_e split
        ∙ ap
            (λ (k : ℕ). ok (
              k,
              some (
                e.0,
                to_segment_index
                    (record { segment_id = id; offset = offset; checksum = crc32 (e.0 ++ e.1) }),
              ),
            ))
            next)
      (omega (arith, lengths)) (omega arith)
    ∙ replay_segment_end crc32 es fuel id (offset + 8 + size e) n file s at all rest
        (omega (arith, lengths)) (omega arith)
    ∙ ap (λ (k : ℕ). ok (some k)) (omega (arith, lengths))
