-- ===== src/Segment/Ends.antt =====
-- ReplaySegment ends on every file, whatever its bytes are.
use paxosme.Prelude.{
  ℕ, zero, suc, ◌+◌, ◌-◌, ◌%◌, ◌^◌, ◌≤◌, ◌<◌, ◌≡◌, ◌≢◌, refl, sym, ◌∙◌, inl, inr, not, Option, none,
  some, [], ◌∷◌, ltb, ◌==◌, Bool-cases, Bytes, length, take, drop, length-drop, Run, ok, fault,
  out_of_bounds, out_of_fuel, arith,
}
use paxosme.Segment.Index.{le_value, to_segment_index}
use paxosme.Segment.Files.{read_at}
use paxosme.Segment.Store.{SegmentStore}
use paxosme.Segment.Replay.{int_mod, replay_record, replay_log, replay_segment}
use paxosme.Segment.Layout.{replay_log_at, replay_stops, replay_goes_on}

length-take_le : (n : ℕ) (bs : Bytes) → length (take n bs) ≤ length bs
length-take_le zero bs = omega arith
length-take_le (suc n) [] = omega arith
length-take_le (suc n) (b ∷ bs) = omega (arith, length-take_le n bs)

-- A full read of at least one byte ends within the file.
full_read :
    (offset n : ℕ) (file : Bytes)
    → 0 < n
    → length (read_at offset n file) ≡ n
    → offset + n ≤ length file
unfolding read_at
full_read offset n file pos e =
    omega (arith, length-take_le n (drop offset file), length-drop offset file)

-- How a call of ReplayLog ends: at the end, past a record that is too short, or further on.
data Outcome (r : Run (ℕ × Option (Bytes × Bytes))) (offset size : ℕ) : Type 0 where
  stops : r ≡ ok (0, none) → Outcome r offset size
  faults : r ≡ fault out_of_bounds → Outcome r offset size
  goes_on :
      (next : ℕ) (x : Option (Bytes × Bytes))
      → r ≡ ok (next, x)
      → offset < next
      → next ≤ size
      → Outcome r offset size

replay_record-Outcome :
    (crc32 : Bytes → ℕ) (key_length id offset : ℕ) (file : Bytes)
    → length file < 2 ^ 31
    → Outcome (replay_record crc32 key_length id offset file) offset (length file)
unfolding replay_record
replay_record-Outcome crc32 key_length id offset file small =
    let kv_size = le_value (read_at offset 8 file) in
    elim (Bool-cases (ltb (length (read_at offset 8 file)) 8)) [
      | inl short ↦ stops (rw short refl)
      | inr long ↦ elim (Bool-cases (kv_size == 0)) [
        | inl blank ↦ stops (rw (long, blank) refl)
        | inr more ↦
            elim (Bool-cases (not (length (read_at (offset + 8) kv_size file) == kv_size))) [
              | inl cut ↦ stops (rw (long, more, cut) refl)
              | inr full ↦ elim (Bool-cases (ltb kv_size key_length)) [
                | inl little ↦ faults (rw (long, more, full, little) refl)
                | inr enough ↦
                    let positive : 0 < kv_size = ground arith in
                    let whole : length (read_at (offset + 8) kv_size file) ≡ kv_size =
                      ground arith in
                    let inside : offset + 8 + kv_size ≤ length file =
                      full_read (offset + 8) kv_size file positive whole in
                    let buffer = read_at (offset + 8) kv_size file in
                    goes_on ((offset + 8 + kv_size) % int_mod)
                      (some (
                        take key_length buffer,
                        to_segment_index
                            (record { segment_id = id; offset = offset; checksum = crc32 buffer }),
                      ))
                      (rw (long, more, full, enough) refl) (omega arith) (omega arith)
              ]
            ]
      ]
    ]

ok_not_fuel : {x : Option ℕ} → ok x ≢ fault out_of_fuel
ok_not_fuel = λ e. cc

replay_faults :
    (crc32 : Bytes → ℕ) (fuel id offset : ℕ) (s : SegmentStore)
    → replay_log crc32 id offset s ≡ fault out_of_bounds
    → replay_segment crc32 (suc fuel) id offset s ≡ fault out_of_bounds
unfolding replay_segment
replay_faults crc32 fuel id offset s e = rw (replay_segment, e) refl

replay_segment_within :
    (crc32 : Bytes → ℕ) (fuel id offset : ℕ) (file : Bytes) (s : SegmentStore)
    → s.files id ≡ some file
    → length file < 2 ^ 31
    → length file < fuel + offset
    → 0 < fuel
    → replay_segment crc32 fuel id offset s ≢ fault out_of_fuel
replay_segment_within crc32 zero id offset file s at small enough pos = absurd (omega arith)
replay_segment_within crc32 (suc fuel) id offset file s at small enough pos =
    elim (replay_record-Outcome crc32 s.index_key_length id offset file small) [
      | stops e ↦
          let stopped =
            replay_stops crc32 fuel id offset s none
              (replay_log_at crc32 id offset file s at ∙ e) in
          λ out. ok_not_fuel (sym stopped ∙ out)
      | faults e ↦
          let faulted =
            replay_faults crc32 fuel id offset s (replay_log_at crc32 id offset file s at ∙ e) in
          λ out. cc (sym faulted ∙ out)
      | goes_on next x e further within ↦
          let stepped =
            replay_goes_on crc32 fuel id offset next s x
              (replay_log_at crc32 id offset file s at ∙ e) (omega arith) (omega arith) in
          λ out.
            replay_segment_within crc32 fuel id next file s at small (omega arith) (omega arith)
              (sym stepped ∙ out)
    ]

-- On a segment file below 2^31 bytes the loop of ReplaySegment ends after at most as many rounds
-- as the file has bytes past the offset, and one more, whatever the bytes are.
pub replay_segment_terminates :
    (crc32 : Bytes → ℕ) (id offset : ℕ) (file : Bytes) (s : SegmentStore)
    → s.files id ≡ some file
    → length file < 2 ^ 31
    → replay_segment crc32 (suc (length file - offset)) id offset s ≢ fault out_of_fuel
replay_segment_terminates crc32 id offset file s at small =
    replay_segment_within crc32 (suc (length file - offset)) id offset file s at small (omega arith)
      (omega arith)
