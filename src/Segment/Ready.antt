-- ===== src/Segment/Ready.antt =====
-- When Append can write, and the room that it makes.
use paxosme.Prelude.{
  zero, suc, ℕ, ◌+◌, ◌-◌, ◌^◌, ◌≤◌, ◌<◌, ◌≡◌, refl, ap, true, false, Option, some, [], ◌∷◌, ◌++◌,
  ltb, leb, Bool-cases, inl, inr, Bytes, length, take, ok, arith,
}
use paxosme.Segment.Files.{write_at, truncate}
use paxosme.Segment.Store.{
  SegmentStore, can_pad, set_file, segment_exists, update_metadata, new_segment, copy_key,
  make_room,
}

-- What Append needs of the store to write: the file that the descriptor stands for is there up to
-- the current offset, the numbers fit the index, no file is in the way of the next segment, whose id
-- is not past the greatest, and lseek can go to the end of a segment.
pub record IsReady (s : SegmentStore) : Type 0 where
  pub file : Bytes
  pub is_open : s.files s.cur_segment_id ≡ some file
  pub within : s.cur_segment_offset ≤ length file
  pub next_free : segment_exists (s.cur_segment_id + 1) s ≡ false
  pub id_fits : s.cur_segment_id + 1 < 2 ^ 31
  pub max_pos : 0 < s.segment_max_size
  pub max_fits : s.segment_max_size < 2 ^ 63
  pub offset_fits : s.cur_segment_offset < 2 ^ 63

pub set_file_same :
    (id : ℕ) (file : Bytes) (files : ℕ → Option Bytes) → set_file id file files id ≡ some file
unfolding set_file
set_file_same id file files = ground arith

pub set_file_next :
    (id : ℕ) (file : Bytes) (files : ℕ → Option Bytes)
    → set_file id file files (id + 1) ≡ files (id + 1)
unfolding set_file
set_file_next id file files = ground arith

-- A state in which a record can be written at the current offset.
abbrev pub Open : ℕ → SegmentStore → Type 0
Open key_length s =
    (file : Bytes) × (s.files s.cur_segment_id ≡ some file)
    × (s.cur_segment_offset ≤ length file)
    × (s.cur_segment_id < 2 ^ 31)
    × (s.cur_segment_offset < 2 ^ 63)
    × (s.index_key_length ≡ key_length)

pub can_pad_lem : (max : ℕ) → 0 < max → max < 2 ^ 63 → can_pad max ≡ true
unfolding can_pad
can_pad_lem max pos small = ground arith

new_segment_lem :
    (crc32 : Bytes → ℕ) (s : SegmentStore)
    → segment_exists (s.cur_segment_id + 1) s ≡ false
    → s.cur_segment_id + 1 < 2 ^ 31
    → 0 < s.segment_max_size
    → s.segment_max_size < 2 ^ 63
    → ((new_segment crc32 s).1 ≡ true) × Open s.index_key_length (new_segment crc32 s).0
unfolding new_segment update_metadata segment_exists
new_segment_lem crc32 s free fits pos small =
    rw (free, can_pad_lem s.segment_max_size pos small)
      (
        refl,
        (
          write_at (s.segment_max_size - 1) (0 ∷ []) [],
          set_file_same (s.cur_segment_id + 1) (write_at (s.segment_max_size - 1) (0 ∷ []) [])
              s.files,
          omega arith,
          omega arith,
          omega arith,
          refl,
        ),
      )

take-append_short : (n : ℕ) (key more : Bytes) → n ≤ length key → take n (key ++ more) ≡ take n key
take-append_short zero key more h = refl
take-append_short (suc n) [] more h = absurd (omega arith)
take-append_short (suc n) (b ∷ bs) more h = ap (◌∷◌ b) (take-append_short n bs more (omega arith))

pub copy_key_lem : (n : ℕ) (key : Bytes) → n ≤ length key → copy_key n key ≡ ok (take n key)
unfolding copy_key
copy_key_lem n key h =
    let inside : leb n (length key + 1) ≡ true = ground arith in
    rw (inside, take-append_short n key (0 ∷ []) h) refl

pub make_room_lem :
    (crc32 : Bytes → ℕ) (buffer_length : ℕ) (s : SegmentStore)
    → IsReady s
    → ((make_room crc32 buffer_length s).1 ≡ true)
      × Open s.index_key_length (make_room crc32 buffer_length s).0
unfolding make_room segment_exists
make_room_lem crc32 buffer_length s r =
    elim (Bool-cases (ltb s.cur_segment_file_size (s.cur_segment_offset + buffer_length))) [
      | inl full ↦
          rw (full, r.is_open)
            (new_segment_lem crc32
              (record s {
                files = set_file s.cur_segment_id (truncate s.cur_segment_offset r.file) s.files;
              })
              (rw
                (
                  segment_exists,
                  set_file_next s.cur_segment_id (truncate s.cur_segment_offset r.file) s.files,
                )
                r.next_free)
              r.id_fits r.max_pos r.max_fits)
      | inr enough ↦
          rw enough
            (refl, (r.file, r.is_open, r.within, omega (arith, r.id_fits), r.offset_fits, refl))
    ]
