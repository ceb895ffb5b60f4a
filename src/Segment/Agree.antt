-- ===== src/Segment/Agree.antt =====
-- Files that have the same bytes up to a size.
use paxosme.Prelude.{
  ℕ, zero, suc, ◌+◌, ◌-◌, ◌≤◌, ◌≡◌, ◌≢◌, refl, sym, ap, ◌∙◌, inl, inr, true, Bool-cases, Option,
  some, [], ◌∷◌, ◌==◌, Bytes, length, take, take_front_part, length-take, Run, arith,
}
use paxosme.Segment.Index.{Place, le_value}
use paxosme.Segment.Files.{read_at, write_at, truncate}
use paxosme.Segment.Store.{SegmentStore, set_file, segment_exists, read_record}
use paxosme.Segment.Records.{Stored}

-- Below `size` the two files have the same bytes.
pub Agree : ℕ → Bytes → Bytes → Type 0
Agree size file file' = take size file' ≡ take size file

read_at-take :
    (offset n size : ℕ) (file : Bytes)
    → offset + n ≤ size
    → read_at offset n (take size file) ≡ read_at offset n file
unfolding read_at
read_at-take zero zero size file h = refl
read_at-take zero (suc n) zero file h = absurd (omega arith)
read_at-take zero (suc n) (suc size) [] h = refl
read_at-take zero (suc n) (suc size) (b ∷ bs) h =
    ap (◌∷◌ b) (read_at-take zero n size bs (omega arith))
read_at-take (suc offset) n zero file h = absurd (omega arith)
read_at-take (suc offset) n (suc size) [] h = refl
read_at-take (suc offset) n (suc size) (b ∷ bs) h = read_at-take offset n size bs (omega arith)

read_at-Agree :
    (offset n size : ℕ) (file file' : Bytes)
    → Agree size file file'
    → offset + n ≤ size
    → read_at offset n file' ≡ read_at offset n file
unfolding Agree
read_at-Agree offset n size file file' e h =
    sym (read_at-take offset n size file' h)
    ∙ ap (read_at offset n) e
    ∙ read_at-take offset n size file h

read_record-Agree :
    (crc32 : Bytes → ℕ) (key_length size : ℕ) (p : Place) (file file' : Bytes)
    → Agree size file file'
    → key_length ≤ le_value (read_at p.offset 8 file)
    → p.offset + 8 + le_value (read_at p.offset 8 file) ≤ size
    → read_record crc32 key_length p file' ≡ read_record crc32 key_length p file
unfolding read_record
read_record-Agree crc32 key_length size p file file' e long h =
    rw
      (
        read_at-Agree p.offset 8 size file file' e (omega arith),
        read_at-Agree (p.offset + 8) key_length size file file' e (omega arith),
        read_at-Agree (p.offset + 8 + key_length) (le_value (read_at p.offset 8 file) - key_length)
            size file file' e (omega arith),
      )
      refl

pub write_at-Agree :
    (size : ℕ) (bytes file : Bytes)
    → size ≤ length file
    → Agree size file (write_at size bytes file)
unfolding Agree write_at
write_at-Agree size bytes file h = take_front_part size _ _ (length-take size file h)

pub truncate-Agree :
    (size : ℕ) (file : Bytes) → size ≤ length file → Agree size file (truncate size file)
unfolding Agree truncate
truncate-Agree size file h = take_front_part size _ _ (length-take size file h)

pub set_file_other :
    (id other : ℕ) (file : Bytes) (files : ℕ → Option Bytes)
    → id ≢ other
    → set_file id file files other ≡ files other
unfolding set_file
set_file_other id other file files h = ground arith

set_file_at :
    (id other : ℕ) (file : Bytes) (files : ℕ → Option Bytes)
    → id ≡ other
    → set_file id file files other ≡ some file
unfolding set_file
set_file_at id other file files h = ground arith

pub exists_some :
    (id : ℕ) (s : SegmentStore) (file : Bytes) → s.files id ≡ some file → segment_exists id s ≡ true
unfolding segment_exists
exists_some id s file e = rw (segment_exists, e) refl

some_same : (x y : Bytes) → some x ≡ some y → x ≡ y
some_same x y e = cc

pub replace_file :
    (crc32 : Bytes → ℕ) (p : Place) (result : Run (Option (Bytes × Bytes))) (s : SegmentStore)
    (file file' : Bytes)
    → s.files s.cur_segment_id ≡ some file
    → Agree s.cur_segment_offset file file'
    → Stored crc32 p result s
    → Stored crc32 p result (record s { files = set_file s.cur_segment_id file' s.files })
unfolding Stored
replace_file crc32 p result s file file' is_open agree (old, at, long, below, reads) =
    elim (Bool-cases (s.cur_segment_id == p.segment_id)) [
      | inl same ↦
          let here : s.cur_segment_id ≡ p.segment_id = ground arith in
          let old_file : old ≡ file =
            some_same old file (sym at ∙ ap s.files (sym here) ∙ is_open) in
          let within : p.offset + 8 + le_value (read_at p.offset 8 old) ≤ s.cur_segment_offset =
            below (sym here) in
          let agree' : Agree s.cur_segment_offset old file' = rw old_file agree in
          let size_same : le_value (read_at p.offset 8 file') ≡ le_value (read_at p.offset 8 old) =
            ap le_value (
              read_at-Agree p.offset 8 s.cur_segment_offset old file' agree'
                (omega (arith, within))) in
          (
            file',
            set_file_at s.cur_segment_id p.segment_id file' s.files here,
            rw size_same long,
            (λ e. rw size_same within),
            read_record-Agree crc32 s.index_key_length s.cur_segment_offset p old file' agree' long
                  within
                ∙ reads,
          )
      | inr other ↦
          let away : s.cur_segment_id ≢ p.segment_id = ground arith in
          (
            old,
            set_file_other s.cur_segment_id p.segment_id file' s.files away ∙ at,
            long,
            below,
            reads,
          )
    ]
