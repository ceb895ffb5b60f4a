-- ===== src/Database/Calls.antt =====
-- Calls of Put, Get and Delete, what a map answers to them, and RemoveAsync of a record that is there.
use paxosme.Prelude.{
  ℕ, ◌+◌, ◌%◌, ◌≤◌, ◌≡◌, refl, inl, inr, Bool, true, false, Option, none, some, List, [], ◌∷◌,
  Bytes, Bool-cases, length, ◌==◌, eq→==, ok, arith,
}
use paxosme.Message.{u64_mod}
use paxosme.Schedule.{Scheduler}
use paxosme.Segment.Index.{Place, le_value, parse_segment_index}
use paxosme.Segment.Files.{read_at}
use paxosme.Segment.Store.{SegmentStore, read_record}
use paxosme.Segment.Replay.{remove_async}
use paxosme.Segment.Records.{Stored}
use paxosme.LevelDb.{LevelDb}
use paxosme.Database.Refines.{update}
use paxosme.Database.Keys.{erase}

pub data Call : Type 0 where
  call_put : (key value : Bytes) → Call
  call_get : (key : Bytes) → Call
  call_delete : (key : Bytes) (now : ℕ) → Call

pub data Reply : Type 0 where
  done : (result : Bool) → Reply
  found : (value : Option Bytes) → Reply

unfoldable pub is_some : Option Bytes → Bool
is_some none = false
is_some (some _) = true

-- The calls on a map.
unfoldable pub replies_of : List Call → (Bytes → Option Bytes) → List Reply
unfolding update erase is_some
replies_of [] m = []
replies_of (call_put key value ∷ cs) m = done true ∷ replies_of cs (update key value m)
replies_of (call_get key ∷ cs) m = found (m key) ∷ replies_of cs m
replies_of (call_delete key now ∷ cs) m = done (is_some (m key)) ∷ replies_of cs (erase key m)

unfoldable pub map_after : List Call → (Bytes → Option Bytes) → Bytes → Option Bytes
unfolding update erase
map_after [] m = m
map_after (call_put key value ∷ cs) m = map_after cs (update key value m)
map_after (call_get key ∷ cs) m = map_after cs m
map_after (call_delete key now ∷ cs) m = map_after cs (erase key m)

-- A key of index_key_length bytes, and a value that fits a segment.
abbrev pub CallFits : ℕ → ℕ → Call → Type 0
CallFits key_length max (call_put key value) =
    (length key ≡ key_length) × (8 + (key_length + length value) ≤ max)
CallFits key_length max (call_get key) = length key ≡ key_length
CallFits key_length max (call_delete key now) = length key ≡ key_length

-- Every delete of an index succeeds.
abbrev pub AlwaysDeletes : {D : Type 0} → LevelDb D → Type 0
AlwaysDeletes {D} db = (k : Bytes) (d : D) → (db.delete k d).1 ≡ true

read_record_size :
    (crc32 : Bytes → ℕ) (key_length : ℕ) (p : Place) (file k v : Bytes)
    → read_record crc32 key_length p file ≡ ok (some (k, v))
    → length (read_at p.offset 8 file) ≡ 8
unfolding read_record
read_record_size crc32 key_length p file k v e = ground arith

-- RemoveAsync of a record that is there returns true.
pub remove_async-Stored :
    (crc32 : Bytes → ℕ) (index key value : Bytes) (now : ℕ) (s : SegmentStore)
    (scheduler : Scheduler)
    → Stored crc32 (parse_segment_index index) (ok (some (key, value))) s
    → (remove_async index now s scheduler).2 ≡ true
unfolding remove_async Stored
remove_async-Stored crc32 index key value now s scheduler (file, at, _, _, reads) =
    let p = parse_segment_index index in
    let whole : (length (read_at p.offset 8 file) == 8) ≡ true =
      eq→== _ 8 (read_record_size crc32 s.index_key_length p file key value reads) in
    rw (remove_async, at, whole)
      (elim (Bool-cases
        ((p.offset + 8 + le_value (read_at p.offset 8 file)) % u64_mod == length file)) [
          | inl last ↦ rw last refl
          | inr inner ↦ rw inner refl
        ])
