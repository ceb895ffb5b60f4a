-- ===== src/Database/Keys.antt =====
-- Keys of another length than index_key_length, and Delete.
use paxosme.Prelude.{
  out_of_bounds, ltb, ℕ, ◌+◌, ◌%◌, ◌≡◌, ◌≢◌, refl, sym, ap, ◌∙◌, ◌⊎◌, inl, inr, true, false, not,
  Option, none, some, Bytes, bytes_eq, bytes_eq_refl, bytes_eq-eq, Bool-cases, length, ◌==◌,
  if◌then◌else◌, Run, ok, fault, arith,
}
use paxosme.Message.{u64_mod}
use paxosme.Schedule.{Scheduler}
use paxosme.Segment.Index.{Place, le_value, parse_segment_index}
use paxosme.Segment.Files.{read_at}
use paxosme.Segment.Store.{SegmentStore, read_record, read}
use paxosme.Segment.Replay.{remove_async}
use paxosme.Segment.Records.{Stored}
use paxosme.LevelDb.{LevelDb, IsLevelDb}
use paxosme.Database.Index.{get_index, del_index}
use paxosme.Database.Defs.{LogDb, to_index_key, get, delete}
use paxosme.Database.Refines.{Refines, differ}

read_record_key :
    (crc32 : Bytes → ℕ) (key_length : ℕ) (p : Place) (file k v : Bytes)
    → read_record crc32 key_length p file ≡ ok (some (k, v))
    → length k ≡ key_length
unfolding read_record
read_record_key crc32 key_length p file k v e = ground arith

read_key :
    (crc32 : Bytes → ℕ) (index : Bytes) (s : SegmentStore) (k v : Bytes)
    → read crc32 index s ≡ ok (some (k, v))
    → length k ≡ s.index_key_length
unfolding read
read_key crc32 index s k v e = ground (arith, read_record_key crc32 s.index_key_length)

Option-cases : (o : Option Bytes) → (o ≡ none) ⊎ ((x : Bytes) × (o ≡ some x))
Option-cases none = inl refl
Option-cases (some x) = inr (x, refl)

-- A map from keys to values without one key.
unfoldable pub erase : Bytes → (Bytes → Option Bytes) → Bytes → Option Bytes
erase key m k = if bytes_eq key k then none else m k

pub remove_async_store :
    (index file : Bytes) (now : ℕ) (s : SegmentStore) (scheduler : Scheduler)
    → s.files (parse_segment_index index).segment_id ≡ some file
    → (remove_async index now s scheduler).0 ≡ s
unfolding remove_async
remove_async_store index file now s scheduler at =
    let p = parse_segment_index index in
    rw (remove_async, at)
      (elim (Bool-cases (not (length (read_at p.offset 8 file) == 8))) [
        | inl short ↦ rw short refl
        | inr whole ↦
            rw whole
              (elim (Bool-cases
                ((p.offset + 8 + le_value (read_at p.offset 8 file)) % u64_mod == length file)) [
                  | inl last ↦ rw last refl
                  | inr inner ↦ rw inner refl
                ])
      ])

false_not_true : ¬ (false ≡ true)
false_not_true = λ e. cc

module _ {D : Type 0} ⦃db : LevelDb D⦄ (crc32 : Bytes → ℕ) where
  get_after_read :
      (key value index : Bytes) (s : LogDb D) (r : Run (Option (Bytes × Bytes)))
      → get_index key s.index_db ≡ some index
      → read crc32 index s.segment_store ≡ r
      → get crc32 key s ≡ ok (some value)
      → length key ≡ s.segment_store.index_key_length
  unfolding get to_index_key
  get_after_read key value index s (fault f) indexed e found =
      elim (Bool-cases (ltb (length key + 1) 8)) [
        | inl short ↦
            let faults : get crc32 key s ≡ fault out_of_bounds = rw (get, indexed, short) refl in
            cc (found, faults)
        | inr long ↦
            let faults : get crc32 key s ≡ fault f = rw (get, indexed, long, e) refl in
            cc (found, faults)
      ]
  get_after_read key value index s (ok none) indexed e found =
      elim (Bool-cases (ltb (length key + 1) 8)) [
        | inl short ↦
            let faults : get crc32 key s ≡ fault out_of_bounds = rw (get, indexed, short) refl in
            cc (found, faults)
        | inr long ↦
            let nothing : get crc32 key s ≡ ok none = rw (get, indexed, long, e) refl in
            cc (found, nothing)
      ]
  get_after_read key value index s (ok (some (k, v))) indexed e found =
      elim (Bool-cases (bytes_eq k key)) [
        | inl same ↦
            ap length (sym (bytes_eq-eq k key same)) ∙ read_key crc32 index s.segment_store k v e
        | inr other ↦ elim (Bool-cases (ltb (length key + 1) 8)) [
          | inl short ↦
              let faults : get crc32 key s ≡ fault out_of_bounds = rw (get, indexed, short) refl in
              cc (found, faults)
          | inr long ↦
              let nothing : get crc32 key s ≡ ok none = rw (get, indexed, long, e, other) refl in
              cc (found, nothing)
        ]
      ]

  -- Get finds only keys of exactly index_key_length bytes: every other key is taken for missing,
  -- also when it has just been put.
  pub get_key_length :
      (key value : Bytes) (s : LogDb D)
      → get crc32 key s ≡ ok (some value)
      → length key ≡ s.segment_store.index_key_length
  unfolding get get_index to_index_key
  get_key_length key value s e = elim (Option-cases (get_index key s.index_db)) [
    | inl missing ↦
        let nothing : get crc32 key s ≡ ok none = rw (get, missing) refl in cc (e, nothing)
    | inr (index, indexed) ↦
        get_after_read key value index s (read crc32 index s.segment_store) indexed refl e
  ]

  pub erased :
      (key : Bytes) (s : LogDb D) (m : Bytes → Option Bytes)
      → IsLevelDb db
      → Refines crc32 s m
      → (del_index key s.index_db).1 ≡ true
      → Refines crc32 (record s { index_db = (del_index key s.index_db).0 }) (erase key m)
  unfolding del_index get_index erase
  erased key s m laws refines gone other other_length = elim (Bool-cases (bytes_eq key other)) [
    | inl same ↦
        let here : key ≡ other = bytes_eq-eq key other same in
        rw (← here) (inl (laws.get-delete key s.index_db gone, rw (bytes_eq_refl key) refl))
    | inr differs ↦
        let kept = laws.get-delete_ne key other s.index_db (λ e. differ key other e differs) in
        rw differs (elim (refines other other_length) [
          | inl (missing, absent) ↦ inl (kept ∙ missing, absent)
          | inr (index, value, indexed, present, at) ↦
              inr (index, value, kept ∙ indexed, present, at)
        ])
  ]

  delete_found :
      (key index : Bytes) (now : ℕ) (s : LogDb D) (scheduler : Scheduler) (m : Bytes → Option Bytes)
      → IsLevelDb db
      → length key ≡ s.segment_store.index_key_length
      → Refines crc32 s m
      → get_index key s.index_db ≡ some index
      → (remove_async index now s.segment_store scheduler).0 ≡ s.segment_store
      → m key ≢ none
      → (m key ≡ none → delete key now s scheduler ≡ (s, scheduler, false))
        × ((delete key now s scheduler).0.segment_store ≡ s.segment_store)
        × ((delete key now s scheduler).2 ≡ true
            → Refines crc32 (delete key now s scheduler).0 (erase key m))
  unfolding delete del_index to_index_key
  delete_found key index now s scheduler m laws same_length refines indexed kept present =
      elim (Bool-cases (remove_async index now s.segment_store scheduler).2) [
        | inr failed ↦
            let result : delete key now s scheduler ≡ (
              record s { segment_store = (remove_async index now s.segment_store scheduler).0 },
              (remove_async index now s.segment_store scheduler).1,
              false,
            ) =
              rw (delete, indexed, failed) refl in
            rw (result, kept)
              ((λ absent. absurd (present absent)), refl, (λ e. absurd (false_not_true e)))
        | inl removed ↦
            let result : delete key now s scheduler ≡ (
              record {
                segment_store = (remove_async index now s.segment_store scheduler).0;
                index_db = (del_index key s.index_db).0;
              },
              (remove_async index now s.segment_store scheduler).1,
              (del_index key s.index_db).1,
            ) =
              rw (delete, indexed, removed) refl in
            rw (result, kept)
              ((λ absent. absurd (present absent)), refl, erased key s m laws refines)
      ]

  -- Over a LevelDB that keeps its laws, Delete of a key of index_key_length bytes on a storage
  -- that is a map: a key that is missing is refused and nothing changes; the segments stay as
  -- they are; and where Delete returns true the storage is the map without the key.
  pub delete-Refines :
      (key : Bytes) (now : ℕ) (s : LogDb D) (scheduler : Scheduler) (m : Bytes → Option Bytes)
      → IsLevelDb db
      → length key ≡ s.segment_store.index_key_length
      → Refines crc32 s m
      → (m key ≡ none → delete key now s scheduler ≡ (s, scheduler, false))
        × ((delete key now s scheduler).0.segment_store ≡ s.segment_store)
        × ((delete key now s scheduler).2 ≡ true
            → Refines crc32 (delete key now s scheduler).0 (erase key m))
  unfolding delete del_index get_index to_index_key erase Stored
  delete-Refines key now s scheduler m laws same_length refines = elim (refines key same_length) [
    | inl (missing, absent) ↦
        let refused : delete key now s scheduler ≡ (s, scheduler, false) =
          rw (delete, missing) refl in
        rw refused ((λ _. refl), refl, (λ e. absurd (false_not_true e)))
    | inr (index, value, indexed, present, stored) ↦
        let kept = remove_async_store index stored.0 now s.segment_store scheduler stored.1 in
        delete_found key index now s scheduler m laws same_length refines indexed kept
          (λ absent. cc (present, absent))
  ]
