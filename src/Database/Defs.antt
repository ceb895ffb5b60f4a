-- ===== src/Database/Defs.antt =====
-- DataBaseLogStorage. Its log lines are left out, but for the number that Get reads out of the key.
use paxosme.Prelude.{
  ℕ, zero, suc, ◌+◌, Bool, true, false, Option, none, some, Bytes, bytes_eq, ltb, ◌==◌,
  if◌then◌else◌, Run, ok, fault, out_of_fuel, out_of_bounds, length, ◌>>=◌,
}
use paxosme.Schedule.{Scheduler}
use paxosme.Segment.Index.{parse_segment_index}
use paxosme.Segment.Store.{SegmentStore, append, read}
use paxosme.Segment.Replay.{LogStorageOptions, Disk, is_negative, replay_log, remove_async}
use paxosme.Segment.Replay as Segment
use paxosme.LevelDb.{LevelDb}
use paxosme.Database.Index.{get_index, put_index, del_index, get_last_index}

pub record LogDb (D : Type 0) : Type 0 where
  pub segment_store : SegmentStore
  pub index_db : D

unfoldable pub to_index_key : Bytes → Bytes
to_index_key key = key

module _ {D : Type 0} ⦃db : LevelDb D⦄ (crc32 : Bytes → ℕ) where
  -- Put
  unfoldable pub put : Bytes → Bytes → LogDb D → Run (LogDb D × Bool)
  unfolding put_index to_index_key
  put key value s = append crc32 key value s.segment_store >>= (λ appended. elim appended.1 [
    | none ↦ ok (record s { segment_store = appended.0 }, false)
    | some index ↦ ok (
      record {
        segment_store = appended.0;
        index_db = (put_index (to_index_key key) index s.index_db).0;
      },
      (put_index (to_index_key key) index s.index_db).1,
    )
  ])

  -- Get; `none` is the result `false`. Its log line reads an instance_id_t, eight bytes, from the
  -- key's c_str(), which has one byte after the key.
  unfoldable pub get : Bytes → LogDb D → Run (Option Bytes)
  unfolding get_index to_index_key
  get key s = elim (get_index (to_index_key key) s.index_db) [
    | none ↦ ok none
    | some index ↦
        if ltb (length key + 1) 8
        then fault out_of_bounds
        else (read crc32 index s.segment_store >>= (λ found. elim found [
          | none ↦ ok none
          | some (key_in_segment, value) ↦
              if bytes_eq key_in_segment (to_index_key key) then ok (some value) else ok none
        ]))
  ]

  -- The loop of AlignIndexWithSegmentStore; the result of PutIndex is dropped.
  unfoldable pub align_loop : (fuel : ℕ) → ℕ → ℕ → LogDb D → Run (LogDb D)
  unfolding is_negative put_index
  align_loop zero segment_id offset s = fault out_of_fuel
  align_loop (suc fuel) segment_id offset s =
      let again = align_loop fuel in
      replay_log crc32 segment_id offset s.segment_store >>= (λ next.
        if next.0 == 0
        then again (segment_id + 1) 0 s
        else if is_negative next.0
        then ok s
        else elim next.1 [
          | none ↦ again segment_id next.0 s
          | some (key, index) ↦
              again segment_id next.0 (record s { index_db = (put_index key index s.index_db).0 })
        ])

  -- AlignIndexWithSegmentStore
  unfoldable pub align : (fuel : ℕ) → LogDb D → Run (LogDb D × Bool)
  unfolding get_last_index parse_segment_index align_loop
  align fuel s = elim (get_last_index s.index_db) [
    | none ↦ ok (s, true)
    | some index ↦
        let aligned = align_loop fuel in
        let p = parse_segment_index index in
        if ltb s.segment_store.cur_segment_id p.segment_id
        then ok (s, false)
        else (aligned p.segment_id p.offset s >>= (λ s'. ok (s', true)))
  ]

  -- Init, with an index database that has been opened; `none` is the result `false`.
  unfoldable pub init : (fuel : ℕ) → LogStorageOptions → Disk → D → Run (Option (LogDb D))
  unfolding align
  init fuel options disk d = Segment.init crc32 fuel options disk >>= (λ opened. elim opened [
    | none ↦ ok none
    | some store ↦
        align fuel (record { segment_store = store; index_db = d })
        >>= (λ aligned. if aligned.1 then ok (some aligned.0) else ok none)
  ])

module _ {D : Type 0} ⦃db : LevelDb D⦄ where
  -- Delete at the time `now`, with the store's scheduler
  unfoldable pub delete : Bytes → ℕ → LogDb D → Scheduler → LogDb D × Scheduler × Bool
  unfolding get_index del_index to_index_key remove_async
  delete key now s scheduler = elim (get_index (to_index_key key) s.index_db) [
    | none ↦ (s, scheduler, false)
    | some index ↦
        let (store, scheduler', removed) = remove_async index now s.segment_store scheduler in
        if removed
        then (
          record { segment_store = store; index_db = (del_index (to_index_key key) s.index_db).0 },
          scheduler',
          (del_index (to_index_key key) s.index_db).1,
        )
        else (record s { segment_store = store }, scheduler', false)
  ]
