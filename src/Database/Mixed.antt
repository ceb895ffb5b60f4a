-- ===== src/Database/Mixed.antt =====
-- Sequences of Put, Get and Delete on the log storage answer as a map does, as long as the scheduler
-- deletes no segment meanwhile.
use mathlib.Core.Path.{subst}
use paxosme.Prelude.{
  ◌≤◌, ℕ, ◌+◌, ◌^◌, ◌<◌, ◌≡◌, refl, sym, ap, ◌∙◌, inl, inr, Option, none, List, [], ◌∷◌, Bytes,
  bytes_eq, bytes_eq-eq, Bool-cases, length, Run, ok, ◌>>=◌, All, arith,
}
use paxosme.Schedule.{Scheduler}
use paxosme.Segment.Store.{SegmentStore}
use paxosme.Segment.Replay.{remove_async}
use paxosme.Segment.Records.{Stored}
use paxosme.Segment.Layout.{Entry}
use paxosme.Segment.Contents.{IsLog}
use paxosme.LevelDb.{LevelDb, IsLevelDb}
use paxosme.Database.Index.{get_index, del_index}
use paxosme.Database.Defs.{LogDb, to_index_key, put, get, delete}
use paxosme.Database.Refines.{update, Refines, get-Refines}
use paxosme.Database.Recovery.{AlwaysWrites}
use paxosme.Database.Runs.{put_step}
use paxosme.Database.Calls.{
  Call, call_put, call_get, call_delete, Reply, done, found, is_some, replies_of, map_after,
  CallFits, AlwaysDeletes, remove_async-Stored,
}
use paxosme.Database.Keys.{erase, remove_async_store, erased}

module _ {D : Type 0} ⦃db : LevelDb D⦄ (crc32 : Bytes → ℕ) where
  -- The calls on the storage, one after the other, with the scheduler of its segments.
  unfoldable pub run_calls : List Call → Scheduler → LogDb D → Run (LogDb D × List Reply)
  unfolding put get delete
  run_calls [] scheduler s = ok (s, [])
  run_calls (call_put key value ∷ cs) scheduler s =
      put crc32 key value s
      >>= (λ r. run_calls cs scheduler r.0 >>= (λ rest. ok (rest.0, done r.1 ∷ rest.1)))
  run_calls (call_get key ∷ cs) scheduler s =
      get crc32 key s
      >>= (λ v. run_calls cs scheduler s >>= (λ rest. ok (rest.0, found v ∷ rest.1)))
  run_calls (call_delete key now ∷ cs) scheduler s =
      let r = delete key now s scheduler in
      run_calls cs r.1 r.0 >>= (λ rest. ok (rest.0, done r.2 ∷ rest.1))

  -- A map that lacks the key is the map without the key.
  erase_absent :
      (key : Bytes) (s : LogDb D) (m : Bytes → Option Bytes)
      → m key ≡ none
      → Refines crc32 s m
      → Refines crc32 s (erase key m)
  unfolding erase
  erase_absent key s m absent refines other other_length = elim (Bool-cases (bytes_eq key other)) [
    | inl same ↦
        let here : key ≡ other = bytes_eq-eq key other same in
        elim (refines other other_length) [
          | inl (missing, _) ↦ rw same (inl (missing, refl))
          | inr (index, value, _, present, _) ↦
              let none_here : m other ≡ none = subst (λ (k : Bytes). m k ≡ none) here absent in
              cc (present, none_here)
        ]
    | inr differs ↦ rw differs (refines other other_length)
  ]

  -- A Delete of a run.
  delete_step :
      (key : Bytes) (now : ℕ) (s : LogDb D) (scheduler : Scheduler) (m : Bytes → Option Bytes)
      → IsLevelDb db
      → AlwaysDeletes db
      → length key ≡ s.segment_store.index_key_length
      → Refines crc32 s m
      → (s' : LogDb D) × (scheduler' : Scheduler) × (delete key now s scheduler
          ≡ (s', scheduler', is_some (m key)))
        × (s'.segment_store ≡ s.segment_store)
        × Refines crc32 s' (erase key m)
  unfolding is_some del_index get_index to_index_key delete Stored
  delete_step key now s scheduler m laws deletes same_length refines =
      elim (refines key same_length) [
        | inl (missing, absent) ↦ (
          s,
          scheduler,
          rw (delete, missing, absent) refl,
          refl,
          erase_absent key s m absent refines,
        )
        | inr (index, value, indexed, present, stored) ↦
            let store = remove_async_store index stored.0 now s.segment_store scheduler stored.1 in
            let removed =
              remove_async-Stored crc32 index key value now s.segment_store scheduler stored in
            let result : delete key now s scheduler ≡ (
              record {
                segment_store = (remove_async index now s.segment_store scheduler).0;
                index_db = (del_index key s.index_db).0;
              },
              (remove_async index now s.segment_store scheduler).1,
              (del_index key s.index_db).1,
            ) =
              rw (delete, indexed, removed) refl in
            let flag : (del_index key s.index_db).1 ≡ is_some (m key) =
              deletes key s.index_db ∙ sym (ap is_some present) in
            (
              record s { index_db = (del_index key s.index_db).0 },
              (remove_async index now s.segment_store scheduler).1,
              result ∙ (λ i. (
                record { segment_store = store i; index_db = (del_index key s.index_db).0 },
                (remove_async index now s.segment_store scheduler).1,
                flag i,
              )),
              refl,
              erased crc32 key s m laws refines (deletes key s.index_db),
            )
      ]

  -- Over a LevelDB that keeps its laws and takes every write and delete, with a checksum of 32
  -- bits, from a storage that is a map, whose current segment holds records, whose keys have
  -- at least seven bytes, whose maximal segment size is below 2^31 and which has segment ids left: any number
  -- of Puts, Gets and Deletes, in any order, of keys of index_key_length bytes and values that
  -- fit a segment, give the answers of the map, through as many segments as they fill, and leave
  -- the storage that map. No round of AutoDispatch deletes a segment meanwhile.
  pub run_calls-Refines :
      (cs : List Call) (scheduler : Scheduler) (s : LogDb D) (m : Bytes → Option Bytes)
      (es : List Entry)
      → IsLevelDb db
      → AlwaysWrites db
      → AlwaysDeletes db
      → ((b : Bytes) → crc32 b < 2 ^ 32)
      → IsLog s.segment_store es
      → 7 ≤ s.segment_store.index_key_length
      → All (CallFits s.segment_store.index_key_length s.segment_store.segment_max_size) cs
      → s.segment_store.segment_max_size < 2 ^ 31
      → s.segment_store.cur_segment_id + length cs + 1 < 2 ^ 31
      → Refines crc32 s m
      → (s' : LogDb D) × (run_calls cs scheduler s ≡ ok (s', replies_of cs m))
        × Refines crc32 s' (map_after cs m)
  unfolding run_calls replies_of map_after
  run_calls-Refines [] scheduler s m es laws writes deletes bounded log pos fits small room
        refines =
      (s, refl, refines)
  run_calls-Refines (call_put key value ∷ cs) scheduler s m es laws writes deletes bounded log pos
        (fit, fits) small room refines =
      let (s₁, result, (same_key, same_max), (es₁, log₁), id_is, refined) =
        put_step crc32 key value s m es laws writes bounded log (omega (arith, pos)) fit small
          (omega arith) refines in
      let (s', rest, last) =
        run_calls-Refines cs scheduler s₁ (update key value m) es₁ laws writes deletes bounded log₁
          (omega (arith, same_key))
          (subst (λ (k : ℕ). All (CallFits k s₁.segment_store.segment_max_size) cs) (sym same_key)
            (subst (λ (k : ℕ). All (CallFits s.segment_store.index_key_length k) cs) (sym same_max)
              fits))
          (omega (arith, same_max)) (omega (arith, id_is)) refined in
      (s', rw (result, rest) refl, last)
  run_calls-Refines (call_get key ∷ cs) scheduler s m es laws writes deletes bounded log pos
        (fit, fits) small room refines =
      let result = get-Refines crc32 s m key refines fit (omega (arith, fit, pos)) in
      let (s', rest, last) =
        run_calls-Refines cs scheduler s m es laws writes deletes bounded log pos fits small
          (omega arith) refines in
      (s', rw (result, rest) refl, last)
  run_calls-Refines (call_delete key now ∷ cs) scheduler s m es laws writes deletes bounded log pos
        (fit, fits) small room refines =
      let (s₁, scheduler', result, store, refined) =
        delete_step key now s scheduler m laws deletes fit refines in
      let (s', rest, last) =
        run_calls-Refines cs scheduler' s₁ (erase key m) es laws writes deletes bounded
          (subst (λ t. IsLog t es) (sym store) log)
          (subst (λ (t : SegmentStore). 7 ≤ t.index_key_length) (sym store) pos)
          (subst (λ (t : SegmentStore). All (CallFits t.index_key_length t.segment_max_size) cs)
            (sym store) fits)
          (subst (λ (t : SegmentStore). t.segment_max_size < 2 ^ 31) (sym store) small)
          (subst (λ (t : SegmentStore). t.cur_segment_id + length cs + 1 < 2 ^ 31) (sym store)
            (omega arith))
          refined in
      (s', rw (result, rest) refl, last)
