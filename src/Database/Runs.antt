-- ===== src/Database/Runs.antt =====
-- Sequences of Put and Get on the log storage answer as a map does.
use mathlib.Core.Path.{subst}
use paxosme.Prelude.{
  ◌≤◌, ℕ, ◌+◌, ◌^◌, ◌≤◌, ◌<◌, ◌≡◌, refl, sym, ap, ◌∙◌, Bool, true, Option, some, List, [], ◌∷◌,
  Bytes, length, Run, ok, ◌>>=◌, All, arith,
}
use paxosme.Segment.Store.{SegmentStore, append}
use paxosme.Segment.Layout.{Entry}
use paxosme.Segment.Contents.{IsLog, SameOptions}
use paxosme.Segment.Appends.{Added, same_segment, next_segment, Added-options, append_adds}
use paxosme.LevelDb.{LevelDb, IsLevelDb}
use paxosme.Database.Index.{put_index}
use paxosme.Database.Defs.{LogDb, to_index_key, put, get}
use paxosme.Database.Refines.{update, Refines, get-Refines, put-Refines}
use paxosme.Database.Recovery.{AlwaysWrites}

pub data Op : Type 0 where
  op_put : (key value : Bytes) → Op
  op_get : (key : Bytes) → Op

pub data Answer : Type 0 where
  done : (result : Bool) → Answer
  found : (value : Option Bytes) → Answer

-- The operations on a map.
unfoldable pub answers_of : List Op → (Bytes → Option Bytes) → List Answer
unfolding update
answers_of [] m = []
answers_of (op_put key value ∷ ops) m = done true ∷ answers_of ops (update key value m)
answers_of (op_get key ∷ ops) m = found (m key) ∷ answers_of ops m

unfoldable pub map_after : List Op → (Bytes → Option Bytes) → Bytes → Option Bytes
unfolding update
map_after [] m = m
map_after (op_put key value ∷ ops) m = map_after ops (update key value m)
map_after (op_get key ∷ ops) m = map_after ops m

-- A key of index_key_length bytes, and a value that fits a segment.
abbrev pub Fits : ℕ → ℕ → Op → Type 0
Fits key_length max (op_put key value) =
    (length key ≡ key_length) × (8 + (key_length + length value) ≤ max)
Fits key_length max (op_get key) = length key ≡ key_length

Added-IsLog :
    {s stored : SegmentStore} {es : List Entry} {e : Entry}
    → Added s es e stored
    → ((es' : List Entry) × IsLog stored es') × (stored.cur_segment_id ≤ s.cur_segment_id + 1)
Added-IsLog (same_segment id_is _ log) = ((_, log), omega (arith, id_is))
Added-IsLog (next_segment id_is _ _ log) = ((_, log), omega (arith, id_is))

module _ {D : Type 0} ⦃db : LevelDb D⦄ (crc32 : Bytes → ℕ) where
  -- The operations on the storage, one after the other.
  unfoldable pub run : List Op → LogDb D → Run (LogDb D × List Answer)
  unfolding put get
  run [] s = ok (s, [])
  run (op_put key value ∷ ops) s =
      put crc32 key value s >>= (λ r. run ops r.0 >>= (λ rest. ok (rest.0, done r.1 ∷ rest.1)))
  run (op_get key ∷ ops) s =
      get crc32 key s >>= (λ v. run ops s >>= (λ rest. ok (rest.0, found v ∷ rest.1)))

  put_written :
      (key value index : Bytes) (s s' : LogDb D) (stored : SegmentStore) (b : Bool)
      → AlwaysWrites db
      → append crc32 key value s.segment_store ≡ ok (stored, some index)
      → put crc32 key value s ≡ ok (s', b)
      → b ≡ true
  unfolding put put_index to_index_key
  put_written key value index s s' stored b writes appended e =
      let result : put crc32 key value s
          ≡ ok (
            record { segment_store = stored; index_db = (put_index key index s.index_db).0 },
            (put_index key index s.index_db).1,
          ) =
        rw (put, appended) refl in
      let same : (put_index key index s.index_db).1 ≡ b = cc (result, e) in
      sym same ∙ writes key index s.index_db

  -- A Put of a run: it returns true, and leaves a storage on which the run can go on.
  pub put_step :
      (key value : Bytes) (s : LogDb D) (m : Bytes → Option Bytes) (es : List Entry)
      → IsLevelDb db
      → AlwaysWrites db
      → ((b : Bytes) → crc32 b < 2 ^ 32)
      → IsLog s.segment_store es
      → 0 < s.segment_store.index_key_length
      → Fits s.segment_store.index_key_length s.segment_store.segment_max_size (op_put key value)
      → s.segment_store.segment_max_size < 2 ^ 31
      → s.segment_store.cur_segment_id + 2 < 2 ^ 31
      → Refines crc32 s m
      → (s' : LogDb D) × (put crc32 key value s ≡ ok (s', true))
        × SameOptions s.segment_store s'.segment_store
        × ((es' : List Entry) × IsLog s'.segment_store es')
        × (s'.segment_store.cur_segment_id ≤ s.segment_store.cur_segment_id + 1)
        × Refines crc32 s' (update key value m)
  put_step key value s m es laws writes bounded log pos (same_length, fits) small id_fits refines =
      let (s', b, result, added, refined) =
        put-Refines crc32 key value s m es laws bounded log pos same_length fits small id_fits
          refines in
      let (stored, index, appended, _) =
        append_adds crc32 key value s.segment_store es log pos (omega (arith, same_length)) fits
          small id_fits in
      let yes : b ≡ true = put_written key value index s s' stored b writes appended result in
      (
        s',
        result ∙ ap (λ (x : Bool). ok (s', x)) yes,
        Added-options added,
        (Added-IsLog added).0,
        (Added-IsLog added).1,
        refined yes,
      )

  -- Over a LevelDB that keeps its laws and takes every write, with a checksum of 32 bits, from a
  -- storage that is a map, whose current segment holds records, whose keys have at least seven bytes, whose maximal
  -- segment size is below 2^31 and which has segment ids left: any number of Puts and Gets, in any
  -- order, of keys of index_key_length bytes and values that fit a segment, give the answers of the
  -- map, through as many segments as they fill, and leave the storage that map.
  pub run-Refines :
      (ops : List Op) (s : LogDb D) (m : Bytes → Option Bytes) (es : List Entry)
      → IsLevelDb db
      → AlwaysWrites db
      → ((b : Bytes) → crc32 b < 2 ^ 32)
      → IsLog s.segment_store es
      → 7 ≤ s.segment_store.index_key_length
      → All (Fits s.segment_store.index_key_length s.segment_store.segment_max_size) ops
      → s.segment_store.segment_max_size < 2 ^ 31
      → s.segment_store.cur_segment_id + length ops + 1 < 2 ^ 31
      → Refines crc32 s m
      → (s' : LogDb D) × (run ops s ≡ ok (s', answers_of ops m))
        × Refines crc32 s' (map_after ops m)
  unfolding run answers_of map_after
  run-Refines [] s m es laws writes bounded log pos fits small room refines = (s, refl, refines)
  run-Refines (op_put key value ∷ ops) s m es laws writes bounded log pos (fit, fits) small room
        refines =
      let (s₁, result, (same_key, same_max), (es₁, log₁), id_is, refined) =
        put_step key value s m es laws writes bounded log (omega (arith, pos)) fit small
          (omega arith) refines in
      let (s', rest, last) =
        run-Refines ops s₁ (update key value m) es₁ laws writes bounded log₁
          (omega (arith, same_key))
          (subst (λ (k : ℕ). All (Fits k s₁.segment_store.segment_max_size) ops) (sym same_key)
            (subst (λ (k : ℕ). All (Fits s.segment_store.index_key_length k) ops) (sym same_max)
              fits))
          (omega (arith, same_max)) (omega (arith, id_is)) refined in
      (s', rw (result, rest) refl, last)
  run-Refines (op_get key ∷ ops) s m es laws writes bounded log pos (fit, fits) small room refines =
      let result = get-Refines crc32 s m key refines fit (omega (arith, fit, pos)) in
      let (s', rest, last) =
        run-Refines ops s m es laws writes bounded log pos fits small (omega arith) refines in
      (s', rw (result, rest) refl, last)
