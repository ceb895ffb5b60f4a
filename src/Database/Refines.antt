-- ===== src/Database/Refines.antt =====
-- The log storage is a map from keys of index_key_length bytes to values.
use mathlib.Core.Path.{subst}
use paxosme.Prelude.{
  ltb, ℕ, ◌+◌, ◌^◌, ◌≤◌, ◌<◌, ◌≡◌, ◌≢◌, refl, sym, ◌∙◌, ◌⊎◌, inl, inr, Bool, true, false, Option,
  none, some, List, Bytes, bytes_eq, bytes_eq_refl, bytes_eq-eq, Bool-cases, length, take, take_all,
  if◌then◌else◌, Run, ok, arith,
}
use paxosme.Segment.Index.{parse_segment_index}
use paxosme.Segment.Store.{SegmentStore}
use paxosme.Segment.Records.{Stored, Stored-read, append_stores}
use paxosme.Segment.Kept.{append-Stored}
use paxosme.Segment.Layout.{Entry}
use paxosme.Segment.Contents.{IsLog, IsLog-IsReady}
use paxosme.Segment.Appends.{Added, Added-options, append_adds}
use paxosme.LevelDb.{LevelDb, IsLevelDb}
use paxosme.Database.Index.{get_index, put_index}
use paxosme.Database.Defs.{LogDb, to_index_key, put, get}

-- A map from keys to values, with one key changed.
unfoldable pub update : Bytes → Bytes → (Bytes → Option Bytes) → Bytes → Option Bytes
update key value m k = if bytes_eq key k then some value else m k

pub differ : (key other : Bytes) → key ≡ other → ¬ (bytes_eq key other ≡ false)
differ key other e differs =
    let same : bytes_eq key key ≡ false =
      subst (λ (k : Bytes). bytes_eq key k ≡ false) (sym e) differs in
    cc (bytes_eq_refl key, same)

-- Two accounts of one Append are about the same store and index.
same_result :
    (crc32 : Bytes → ℕ) (found : Run (Option (Bytes × Bytes))) {stored stored' : SegmentStore}
    {index index' : Bytes}
    → ◌≡◌ {A = Run (SegmentStore × Option Bytes)}
        (ok (stored', some index'))
        (ok (stored, some index))
    → Stored crc32 (parse_segment_index index') found stored'
    → Stored crc32 (parse_segment_index index) found stored
same_result crc32 found {stored} {stored'} {index} {index'} e h =
    let stores : stored' ≡ stored = cc in
    let indexes : index' ≡ index = cc in
    subst (λ (i : Bytes). Stored crc32 (parse_segment_index i) found stored) indexes
      (subst (Stored crc32 (parse_segment_index index') found) stores h)

module _ {D : Type 0} ⦃db : LevelDb D⦄ (crc32 : Bytes → ℕ) where
  -- The index has an entry for exactly the keys of the map, and the record that it names is in the
  -- segments, with the key and its value.
  abbrev pub Refines : LogDb D → (Bytes → Option Bytes) → Type 0
  Refines s m =
      (key : Bytes)
      → length key ≡ s.segment_store.index_key_length
      → ((get_index key s.index_db ≡ none) × (m key ≡ none))
        ⊎ ((index : Bytes) × (value : Bytes) × (get_index key s.index_db ≡ some index)
            × (m key ≡ some value)
            × Stored crc32 (parse_segment_index index) (ok (some (key, value))) s.segment_store)

  -- On a storage that is a map, with keys of at least seven bytes, Get of a key of index_key_length
  -- bytes answers as the map does.
  pub get-Refines :
      (s : LogDb D) (m : Bytes → Option Bytes) (key : Bytes)
      → Refines s m
      → length key ≡ s.segment_store.index_key_length
      → 7 ≤ length key
      → get crc32 key s ≡ ok (m key)
  unfolding get to_index_key
  get-Refines s m key refines same_length long = elim (refines key same_length) [
    | inl (missing, absent) ↦ rw (get, missing, absent) refl
    | inr (index, value, indexed, present, stored) ↦
        let reads = Stored-read crc32 index (ok (some (key, value))) s.segment_store stored in
        let whole : ltb (length key + 1) 8 ≡ false = ground arith in
        rw (get, indexed, present, whole, reads, bytes_eq_refl key) refl
  ]

  -- Writing the index of a record into the index, where the segments have grown by this record at
  -- most.
  pub put_index-Refines :
      (key value index : Bytes) (s : LogDb D) (stored : SegmentStore) (m : Bytes → Option Bytes)
      → IsLevelDb db
      → stored.index_key_length ≡ s.segment_store.index_key_length
      → ((i k v : Bytes)
          → Stored crc32 (parse_segment_index i) (ok (some (k, v))) s.segment_store
          → Stored crc32 (parse_segment_index i) (ok (some (k, v))) stored)
      → Refines s m
      → Stored crc32 (parse_segment_index index) (ok (some (key, value))) stored
      → (put_index key index s.index_db).1 ≡ true
      → Refines
          (record { segment_store = stored; index_db = (put_index key index s.index_db).0 })
          (update key value m)
  unfolding put_index get_index update
  put_index-Refines key value index s stored m laws lengths carry refines new_one written other
        other_length =
      elim (Bool-cases (bytes_eq key other)) [
        | inl same ↦
            let here : key ≡ other = bytes_eq-eq key other same in
            rw (← here) (
              inr (
                index,
                value,
                laws.get-put key index s.index_db written,
                rw (bytes_eq_refl key) refl,
                new_one,
              ))
        | inr differs ↦
            let away : key ≢ other = λ e. differ key other e differs in
            let kept = laws.get-put_ne key other index s.index_db away in
            rw differs (elim (refines other (other_length ∙ lengths)) [
              | inl (missing, absent) ↦ inl (kept ∙ missing, absent)
              | inr (index_o, value_o, indexed, present, at) ↦
                  inr (index_o, value_o, kept ∙ indexed, present, carry index_o other value_o at)
            ])
      ]

  -- Over a LevelDB that keeps its laws, with a checksum of 32 bits, on a storage that is a map,
  -- whose current segment holds the records `es`, whose keys are not empty, whose maximal
  -- segment size is below 2^31 and whose segment ids are not used up: a Put of a key of
  -- index_key_length bytes with a value that fits a segment returns; it adds the record to the
  -- segments, and where it returns true the storage is the map with this key set to the value.
  pub put-Refines :
      (key value : Bytes) (s : LogDb D) (m : Bytes → Option Bytes) (es : List Entry)
      → IsLevelDb db
      → ((b : Bytes) → crc32 b < 2 ^ 32)
      → IsLog s.segment_store es
      → 0 < s.segment_store.index_key_length
      → length key ≡ s.segment_store.index_key_length
      → 8 + (s.segment_store.index_key_length + length value) ≤ s.segment_store.segment_max_size
      → s.segment_store.segment_max_size < 2 ^ 31
      → s.segment_store.cur_segment_id + 2 < 2 ^ 31
      → Refines s m
      → (s' : LogDb D) × (done : Bool) × (put crc32 key value s ≡ ok (s', done))
        × Added s.segment_store es (key, value) s'.segment_store
        × (done ≡ true → Refines s' (update key value m))
  unfolding put to_index_key
  put-Refines key value s m es laws bounded log pos same_length fits small id_fits refines =
      let store = s.segment_store in
      let whole : take store.index_key_length key ≡ key =
        take_all store.index_key_length key (sym same_length) in
      let (stored, index, appended, added) =
        append_adds crc32 key value store es log pos (omega (arith, same_length)) fits small
          id_fits in
      let (stored', index', appended', found) =
        append_stores crc32 key value store bounded
          (IsLog-IsReady store es log (omega (arith, fits)) (omega (arith, small)))
          (omega (arith, same_length)) fits (omega (arith, small)) in
      let new_one : Stored crc32 (parse_segment_index index) (ok (some (key, value))) stored =
        same_result crc32 (ok (some (key, value))) (sym appended' ∙ appended) (
          subst
            (λ (k : Bytes).
              Stored crc32 (parse_segment_index index') (ok (some (k, value))) stored')
            whole found) in
      let s' : LogDb D = record {
        segment_store = stored;
        index_db = (put_index key index s.index_db).0;
      } in
      let refines' : (put_index key index s.index_db).1 ≡ true → Refines s' (update key value m) =
        put_index-Refines key value index s stored m laws (Added-options added).0
          (λ i k v at.
            append-Stored crc32 key value store stored (some index) (parse_segment_index i)
              (ok (some (k, v)))
              (IsLog-IsReady store es log (omega (arith, fits)) (omega (arith, small))) appended at)
          refines new_one in
      (
        s',
        (put_index key index s.index_db).1,
        rw (put, appended) refl,
        subst (λ (k : Bytes). Added store es (k, value) stored) whole added,
        refines',
      )
