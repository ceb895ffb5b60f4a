-- ===== src/Database/Tests.antt =====
-- A database in memory, at which LevelDB's laws hold, and a log storage with one record.
use paxosme.Prelude.{
  ◌==◌, replicate, ◌≡◌, ◌≢◌, refl, sym, ◌∙◌, inl, inr, Bool, true, false, List, [], ◌∷◌, Option,
  none, some, Bytes, bytes_eq, bytes_eq_refl, bytes_eq-eq, if◌then◌else◌, Bool-cases, ok, arith,
}
use mathlib.Core.Path.{subst}
use paxosme.Schedule.{new_scheduler}
use paxosme.Segment.Index.{parse_segment_index, le_value}
use paxosme.Segment.Files.{read_at}
use paxosme.Segment.Store.{SegmentStore, read_record}
use paxosme.Segment.Records.{Stored}
use paxosme.Segment.Layout.{encode}
use paxosme.Segment.Contents.{IsLog}
use paxosme.Segment.Appends.{Added}
use paxosme.Segment.Tests.{sample_crc32, sample_crc32_bounded, grown_file, grown_store, old_index}
use paxosme.Segment.LogTests.{one_entry, two_store, grown_store-IsLog}
use paxosme.LevelDb.{LevelDb, IsLevelDb}
use paxosme.Database.Index.{get_index}
use paxosme.Database.Defs.{LogDb, put, delete}
use paxosme.Database.Refines.{update, Refines, put-Refines}
use paxosme.Database.Calls.{Call, call_put, call_get, call_delete, replies_of, map_after}
use paxosme.Database.Mixed.{run_calls, run_calls-Refines}
use paxosme.Database.Keys.{delete-Refines, erase}

abbrev pub lookup_key : Bytes → List (Bytes × Bytes) → Option Bytes
lookup_key k [] = none
lookup_key k ((j, v) ∷ d) = if bytes_eq j k then some v else lookup_key k d

abbrev pub without : Bytes → List (Bytes × Bytes) → List (Bytes × Bytes)
without k [] = []
without k ((j, v) ∷ d) = if bytes_eq j k then without k d else (j, v) ∷ without k d

abbrev pub first_key : List (Bytes × Bytes) → Option Bytes
first_key [] = none
first_key ((j, _) ∷ d) = some j

instance abbrev pub memory_db : LevelDb (List (Bytes × Bytes))
memory_db = record {
  get = lookup_key;
  put = λ k v d. ((k, v) ∷ d, true);
  delete = λ k d. (without k d, true);
  last_key = first_key;
}

lookup-without : (k : Bytes) (d : List (Bytes × Bytes)) → lookup_key k (without k d) ≡ none
lookup-without k [] = refl
lookup-without k ((j, v) ∷ d) = elim (Bool-cases (bytes_eq j k)) [
  | inl same ↦ rw same (lookup-without k d)
  | inr other ↦ rw (other, other) (lookup-without k d)
]

lookup-without_ne :
    (k i : Bytes) (d : List (Bytes × Bytes)) → k ≢ i → lookup_key i (without k d) ≡ lookup_key i d
lookup-without_ne k i [] ne = refl
lookup-without_ne k i ((j, v) ∷ d) ne = elim (Bool-cases (bytes_eq j k)) [
  | inl same ↦
      let away : bytes_eq j i ≡ false = elim (Bool-cases (bytes_eq j i)) [
        | inl e ↦ absurd (ne (sym (bytes_eq-eq j k same) ∙ bytes_eq-eq j i e))
        | inr e ↦ e
      ] in
      rw (same, away) (lookup-without_ne k i d ne)
  | inr other ↦ rw (other, lookup-without_ne k i d ne) refl
]

pub memory_db-IsLevelDb : IsLevelDb memory_db
memory_db-IsLevelDb = record {
  get-put = λ k v d h. rw (bytes_eq_refl k) refl;
  get-put_ne = λ k j v d ne. elim (Bool-cases (bytes_eq k j)) [
    | inl same ↦ absurd (ne (bytes_eq-eq k j same))
    | inr other ↦ rw other refl
  ];
  get-delete = λ k d h. lookup-without k d;
  get-delete_ne = λ k j d ne. lookup-without_ne k j d ne;
}

abbrev one_key : Bytes
one_key = 49 ∷ 50 ∷ []

abbrev sample_db : LogDb (List (Bytes × Bytes))
sample_db = record { segment_store = grown_store; index_db = (one_key, old_index) ∷ [] }

abbrev sample_map : Bytes → Option Bytes
sample_map = update one_key (7 ∷ []) (λ _. none)

one_key-Stored :
    Stored sample_crc32 (parse_segment_index old_index) (ok (some (one_key, 7 ∷ []))) grown_store
unfolding Stored parse_segment_index le_value read_at read_record
one_key-Stored = (grown_file, refl, omega arith, (λ _. omega arith), refl)

sample_db-Refines : Refines sample_crc32 sample_db sample_map
unfolding get_index update
sample_db-Refines key same_length = elim (Bool-cases (bytes_eq one_key key)) [
  | inl same ↦ inr (
    old_index,
    7 ∷ [],
    rw same refl,
    rw same refl,
    subst
        (λ (k : Bytes).
          Stored sample_crc32 (parse_segment_index old_index) (ok (some (k, 7 ∷ []))) grown_store)
        (bytes_eq-eq one_key key same) one_key-Stored,
  )
  | inr other ↦ inl (rw other refl, rw other refl)
]

put-Refines_example :
    (s' : LogDb (List (Bytes × Bytes))) × (done : Bool) × (put sample_crc32
        (51 ∷ 52 ∷ [])
        (8 ∷ [])
        sample_db
      ≡ ok (s', done))
    × Added grown_store (one_entry ∷ []) (51 ∷ 52 ∷ [], 8 ∷ []) s'.segment_store
    × (done ≡ true → Refines sample_crc32 s' (update (51 ∷ 52 ∷ []) (8 ∷ []) sample_map))
put-Refines_example =
    put-Refines sample_crc32 (51 ∷ 52 ∷ []) (8 ∷ []) sample_db sample_map (one_entry ∷ [])
      memory_db-IsLevelDb sample_crc32_bounded grown_store-IsLog (omega arith) refl (omega arith)
      (omega arith) (omega arith) sample_db-Refines

delete-Refines_example :
    (sample_map one_key ≡ none
      → delete one_key 5 sample_db new_scheduler ≡ (sample_db, new_scheduler, false))
    × ((delete one_key 5 sample_db new_scheduler).0.segment_store ≡ grown_store)
    × ((delete one_key 5 sample_db new_scheduler).2 ≡ true
        → Refines sample_crc32
            (delete one_key 5 sample_db new_scheduler).0
            (erase one_key sample_map))
delete-Refines_example =
    delete-Refines sample_crc32 one_key 5 sample_db new_scheduler sample_map memory_db-IsLevelDb
      refl sample_db-Refines

-- The two records of a store, of which the index knows the first.
abbrev first_index : Bytes
first_index = 0 ∷ 0 ∷ 0 ∷ 0 ∷ 0 ∷ 0 ∷ 0 ∷ 0 ∷ 0 ∷ 0 ∷ 0 ∷ 0 ∷ 3 ∷ 0 ∷ 0 ∷ 0 ∷ 0 ∷ 0 ∷ 0 ∷ 0 ∷ []

abbrev crashed_db : LogDb (List (Bytes × Bytes))
crashed_db = record { segment_store = two_store; index_db = (one_key, first_index) ∷ [] }

-- A storage with keys of seven bytes, and nothing in it.
abbrev empty_store : SegmentStore
empty_store = record grown_store {
  index_key_length = 7;
  cur_segment_offset = 0;
  files = λ i. if i == 3 then some (replicate 32 0) else none;
}

empty_store-IsLog : IsLog empty_store []
unfolding encode
empty_store-IsLog = record {
  zeros = 32;
  file_is = refl;
  offset_is = refl;
  size_is = refl;
  entries = tt;
  nonempty = omega arith;
  below_int = omega arith;
  later_free = λ i later. ground arith;
  id_fits = omega arith;
}

abbrev empty_db : LogDb (List (Bytes × Bytes))
empty_db = record { segment_store = empty_store; index_db = [] }

empty_db-Refines : Refines sample_crc32 empty_db (λ _. none)
unfolding get_index
empty_db-Refines key same_length = inl (refl, refl)

abbrev long_key : Bytes
long_key = 49 ∷ 50 ∷ 51 ∷ 52 ∷ 53 ∷ 54 ∷ 55 ∷ []

-- A key is put and read, deleted twice and looked for.
abbrev sample_calls : List Call
sample_calls =
    call_put long_key (8 ∷ [])
    ∷ call_get long_key
    ∷ call_delete long_key 100
    ∷ call_delete long_key 200
    ∷ call_get long_key
    ∷ []

run_calls-Refines_example :
    (s' : LogDb (List (Bytes × Bytes))) × (run_calls sample_crc32 sample_calls new_scheduler
        empty_db
      ≡ ok (s', replies_of sample_calls (λ _. none)))
    × Refines sample_crc32 s' (map_after sample_calls (λ _. none))
run_calls-Refines_example =
    run_calls-Refines sample_crc32 sample_calls new_scheduler empty_db (λ _. none) []
      memory_db-IsLevelDb (λ k v d. refl) (λ k d. refl) sample_crc32_bounded empty_store-IsLog
      (omega arith) ((refl, omega arith), (refl, (refl, (refl, (refl, tt))))) (omega arith)
      (omega arith) empty_db-Refines
