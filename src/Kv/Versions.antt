-- ===== src/Kv/Versions.antt =====
-- Put on an opened KV compares the version and swaps.
use paxosme.Prelude.{
  ℕ, ◌+◌, ◌%◌, ◌<◌, ◌≡◌, ◌≢◌, refl, ◌∙◌, Bool, true, false, Option, none, some, Bytes, ◌==◌,
  if◌then◌else◌, ok, arith,
}
use paxosme.Message.{u64_mod}
use paxosme.LevelDb.{LevelDb, IsLevelDb}
use paxosme.Kv.Defs.{Kv, KvCodec, ValuePb, is_empty, get, write, put}

module _ {D : Type 0} ⦃db : LevelDb D⦄ ⦃codec : KvCodec⦄ where
  -- A KV that has been opened with the database `d`.
  abbrev pub IsOpen : Kv D → D → Type 0
  IsOpen kv d = (is_empty kv.dbpath ≡ false) × (kv.leveldb ≡ some d)

  get_stored :
      (key buffer : Bytes) (kv : Kv D) (d : D) (v : ValuePb)
      → IsOpen kv d
      → db.get key d ≡ some buffer
      → codec.parse buffer ≡ some v
      → get key kv ≡ ok (some v.ver)
  unfolding get
  get_stored key buffer kv d v (opened, at) found parsed = rw (get, opened, at, found, parsed) refl

  get_same :
      (key : Bytes) (kv kv' : Kv D) (d d' : D)
      → IsOpen kv d
      → IsOpen kv' d'
      → db.get key d' ≡ db.get key d
      → get key kv' ≡ get key kv
  unfolding get
  get_same key kv kv' d d' (opened, at) (opened', at') same =
      rw (get, opened, at, opened', at', same) refl

  put_checks :
      (key value : Bytes) (ver v : ℕ) (kv : Kv D)
      → is_empty kv.dbpath ≡ false
      → get key kv ≡ ok (some v)
      → put key value ver kv ≡ (if v == ver then write key value ver kv else ok (kv, false))
  unfolding put
  put_checks key value ver v kv opened found = rw (put, opened, found) refl

  -- What a successful Put leaves: the version is one higher, a second Put with the same version is
  -- refused, and every other key has the version that it had.
  pub record Swapped (key : Bytes) (ver : ℕ) (kv kv' : Kv D) : Type 0 where
    pub next_version : get key kv' ≡ ok (some ((ver + 1) % u64_mod))
    pub again_refused : (value : Bytes) → put key value ver kv' ≡ ok (kv', false)
    pub others : (other : Bytes) → key ≢ other → get other kv' ≡ get other kv

  write_swaps :
      (key value serialized : Bytes) (ver : ℕ) (kv : Kv D) (d : D)
      → IsLevelDb db
      → IsOpen kv d
      → ver < u64_mod
      → codec.serialize (record { value = value; ver = (ver + 1) % u64_mod }) ≡ some serialized
      → (db.put key serialized d).1 ≡ true
      → Swapped key ver kv (record kv { leveldb = some (db.put key serialized d).0 })
  write_swaps key value serialized ver kv d laws (opened, at) small encoded written =
      let d' = (db.put key serialized d).0 in
      let kv' : Kv D = record kv { leveldb = some d' } in
      let next : ValuePb = record { value = value; ver = (ver + 1) % u64_mod } in
      let found : get key kv' ≡ ok (some ((ver + 1) % u64_mod)) =
        get_stored key serialized kv' d' next (opened, refl) (laws.get-put key serialized d written)
          (codec.parse-serialize next serialized (omega arith) encoded) in
      let moved : ((ver + 1) % u64_mod == ver) ≡ false = ground arith in
      record {
        next_version = found;
        again_refused =
            λ v. put_checks key v ver ((ver + 1) % u64_mod) kv' opened found ∙ rw moved refl;
        others = λ other ne.
            get_same other kv kv' d d' (opened, at) (opened, refl)
              (laws.get-put_ne key other serialized d ne);
      }

  write_cases :
      (key value : Bytes) (ver : ℕ) (kv : Kv D) (d : D) (serialized : Option Bytes)
      → IsLevelDb db
      → IsOpen kv d
      → ver < u64_mod
      → codec.serialize (record { value = value; ver = (ver + 1) % u64_mod }) ≡ serialized
      → (kv' : Kv D) × (done : Bool) × (write key value ver kv ≡ ok (kv', done))
        × (done ≡ true → Swapped key ver kv kv')
  unfolding write
  write_cases key value ver kv d none laws open_kv small encoded =
      (kv, false, rw (write, encoded) refl, λ e. cc)
  write_cases key value ver kv d (some serialized) laws open_kv small encoded = (
    record kv { leveldb = some (db.put key serialized d).0 },
    (db.put key serialized d).1,
    rw (write, encoded, open_kv.1) refl,
    λ written. write_swaps key value serialized ver kv d laws open_kv small encoded written,
  )

  -- Over a LevelDB that keeps its laws, Put on an opened KV whose key has a version, which fits
  -- 64 bits: with any other version it is refused and changes nothing; with this version it
  -- returns, and where it returns true the version is one higher, a second Put with the old
  -- version is refused, and the other keys are as before.
  pub put_compares_and_swaps :
      (key value : Bytes) (ver v : ℕ) (kv : Kv D) (d : D)
      → IsLevelDb db
      → IsOpen kv d
      → v < u64_mod
      → get key kv ≡ ok (some v)
      → (v ≢ ver → put key value ver kv ≡ ok (kv, false))
        × (v ≡ ver
            → (kv' : Kv D) × (done : Bool) × (put key value ver kv ≡ ok (kv', done))
              × (done ≡ true → Swapped key ver kv kv'))
  put_compares_and_swaps key value ver v kv d laws open_kv small found =
      let checks = put_checks key value ver v kv open_kv.0 found in
      (
        (λ ne. let other : (v == ver) ≡ false = ground arith in checks ∙ rw other refl),
        (λ e.
            let same : (v == ver) ≡ true = ground arith in
            let (kv', done, wrote, swapped) =
              write_cases key value ver kv d _ laws open_kv (omega (arith, e)) refl in
            (kv', done, checks ∙ rw same wrote, swapped)),
      )
