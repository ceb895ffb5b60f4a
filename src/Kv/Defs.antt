-- ===== src/Kv/Defs.antt =====
-- KV and KVStatemachine. The messages of kv.proto and their encodings are generated code: a codec.
use paxosme.Prelude.{
  ℕ, ◌+◌, ◌%◌, ◌<◌, ◌≡◌, Bool, true, false, Option, none, some, [], ◌∷◌, Bytes, ◌==◌, if◌then◌else◌,
  Run, ok, fault, null_pointer, uninitialised, ◌>>=◌,
}
use paxosme.Message.{u64_mod}
use paxosme.LevelDb.{LevelDb}

-- ValuePB and PaxosKVPB; proto3 keeps a method that it does not know.
pub record ValuePb : Type 0 where
  pub value : Bytes
  pub ver : ℕ

pub data KvMethod : Type 0 where
  method_get method_put method_other : KvMethod

pub record PaxosKvPb : Type 0 where
  pub key : Bytes
  pub value : Bytes
  pub ver : ℕ
  pub method : KvMethod

-- SerializeToString and ParseFromArray; `parse_command` gives the message as a parse leaves it,
-- whether or not it succeeds.
pub record KvCodec : Type 0 where
  pub serialize : ValuePb → Option Bytes
  pub parse : Bytes → Option ValuePb
  pub parse-serialize :
      (v : ValuePb) (b : Bytes) → v.ver < u64_mod → serialize v ≡ some b → parse b ≡ some v
  pub parse_command : Bytes → PaxosKvPb

-- A KV: its path, and its database once a pointer has been stored.
pub record Kv (D : Type 0) : Type 0 where
  pub dbpath : Bytes
  pub leveldb : Option D

unfoldable pub is_empty : Bytes → Bool
is_empty [] = true
is_empty (_ ∷ _) = false

abbrev pub new_kv : {D : Type 0} → Kv D
new_kv = record { dbpath = []; leveldb = none }

module _ {D : Type 0} where
  -- KV::Init; `open` is DB::Open at the path, with its status.
  unfoldable pub init : (open_db : Bytes → D × Bool) → Bytes → Kv D → Kv D × Bool
  unfolding is_empty
  init open_db path kv =
      if is_empty kv.dbpath
      then (kv, true)
      else (record { dbpath = path; leveldb = some (open_db path).0 }, (open_db path).1)

module _ {D : Type 0} ⦃db : LevelDb D⦄ ⦃codec : KvCodec⦄ where
  -- KV::Get: the version, or `none` for the result `false`. The caller's value is never written.
  unfoldable pub get : Bytes → Kv D → Run (Option ℕ)
  unfolding is_empty
  get key kv = if is_empty kv.dbpath then ok none else elim kv.leveldb [
    | none ↦ fault null_pointer
    | some d ↦ elim (db.get key d) [
      | none ↦ ok none
      | some buffer ↦ elim (codec.parse buffer) [ none ↦ ok none | some v ↦ ok (some v.ver) ]
    ]
  ]

  -- The part of KV::Put after the version has been compared.
  unfoldable pub write : Bytes → Bytes → ℕ → Kv D → Run (Kv D × Bool)
  write key value ver kv =
      elim (codec.serialize (record { value = value; ver = (ver + 1) % u64_mod })) [
        | none ↦ ok (kv, false)
        | some serialized ↦ elim kv.leveldb [
          | none ↦ fault null_pointer
          | some d ↦ ok (
            record kv { leveldb = some (db.put key serialized d).0 },
            (db.put key serialized d).1,
          )
        ]
      ]

  -- KV::Put. Where Get fails the version that it compares has never been written.
  unfoldable pub put : Bytes → Bytes → ℕ → Kv D → Run (Kv D × Bool)
  unfolding is_empty
  put key value ver kv =
      if is_empty kv.dbpath
      then ok (kv, false)
      else (get key kv >>= (λ ver_db. elim ver_db [
        | none ↦ fault uninitialised
        | some v ↦ if v == ver then write key value ver kv else ok (kv, false)
      ]))

  -- KVStatemachine::Execute; `none` is the null pointer that `kv_` starts as.
  unfoldable pub execute : Bytes → Option (Kv D) → Run (Option (Kv D) × Bool)
  unfolding get write put
  execute paxos_value none = elim (codec.parse_command paxos_value).method [
    | method_other ↦ ok (none, false)
    | _ ↦ fault null_pointer
  ]
  execute paxos_value (some kv) =
      let command = codec.parse_command paxos_value in
      elim command.method [
        | method_get ↦
            get command.key kv
            >>= (λ found. elim found [ none ↦ ok (some kv, false) | some _ ↦ ok (some kv, true) ])
        | method_put ↦
            put command.key command.value command.ver kv >>= (λ done. ok (some done.0, done.1))
        | method_other ↦ ok (some kv, false)
      ]

-- KVStatemachine::GetSMInstanceId
unfoldable pub get_sm_instance_id : ℕ
get_sm_instance_id = 0
