-- ===== src/LevelDb.antt =====
-- LevelDB, as index_db.cpp and kv.cpp use it: an interface.
use paxosme.Prelude.{◌≡◌, ◌≢◌, Bool, true, Option, none, some, Bytes}

-- A database with a state `D`; `none` is a status that is not ok. `last_key` is the key at an iterator
-- after SeekToLast, `none` where it is not valid.
pub record LevelDb (D : Type 0) : Type 0 where
  pub get : Bytes → D → Option Bytes
  pub put : Bytes → Bytes → D → D × Bool
  pub delete : Bytes → D → D × Bool
  pub last_key : D → Option Bytes

-- What LevelDB documents: a write that is ok is read back, and no write or delete touches another
-- key.
pub record IsLevelDb {D : Type 0} (db : LevelDb D) : Type 0 where
  pub get-put : (k v : Bytes) (d : D) → (db.put k v d).1 ≡ true → db.get k (db.put k v d).0 ≡ some v
  pub get-put_ne : (k j v : Bytes) (d : D) → k ≢ j → db.get j (db.put k v d).0 ≡ db.get j d
  pub get-delete :
      (k : Bytes) (d : D) → (db.delete k d).1 ≡ true → db.get k (db.delete k d).0 ≡ none
  pub get-delete_ne : (k j : Bytes) (d : D) → k ≢ j → db.get j (db.delete k d).0 ≡ db.get j d
