-- ===== src/Database/Index.antt =====
-- LogIndexDB over LevelDB.
use paxosme.Prelude.{Bool, Option, none, some, Bytes}
use paxosme.LevelDb.{LevelDb}

module _ {D : Type 0} ⦃db : LevelDb D⦄ where
  unfoldable pub get_index : Bytes → D → Option Bytes
  get_index key d = db.get key d

  unfoldable pub put_index : Bytes → Bytes → D → D × Bool
  put_index key value d = db.put key value d

  unfoldable pub del_index : Bytes → D → D × Bool
  del_index key d = db.delete key d

  -- GetLastIndex; `none` is the result `false`.
  unfoldable pub get_last_index : D → Option Bytes
  unfolding get_index
  get_last_index d = elim (db.last_key d) [ none ↦ none | some key ↦ get_index key d ]
