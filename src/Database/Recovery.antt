-- ===== src/Database/Recovery.antt =====
-- Restarting after a process that ended between Append and PutIndex.
use paxosme.Prelude.{◌≡◌, true, Option, List, [], ◌∷◌, Bytes}
use paxosme.Segment.Layout.{Entry}
use paxosme.LevelDb.{LevelDb}
use paxosme.Database.Refines.{update, Refines}

-- A map with the keys of records set to their values, the later record last.
unfoldable pub update_all : List Entry → (Bytes → Option Bytes) → Bytes → Option Bytes
unfolding update
update_all [] m = m
update_all (e ∷ es) m = update_all es (update e.0 e.1 m)

-- Every write of the index succeeds.
abbrev pub AlwaysWrites : {D : Type 0} → LevelDb D → Type 0
AlwaysWrites {D} db = (k v : Bytes) (d : D) → (db.put k v d).1 ≡ true
