-- ===== src/Store/Log.antt =====
-- PaxStore: WriteLog and ReadLog over a LogStorage.
use paxosme.Prelude.{refl, ℕ, ◌<◌, ◌≡◌, ◌≢◌, sym, Bool, true, none, some, Bytes}
use paxosme.Message.{u64_mod}
use paxosme.Store.Entry.{LogStorage, PaxosLogEntry, default_entry, IsEntry, EntryCodec}
use paxosme.Store.Decimal.{to_string, to_string-injective}

module _ {S : Type 0} ⦃db : LogStorage S⦄ ⦃codec : EntryCodec⦄ where
  -- WriteLog
  unfoldable pub write_log : PaxosLogEntry → S → S × Bool
  write_log e s = db.put (to_string e.instance_id) (codec.serialize e) s

  -- ReadLog into a PaxosLogEntry that has just been constructed
  unfoldable pub read_log : ℕ → S → PaxosLogEntry
  read_log instance_id s = elim (db.get (to_string instance_id) s) [
    | none ↦ default_entry
    | some bytes ↦ codec.parse bytes
  ]

-- What the players take for granted of a storage: a successful Put is read back, and no Put changes
-- another key.
pub record ReadsBack {S : Type 0} (db : LogStorage S) : Type 0 where
  pub get-put : (k v : Bytes) (s : S) → (db.put k v s).1 ≡ true → db.get k (db.put k v s).0 ≡ some v
  pub get-put_ne : (k j v : Bytes) (s : S) → k ≢ j → db.get j (db.put k v s).0 ≡ db.get j s

-- Over a storage that reads back what was put, an entry that WriteLog has written is what ReadLog
-- returns for its instance, and ReadLog returns the same as before for every other instance.
pub read_log-write_log :
    {S : Type 0} ⦃db : LogStorage S⦄ ⦃codec : EntryCodec⦄ (e : PaxosLogEntry) (s : S)
    → ReadsBack db
    → IsEntry e
    → (write_log e s).1 ≡ true
    → (read_log e.instance_id (write_log e s).0 ≡ e)
      × ((i : ℕ) → i < u64_mod → i ≢ e.instance_id → read_log i (write_log e s).0 ≡ read_log i s)
unfolding write_log read_log
read_log-write_log ⦃db⦄ ⦃codec⦄ e s laws fits written = (
  rw (laws.get-put _ _ s written, read_log) (codec.parse-serialize e fits),
  λ i small ne. rw (
    laws.get-put_ne _ (to_string i) _ s
        (λ same. ne (sym (to_string-injective _ i fits.instance_fits small same))),
    read_log,
  ),
)

-- No Put changes what is stored under another key.
abbrev pub KeepsOthers : {S : Type 0} → LogStorage S → Type 0
KeepsOthers {S} db = (k j v : Bytes) (s : S) → k ≢ j → db.get j (db.put k v s).0 ≡ db.get j s

-- ReadLog of another instance than the one that WriteLog has written.
pub read_log-write_other :
    {S : Type 0} ⦃db : LogStorage S⦄ ⦃codec : EntryCodec⦄ (e : PaxosLogEntry) (i : ℕ) (s : S)
    → KeepsOthers db
    → e.instance_id < u64_mod
    → i < u64_mod
    → e.instance_id ≢ i
    → read_log i (write_log e s).0 ≡ read_log i s
unfolding read_log write_log
read_log-write_other ⦃db⦄ ⦃codec⦄ e i s keeps small below ne =
    let same =
      keeps (to_string e.instance_id) (to_string i) (codec.serialize e) s
        (λ equal. ne (to_string-injective e.instance_id i small below equal)) in
    rw (read_log, same) refl
