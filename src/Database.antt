-- ===== src/Database.antt =====
-- storage/log_stroage.cpp and storage/index_db.cpp: DataBaseLogStorage, the log storage made of an
-- index in LevelDB and the segment store.
pub mod Index
pub mod Defs
pub mod Refines
pub mod Align
pub mod Recovery
pub mod Runs
pub mod Calls
pub mod Mixed
pub mod Keys
pub mod Tests
