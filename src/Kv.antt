-- ===== src/Kv.antt =====
-- kvsm/kv.cpp and kvsm/kvsm.cpp: the key-value store with versions and its state machine.
pub mod Defs
pub mod Versions
pub mod Closed
mod Tests
