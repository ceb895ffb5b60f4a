-- ===== src/Store.antt =====
-- include/logstorage.hpp, core/proto/state.proto, core/include/storage_pax.hpp and
-- core/storage_pax.cpp: the log as the players see it. `Entry` holds the types and the interfaces,
-- `Decimal` the keys, `Log` WriteLog and ReadLog.
mod Entry
mod Decimal
mod Log
pub mod Tests
unfoldable pub use Entry.*
unfoldable pub use Decimal.*
unfoldable pub use Log.*
