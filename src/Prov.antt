-- ===== src/Prov.antt =====
-- core/include/proposal_prov.hpp and core/proposal_prov.cpp: the values that clients hand in.
mod Defs
pub mod Clients
mod Tests
unfoldable pub use Defs.*
