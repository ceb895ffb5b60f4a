-- ===== src/Proposer.antt =====
-- core/include/proposer_pax.hpp and core/proposer_pax.cpp: PaxProposer. The data stand in `Status`, the
-- operations in `Handlers`, sequences of calls in `Calls`; the other children are about them.
pub mod Status
pub mod Handlers
pub mod Calls
pub mod Rounds
pub mod Stall
mod Tests
