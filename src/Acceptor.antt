-- ===== src/Acceptor.antt =====
-- core/include/acceptor_pax.hpp and core/acceptor_pax.cpp: PaxAcceptor. The handlers stand here, what
-- they keep and answer in the children.
pub mod Handlers
pub mod Promise
pub mod Restart
mod Tests
