-- ===== src/Startup.antt =====
-- include/node.hpp and node/node.cpp: how a node is put together from its network, its storage and
-- its state machine. `Defs` holds Node::Run, `Deaf` what the started servers do with what arrives.
mod Defs
pub mod Deaf
mod Tests
unfoldable pub use Defs.*
