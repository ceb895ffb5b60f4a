-- ===== src/Controller.antt =====
-- core/include/controller.hpp and core/controller.cpp: PaxController.
pub mod Handlers
pub mod Routing
pub mod Loop
pub mod Quiet
pub mod Due
pub mod Rounds
pub mod Bare
mod Tests
