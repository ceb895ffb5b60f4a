-- ===== src/Learner.antt =====
-- core/include/learner_pax.hpp, core/learner_pax.cpp, core/learner_follow.cpp and
-- core/learner_lead.cpp: PaxLearner. `Sending` is its sending thread.
pub mod Follow
pub mod Lead
pub mod Handlers
pub mod Learning
pub mod Sending
pub mod Waits
pub mod Synced
pub mod Acks
mod Tests
