-- ===== src/State.antt =====
-- The state that each player keeps, and the operations of the classes that hold it.
pub mod Acceptor
pub mod Counter
pub mod Proposer
pub mod Learner
pub mod Ballots
mod Tests
