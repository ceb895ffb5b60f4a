-- ===== src/Schedule.antt =====
-- util/event.hpp, util/event.cpp, util/schedule.hpp and util/schedule.cpp: the event queue and the
-- scheduler. `Defs` holds the operations, `Invariant` what they keep, `Dispatch` what they return;
-- `Heap` has them on the vector of the source, and `Answers` compares the two.
mod Defs
pub mod Invariant
pub mod Dispatch
pub mod Taken
mod Tests
mod HeapTests
pub mod Heap
pub mod Vector
pub mod Untied
pub mod Answers
unfoldable pub use Defs.*
