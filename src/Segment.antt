-- ===== src/Segment.antt =====
-- storage/include/segment_store.hpp and storage/segment_store.cpp: LogSegmentStore, the log's
-- records in segment files.
pub mod Index
pub mod Files
pub mod Store
pub mod Ready
pub mod Records
pub mod Agree
pub mod Kept
pub mod Replay
pub mod Layout
pub mod Ends
pub mod Contents
pub mod Appends
pub mod Restart
pub mod Finds
pub mod Removal
pub mod Clean
pub mod Replaced
pub mod LogTests
pub mod Tests
