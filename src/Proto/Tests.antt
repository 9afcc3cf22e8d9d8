-- ===== src/Proto/Tests.antt =====
-- The theorems on src/common/proto.cpp at concrete messages.
pub mod Plain
pub mod Comparing
pub mod Samples
pub mod Snapshot
pub mod Witnesses
