-- ===== src/Stats.antt =====
-- What a terminal's processes cost: src/common/stats.cpp.
pub mod Rate
pub mod Sample
pub mod Tests
