-- ===== src/Delta.antt =====
-- The algebra of grids and their changes: src/common/grid_delta.hpp and src/common/grid_delta.cpp.
pub mod State
pub mod Shift
pub mod Rows
pub mod Hash
pub mod Repaint
pub mod Search
pub mod Diff
pub mod Apply
pub mod Encode
pub mod Compare
mod Tests
